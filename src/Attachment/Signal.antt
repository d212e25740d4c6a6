-- ===== src/Attachment/Signal.antt =====
-- pkg/session/attachment.go: ReadySignal's channel is closed just while the attachment is attached.
use iran_germany_split_tunne.Common.{
  ℕ, ◌+◌, ◌<◌, ◌≡◌, refl, Bool, true, false, ◌&&◌, inl, inr, List, [], ◌∷◌, ◌==◌, if◌then◌else◌,
  All, List-cases, Option-cases, Bool-cases, arith,
}
use iran_germany_split_tunne.Attachment.{
  is_attached, is_waiting, World, Op, attach_op, detach_op, begin_op, fail_op, close_op,
  set_last_op, expire_op, callback_op, attach, detach, begin_rebind, fail_rebind, close,
  set_last_rebind_gen, expire, callback, step, steps, new_attachment, stop_timer,
  start_timer_locked, close_ready,
}

unfoldable pub has : ℕ → List ℕ → Bool
has c [] = false
has c (d ∷ ds) = if d == c then true else has c ds

-- No channel of the list has this number or a later one.
abbrev pub Below : ℕ → List ℕ → Type 0
Below n ds = All (λ d. d < n) ds

absent : (n : ℕ) (ds : List ℕ) → Below n ds → has n ds ≡ false
unfolding has
absent n [] b = refl
absent n (d ∷ ds) (less, b) = ground (arith, absent n ds b)

Below-suc : (n : ℕ) (ds : List ℕ) → Below n ds → Below (n + 1) ds
Below-suc n [] b = tt
Below-suc n (d ∷ ds) (less, b) = (omega arith, Below-suc n ds b)

-- Is the channel that ReadySignal returns closed?
pub signalled : World → Bool
unfolding has
signalled w = has w.att.ready w.woken

-- The channel is closed just if the attachment is attached, the flag says the same, only an attached
-- one has a generation, and the channels are numbered in order.
pub IsSound : World → Type 0
IsSound w =
    (signalled w ≡ is_attached w.att.state)
    × (w.att.ready_closed ≡ is_attached w.att.state)
    × (is_attached w.att.state ≡ false → w.att.gen ≡ 0)
    × (w.att.ready < w.att.channels)
    × Below w.att.channels w.woken

attach-IsSound : (g : ℕ) (w : World) → IsSound w → IsSound (attach g w).0
unfolding attach stop_timer close_ready signalled has IsSound
attach-IsSound g w (s, f, u, m, n) = elim (Bool-cases (is_waiting w.att.state)) [
  | inr busy ↦ ground (arith, busy, s, f, u, m, n)
  | inl waits ↦ elim (Option-cases w.att.timer) [
    | inl e ↦ ground (arith, waits, e, s, f, u, m, n)
    | inr (t, e) ↦ ground (arith, waits, e, s, f, u, m, n)
  ]
]

detach-IsSound : (g : ℕ) (w : World) → IsSound w → IsSound (detach g w).0
unfolding detach start_timer_locked signalled IsSound
detach-IsSound g w (s, f, u, m, n) =
    let fresh = absent w.att.channels w.woken n in
    let more = Below-suc w.att.channels w.woken n in
    elim (Bool-cases (is_attached w.att.state && (w.att.gen == g))) [
      | inr other ↦ ground (arith, other, s, f, u, m, n)
      | inl bound ↦ elim (Option-cases w.att.timer) [
        | inl e ↦ ground (arith, bound, e, fresh, more)
        | inr (t, e) ↦ ground (arith, bound, e, fresh, more)
      ]
    ]

close-IsSound : (w : World) → IsSound w → IsSound (close w)
unfolding close stop_timer signalled IsSound
close-IsSound w (s, f, u, m, n) =
    let fresh = absent w.att.channels w.woken n in
    let more = Below-suc w.att.channels w.woken n in
    elim (Option-cases w.att.timer) [
      | inl e ↦ ground (arith, e, fresh, more, s, f, u, m, n)
      | inr (t, e) ↦ ground (arith, e, fresh, more, s, f, u, m, n)
    ]

step-IsSound : (w : World) (o : Op) → IsSound w → IsSound (step w o)
unfolding step detach begin_rebind fail_rebind close set_last_rebind_gen expire callback stop_timer
    start_timer_locked signalled has IsSound
step-IsSound w (attach_op g) s = attach-IsSound g w s
step-IsSound w (detach_op g) s = detach-IsSound g w s
step-IsSound w begin_op (s, f, u, m, n) = ground (arith, s, f, u, m, n)
step-IsSound w fail_op (s, f, u, m, n) = ground (arith, s, f, u, m, n)
step-IsSound w close_op s = close-IsSound w s
step-IsSound w (set_last_op g) s = s
step-IsSound w expire_op (s, f, u, m, n) = elim (List-cases w.armed) [
  | inl e ↦ ground (arith, e, s, f, u, m, n)
  | inr (t, rest, e) ↦ ground (arith, e, s, f, u, m, n)
]
step-IsSound w callback_op (s, f, u, m, n) = elim (List-cases w.started) [
  | inl e ↦ ground (arith, e, s, f, u, m, n)
  | inr (t, rest, e) ↦ ground (arith, e, s, f, u, m, n)
]

new_attachment-IsSound : IsSound new_attachment
unfolding new_attachment signalled has IsSound
new_attachment-IsSound = (refl, refl, λ h. refl, omega arith, tt)

pub steps-IsSound : (w : World) (os : List Op) → IsSound w → IsSound (steps w os)
unfolding steps
steps-IsSound w [] s = s
steps-IsSound w (o ∷ os) s = steps-IsSound (step w o) os (step-IsSound w o s)

-- In every run of a new attachment, whichever timers expire in it, the channel that ReadySignal returns
-- is closed just while the attachment is attached, and only then is a generation other than 0 bound.
pub steps-signalled :
    (os : List Op)
    → (signalled (steps new_attachment os) ≡ is_attached (steps new_attachment os).att.state)
      × ((if is_attached (steps new_attachment os).att.state
            then 0
            else (steps new_attachment os).att.gen)
          ≡ 0)
unfolding IsSound
steps-signalled os =
    let (s, f, u, m, n) = steps-IsSound new_attachment os new_attachment-IsSound in
    (s, ground (arith, u))
