-- ===== src/Attachment/Grace.antt =====
-- pkg/session/attachment.go: the grace timer, with a callback that runs as soon as its timer expires,
-- and with one that comes late.
use iran_germany_split_tunne.Common.{
  ℕ, ◌+◌, ◌≡◌, ◌≢◌, refl, ap, ◌∙◌, Bool, true, false, inl, inr, Option, none, some, List, [], ◌∷◌,
  All, Option-cases, arith,
}
use iran_germany_split_tunne.Attachment.{
  attached, is_waiting, World, Op, attach_op, detach_op, begin_op, fail_op, close_op, set_last_op,
  expire_op, callback_op, attach, detach, begin_rebind, fail_rebind, close, set_last_rebind_gen,
  expire, callback, step, steps, new_attachment, stop_timer, start_timer_locked, close_ready,
  remove,
}

-- A step in which an expired timer's callback runs at once.
unfoldable pub prompt_step : World → Op → World
unfolding step expire callback
prompt_step w (attach_op g) = step w (attach_op g)
prompt_step w (detach_op g) = step w (detach_op g)
prompt_step w begin_op = step w begin_op
prompt_step w fail_op = step w fail_op
prompt_step w close_op = step w close_op
prompt_step w (set_last_op g) = step w (set_last_op g)
prompt_step w expire_op = callback (expire w)
prompt_step w callback_op = w

unfoldable pub prompt_steps : World → List Op → World
prompt_steps w [] = w
prompt_steps w (o ∷ os) = prompt_steps (prompt_step w o) os

timer_list : Option ℕ → List ℕ
timer_list none = []
timer_list (some t) = t ∷ []

-- Is the grace window open?
pub in_grace : World → Bool
in_grace w = elim w.att.timer [ none ↦ false | some t ↦ true ]

-- The armed timer is the one that the attachment knows, and only a waiting attachment has one.
Timed : World → Type 0
Timed w =
    (w.started ≡ [])
    × (w.armed ≡ timer_list w.att.timer)
    × (in_grace w ≡ true → is_waiting w.att.state ≡ true)

abbrev WaitingFire : World → World → Type 0
WaitingFire w v = v.fired ≢ w.fired → is_waiting w.att.state ≡ true

prompt_step-Timed :
    (w : World) (o : Op) → Timed w → Timed (prompt_step w o) × WaitingFire w (prompt_step w o)
unfolding prompt_step attach detach begin_rebind fail_rebind close set_last_rebind_gen stop_timer
    start_timer_locked close_ready remove Timed timer_list in_grace expire callback
prompt_step-Timed w (attach_op g) (e, a, h) = elim (Option-cases w.att.timer) [
  | inl n ↦ ground (arith, n, e, a, h)
  | inr (t, n) ↦ ground (arith, n, e, a, h)
]
prompt_step-Timed w (detach_op g) (e, a, h) = elim (Option-cases w.att.timer) [
  | inl n ↦ ground (arith, n, e, a, h)
  | inr (t, n) ↦ ground (arith, n, e, a, h)
]
prompt_step-Timed w begin_op (e, a, h) = ground (arith, e, a, h)
prompt_step-Timed w fail_op (e, a, h) = ground (arith, e, a, h)
prompt_step-Timed w close_op (e, a, h) = elim (Option-cases w.att.timer) [
  | inl n ↦ ground (arith, n, e, a, h)
  | inr (t, n) ↦ ground (arith, n, e, a, h)
]
prompt_step-Timed w (set_last_op g) (e, a, h) = ground (arith, e, a, h)
prompt_step-Timed w expire_op (e, a, h) = elim (Option-cases w.att.timer) [
  | inl n ↦ ground (arith, n, e, a, h)
  | inr (t, n) ↦ ground (arith, n, e, a, h)
]
prompt_step-Timed w callback_op (e, a, h) = ground (arith, e, a, h)

prompt_steps-Timed : (w : World) (os : List Op) → Timed w → Timed (prompt_steps w os)
unfolding prompt_steps
prompt_steps-Timed w [] s = s
prompt_steps-Timed w (o ∷ os) s =
    prompt_steps-Timed (prompt_step w o) os (prompt_step-Timed w o s).0

new_attachment-Timed : Timed new_attachment
unfolding new_attachment Timed timer_list in_grace
new_attachment-Timed = (refl, refl, λ h. refl)

-- In a run of a new attachment in which each callback runs as soon as its timer expires, a timeout is
-- reported only in a state in which the attachment is unavailable or rebinding.
pub prompt_timeout_waiting :
    (os : List Op) (o : Op)
    → (prompt_step (prompt_steps new_attachment os) o).fired
      ≢ (prompt_steps new_attachment os).fired
    → is_waiting (prompt_steps new_attachment os).att.state ≡ true
prompt_timeout_waiting os o fires =
    (prompt_step-Timed (prompt_steps new_attachment os) o
        (prompt_steps-Timed new_attachment os new_attachment-Timed)).1
      fires

-- Does the call leave an open grace window to its timer, whatever its outcome?
unfoldable pub leaves_grace : Op → Bool
leaves_grace (attach_op g) = false
leaves_grace (detach_op g) = true
leaves_grace begin_op = true
leaves_grace fail_op = true
leaves_grace close_op = false
leaves_grace (set_last_op g) = true
leaves_grace expire_op = false
leaves_grace callback_op = false

grace_kept :
    (w : World) (o : Op)
    → leaves_grace o ≡ true
    → Timed w
    → in_grace w ≡ true
    → (in_grace (prompt_step w o) ≡ true) × ((prompt_step w o).fired ≡ w.fired)
unfolding prompt_step detach begin_rebind fail_rebind set_last_rebind_gen start_timer_locked Timed
    in_grace leaves_grace
grace_kept w (attach_op g) l (e, a, h) i = ground (arith, l)
grace_kept w (detach_op g) l (e, a, h) i = elim (Option-cases w.att.timer) [
  | inl n ↦ absurd (ground (arith, n, i))
  | inr (t, n) ↦ ground (arith, n, e, a, h, i)
]
grace_kept w begin_op l (e, a, h) i = ground (arith, i)
grace_kept w fail_op l (e, a, h) i = ground (arith, i)
grace_kept w close_op l (e, a, h) i = ground (arith, l)
grace_kept w (set_last_op g) l (e, a, h) i = ground (arith, i)
grace_kept w expire_op l (e, a, h) i = ground (arith, l)
grace_kept w callback_op l (e, a, h) i = ground (arith, i)

grace_persists :
    (w : World) (os : List Op)
    → All (λ o. leaves_grace o ≡ true) os
    → Timed w
    → in_grace w ≡ true
    → (in_grace (prompt_steps w os) ≡ true) × ((prompt_steps w os).fired ≡ w.fired)
unfolding prompt_steps
grace_persists w [] ls s i = (i, refl)
grace_persists w (o ∷ os) (l, ls) s i =
    let (j, f) = grace_kept w o l s i in
    let (k, g) = grace_persists (prompt_step w o) os ls (prompt_step-Timed w o s).0 j in (k, g ∙ f)

grace_fires :
    (w : World) → Timed w → in_grace w ≡ true → (prompt_step w expire_op).fired ≡ w.fired + 1
unfolding prompt_step Timed timer_list in_grace expire callback
grace_fires w (e, a, h) i = elim (Option-cases w.att.timer) [
  | inl n ↦ absurd (ground (arith, n, i))
  | inr (t, n) ↦ ground (arith, n, e, a, h)
]

detach_opens_grace :
    (w : World) (g : ℕ)
    → Timed w
    → (detach g w).1 ≡ true
    → (in_grace (prompt_step w (detach_op g)) ≡ true)
      × ((prompt_step w (detach_op g)).fired ≡ w.fired)
unfolding prompt_step Timed in_grace start_timer_locked detach
detach_opens_grace w g (e, a, h) d = elim (Option-cases w.att.timer) [
  | inl n ↦ ground (arith, n, d)
  | inr (t, n) ↦ ground (arith, n, d)
]

-- After an accepted Detach in such a run, whatever rebinds are begun and given up and whatever stale
-- losses are reported, the timer reports one timeout when it expires, unless Attach or Close came.
pub grace_runs_out :
    (before : List Op) (g : ℕ) (os : List Op)
    → let w = prompt_steps new_attachment before in
      (detach g w).1 ≡ true
      → All (λ o. leaves_grace o ≡ true) os
      → (prompt_step (prompt_steps (prompt_step w (detach_op g)) os) expire_op).fired ≡ w.fired + 1
grace_runs_out before g os d ls =
    let w = prompt_steps new_attachment before in
    let s = prompt_steps-Timed new_attachment before new_attachment-Timed in
    let (i, f) = detach_opens_grace w g s d in
    let v = prompt_step w (detach_op g) in
    let s' = (prompt_step-Timed w (detach_op g) s).0 in
    let (j, k) = grace_persists v os ls s' i in
    grace_fires (prompt_steps v os) (prompt_steps-Timed v os s') j ∙ ap (λ n. n + 1) (k ∙ f)

-- A callback that its timer started before Attach could stop it reports a timeout although the
-- attachment is attached to the carrier `h`.
pub late_callback_times_out :
    (w : World) (g h : ℕ)
    → w.att.state ≡ attached
    → w.att.gen ≡ g
    → w.att.timer ≡ none
    → w.armed ≡ []
    → w.started ≡ []
    → let v = steps w (detach_op g ∷ expire_op ∷ attach_op h ∷ callback_op ∷ []) in
      (v.att.state ≡ attached) × (v.att.gen ≡ h) × (v.fired ≡ w.fired + 1)
unfolding steps step detach start_timer_locked expire attach stop_timer close_ready callback remove
late_callback_times_out w g h s b t a c = ground (arith, s, b, t, a, c)
