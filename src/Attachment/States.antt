-- ===== src/Attachment/States.antt =====
-- pkg/session/attachment.go: a closed attachment stays closed, and it never times out.
use iran_germany_split_tunne.Common.{◌≡◌, refl, ◌∙◌, inl, inr, List, [], ◌∷◌, List-cases, arith}
use iran_germany_split_tunne.Attachment.{
  closed, World, Op, attach_op, detach_op, begin_op, fail_op, close_op, set_last_op, expire_op,
  callback_op, attach, detach, begin_rebind, fail_rebind, close, set_last_rebind_gen, expire,
  callback, step, steps,
}

-- The attachment is closed as it was, and no timeout has been reported since.
abbrev pub StaysClosed : World → World → Type 0
StaysClosed w v =
    (v.att.state ≡ closed) × (v.att.gen ≡ w.att.gen) × (v.fired ≡ w.fired) × (v.woken ≡ w.woken)

step-StaysClosed : (w : World) (o : Op) → w.att.state ≡ closed → StaysClosed w (step w o)
unfolding step attach detach begin_rebind fail_rebind close set_last_rebind_gen expire callback
step-StaysClosed w (attach_op g) h = ground (arith, h)
step-StaysClosed w (detach_op g) h = ground (arith, h)
step-StaysClosed w begin_op h = ground (arith, h)
step-StaysClosed w fail_op h = ground (arith, h)
step-StaysClosed w close_op h = ground (arith, h)
step-StaysClosed w (set_last_op g) h = ground (arith, h)
step-StaysClosed w expire_op h = elim (List-cases w.armed) [
  | inl e ↦ ground (arith, h, e)
  | inr (t, rest, e) ↦ ground (arith, h, e)
]
step-StaysClosed w callback_op h = elim (List-cases w.started) [
  | inl e ↦ ground (arith, h, e)
  | inr (t, rest, e) ↦ ground (arith, h, e)
]

-- Once closed, an attachment is never bound again, wakes no waiter of a later signal and reports no
-- timeout, whatever is called and whichever timers expire.
pub steps-StaysClosed :
    (w : World) (os : List Op) → w.att.state ≡ closed → StaysClosed w (steps w os)
unfolding steps
steps-StaysClosed w [] h = (h, refl, refl, refl)
steps-StaysClosed w (o ∷ os) h =
    let (s, g, f, k) = step-StaysClosed w o h in
    let (s', g', f', k') = steps-StaysClosed (step w o) os s in (s', g' ∙ g, f' ∙ f, k' ∙ k)
