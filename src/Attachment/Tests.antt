-- ===== src/Attachment/Tests.antt =====
-- The attachment (pkg/session/attachment.go) on concrete inputs.
use iran_germany_split_tunne.Common.{if◌then◌else◌, ◌+◌, ◌≡◌, refl, true, List, [], ◌∷◌, arith}
use iran_germany_split_tunne.Attachment.{
  attached, is_attached, is_waiting, World, Op, attach_op, detach_op, begin_op, fail_op, expire_op,
  callback_op, new_attachment, attach, detach, begin_rebind, fail_rebind, expire, callback, remove,
  close, step, steps, stop_timer, close_ready, start_timer_locked,
}
use iran_germany_split_tunne.Attachment.Signal.{signalled, steps-signalled}
use iran_germany_split_tunne.Attachment.Grace.{
  prompt_step, prompt_steps, prompt_timeout_waiting, leaves_grace, grace_runs_out,
  late_callback_times_out,
}

abbrev bound : World
unfolding new_attachment attach stop_timer close_ready
bound = (attach 3 new_attachment).0

abbrev shut : World
unfolding new_attachment close stop_timer
shut = close new_attachment

-- A rebind that fails, one that succeeds, and a second loss.
abbrev some_ops : List Op
some_ops = attach_op 3 ∷ detach_op 3 ∷ begin_op ∷ fail_op ∷ attach_op 4 ∷ detach_op 4 ∷ []

steps-signalled_example :
    (signalled (steps new_attachment some_ops)
      ≡ is_attached (steps new_attachment some_ops).att.state)
    × ((if is_attached (steps new_attachment some_ops).att.state
          then 0
          else (steps new_attachment some_ops).att.gen)
        ≡ 0)
steps-signalled_example = steps-signalled some_ops

prompt_timeout_waiting_example : is_waiting (prompt_steps new_attachment some_ops).att.state ≡ true
unfolding new_attachment prompt_steps prompt_step step attach detach stop_timer close_ready
    start_timer_locked begin_rebind fail_rebind expire callback remove
prompt_timeout_waiting_example =
    prompt_timeout_waiting some_ops expire_op (λ e. absurd (omega (arith, e)))

grace_runs_out_example :
    (prompt_step
      (prompt_steps
        (prompt_step (prompt_steps new_attachment (attach_op 3 ∷ [])) (detach_op 3))
        (begin_op ∷ detach_op 2 ∷ fail_op ∷ []))
      expire_op).fired
    ≡ (prompt_steps new_attachment (attach_op 3 ∷ [])).fired + 1
unfolding leaves_grace new_attachment prompt_steps prompt_step step attach detach stop_timer
    close_ready start_timer_locked
grace_runs_out_example =
    grace_runs_out (attach_op 3 ∷ []) 3 (begin_op ∷ detach_op 2 ∷ fail_op ∷ []) refl
      (refl, (refl, (refl, tt)))

late_callback_times_out_example :
    let v = steps bound (detach_op 3 ∷ expire_op ∷ attach_op 4 ∷ callback_op ∷ []) in
    (v.att.state ≡ attached) × (v.att.gen ≡ 4) × (v.fired ≡ bound.fired + 1)
unfolding new_attachment attach stop_timer close_ready
late_callback_times_out_example = late_callback_times_out bound 3 4 refl refl refl refl refl
