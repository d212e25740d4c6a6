-- ===== src/Budget/Tests.antt =====
-- The buffer budget (pkg/node/budget.go) on concrete inputs.
use iran_germany_split_tunne.Common.{refl, false, List, [], ◌∷◌}
use iran_germany_split_tunne.Common.Assoc.{lookup, nat_eq}
use iran_germany_split_tunne.Budget.{
  SessionBufferBudget, new_session_buffer_budget, Op, begin_op, charge_op, refund_op, close_op,
}
use iran_germany_split_tunne.Budget.Sealed.{
  IsSound, AllOnce, Once, steps, steps-IsSound, new-IsSound,
}
use iran_germany_split_tunne.Budget.Waiting.{IsTight, steps-IsTight, new-IsTight}

abbrev ten : SessionBufferBudget
ten = new_session_buffer_budget 10

-- Two relays; the second charge of 8 bytes waits until the first relay refunds, then the node closes.
abbrev some_ops : List Op
some_ops =
    begin_op 1 ∷ charge_op 0 1 6 false ∷ charge_op 1 1 8 false ∷ refund_op 1 5 ∷ close_op ∷ []

some_ops-AllOnce : AllOnce ten some_ops
unfolding AllOnce Once new_session_buffer_budget lookup
some_ops-AllOnce = (refl, (tt, (tt, (tt, (tt, tt)))))

steps-IsSound_example : IsSound (steps ten some_ops)
steps-IsSound_example = steps-IsSound ten some_ops some_ops-AllOnce (new-IsSound 10)

steps-IsTight_example : IsTight (steps ten some_ops)
steps-IsTight_example =
    steps-IsTight ten some_ops some_ops-AllOnce (new-IsSound 10) (new-IsTight 10)
