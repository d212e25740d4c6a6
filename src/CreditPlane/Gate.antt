-- ===== src/CreditPlane/Gate.antt =====
-- pkg/node/credit.go: the registry of ledgers and its fallback timers. Ledgers and timers are told
-- apart by the number of their allocation, as pointers are; `next_id` is the next free number.
pub mod Timers
use iran_germany_split_tunne.Common.{
  ℕ, suc, ◌+◌, ◌≤◌, ◌<◌, ◌≡◌, refl, ◌≢◌, ◌⊎◌, inl, inr, Bool, true, false, Option, none, some, List,
  [], ◌∷◌, ◌==◌, if◌then◌else◌, Option-cases, arith,
}
use iran_germany_split_tunne.Common.Assoc.{
  Eq, nat_eq, lookup, insert, delete, lookup-insert, lookup-delete,
}
use iran_germany_split_tunne.CreditPlane.{CreditLedger, new_ledger, reset, latch_safely_capped}

pub record Slot : Type 0 where
  pub id : ℕ
  pub ledger : CreditLedger

pub record Gate : Type 0 where
  pub ledgers : List (ℕ × Slot)
  pub timers : List (ℕ × ℕ)
  pub next_id : ℕ

-- A timer that was armed, with what its callback captured.
pub record Timer : Type 0 where
  pub id : ℕ
  pub stream_id : ℕ
  pub slot_id : ℕ

unfoldable pub new_gate : Gate
new_gate = record { ledgers = []; timers = []; next_id = 0 }

unfoldable pub arm_timer_locked : Gate → ℕ → ℕ → Gate × Timer
arm_timer_locked g stream_id slot_id = (
  record g { timers = insert stream_id g.next_id g.timers; next_id = suc g.next_id },
  record { id = g.next_id; stream_id = stream_id; slot_id = slot_id },
)

-- A ledger at its first use: made, registered and armed.
attach_new : Gate → ℕ → ℕ → Gate × Slot
attach_new g gen stream_id =
    let s : Slot = record { id = g.next_id; ledger = new_ledger gen } in
    (record g { ledgers = insert stream_id s g.ledgers; next_id = suc g.next_id }, s)

unfoldable pub ledger : Gate → ℕ → ℕ → Gate × CreditLedger
unfolding attach_new arm_timer_locked
ledger g gen stream_id = elim (lookup stream_id g.ledgers) [
  | some s ↦ (g, s.ledger)
  | none ↦
      let (g', s) = attach_new g gen stream_id in ((arm_timer_locked g' stream_id s.id).0, s.ledger)
]

unfoldable pub reset_stream : Gate → ℕ → ℕ → Gate
unfolding attach_new arm_timer_locked
reset_stream g gen stream_id = elim (lookup stream_id g.ledgers) [
  | some s ↦
      let g' = (arm_timer_locked g stream_id s.id).0 in
      record g' { ledgers = insert stream_id (record s { ledger = reset s.ledger gen }) g'.ledgers }
  | none ↦
      let (g', s) = attach_new g gen stream_id in
      let g'' = (arm_timer_locked g' stream_id s.id).0 in
      record g'' {
        ledgers = insert stream_id (record s { ledger = reset s.ledger gen }) g''.ledgers;
      }
]

unfoldable pub cancel_timer : Gate → ℕ → Gate
cancel_timer g stream_id = record g { timers = delete stream_id g.timers }

unfoldable pub remove_stream : Gate → ℕ → Gate
remove_stream g stream_id = record g {
  timers = delete stream_id g.timers;
  ledgers = delete stream_id g.ledgers;
}

-- The timer's callback on the ledger that stands in the registry now.
fire_on : Gate → Timer → Option Slot → Gate
fire_on g t none = g
fire_on g t (some s) =
    if s.id == t.slot_id
    then record g {
      ledgers = insert t.stream_id (record s { ledger = latch_safely_capped s.ledger }) g.ledgers;
    }
    else g

is_current : Timer → Option ℕ → Bool
is_current t none = false
is_current t (some id) = id == t.id

unfoldable pub fire : Gate → Timer → Gate
unfolding fire_on is_current
fire g t =
    if is_current t (lookup t.stream_id g.timers)
    then fire_on g t (lookup t.stream_id g.ledgers)
    else g
