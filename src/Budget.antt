-- ===== src/Budget.antt =====
-- pkg/node/budget.go: the aggregate byte budget of a node's reconnect buffers.
-- A method holds the budget's mutex from end to end, so it is one step; chargeWait is two, the charge
-- before its wait and the withdrawal when its context ends first. A relay's key is a number, and so
-- is a waiter, by its `id`. A limit of 0 stands for every limit that is not positive, and the
-- metrics are left out.
pub mod Accounting
pub mod Calls
pub mod Sealed
pub mod Waiting
pub mod Tests
use iran_germany_split_tunne.Common.{
  ℕ, ◌+◌, ◌-◌, Bool, true, false, not, ◌&&◌, ◌||◌, Option, none, some, List, [], ◌∷◌, ◌++◌, ◌==◌,
  ltb, leb, if◌then◌else◌,
}
use iran_germany_split_tunne.Common.Int.{ℤ, pos, ◌+ℤ◌, ◌-ℤ◌, ltb_ℤ}
use iran_germany_split_tunne.Common.Assoc.{lookup, insert, delete, total, value_at, nat_eq}

pub record BudgetWaiter : Type 0 where
  pub id : ℕ
  pub key : ℕ
  pub n : ℕ

-- `admitted` has the ids of the waiters whose channel was closed by an admission.
pub record SessionBufferBudget : Type 0 where
  pub limit : ℕ
  pub accounted : ℤ
  pub active : List (ℕ × ℕ)
  pub waiters : List BudgetWaiter
  pub is_closed : Bool
  pub admitted : List ℕ

unfoldable pub new_session_buffer_budget : ℕ → SessionBufferBudget
new_session_buffer_budget limit = record {
  limit = limit;
  accounted = pos 0;
  active = [];
  waiters = [];
  is_closed = false;
  admitted = [];
}

-- The charge of the relay `k`; Go's map gives 0 for a relay that it does not have.
pub charged : ℕ → List (ℕ × ℕ) → ℕ
charged k active = value_at (λ n. n) (lookup k active)

unfoldable pub begin : SessionBufferBudget → ℕ → SessionBufferBudget
begin b k = if b.is_closed then b else record b { active = insert k 0 b.active }

unfoldable pub admit : SessionBufferBudget → BudgetWaiter → SessionBufferBudget
unfolding charged
admit b w = record b {
  accounted = b.accounted +ℤ pos w.n;
  active = insert w.key (charged w.key b.active + w.n) b.active;
  admitted = w.id ∷ b.admitted;
}

unfoldable pub fits : SessionBufferBudget → BudgetWaiter → Bool
fits b w = not (ltb_ℤ (pos b.limit) (b.accounted +ℤ pos w.n))

-- The loop of grantWaitersLocked: the budget afterwards, and the waiters that stay, in order.
unfoldable pub grant_all :
    SessionBufferBudget → List BudgetWaiter → SessionBufferBudget × List BudgetWaiter
unfolding admit fits
grant_all b [] = (b, [])
grant_all b (w ∷ ws) = elim (fits b w) [
  | true ↦ grant_all (admit b w) ws
  | false ↦ ((grant_all b ws).0, w ∷ (grant_all b ws).1)
]

unfoldable pub grant_waiters_locked : SessionBufferBudget → SessionBufferBudget
unfolding grant_all
grant_waiters_locked b =
    if b.is_closed || b.limit == 0
    then b
    else let (granted, left) = grant_all b b.waiters in record granted { waiters = left }

-- What the first part of chargeWait ends with: its result, or the wait on the waiter's channel.
pub data Charge : Type 0 where
  charge_done : Bool → Charge
  charge_waits : Charge

unfoldable pub charge : SessionBufferBudget → ℕ → ℕ → ℕ → Bool → SessionBufferBudget × Charge
unfolding grant_waiters_locked
charge b id k n cancelled =
    if n == 0
    then (b, charge_done true)
    else if cancelled
    then (b, charge_done false)
    else if b.is_closed
    then (b, charge_done false)
    else if b.limit == 0
    then (b, charge_done true)
    else elim (lookup k b.active) [
      | none ↦ (b, charge_done false)
      | some cur ↦ (
        grant_waiters_locked
            (record b { waiters = b.waiters ++ (record { id = id; key = k; n = n } ∷ []) }),
        charge_waits,
      )
    ]

unfoldable pub remove_waiter_locked : ℕ → List BudgetWaiter → List BudgetWaiter
remove_waiter_locked id [] = []
remove_waiter_locked id (w ∷ ws) = if w.id == id then ws else w ∷ remove_waiter_locked id ws

pub has_id : ℕ → List ℕ → Bool
has_id id [] = false
has_id id (i ∷ is) = if i == id then true else has_id id is

-- The context of a waiting charge ends: the result of chargeWait.
unfoldable pub withdraw : SessionBufferBudget → ℕ → SessionBufferBudget × Bool
unfolding grant_waiters_locked remove_waiter_locked has_id
withdraw b id =
    if has_id id b.admitted
    then (b, true)
    else (grant_waiters_locked (record b { waiters = remove_waiter_locked id b.waiters }), false)

unfoldable pub refund : SessionBufferBudget → ℕ → ℕ → SessionBufferBudget × ℕ
unfolding charged grant_waiters_locked
refund b k n =
    if n == 0 || (b.limit == 0 || b.is_closed)
    then (b, 0)
    else let cur = charged k b.active in
      let n' = if ltb cur n then cur else n in
      if n' == 0 then (b, 0) else (
        grant_waiters_locked
            (record b { accounted = b.accounted -ℤ pos n'; active = insert k (cur - n') b.active }),
        n',
      )

unfoldable pub end : SessionBufferBudget → ℕ → SessionBufferBudget × ℕ
unfolding grant_waiters_locked
end b k = elim (lookup k b.active) [
  | none ↦ (b, 0)
  | some cur ↦
      let uncharged =
        if ltb 0 b.limit && (not b.is_closed && ltb 0 cur)
        then b.accounted -ℤ pos cur
        else b.accounted in
      let b' = record b { accounted = uncharged; active = delete k b.active } in
      (if ltb 0 cur then grant_waiters_locked b' else b', cur)
]

unfoldable pub close : SessionBufferBudget → SessionBufferBudget × ℕ
close b =
    if b.is_closed
    then (b, 0)
    else let reclaimed = if ltb 0 b.limit then total (λ n. n) b.active else 0 in
      (
        record b {
          is_closed = true;
          accounted = b.accounted -ℤ pos reclaimed;
          active = [];
          waiters = [];
        },
        reclaimed,
      )

pub data Op : Type 0 where
  begin_op end_op : ℕ → Op
  charge_op : ℕ → ℕ → ℕ → Bool → Op
  withdraw_op : ℕ → Op
  refund_op : ℕ → ℕ → Op
  close_op : Op

unfoldable pub step : SessionBufferBudget → Op → SessionBufferBudget
unfolding begin end charge withdraw refund close
step b (begin_op k) = begin b k
step b (end_op k) = (end b k).0
step b (charge_op id k n cancelled) = (charge b id k n cancelled).0
step b (withdraw_op id) = (withdraw b id).0
step b (refund_op k n) = (refund b k n).0
step b close_op = (close b).0
