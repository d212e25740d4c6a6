-- ===== src/Budget/Sealed.antt =====
-- pkg/node/budget.go: under every order of calls the accounting is exact, and a closed budget is empty
-- and stays so.
use iran_germany_split_tunne.Common.{
  ℕ, ◌≡◌, refl, ap, ◌∙◌, inl, inr, ◌⊎◌, true, false, none, List, [], ◌∷◌, ltb, Bool-cases, arith,
}
use iran_germany_split_tunne.Common.Int.{pos, ◌-ℤ◌}
use iran_germany_split_tunne.Common.Assoc.{lookup, total, nat_eq, Unique}
use iran_germany_split_tunne.Budget.{
  BudgetWaiter, SessionBufferBudget, new_session_buffer_budget, charged, begin, admit, fits,
  grant_all, grant_waiters_locked, charge, withdraw, refund, end, close, remove_waiter_locked, Op,
  begin_op, end_op, charge_op, withdraw_op, refund_op, close_op, step,
}
use iran_germany_split_tunne.Budget.Accounting.{sum, IsExact, pos_sub, grant_fits, grant_skips}
use iran_germany_split_tunne.Budget.Calls.{
  begin-IsExact, queued, charge_cases, charge-IsExact, withdraw_cases, withdraw-IsExact, uncharge,
  refund_cases, refund-IsExact, dropped, minus_zero, end_cases, end-IsExact,
}

-- A closed budget has no relay and no waiter.
pub record IsSealed (b : SessionBufferBudget) : Type 0 where
  pub no_relay : b.is_closed ≡ true → b.active ≡ []
  pub no_waiter : b.is_closed ≡ true → b.waiters ≡ []

pub record IsSound (b : SessionBufferBudget) : Type 0 where
  pub exactly : IsExact b
  pub sealed : IsSealed b

abbrev pub emptied : SessionBufferBudget → SessionBufferBudget
emptied b = record b { is_closed = true; accounted = pos 0; active = []; waiters = [] }

settled : (b : SessionBufferBudget) → IsExact b → b.accounted -ℤ pos (sum b.active) ≡ pos 0
settled b s =
    ap (λ z. z -ℤ pos (sum b.active)) s.exact
    ∙ pos_sub (sum b.active) (sum b.active) (omega arith)
    ∙ ap pos (omega arith)

pub close_open :
    (b : SessionBufferBudget) → IsExact b → b.is_closed ≡ false → (close b).0 ≡ emptied b
unfolding close
close_open b s c = elim (Bool-cases (ltb 0 b.limit)) [
  | inl on ↦ ground (arith, c, on, settled b s)
  | inr off ↦ ground (arith, c, off, settled b s, s.bounded, minus_zero b.accounted, s.exact)
]

emptied-IsSound : (b : SessionBufferBudget) → IsSound (emptied b)
unfolding total Unique
emptied-IsSound b = record {
  exactly = record { exact = refl; unique = tt; bounded = omega arith };
  sealed = record { no_relay = λ c. refl; no_waiter = λ c. refl };
}

closed_grant : (b : SessionBufferBudget) → b.is_closed ≡ true → grant_waiters_locked b ≡ b
unfolding grant_waiters_locked
closed_grant b c = ground (arith, c)

removed_none : (id : ℕ) (ws : List BudgetWaiter) → ws ≡ [] → remove_waiter_locked id ws ≡ ws
unfolding remove_waiter_locked
removed_none id ws e = rw e refl

-- A closed budget does nothing any more.
pub closed_step :
    (b : SessionBufferBudget) (o : Op) → IsSealed b → b.is_closed ≡ true → step b o ≡ b
unfolding step begin end charge withdraw refund close lookup grant_waiters_locked
closed_step b (begin_op k) s c = ground (arith, c)
closed_step b (end_op k) s c = ground (arith, c, s.no_relay c)
closed_step b (charge_op id k n cancelled) s c = ground (arith, c, s.no_relay c)
closed_step b (withdraw_op id) s c = ground (arith, c, removed_none id b.waiters (s.no_waiter c))
closed_step b (refund_op k n) s c = ground (arith, c)
closed_step b close_op s c = ground (arith, c)

grant_all_open :
    (b : SessionBufferBudget) (ws : List BudgetWaiter) → (grant_all b ws).0.is_closed ≡ b.is_closed
unfolding grant_all admit
grant_all_open b [] = refl
grant_all_open b (w ∷ ws) = elim (Bool-cases (fits b w)) [
  | inl h ↦ rw (grant_fits b w ws h) (grant_all_open (admit b w) ws)
  | inr h ↦ rw (grant_skips b w ws h) (grant_all_open b ws)
]

grant_open : (b : SessionBufferBudget) → (grant_waiters_locked b).is_closed ≡ b.is_closed
unfolding grant_waiters_locked
grant_open b = ground (arith, grant_all_open b b.waiters)

-- A relay is begun once.
unfoldable pub Once : SessionBufferBudget → Op → Type 0
Once b (begin_op k) = lookup k b.active ≡ none
Once b (end_op k) = Unit
Once b (charge_op id k n cancelled) = Unit
Once b (withdraw_op id) = Unit
Once b (refund_op k n) = Unit
Once b close_op = Unit

unfoldable pub AllOnce : SessionBufferBudget → List Op → Type 0
AllOnce b [] = Unit
AllOnce b (o ∷ os) = Once b o × AllOnce (step b o) os

open-IsSealed : (b : SessionBufferBudget) → b.is_closed ≡ false → IsSealed b
open-IsSealed b c = record {
  no_relay = λ d. ground (arith, c, d);
  no_waiter = λ d. ground (arith, c, d);
}

-- What a step of an open budget keeps open.
step_open :
    (b : SessionBufferBudget) (o : Op)
    → IsExact b
    → b.is_closed ≡ false
    → ((step b o).is_closed ≡ false) ⊎ (step b o ≡ emptied b)
unfolding step begin
step_open b (begin_op k) s c = inl (ground (arith, c))
step_open b (end_op k) s c = inl (elim (end_cases b k s c) [
  | inl e ↦ rw e c
  | inr (inl e) ↦ rw e (grant_open (dropped b k (charged k b.active)) ∙ c)
  | inr (inr (e, z)) ↦ rw e c
])
step_open b (charge_op id k n cancelled) s c = inl (elim (charge_cases b id k n cancelled) [
  | inl e ↦ rw e c
  | inr e ↦ rw e (grant_open (record b { waiters = queued b id k n }) ∙ c)
])
step_open b (withdraw_op id) s c = inl (elim (withdraw_cases b id) [
  | inl e ↦ rw e c
  | inr e ↦ rw e (grant_open (record b { waiters = remove_waiter_locked id b.waiters }) ∙ c)
])
step_open b (refund_op k n) s c = inl (elim (refund_cases b k n) [
  | inl e ↦ rw e c
  | inr (m, less, e) ↦ rw e (grant_open (uncharge b k m) ∙ c)
])
step_open b close_op s c = inr (close_open b s c)

step-IsExact :
    (b : SessionBufferBudget) (o : Op)
    → Once b o
    → b.is_closed ≡ false
    → IsExact b
    → IsExact (step b o)
unfolding step Once
step-IsExact b (begin_op k) h c s = begin-IsExact b k h s
step-IsExact b (end_op k) h c s = end-IsExact b k c s
step-IsExact b (charge_op id k n cancelled) h c s = charge-IsExact b id k n cancelled s
step-IsExact b (withdraw_op id) h c s = withdraw-IsExact b id s
step-IsExact b (refund_op k n) h c s = refund-IsExact b k n s
step-IsExact b close_op h c s = rw (close_open b s c) (emptied-IsSound b).exactly

pub step-IsSound : (b : SessionBufferBudget) (o : Op) → Once b o → IsSound b → IsSound (step b o)
step-IsSound b o h s = elim (Bool-cases b.is_closed) [
  | inl c ↦ rw (closed_step b o s.sealed c) s
  | inr c ↦ elim (step_open b o s.exactly c) [
    | inl d ↦ record {
      exactly = step-IsExact b o h c s.exactly;
      sealed = open-IsSealed (step b o) d;
    }
    | inr e ↦ rw e (emptied-IsSound b)
  ]
]

unfoldable pub steps : SessionBufferBudget → List Op → SessionBufferBudget
steps b [] = b
steps b (o ∷ os) = steps (step b o) os

-- From a budget of which this holds, as of a new one, under every order of calls in which no relay is
-- begun again while it is registered, the accounted bytes are exactly the sum of the relays' charges
-- and within the limit, and a closed budget has no relay and no waiter.
pub steps-IsSound :
    (b : SessionBufferBudget) (os : List Op) → AllOnce b os → IsSound b → IsSound (steps b os)
unfolding steps AllOnce
steps-IsSound b [] h s = s
steps-IsSound b (o ∷ os) (h, hs) s = steps-IsSound (step b o) os hs (step-IsSound b o h s)

pub new-IsSound : (limit : ℕ) → IsSound (new_session_buffer_budget limit)
unfolding new_session_buffer_budget total Unique
new-IsSound limit = record {
  exactly = record { exact = refl; unique = tt; bounded = omega arith };
  sealed = record { no_relay = λ c. refl; no_waiter = λ c. refl };
}

closed_steps :
    (b : SessionBufferBudget) (os : List Op) → IsSealed b → b.is_closed ≡ true → steps b os ≡ b
unfolding steps
closed_steps b [] s c = refl
closed_steps b (o ∷ os) s c = rw (closed_step b o s c) (closed_steps b os s c)

reclaimed : (b : SessionBufferBudget) → IsExact b → b.is_closed ≡ false → (close b).1 ≡ sum b.active
unfolding close
reclaimed b s c = ground (arith, c, s.bounded)

-- Close of an open budget whose accounting is exact gives back exactly the outstanding charges, leaves
-- nothing accounted, registered or parked, and no later call changes that.
pub close_reclaims :
    (b : SessionBufferBudget) (os : List Op)
    → IsSound b
    → b.is_closed ≡ false
    → ((close b).1 ≡ sum b.active) × (steps (close b).0 os ≡ emptied b)
close_reclaims b os s c = (
  reclaimed b s.exactly c,
  rw (close_open b s.exactly c) (closed_steps (emptied b) os (emptied-IsSound b).sealed refl),
)
