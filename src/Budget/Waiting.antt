-- ===== src/Budget/Waiting.antt =====
-- pkg/node/budget.go: no relay is left waiting for bytes that would fit.
use iran_germany_split_tunne.Common.{
  ℕ, ◌≡◌, ◌≢◌, All, refl, ap, sym, subst, ◌∙◌, inl, inr, true, false, ◌||◌, List, [], ◌∷◌, ◌==◌,
  Bool-cases, arith,
}
use iran_germany_split_tunne.Common.Int.{pos, ◌≤ℤ◌, ◌-ℤ◌, +ℤ_parts}
use iran_germany_split_tunne.Common.Assoc.{nat_eq}
use iran_germany_split_tunne.Budget.{
  BudgetWaiter, SessionBufferBudget, new_session_buffer_budget, charged, begin, admit, fits,
  grant_all, grant_waiters_locked, remove_waiter_locked, Op, begin_op, end_op, charge_op,
  withdraw_op, refund_op, close_op, step,
}
use iran_germany_split_tunne.Budget.Accounting.{IsExact, grant_fits, grant_skips}
use iran_germany_split_tunne.Budget.Calls.{
  queued, charge_cases, withdraw_cases, uncharge, refund_cases, dropped, minus_zero, end_cases,
}
use iran_germany_split_tunne.Budget.Sealed.{
  IsSound, emptied, AllOnce, step-IsSound, steps, closed_step, close_open,
}

grant_all_limit :
    (b : SessionBufferBudget) (ws : List BudgetWaiter) → (grant_all b ws).0.limit ≡ b.limit
unfolding grant_all admit
grant_all_limit b [] = refl
grant_all_limit b (w ∷ ws) = elim (Bool-cases (fits b w)) [
  | inl h ↦ rw (grant_fits b w ws h) (grant_all_limit (admit b w) ws)
  | inr h ↦ rw (grant_skips b w ws h) (grant_all_limit b ws)
]

grant_all_grows :
    (b : SessionBufferBudget) (ws : List BudgetWaiter) → b.accounted ≤ℤ (grant_all b ws).0.accounted
unfolding grant_all admit
grant_all_grows b [] = omega arith
grant_all_grows b (w ∷ ws) = elim (Bool-cases (fits b w)) [
  | inl h ↦
      rw (grant_fits b w ws h)
        (omega (arith, grant_all_grows (admit b w) ws, +ℤ_parts b.accounted (pos w.n)))
  | inr h ↦ rw (grant_skips b w ws h) (grant_all_grows b ws)
]

-- What does not fit does not fit into less room.
fits_less :
    (b c : SessionBufferBudget) (w : BudgetWaiter)
    → c.limit ≡ b.limit
    → b.accounted ≤ℤ c.accounted
    → fits b w ≡ false
    → fits c w ≡ false
unfolding fits
fits_less b c w e less h =
    ground (arith, +ℤ_parts b.accounted (pos w.n), +ℤ_parts c.accounted (pos w.n))

grant_all_tight :
    (b : SessionBufferBudget) (ws : List BudgetWaiter)
    → All (λ w. fits (grant_all b ws).0 w ≡ false) (grant_all b ws).1
unfolding grant_all
grant_all_tight b [] = tt
grant_all_tight b (w ∷ ws) = elim (Bool-cases (fits b w)) [
  | inl h ↦ rw (grant_fits b w ws h) (grant_all_tight (admit b w) ws)
  | inr h ↦ rw (grant_skips b w ws h) (
    fits_less b (grant_all b ws).0 w (grant_all_limit b ws) (grant_all_grows b ws) h,
    grant_all_tight b ws,
  )
]

-- In an open budget with a limit, no waiter fits.
pub IsTight : SessionBufferBudget → Type 0
IsTight b = b.is_closed ≡ false → b.limit ≢ 0 → All (λ w. fits b w ≡ false) b.waiters

grant_idle :
    (b : SessionBufferBudget) → (b.is_closed || b.limit == 0) ≡ true → grant_waiters_locked b ≡ b
unfolding grant_waiters_locked
grant_idle b h = ground (arith, h)

granted : SessionBufferBudget → SessionBufferBudget
granted b = record (grant_all b b.waiters).0 { waiters = (grant_all b b.waiters).1 }

grant_busy :
    (b : SessionBufferBudget)
    → (b.is_closed || b.limit == 0) ≡ false
    → grant_waiters_locked b ≡ granted b
unfolding grant_waiters_locked granted
grant_busy b h = ground (arith, h)

fits_same :
    (b c : SessionBufferBudget) (w : BudgetWaiter)
    → c.accounted ≡ b.accounted
    → c.limit ≡ b.limit
    → fits c w ≡ fits b w
unfolding fits
fits_same b c w p q = rw (p, q) refl

grant-IsTight : (b : SessionBufferBudget) → IsTight (grant_waiters_locked b)
unfolding IsTight granted grant_all
grant-IsTight b c n = elim (Bool-cases (b.is_closed || b.limit == 0)) [
  | inl idle ↦ absurd (ground (arith, idle, grant_idle b idle, c, n))
  | inr busy ↦ rw (grant_busy b busy) (grant_all_tight b b.waiters)
]

All-same :
    (b c : SessionBufferBudget) (ws : List BudgetWaiter)
    → c.accounted ≡ b.accounted
    → c.limit ≡ b.limit
    → All (λ w. fits b w ≡ false) ws
    → All (λ w. fits c w ≡ false) ws
All-same b c [] p q h = tt
All-same b c (w ∷ ws) p q (h, hs) = (fits_same b c w p q ∙ h, All-same b c ws p q hs)

-- Only the room and the waiters matter.
kept-IsTight :
    (b c : SessionBufferBudget)
    → c.accounted ≡ b.accounted
    → c.limit ≡ b.limit
    → c.waiters ≡ b.waiters
    → c.is_closed ≡ b.is_closed
    → IsTight b
    → IsTight c
unfolding IsTight
kept-IsTight b c p q r d t unclosed limited =
    subst (All (λ w. fits c w ≡ false)) (sym r)
      (All-same b c b.waiters p q (t (sym d ∙ unclosed) (λ z. limited (q ∙ z))))

emptied-IsTight : (b : SessionBufferBudget) → IsTight (emptied b)
unfolding IsTight
emptied-IsTight b c n = tt

module _ (b : SessionBufferBudget) (s : IsExact b) (unclosed : b.is_closed ≡ false)
    (t : IsTight b) where
  open_step-IsTight : (o : Op) → IsTight (step b o)
  unfolding step begin
  open_step-IsTight (begin_op k) =
      kept-IsTight b (begin b k) (ground (arith, unclosed)) (ground (arith, unclosed))
        (ground (arith, unclosed)) (ground (arith, unclosed)) t
  open_step-IsTight (end_op k) = elim (end_cases b k s unclosed) [
    | inl e ↦ rw e t
    | inr (inl e) ↦ rw e (grant-IsTight (dropped b k (charged k b.active)))
    | inr (inr (e, z)) ↦ rw e (
        kept-IsTight b (dropped b k (charged k b.active))
          (ap (λ n. b.accounted -ℤ pos n) z ∙ minus_zero b.accounted) refl refl refl t)
  ]
  open_step-IsTight (charge_op id k n cancelled) = elim (charge_cases b id k n cancelled) [
    | inl e ↦ rw e t
    | inr e ↦ rw e (grant-IsTight (record b { waiters = queued b id k n }))
  ]
  open_step-IsTight (withdraw_op id) = elim (withdraw_cases b id) [
    | inl e ↦ rw e t
    | inr e ↦ rw e (grant-IsTight (record b { waiters = remove_waiter_locked id b.waiters }))
  ]
  open_step-IsTight (refund_op k n) = elim (refund_cases b k n) [
    | inl e ↦ rw e t
    | inr (m, less, e) ↦ rw e (grant-IsTight (uncharge b k m))
  ]
  open_step-IsTight close_op = rw (close_open b s unclosed) (emptied-IsTight b)

step-IsTight : (b : SessionBufferBudget) (o : Op) → IsSound b → IsTight b → IsTight (step b o)
step-IsTight b o s t = elim (Bool-cases b.is_closed) [
  | inl c ↦ rw (closed_step b o s.sealed c) t
  | inr c ↦ open_step-IsTight b s.exactly c t o
]

-- From a budget whose accounting is exact and in which no waiter fits, as in a new one, under every
-- order of calls in which no relay is begun again while it is registered, no charge is left waiting
-- although it would fit within the limit.
pub steps-IsTight :
    (b : SessionBufferBudget) (os : List Op)
    → AllOnce b os
    → IsSound b
    → IsTight b
    → IsTight (steps b os)
unfolding steps AllOnce
steps-IsTight b [] h s t = t
steps-IsTight b (o ∷ os) (h, hs) s t =
    steps-IsTight (step b o) os hs (step-IsSound b o h s) (step-IsTight b o s t)

pub new-IsTight : (limit : ℕ) → IsTight (new_session_buffer_budget limit)
unfolding IsTight new_session_buffer_budget
new-IsTight limit c n = tt
