-- ===== src/Budget/Calls.antt =====
-- pkg/node/budget.go: what each call does to the accounting.
use iran_germany_split_tunne.Common.{
  ℕ, ◌-◌, ◌≤◌, ◌≡◌, ap, sym, subst, ◌∙◌, inl, inr, ◌⊎◌, Bool, false, ◌||◌, none, some, List, [],
  ◌∷◌, ◌++◌, ◌==◌, ltb, Option-cases, Bool-cases, arith,
}
use iran_germany_split_tunne.Common.Int.{ℤ, pos, ◌-ℤ◌, eq_of_parts, -ℤ_parts}
use iran_germany_split_tunne.Common.Assoc.{
  lookup, insert, delete, nat_eq, insert-Unique, delete-Unique, total-delete,
}
use iran_germany_split_tunne.Budget.{
  BudgetWaiter, SessionBufferBudget, charged, begin, grant_waiters_locked, charge, withdraw, refund,
  end, remove_waiter_locked, has_id,
}
use iran_germany_split_tunne.Budget.Accounting.{sum, IsExact, pos_sub, sum-insert, grant-IsExact}

pub begun-IsExact :
    (b : SessionBufferBudget) (k : ℕ)
    → lookup k b.active ≡ none
    → IsExact b
    → IsExact (record b { active = insert k 0 b.active })
unfolding charged
begun-IsExact b k h s = record {
  exact = s.exact ∙ ap pos (ground (arith, h, sum-insert k 0 b.active));
  unique = insert-Unique k 0 b.active s.unique;
  bounded = ground (arith, h, s.bounded, sum-insert k 0 b.active);
}

pub begin-IsExact :
    (b : SessionBufferBudget) (k : ℕ) → lookup k b.active ≡ none → IsExact b → IsExact (begin b k)
unfolding begin
begin-IsExact b k h s = elim (Bool-cases b.is_closed) [
  | inl c ↦ subst IsExact (ground (arith, c)) s
  | inr c ↦ subst IsExact (ground (arith, c)) (begun-IsExact b k h s)
]

pub enqueued-IsExact :
    (b : SessionBufferBudget) (ws : List BudgetWaiter)
    → IsExact b
    → IsExact (grant_waiters_locked (record b { waiters = ws }))
enqueued-IsExact b ws s =
    grant-IsExact (record b { waiters = ws })
      (record { exact = s.exact; unique = s.unique; bounded = s.bounded })

abbrev pub queued : SessionBufferBudget → ℕ → ℕ → ℕ → List BudgetWaiter
queued b id k n = b.waiters ++ (record { id = id; key = k; n = n } ∷ [])

-- A charge changes nothing, or it enqueues a waiter and grants.
pub charge_cases :
    (b : SessionBufferBudget) (id k n : ℕ) (cancelled : Bool)
    → ((charge b id k n cancelled).0 ≡ b)
      ⊎ ((charge b id k n cancelled).0
          ≡ grant_waiters_locked (record b { waiters = queued b id k n }))
unfolding charge
charge_cases b id k n cancelled = elim (Option-cases (lookup k b.active)) [
  | inl e ↦ inl (ground (arith, e))
  | inr (cur, e) ↦ elim (Bool-cases (n == 0 || (cancelled || (b.is_closed || b.limit == 0)))) [
    | inl c ↦ inl (ground (arith, e, c))
    | inr c ↦ inr (ground (arith, e, c))
  ]
]

pub charge-IsExact :
    (b : SessionBufferBudget) (id k n : ℕ) (cancelled : Bool)
    → IsExact b
    → IsExact (charge b id k n cancelled).0
charge-IsExact b id k n cancelled s = elim (charge_cases b id k n cancelled) [
  | inl e ↦ subst IsExact (sym e) s
  | inr e ↦ subst IsExact (sym e) (enqueued-IsExact b (queued b id k n) s)
]

pub withdraw_cases :
    (b : SessionBufferBudget) (id : ℕ)
    → ((withdraw b id).0 ≡ b)
      ⊎ ((withdraw b id).0
          ≡ grant_waiters_locked (record b { waiters = remove_waiter_locked id b.waiters }))
unfolding withdraw
withdraw_cases b id = elim (Bool-cases (has_id id b.admitted)) [
  | inl c ↦ inl (ground (arith, c))
  | inr c ↦ inr (ground (arith, c))
]

pub withdraw-IsExact : (b : SessionBufferBudget) (id : ℕ) → IsExact b → IsExact (withdraw b id).0
withdraw-IsExact b id s = elim (withdraw_cases b id) [
  | inl e ↦ subst IsExact (sym e) s
  | inr e ↦ subst IsExact (sym e) (enqueued-IsExact b (remove_waiter_locked id b.waiters) s)
]

-- The charge of a relay goes down by `n`.
pub lowered-IsExact :
    (b : SessionBufferBudget) (k n : ℕ)
    → n ≤ charged k b.active
    → IsExact b
    → IsExact (record b {
      accounted = b.accounted -ℤ pos n;
      active = insert k (charged k b.active - n) b.active;
    })
lowered-IsExact b k n h s =
    let sums0 = sum-insert k 0 b.active in
    let sums = sum-insert k (charged k b.active - n) b.active in
    record {
      exact =
          ap (λ z. z -ℤ pos n) s.exact
          ∙ pos_sub (sum b.active) n (omega (arith, h, sums0))
          ∙ ap pos (omega (arith, sums, h));
      unique = insert-Unique k (charged k b.active - n) b.active s.unique;
      bounded = omega (arith, sums, h, s.bounded);
    }

abbrev pub uncharge : SessionBufferBudget → ℕ → ℕ → SessionBufferBudget
uncharge b k n = record b {
  accounted = b.accounted -ℤ pos n;
  active = insert k (charged k b.active - n) b.active;
}

-- A refund changes nothing, or it takes a part of the relay's charge back and grants.
pub refund_cases :
    (b : SessionBufferBudget) (k n : ℕ)
    → ((refund b k n).0 ≡ b)
      ⊎ ((m : ℕ) × (m ≤ charged k b.active)
          × ((refund b k n).0 ≡ grant_waiters_locked (uncharge b k m)))
unfolding refund
refund_cases b k n = elim (Bool-cases (n == 0 || (b.limit == 0 || b.is_closed))) [
  | inl c ↦ inl (ground (arith, c))
  | inr c ↦ elim (Bool-cases (ltb (charged k b.active) n)) [
    | inl big ↦ elim (Bool-cases (charged k b.active == 0)) [
      | inl z ↦ inl (ground (arith, c, big, z))
      | inr z ↦ inr (charged k b.active, omega arith, ground (arith, c, big, z))
    ]
    | inr small ↦ inr (n, ground (arith, small), ground (arith, c, small))
  ]
]

pub refund-IsExact : (b : SessionBufferBudget) (k n : ℕ) → IsExact b → IsExact (refund b k n).0
refund-IsExact b k n s = elim (refund_cases b k n) [
  | inl e ↦ subst IsExact (sym e) s
  | inr (m, less, e) ↦
      subst IsExact (sym e) (grant-IsExact (uncharge b k m) (lowered-IsExact b k m less s))
]

abbrev pub dropped : SessionBufferBudget → ℕ → ℕ → SessionBufferBudget
dropped b k n = record b { accounted = b.accounted -ℤ pos n; active = delete k b.active }

pub dropped-IsExact :
    (b : SessionBufferBudget) (k : ℕ) → IsExact b → IsExact (dropped b k (charged k b.active))
unfolding charged
dropped-IsExact b k s =
    let sums = total-delete (λ n. n) k b.active s.unique in
    record {
      exact =
          ap (λ z. z -ℤ pos (charged k b.active)) s.exact
          ∙ pos_sub (sum b.active) (charged k b.active) (omega (arith, sums))
          ∙ ap pos (omega (arith, sums));
      unique = delete-Unique k b.active s.unique;
      bounded = omega (arith, sums, s.bounded);
    }

pub minus_zero : (z : ℤ) → z -ℤ pos 0 ≡ z
minus_zero z = eq_of_parts _ _ (omega (arith, -ℤ_parts z (pos 0)))

pub charged_at :
    (k cur : ℕ) (active : List (ℕ × ℕ)) → lookup k active ≡ some cur → charged k active ≡ cur
unfolding charged
charged_at k cur active e = ground (arith, e)

pub charged_in_sum : (k : ℕ) (active : List (ℕ × ℕ)) → charged k active ≤ sum active
charged_in_sum k active = omega (arith, sum-insert k 0 active)

-- An end of an open budget changes nothing, or it takes the relay's whole charge back; it grants
-- unless that charge was 0.
pub end_cases :
    (b : SessionBufferBudget) (k : ℕ)
    → IsExact b
    → b.is_closed ≡ false
    → ((end b k).0 ≡ b)
      ⊎ ((end b k).0 ≡ grant_waiters_locked (dropped b k (charged k b.active)))
      ⊎ (((end b k).0 ≡ dropped b k (charged k b.active)) × (charged k b.active ≡ 0))
unfolding end
end_cases b k s c = elim (Option-cases (lookup k b.active)) [
  | inl e ↦ inl (ground (arith, e))
  | inr (cur, e) ↦
      let q = charged_at k cur b.active e in
      let less = charged_in_sum k b.active in
      elim (Bool-cases (ltb 0 cur)) [
        | inl some_left ↦ inr (inl (ground (arith, e, q, c, less, s.bounded, some_left)))
        | inr none_left ↦ inr (
            inr (
              ground (arith, e, q, c, none_left, minus_zero b.accounted),
              ground (arith, q, none_left),
            ))
      ]
]

pub end-IsExact :
    (b : SessionBufferBudget) (k : ℕ) → b.is_closed ≡ false → IsExact b → IsExact (end b k).0
end-IsExact b k c s = elim (end_cases b k s c) [
  | inl e ↦ subst IsExact (sym e) s
  | inr (inl e) ↦
      subst IsExact (sym e)
        (grant-IsExact (dropped b k (charged k b.active)) (dropped-IsExact b k s))
  | inr (inr (e, z)) ↦ subst IsExact (sym e) (dropped-IsExact b k s)
]
