-- ===== src/Budget/Accounting.antt =====
-- pkg/node/budget.go: the accounted bytes are the sum of the relays' charges, within the limit.
use iran_germany_split_tunne.Common.{
  ℕ, ◌+◌, ◌-◌, ◌≤◌, ◌≡◌, ap, ◌∙◌, inl, inr, true, false, ◌||◌, List, [], ◌∷◌, ◌==◌, Bool-cases,
  arith,
}
use iran_germany_split_tunne.Common.Int.{pos, ◌+ℤ◌, ◌-ℤ◌, eq_of_parts, +ℤ_parts, -ℤ_parts}
use iran_germany_split_tunne.Common.Assoc.{
  insert, total, nat_eq, Unique, insert-Unique, total-insert,
}
use iran_germany_split_tunne.Budget.{
  BudgetWaiter, SessionBufferBudget, charged, admit, fits, grant_all, grant_waiters_locked,
}

abbrev pub sum : List (ℕ × ℕ) → ℕ
sum active = total (λ n. n) active

pub record IsExact (b : SessionBufferBudget) : Type 0 where
  pub exact : b.accounted ≡ pos (sum b.active)
  pub unique : Unique b.active
  pub bounded : sum b.active ≤ b.limit

pub pos_add : (a b : ℕ) → pos a +ℤ pos b ≡ pos (a + b)
pos_add a b = eq_of_parts _ _ (omega (arith, +ℤ_parts (pos a) (pos b)))

pub pos_sub : (a b : ℕ) → b ≤ a → pos a -ℤ pos b ≡ pos (a - b)
pos_sub a b h = eq_of_parts _ _ (omega (arith, -ℤ_parts (pos a) (pos b)))

pub sum-insert :
    (k n : ℕ) (active : List (ℕ × ℕ)) → sum (insert k n active) + charged k active ≡ sum active + n
unfolding charged
sum-insert k n active = total-insert (λ m. m) k n active

pub admit-IsExact :
    (b : SessionBufferBudget) (w : BudgetWaiter) → fits b w ≡ true → IsExact b → IsExact (admit b w)
unfolding admit fits
admit-IsExact b w h s = record {
  exact =
      ap (λ z. z +ℤ pos w.n) s.exact
      ∙ pos_add (sum b.active) w.n
      ∙ ap pos (omega (arith, sum-insert w.key (charged w.key b.active + w.n) b.active));
  unique = insert-Unique w.key (charged w.key b.active + w.n) b.active s.unique;
  bounded = ground (
    arith,
    h,
    s.exact,
    pos_add (sum b.active) w.n,
    sum-insert w.key (charged w.key b.active + w.n) b.active,
  );
}

pub grant_fits :
    (b : SessionBufferBudget) (w : BudgetWaiter) (ws : List BudgetWaiter)
    → fits b w ≡ true
    → grant_all b (w ∷ ws) ≡ grant_all (admit b w) ws
unfolding grant_all
grant_fits b w ws h = ground (arith, h)

pub grant_skips :
    (b : SessionBufferBudget) (w : BudgetWaiter) (ws : List BudgetWaiter)
    → fits b w ≡ false
    → grant_all b (w ∷ ws) ≡ ((grant_all b ws).0, w ∷ (grant_all b ws).1)
unfolding grant_all
grant_skips b w ws h = ground (arith, h)

pub grant_all-IsExact :
    (b : SessionBufferBudget) (ws : List BudgetWaiter) → IsExact b → IsExact (grant_all b ws).0
unfolding grant_all
grant_all-IsExact b [] s = s
grant_all-IsExact b (w ∷ ws) s = elim (Bool-cases (fits b w)) [
  | inl h ↦ rw (grant_fits b w ws h) (grant_all-IsExact (admit b w) ws (admit-IsExact b w h s))
  | inr h ↦ rw (grant_skips b w ws h) (grant_all-IsExact b ws s)
]

pub grant-IsExact : (b : SessionBufferBudget) → IsExact b → IsExact (grant_waiters_locked b)
unfolding grant_waiters_locked
grant-IsExact b s = elim (Bool-cases (b.is_closed || b.limit == 0)) [
  | inl h ↦ rw h s
  | inr h ↦
      let g = grant_all-IsExact b b.waiters s in
      rw h (record { exact = g.exact; unique = g.unique; bounded = g.bounded })
]
