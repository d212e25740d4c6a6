-- ===== src/Governor/Recency.antt =====
-- The lists of a governor (pkg/node/target_dial_governor.go): what touchMRU does to the recency
-- order and to the map, counted.
use iran_germany_split_tunne.Common.{
  ℕ, ◌+◌, ◌≡◌, refl, true, List, [], ◌∷◌, ◌++◌, length, if◌then◌else◌, arith,
}
use iran_germany_split_tunne.Common.Assoc.{
  string_eq, lookup, insert, delete, Unique, total, value_at, total-insert, total-delete,
}
use iran_germany_split_tunne.Governor.{GovernorEntry, remove_first, contains}
use Prim.Native.String.{String}

abbrev pub once : GovernorEntry → ℕ
once e = 1

unfoldable pub occurs : String → List String → ℕ
occurs t [] = 0
occurs t (s ∷ order) = (if string_eq.beq s t then 1 else 0) + occurs t order

pub occurs-append :
    (t : String) (xs ys : List String) → occurs t (xs ++ ys) ≡ occurs t xs + occurs t ys
unfolding occurs
occurs-append t [] ys = omega arith
occurs-append t (x ∷ xs) ys = omega (arith, occurs-append t xs ys)

pub occurs-remove_first :
    (t u : String) (xs : List String)
    → contains t xs ≡ true
    → occurs u (remove_first t xs) + (if string_eq.beq t u then 1 else 0) ≡ occurs u xs
unfolding occurs remove_first contains
occurs-remove_first t u [] h = absurd (ground arith)
occurs-remove_first t u (x ∷ xs) h = ground (
  arith,
  string_eq.beq_iff x t,
  string_eq.beq_iff x u,
  string_eq.beq_iff t u,
  occurs-remove_first t u xs,
)

pub length-remove_first :
    (t : String) (xs : List String)
    → contains t xs ≡ true
    → length (remove_first t xs) + 1 ≡ length xs
unfolding remove_first contains
length-remove_first t [] h = absurd (ground arith)
length-remove_first t (x ∷ xs) h = ground (arith, length-remove_first t xs)

pub length-total : (m : List (String × GovernorEntry)) → length m ≡ total once m
unfolding total
length-total [] = refl
length-total ((k, e) ∷ m) = omega (arith, length-total m)

pub length-insert :
    (t : String) (e : GovernorEntry) (m : List (String × GovernorEntry))
    → length (insert t e m) + value_at once (lookup t m) ≡ length m + 1
length-insert t e m =
    omega (arith, length-total m, length-total (insert t e m), total-insert once t e m)

pub length-delete :
    (t : String) (m : List (String × GovernorEntry))
    → Unique m
    → length (delete t m) + value_at once (lookup t m) ≡ length m
length-delete t m u =
    omega (arith, length-total m, length-total (delete t m), total-delete once t m u)
