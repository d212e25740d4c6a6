-- ===== src/Common/Slices.antt =====
-- Go's slices of bytes: `==`, `b[lo:hi]` and copy into a fresh array.
use Prim.Native.Nat.{ℕ, zero, suc, ◌+◌, ◌-◌}
use mathlib.Core.Path.{◌≡◌, refl, sym, ap, ◌∙◌}
use mathlib.Core.Bool.{Bool, true, false, ◌&&◌}
use mathlib.Core.List.{List, [], ◌∷◌, ◌++◌}
use native.Mathlib.Omega.{arith}
use iran_germany_split_tunne.Common.Tests.{◌==◌}
use iran_germany_split_tunne.Common.Lists.{
  length, take, drop, replicate, take-append, drop-append, take-append-drop,
}

-- `==` on two strings, and `subtle.ConstantTimeCompare`.
unfoldable pub same_bytes : List ℕ → List ℕ → Bool
same_bytes [] [] = true
same_bytes [] (b ∷ bs) = false
same_bytes (a ∷ xs) [] = false
same_bytes (a ∷ xs) (b ∷ bs) = (a == b) && same_bytes xs bs

pub same_bytes_eq : (xs ys : List ℕ) → same_bytes xs ys ≡ true → xs ≡ ys
unfolding same_bytes
same_bytes_eq [] [] h = refl
same_bytes_eq [] (y ∷ ys) h = cc
same_bytes_eq (x ∷ xs) [] h = cc
same_bytes_eq (x ∷ xs) (y ∷ ys) h = ground (arith, same_bytes_eq xs ys)

pub same_bytes_self : (xs : List ℕ) → same_bytes xs xs ≡ true
unfolding same_bytes
same_bytes_self [] = refl
same_bytes_self (x ∷ xs) = ground (arith, same_bytes_self xs)

unfoldable pub slice : ℕ → ℕ → List ℕ → List ℕ
slice lo hi bs = take (hi - lo) (drop lo bs)

-- `copy` into `n` bytes of a fresh array.
unfoldable pub copied : ℕ → List ℕ → List ℕ
copied n bs = take n (bs ++ replicate n 0)

pub copied_whole : (n : ℕ) (bs : List ℕ) → length bs ≡ n → copied n bs ≡ bs
unfolding copied
copied_whole n bs h =
    ap (λ m. take m (bs ++ replicate n 0)) (sym h) ∙ take-append bs (replicate n 0)

pub take_front : (n : ℕ) (xs ys : List ℕ) → length xs ≡ n → take n (xs ++ ys) ≡ xs
take_front n xs ys h = ap (λ m. take m (xs ++ ys)) (sym h) ∙ take-append xs ys

drop_nil : (k : ℕ) → drop {A = ℕ} k [] ≡ []
drop_nil zero = refl
drop_nil (suc k) = refl

drop-plus : (m k : ℕ) (bs : List ℕ) → drop (m + k) bs ≡ drop k (drop m bs)
drop-plus zero k bs = let e : 0 + k ≡ k = omega arith in ap (λ n. drop n bs) e
drop-plus (suc m) k [] = drop_nil (suc m + k) ∙ sym (drop_nil k)
drop-plus (suc m) k (b ∷ bs) =
    let e : suc m + k ≡ suc (m + k) = omega arith in ap (λ n. drop n (b ∷ bs)) e ∙ drop-plus m k bs

pub drop_front : (n k : ℕ) (xs ys : List ℕ) → length xs ≡ n → drop (n + k) (xs ++ ys) ≡ drop k ys
drop_front n k xs ys h =
    ap (λ m. drop (m + k) (xs ++ ys)) (sym h)
    ∙ drop-plus (length xs) k (xs ++ ys)
    ∙ ap (drop k) (drop-append xs ys)

-- What begins at `m` is the slice up to `m + n` and what begins there.
pub cut : (m n : ℕ) (bs : List ℕ) → drop m bs ≡ take n (drop m bs) ++ drop (m + n) bs
cut m n bs =
    sym (take-append-drop n (drop m bs))
    ∙ ap (λ r. take n (drop m bs) ++ r) (sym (drop-plus m n bs))
