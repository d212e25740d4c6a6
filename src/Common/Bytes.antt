-- ===== src/Common/Bytes.antt =====
-- Go's byte slices as lists of numbers: encoding/binary's BigEndian, io.ReadFull and copy.
use Prim.Native.Nat.{ℕ, zero, suc, ◌+◌, ◌*◌, ◌/◌, ◌%◌, ◌^◌, ◌<◌}
use mathlib.Core.Path.{◌≡◌, refl, ◌∙◌}
use mathlib.Core.List.{List, [], ◌∷◌, ◌++◌}
use native.Mathlib.Omega.{arith}
use native.Mathlib.Nat.{pow-suc}
use iran_germany_split_tunne.Common.Lists.{length, length-append}

abbrev pub IsByte : ℕ → Type 0
IsByte b = b < 256

-- `BigEndian.PutUint16/32/64` into a slice of `k` bytes: byte(v >> 8 * (k - 1)), ..., byte(v).
unfoldable pub be : ℕ → ℕ → List ℕ
be zero v = []
be (suc k) v = be k (v / 256) ++ (v % 256 ∷ [])

-- `BigEndian.Uint16/32/64`.
abbrev pub be_acc : ℕ → List ℕ → ℕ
be_acc acc [] = acc
be_acc acc (b ∷ bs) = be_acc (acc * 256 + b) bs

unfoldable pub of_be : List ℕ → ℕ
of_be bs = be_acc 0 bs

pub length-be : (k v : ℕ) → length (be k v) ≡ k
unfolding be
length-be zero v = refl
length-be (suc k) v =
    omega (arith, length-append (be k (v / 256)) (v % 256 ∷ []), length-be k (v / 256))

be_acc-append : (acc : ℕ) (xs ys : List ℕ) → be_acc acc (xs ++ ys) ≡ be_acc (be_acc acc xs) ys
be_acc-append acc [] ys = refl
be_acc-append acc (x ∷ xs) ys = be_acc-append (acc * 256 + x) xs ys

be_acc-be : (k v : ℕ) → v < 256 ^ k → be_acc 0 (be k v) ≡ v
unfolding be
be_acc-be zero v h = omega arith
be_acc-be (suc k) v h =
    be_acc-append 0 (be k (v / 256)) (v % 256 ∷ [])
    ∙ omega (arith, be_acc-be k (v / 256) (omega (arith, pow-suc 256 k)))

-- What a reader takes out of a big-endian field is what the writer put in.
pub of_be-be : (k v : ℕ) → v < 256 ^ k → of_be (be k v) ≡ v
unfolding of_be
of_be-be k v h = be_acc-be k v h
