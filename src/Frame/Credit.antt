-- ===== src/Frame/Credit.antt =====
-- pkg/mux/frame.go: the 32-byte FrameCredit payload, its encoder, decoder and validation.
use Prim.Native.Nat.{bit_and}
use iran_germany_split_tunne.Common.{
  ℕ, zero, suc, ◌^◌, ◌<◌, ◌≡◌, refl, ap, ◌∙◌, ◌⊎◌, ◌↔◌, ◌≢◌, Bool, true, false, not, Option, none,
  some, List, [], ◌∷◌, ◌++◌, ltb, ◌==◌, if◌then◌else◌, length, take, drop, All, holds_below,
  holds_below_at, arith,
}
use iran_germany_split_tunne.Common.Bytes.{be, of_be, of_be-be}
use iran_germany_split_tunne.Frame.{Result, ok, err, malformed_length, byte_at}

abbrev pub credit_payload_size : ℕ
credit_payload_size = 32

abbrev pub credit_version : ℕ
credit_version = 1

abbrev pub credit_flags_final : ℕ
credit_flags_final = 0x01

abbrev pub credit_flags_reserved_mask : ℕ
credit_flags_reserved_mask = 0xFE

pub record CreditPayload : Type 0 where
  pub version : ℕ
  pub gen : ℕ
  pub bytes_consumed : ℕ
  pub window_granted : ℕ
  pub flags : ℕ
  pub reserved : List ℕ

-- `copy` of `xs` into a zeroed slice of `n` bytes: as much as fits, and zeros behind it.
unfoldable pub copy_into : ℕ → List ℕ → List ℕ
copy_into zero xs = []
copy_into (suc n) [] = 0 ∷ copy_into n []
copy_into (suc n) (x ∷ xs) = x ∷ copy_into n xs

unfoldable pub encode_credit_payload : CreditPayload → List ℕ
encode_credit_payload p =
    p.version
    ∷ (be 8 p.gen
        ++ (be 8 p.bytes_consumed
            ++ (be 4 p.window_granted ++ (p.flags ∷ copy_into 10 p.reserved))))

unfoldable pub decode_credit_payload : List ℕ → Result CreditPayload
decode_credit_payload raw =
    if length raw == credit_payload_size
    then ok (record {
      version = byte_at 0 raw;
      gen = of_be (take 8 (drop 1 raw));
      bytes_consumed = of_be (take 8 (drop 9 raw));
      window_granted = of_be (take 4 (drop 17 raw));
      flags = byte_at 21 raw;
      reserved = take 10 (drop 22 raw);
    })
    else err malformed_length

unfoldable pub clamp_credit_window : ℕ → ℕ → ℕ
clamp_credit_window w cap = if ltb cap w then cap else w

unfoldable pub stale_credit_generation : ℕ → ℕ → Bool
stale_credit_generation gen carrier_gen = not (gen == carrier_gen)

-- `CreditValidationErr`, by its Rule.
pub data Rule : Type 0 where
  rule_version rule_gen_zero rule_reserved_bytes rule_reserved_flags : Rule

all_zero : List ℕ → Bool
all_zero [] = true
all_zero (b ∷ bs) = if b == 0 then all_zero bs else false

unfoldable pub validate_credit_payload : CreditPayload → Option Rule
unfolding all_zero
validate_credit_payload p =
    if not (p.version == credit_version)
    then some rule_version
    else if p.gen == 0
    then some rule_gen_zero
    else if not (all_zero p.reserved)
    then some rule_reserved_bytes
    else if not (bit_and p.flags credit_flags_reserved_mask == 0)
    then some rule_reserved_flags
    else none

-- A payload whose fields have the widths of the Go struct, with the ten reserved bytes.
pub record Fits (p : CreditPayload) : Type 0 where
  pub version_fits : p.version < 256
  pub gen_fits : p.gen < 2 ^ 64
  pub bytes_fit : p.bytes_consumed < 2 ^ 64
  pub window_fits : p.window_granted < 2 ^ 32
  pub flags_fit : p.flags < 256
  pub reserved_ten : length p.reserved ≡ 10

copy_into_exact : (n : ℕ) (xs : List ℕ) → length xs ≡ n → copy_into n xs ≡ xs
unfolding copy_into
copy_into_exact zero [] h = refl
copy_into_exact zero (x ∷ xs) h = absurd (omega arith)
copy_into_exact (suc n) [] h = absurd (omega arith)
copy_into_exact (suc n) (x ∷ xs) h = ap (◌∷◌ x) (copy_into_exact n xs (omega arith))

length-copy_into : (n : ℕ) (xs : List ℕ) → length (copy_into n xs) ≡ n
unfolding copy_into
length-copy_into zero xs = refl
length-copy_into (suc n) [] = ap suc (length-copy_into n [])
length-copy_into (suc n) (x ∷ xs) = ap suc (length-copy_into n xs)

-- The encoder always writes 32 bytes, whatever the payload's fields are.
length-encode_credit_payload : (p : CreditPayload) → length (encode_credit_payload p) ≡ 32
unfolding encode_credit_payload be
length-encode_credit_payload p = omega (arith, length-copy_into 10 p.reserved)

take_all : (n : ℕ) (xs : List ℕ) → length xs ≡ n → take n xs ≡ xs
take_all zero [] h = refl
take_all zero (x ∷ xs) h = absurd (omega arith)
take_all (suc n) [] h = absurd (omega arith)
take_all (suc n) (x ∷ xs) h = ap (◌∷◌ x) (take_all n xs (omega arith))

field_gen : (p : CreditPayload) → take 8 (drop 1 (encode_credit_payload p)) ≡ be 8 p.gen
unfolding encode_credit_payload be
field_gen p = refl

field_bytes_consumed :
    (p : CreditPayload) → take 8 (drop 9 (encode_credit_payload p)) ≡ be 8 p.bytes_consumed
unfolding encode_credit_payload be
field_bytes_consumed p = refl

field_window_granted :
    (p : CreditPayload) → take 4 (drop 17 (encode_credit_payload p)) ≡ be 4 p.window_granted
unfolding encode_credit_payload be
field_window_granted p = refl

field_version : (p : CreditPayload) → byte_at 0 (encode_credit_payload p) ≡ p.version
unfolding encode_credit_payload
field_version p = refl

field_flags : (p : CreditPayload) → byte_at 21 (encode_credit_payload p) ≡ p.flags
unfolding encode_credit_payload be
field_flags p = refl

field_reserved :
    (p : CreditPayload)
    → length p.reserved ≡ 10
    → take 10 (drop 22 (encode_credit_payload p)) ≡ p.reserved
unfolding encode_credit_payload be
field_reserved p h =
    let c = copy_into 10 p.reserved in
    take_all 10 c (length-copy_into 10 p.reserved) ∙ copy_into_exact 10 p.reserved h

decode_32 :
    (raw : List ℕ)
    → length raw ≡ 32
    → decode_credit_payload raw
      ≡ ok (record {
        version = byte_at 0 raw;
        gen = of_be (take 8 (drop 1 raw));
        bytes_consumed = of_be (take 8 (drop 9 raw));
        window_granted = of_be (take 4 (drop 17 raw));
        flags = byte_at 21 raw;
        reserved = take 10 (drop 22 raw);
      })
unfolding decode_credit_payload
decode_32 raw h = rw h refl

-- The decoder returns the payload that the encoder was given, field for field.
pub decode-encode_credit_payload :
    (p : CreditPayload) → Fits p → decode_credit_payload (encode_credit_payload p) ≡ ok p
decode-encode_credit_payload p h =
    decode_32 (encode_credit_payload p) (length-encode_credit_payload p) ∙ λ i. ok (record {
      version = field_version p i;
      gen = (ap of_be (field_gen p) ∙ of_be-be 8 p.gen h.gen_fits) i;
      bytes_consumed =
          (ap of_be (field_bytes_consumed p) ∙ of_be-be 8 p.bytes_consumed h.bytes_fit) i;
      window_granted =
          (ap of_be (field_window_granted p) ∙ of_be-be 4 p.window_granted h.window_fits) i;
      flags = field_flags p i;
      reserved = field_reserved p h.reserved_ten i;
    })

-- The decoder refuses exactly the slices that are not 32 bytes long.
pub decode_credit_payload_refuses :
    (raw : List ℕ)
    → (decode_credit_payload raw ≡ err malformed_length) ↔ (length raw ≢ credit_payload_size)
unfolding decode_credit_payload
decode_credit_payload_refuses raw = ground arith

-- All the reserved bits are clear: seven of the flags' and the ten bytes'.
pub record IsValid (p : CreditPayload) : Type 0 where
  pub version_one : p.version ≡ credit_version
  pub gen_nonzero : p.gen ≢ 0
  pub reserved_zero : All (λ b. b ≡ 0) p.reserved
  pub flags_small : (p.flags ≡ 0) ⊎ (p.flags ≡ credit_flags_final)

all_zero_sound : (bs : List ℕ) → all_zero bs ≡ true → All (λ b. b ≡ 0) bs
unfolding all_zero
all_zero_sound [] h = tt
all_zero_sound (b ∷ bs) h = ground (arith, all_zero_sound bs)

all_zero_complete : (bs : List ℕ) → All (λ b. b ≡ 0) bs → all_zero bs ≡ true
unfolding all_zero
all_zero_complete [] h = refl
all_zero_complete (b ∷ bs) (h, hs) = ground (arith, all_zero_complete bs hs)

-- Whether the masked flags are zero, for every byte: only 0 and FINAL pass.
mask_test : ℕ → Bool
mask_test n =
    let clear = bit_and n credit_flags_reserved_mask == 0 in if ltb n 2 then clear else not clear

mask_table : holds_below mask_test 256 ≡ true
unfolding holds_below mask_test
mask_table = refl

mask_clear : (n : ℕ) → n < 256 → (bit_and n credit_flags_reserved_mask == 0) ≡ ltb n 2
unfolding mask_test
mask_clear n h = ground (arith, holds_below_at mask_test 256 mask_table n h)

-- The validation accepts a payload exactly when the version is 1, the generation is not zero, all
-- ten reserved bytes are zero and no flag but FINAL is set.
pub validate_credit_payload_accepts :
    (p : CreditPayload) → Fits p → (validate_credit_payload p ≡ none) ↔ IsValid p
unfolding validate_credit_payload
validate_credit_payload_accepts p h = (
  λ e. record {
    version_one = ground arith;
    gen_nonzero = λ z. ground arith;
    reserved_zero = all_zero_sound p.reserved (ground arith);
    flags_small = ground (arith, mask_clear p.flags h.flags_fit);
  },
  λ v. ground (arith, mask_clear p.flags h.flags_fit, all_zero_complete p.reserved v.reserved_zero),
)
