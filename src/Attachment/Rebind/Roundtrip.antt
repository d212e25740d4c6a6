-- ===== src/Attachment/Rebind/Roundtrip.antt =====
-- pkg/session/attachment.go: what ParseRebind and ParseRebindAny make of an encoded FrameRebind.
use iran_germany_split_tunne.Common.{
  ℕ, zero, suc, ◌+◌, ◌-◌, ◌≤◌, ◌<◌, ◌^◌, ◌≡◌, refl, ap, sym, ◌∙◌, inl, inr, none, some, List, [],
  ◌∷◌, ◌++◌, ltb, length, length-append, take, drop, take-append, drop-append, length-take_of_le,
  Bool-cases, arith,
}
use iran_germany_split_tunne.Common.Bytes.{be, of_be, of_be-be, length-be}
use iran_germany_split_tunne.Attachment.Rebind.{
  encode_rebind, encode_rebind_v2, bounded_id, first, slice, byte_at, parse_rebind, parse_rebind_v2,
  parse_rebind_any,
}

module _ {ℓ} {A : Type ℓ} where
  take_at : (n : ℕ) (xs ys : List A) → length xs ≡ n → take n (xs ++ ys) ≡ xs
  take_at n xs ys h = rw (sym h) (take-append xs ys)

  drop_at : (n k : ℕ) (xs ys : List A) → length xs ≡ n → drop (n + k) (xs ++ ys) ≡ drop k ys
  drop_at n k [] ys h = ground (arith, h)
  drop_at n k (x ∷ xs) ys h =
      let count : n + k ≡ suc (length xs + k) = omega (arith, h) in
      rw count (drop_at (length xs) k xs ys refl)

gen_field : (gen : ℕ) → gen < 2 ^ 64 → of_be (take 8 (be 8 gen)) ≡ gen
unfolding be
gen_field gen h = of_be-be 8 gen h

length-bounded_id : (id : List ℕ) → length (bounded_id id) ≤ 32
unfolding bounded_id
length-bounded_id id = elim (Bool-cases (ltb 32 (length id))) [
  | inl long ↦ ground (arith, long, length-take_of_le 32 id)
  | inr short ↦ ground (arith, short)
]

take_all : (n : ℕ) (xs : List ℕ) → length xs ≤ n → take n xs ≡ xs
take_all zero [] h = refl
take_all (suc n) [] h = refl
take_all zero (x ∷ xs) h = absurd (omega arith)
take_all (suc n) (x ∷ xs) h = ap (◌∷◌ x) (take_all n xs (omega arith))

bounded_id-take : (id : List ℕ) → bounded_id id ≡ take 32 id
unfolding bounded_id
bounded_id-take id = elim (Bool-cases (ltb 32 (length id))) [
  | inl long ↦ ground (arith, long)
  | inr short ↦ ground (arith, short, take_all 32 id)
]

module _ (sid : List ℕ) (gen : ℕ) (sid_size : length sid ≡ 16) (small : gen < 2 ^ 64) where
  v1_length : length (encode_rebind sid gen) ≡ 25
  unfolding encode_rebind
  v1_length = omega (arith, length-append sid (be 8 gen), length-be 8 gen, sid_size)

  v1_sid : slice 1 17 (encode_rebind sid gen) ≡ sid
  unfolding encode_rebind slice
  v1_sid = take_at 16 sid (be 8 gen) sid_size

  v1_gen : of_be (slice 17 25 (encode_rebind sid gen)) ≡ gen
  unfolding encode_rebind slice
  v1_gen = ap (λ bs. of_be (take 8 bs)) (drop_at 16 0 sid (be 8 gen) sid_size) ∙ gen_field gen small

  v1_parsed : parse_rebind (encode_rebind sid gen) ≡ some (sid, gen)
  unfolding parse_rebind byte_at encode_rebind
  v1_parsed = ground (arith, v1_length, v1_sid, v1_gen)

  v1_parsed_any :
      parse_rebind_any (encode_rebind sid gen)
      ≡ some (record { version = 1; session_id = sid; carrier_id = []; gen = gen })
  unfolding parse_rebind_any byte_at encode_rebind
  v1_parsed_any = ground (arith, v1_length, v1_sid, v1_gen)

  module _ (carrier_id : List ℕ) where
    abbrev id : List ℕ
    id = bounded_id carrier_id

    abbrev id_field : List ℕ
    id_field = length id ∷ (id ++ be 8 gen)

    v2_length : length (encode_rebind_v2 sid carrier_id gen) ≡ 18 + length id + 8
    unfolding encode_rebind_v2
    v2_length =
        omega (
          arith,
          length-append sid id_field,
          length-append id (be 8 gen),
          length-be 8 gen,
          sid_size,
        )

    v2_sid : slice 1 17 (encode_rebind_v2 sid carrier_id gen) ≡ sid
    unfolding encode_rebind_v2 slice
    v2_sid = take_at 16 sid id_field sid_size

    v2_id_len : byte_at 17 (encode_rebind_v2 sid carrier_id gen) ≡ length id
    unfolding encode_rebind_v2 byte_at
    v2_id_len = ap first (drop_at 16 0 sid id_field sid_size)

    v2_id : slice 18 (18 + length id) (encode_rebind_v2 sid carrier_id gen) ≡ id
    unfolding encode_rebind_v2 slice
    v2_id =
        rw (drop_at 16 1 sid id_field sid_size)
          (take_at (18 + length id - 18) id (be 8 gen) (omega arith))

    v2_gen :
        of_be (slice (18 + length id) (18 + length id + 8) (encode_rebind_v2 sid carrier_id gen))
        ≡ gen
    unfolding encode_rebind_v2 slice
    v2_gen =
        let start : 18 + length id ≡ suc (16 + suc (length id)) = omega arith in
        let size : 18 + length id + 8 - (18 + length id) ≡ 8 = omega arith in
        rw (size, start)
          (ap (λ bs. of_be (take 8 bs))
              (drop_at 16 (suc (length id)) sid id_field sid_size ∙ drop-append id (be 8 gen))
            ∙ gen_field gen small)

    v2_version : byte_at 0 (encode_rebind_v2 sid carrier_id gen) ≡ 2
    unfolding encode_rebind_v2 byte_at
    v2_version = refl

    v2_fields :
        parse_rebind_v2 (encode_rebind_v2 sid carrier_id gen)
        ≡ some (record { version = 2; session_id = sid; carrier_id = id; gen = gen })
    unfolding parse_rebind_v2
    v2_fields =
        ground (arith, v2_length, v2_id_len, length-bounded_id carrier_id, v2_sid, v2_id, v2_gen)

    v2_parsed :
        (parse_rebind_any (encode_rebind_v2 sid carrier_id gen)
          ≡ some (record { version = 2; session_id = sid; carrier_id = id; gen = gen }))
        × (parse_rebind (encode_rebind_v2 sid carrier_id gen) ≡ none)
    unfolding parse_rebind_any parse_rebind
    v2_parsed = (ground (arith, v2_length, v2_version, v2_fields), ground (arith, v2_version))

-- Both parsers give back the 16-byte session id and the 64-bit generation of a version 1 rebind.
pub parse-encode_rebind :
    (sid : List ℕ) (gen : ℕ)
    → length sid ≡ 16
    → gen < 2 ^ 64
    → (parse_rebind (encode_rebind sid gen) ≡ some (sid, gen))
      × (parse_rebind_any (encode_rebind sid gen)
          ≡ some (record { version = 1; session_id = sid; carrier_id = []; gen = gen }))
parse-encode_rebind sid gen h small = (v1_parsed sid gen h small, v1_parsed_any sid gen h small)

-- Of a version 2 rebind, ParseRebindAny gives back the session id, the generation and the carrier id,
-- cut to 32 bytes if it is longer, and ParseRebind refuses it.
pub parse-encode_rebind_v2 :
    (sid carrier_id : List ℕ) (gen : ℕ)
    → length sid ≡ 16
    → gen < 2 ^ 64
    → (parse_rebind_any (encode_rebind_v2 sid carrier_id gen)
        ≡ some
            (record { version = 2; session_id = sid; carrier_id = take 32 carrier_id; gen = gen }))
      × (parse_rebind (encode_rebind_v2 sid carrier_id gen) ≡ none)
parse-encode_rebind_v2 sid carrier_id gen h small =
    rw (sym (bounded_id-take carrier_id)) (v2_parsed sid gen h small carrier_id)
