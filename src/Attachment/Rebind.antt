-- ===== src/Attachment/Rebind.antt =====
-- pkg/session/attachment.go: the FrameRebind payload, version 1 and version 2.
-- A session id and a carrier id are lists of bytes; encoders are given an id of 16 bytes.
pub mod Roundtrip
use iran_germany_split_tunne.Common.{
  ℕ, ◌+◌, ◌-◌, ◌≤◌, ◌<◌, ◌^◌, ◌≡◌, refl, ap, sym, ◌∙◌, ◌⊎◌, ◌↔◌, inl, inr, Bool, true, false, not,
  Option, none, some, List, [], ◌∷◌, ◌++◌, ◌==◌, ltb, if◌then◌else◌, length, length-append, take,
  drop, take-append, drop-append, length-take_of_le, Bool-cases, arith,
}
use iran_germany_split_tunne.Common.Bytes.{be, of_be, of_be-be, length-be}

abbrev pub rebind_version : ℕ
rebind_version = 1

abbrev pub rebind_version_v2 : ℕ
rebind_version_v2 = 2

abbrev pub session_id_len : ℕ
session_id_len = 16

abbrev pub rebind_max_carrier_id_len : ℕ
rebind_max_carrier_id_len = 32

abbrev pub rebind_payload_size : ℕ
rebind_payload_size = 25

unfoldable pub encode_rebind : List ℕ → ℕ → List ℕ
encode_rebind sid gen = rebind_version ∷ (sid ++ be 8 gen)

unfoldable pub bounded_id : List ℕ → List ℕ
bounded_id carrier_id =
    if ltb rebind_max_carrier_id_len (length carrier_id)
    then take rebind_max_carrier_id_len carrier_id
    else carrier_id

unfoldable pub encode_rebind_v2 : List ℕ → List ℕ → ℕ → List ℕ
unfolding bounded_id
encode_rebind_v2 sid carrier_id gen =
    let id = bounded_id carrier_id in rebind_version_v2 ∷ (sid ++ (length id ∷ (id ++ be 8 gen)))

pub record Rebind : Type 0 where
  pub version : ℕ
  pub session_id : List ℕ
  pub carrier_id : List ℕ
  pub gen : ℕ

-- `payload[i:j]`, for i ≤ j ≤ len(payload).
unfoldable pub slice : ℕ → ℕ → List ℕ → List ℕ
slice i j payload = take (j - i) (drop i payload)

abbrev pub first : List ℕ → ℕ
first [] = 0
first (b ∷ rest) = b

unfoldable pub byte_at : ℕ → List ℕ → ℕ
byte_at i payload = first (drop i payload)

unfoldable pub parse_rebind : List ℕ → Option (List ℕ × ℕ)
unfolding slice byte_at
parse_rebind payload =
    if not (length payload == rebind_payload_size)
    then none
    else if not (byte_at 0 payload == rebind_version)
    then none
    else some (slice 1 17 payload, of_be (slice 17 25 payload))

-- The part of ParseRebindAny for version 2.
unfoldable pub parse_rebind_v2 : List ℕ → Option Rebind
unfolding slice byte_at
parse_rebind_v2 payload =
    if ltb (length payload) 18
    then none
    else let id_len = byte_at 17 payload in
      if ltb rebind_max_carrier_id_len id_len
      then none
      else if not (length payload == 18 + id_len + 8)
      then none
      else some (record {
        version = rebind_version_v2;
        session_id = slice 1 17 payload;
        carrier_id = slice 18 (18 + id_len) payload;
        gen = of_be (slice (18 + id_len) (18 + id_len + 8) payload);
      })

unfoldable pub parse_rebind_any : List ℕ → Option Rebind
unfolding slice byte_at parse_rebind_v2
parse_rebind_any payload =
    if length payload == 0
    then none
    else if byte_at 0 payload == rebind_version
    then (if not (length payload == rebind_payload_size)
        then none
        else some (record {
          version = rebind_version;
          session_id = slice 1 17 payload;
          carrier_id = [];
          gen = of_be (slice 17 25 payload);
        }))
    else if byte_at 0 payload == rebind_version_v2
    then parse_rebind_v2 payload
    else none
