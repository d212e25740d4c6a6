-- ===== src/Frame/Control.antt =====
-- pkg/mux/frame.go: the 10-byte FrameReset and the 2-byte FrameBootstrapAck payloads.
use iran_germany_split_tunne.Common.{
  ℕ, ◌^◌, ◌<◌, ◌≡◌, refl, ap, ◌∙◌, ◌↔◌, List, [], ◌∷◌, ◌==◌, if◌then◌else◌, not, length, take, drop,
  arith,
}
use iran_germany_split_tunne.Common.Bytes.{be, of_be, of_be-be}
use iran_germany_split_tunne.Frame.{Result, ok, err, malformed_length, unknown_version, byte_at}

abbrev pub reset_payload_size : ℕ
reset_payload_size = 10

abbrev pub reset_version : ℕ
reset_version = 1

abbrev pub bootstrap_ack_payload_size : ℕ
bootstrap_ack_payload_size = 2

abbrev pub bootstrap_ack_version : ℕ
bootstrap_ack_version = 1

-- `ResetReason*`.
abbrev pub reset_reason_unknown_stream : ℕ
reset_reason_unknown_stream = 1

abbrev pub reset_reason_target_dial_failed : ℕ
reset_reason_target_dial_failed = 4

unfoldable pub encode_reset_payload : ℕ → ℕ → List ℕ
encode_reset_payload reason gen = reset_version ∷ (reason ∷ be 8 gen)

unfoldable pub parse_reset_payload : List ℕ → Result (ℕ × ℕ)
parse_reset_payload payload =
    if not (length payload == reset_payload_size)
    then err malformed_length
    else if not (byte_at 0 payload == reset_version)
    then err unknown_version
    else ok (byte_at 1 payload, of_be (take 8 (drop 2 payload)))

unfoldable pub encode_bootstrap_ack_payload : ℕ → List ℕ
encode_bootstrap_ack_payload status = bootstrap_ack_version ∷ (status ∷ [])

unfoldable pub parse_bootstrap_ack_payload : List ℕ → Result ℕ
parse_bootstrap_ack_payload payload =
    if not (length payload == bootstrap_ack_payload_size)
    then err malformed_length
    else if not (byte_at 0 payload == bootstrap_ack_version)
    then err unknown_version
    else ok (byte_at 1 payload)

take-be : (gen : ℕ) → take 8 (be 8 gen) ≡ be 8 gen
unfolding be
take-be gen = refl

parse_reset_at :
    (reason gen : ℕ)
    → parse_reset_payload (encode_reset_payload reason gen) ≡ ok (reason, of_be (take 8 (be 8 gen)))
unfolding parse_reset_payload encode_reset_payload be
parse_reset_at reason gen = refl

-- The parser returns the reason and the 64-bit generation that the encoder was given.
pub parse-encode_reset_payload :
    (reason gen : ℕ)
    → gen < 2 ^ 64
    → parse_reset_payload (encode_reset_payload reason gen) ≡ ok (reason, gen)
parse-encode_reset_payload reason gen h =
    parse_reset_at reason gen ∙ ap (λ g. ok (reason, g)) (ap of_be (take-be gen) ∙ of_be-be 8 gen h)

-- A parsed reset comes from ten bytes that begin with version 1, and any other payload is an error.
pub parse_reset_payload_accepts :
    (payload : List ℕ)
    → ((r : ℕ × ℕ) × (parse_reset_payload payload ≡ ok r))
      ↔ ((length payload ≡ reset_payload_size) × (byte_at 0 payload ≡ reset_version))
unfolding parse_reset_payload
parse_reset_payload_accepts payload = (
  λ h. ground (arith, h.1),
  λ h. ((byte_at 1 payload, of_be (take 8 (drop 2 payload))), ground arith),
)

-- The SOCKS5 reply byte survives the round trip of the acknowledgement.
pub parse-encode_bootstrap_ack_payload :
    (status : ℕ) → parse_bootstrap_ack_payload (encode_bootstrap_ack_payload status) ≡ ok status
unfolding parse_bootstrap_ack_payload encode_bootstrap_ack_payload
parse-encode_bootstrap_ack_payload status = refl

-- The acknowledgement's parser accepts exactly the payloads that its encoder writes.
pub parse_bootstrap_ack_payload_accepts :
    (payload : List ℕ) (status : ℕ)
    → (parse_bootstrap_ack_payload payload ≡ ok status)
      ↔ (payload ≡ encode_bootstrap_ack_payload status)
unfolding parse_bootstrap_ack_payload encode_bootstrap_ack_payload
parse_bootstrap_ack_payload_accepts [] status = (λ h. ground arith, λ h. ground arith)
parse_bootstrap_ack_payload_accepts (a ∷ []) status = (λ h. ground arith, λ h. ground arith)
parse_bootstrap_ack_payload_accepts (a ∷ b ∷ []) status = (λ h. ground arith, λ h. ground arith)
parse_bootstrap_ack_payload_accepts (a ∷ b ∷ c ∷ r) status = (λ h. ground arith, λ h. ground arith)
