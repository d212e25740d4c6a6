-- ===== src/Frame.antt =====
-- pkg/mux/frame.go: the frame on a carrier's byte stream, its type and its reader and writer.
-- A payload is the list of its bytes; the 7-byte header is StreamID (4), Type (1), Length (2).

pub mod Stream
pub mod Tests
pub mod Credit
pub mod Control
use iran_germany_split_tunne.Common.{
  ℕ, zero, suc, ◌+◌, ◌%◌, ◌^◌, ◌<◌, Bool, List, [], ◌∷◌, ◌++◌, ltb, ◌==◌, if◌then◌else◌, length,
  take, drop, Option, none, some, IsByte, All,
}
use iran_germany_split_tunne.Common.Bytes.{be, of_be}

abbrev pub header_size : ℕ
header_size = 7

abbrev pub max_payload : ℕ
max_payload = 65535

-- The frame types of the wire.
abbrev pub frame_data : ℕ
frame_data = 0x00

abbrev pub frame_credit : ℕ
frame_credit = 0x07

abbrev pub frame_reset : ℕ
frame_reset = 0x08

abbrev pub frame_bootstrap_ack : ℕ
frame_bootstrap_ack = 0x09

pub record Frame : Type 0 where
  pub stream_id : ℕ
  pub typ : ℕ
  pub len : ℕ
  pub payload : List ℕ

-- The package's errors, and those of `io.ReadFull` on a stream that ends.
pub data Error : Type 0 where
  payload_too_large : Error
  eof : Error
  unexpected_eof : Error
  malformed_length : Error
  unknown_version : Error

pub data Result {ℓ} (A : Type ℓ) : Type ℓ where
  ok : A → Result A
  err : Error → Result A

infixl 5 ◌>>=◌
abbrev pub ◌>>=◌ {ℓ κ} : {A : Type ℓ} {B : Type κ} → Result A → (A → Result B) → Result B
ok a >>= f = f a
err e >>= f = err e

-- The bytes that `WriteFrame` hands to its writer in one call.
unfoldable pub write_frame : ℕ → ℕ → List ℕ → Result (List ℕ)
write_frame stream_id typ payload =
    if ltb max_payload (length payload)
    then err payload_too_large
    else ok (be 4 stream_id ++ typ ∷ be 2 (length payload % 2 ^ 16) ++ payload)

-- `io.ReadFull` of `n` bytes from a reader that holds the bytes `r` and then ends: what was read
-- and what is left. A stream that ends before the first byte is EOF, and later ErrUnexpectedEOF.
unfoldable pub read_full : ℕ → List ℕ → Result (List ℕ × List ℕ)
read_full n [] = if n == 0 then ok ([], []) else err eof
read_full n (b ∷ r) =
    if ltb (length (b ∷ r)) n then err unexpected_eof else ok (take n (b ∷ r), drop n (b ∷ r))

-- The payload of a frame whose header announces `len` bytes.
unfoldable pub read_payload : ℕ → ℕ → ℕ → List ℕ → Result (Frame × List ℕ)
read_payload stream_id typ len r =
    if ltb 0 len
    then (read_full len r >>= λ (p : List ℕ × List ℕ).
        ok (record { stream_id = stream_id; typ = typ; len = len; payload = p.0 }, p.1))
    else ok (record { stream_id = stream_id; typ = typ; len = len; payload = [] }, r)

-- `hdr[i]` of a header that was read whole.
abbrev pub byte_at : ℕ → List ℕ → ℕ
byte_at i [] = 0
byte_at zero (b ∷ bs) = b
byte_at (suc i) (b ∷ bs) = byte_at i bs

unfoldable pub read_frame : List ℕ → Result (Frame × List ℕ)
read_frame r = read_full header_size r >>= λ (h : List ℕ × List ℕ).
    read_payload (of_be (take 4 h.0)) (byte_at 4 h.0) (of_be (take 2 (drop 5 h.0))) h.1
