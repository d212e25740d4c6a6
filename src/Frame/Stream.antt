-- ===== src/Frame/Stream.antt =====
-- ReadFrame after WriteFrame (pkg/mux/frame.go), for one frame and for a stream of frames.
use iran_germany_split_tunne.Common.{
  ℕ, zero, suc, ◌+◌, ◌^◌, ◌≤◌, ◌<◌, ◌≡◌, refl, sym, ap, ◌∙◌, ◌↔◌, List, [], ◌∷◌, ◌++◌, append_assoc,
  ◌==◌, if◌then◌else◌, length, length-append, take, drop, take-append, drop-append, append_split,
  arith, All, ◌||◌,
}
use native.Mathlib.Decide.{dec_lt}
use iran_germany_split_tunne.Common.Bytes.{be, of_be, of_be-be, length-be}
use iran_germany_split_tunne.Frame.{
  Frame, Error, Result, ok, err, ◌>>=◌, eof, payload_too_large, unexpected_eof, max_payload,
  header_size, write_frame, read_full, read_payload, read_frame, byte_at,
}

-- A frame that its fields can carry: a 32-bit stream, an 8-bit type, a 16-bit length.
pub record Fits (f : Frame) : Type 0 where
  pub stream_fits : f.stream_id < 2 ^ 32
  pub typ_fits : f.typ < 256
  pub len_exact : f.len ≡ length f.payload
  pub len_fits : f.len ≤ max_payload

-- The header of a frame, and the frame: what `write_frame` hands over when it accepts the payload.
abbrev pub header : Frame → List ℕ
header f = be 4 f.stream_id ++ f.typ ∷ be 2 f.len

unfoldable pub encode : Frame → List ℕ
encode f = header f ++ f.payload

read_full_exact : (xs r : List ℕ) → read_full (length xs) (xs ++ r) ≡ ok (xs, r)
unfolding read_full
read_full_exact [] [] = refl
read_full_exact [] (b ∷ r) = ground arith
read_full_exact (x ∷ xs) r =
    ground (arith, length-append xs r, take-append (x ∷ xs) r, drop-append (x ∷ xs) r)

read_full_short : (n : ℕ) (r : List ℕ) → length r < n → (e : Error) × (read_full n r ≡ err e)
unfolding read_full
read_full_short n [] h = (eof, ground arith)
read_full_short n (b ∷ r) h = (unexpected_eof, ground arith)

length-header : (f : Frame) → length (header f) ≡ header_size
length-header f = omega (
  arith,
  length-append (be 4 f.stream_id) (f.typ ∷ be 2 f.len),
  length-be 4 f.stream_id,
  length-be 2 f.len,
)

header_stream : (f : Frame) → take 4 (header f) ≡ be 4 f.stream_id
unfolding be
header_stream f = refl

header_typ : (f : Frame) → byte_at 4 (header f) ≡ f.typ
unfolding be
header_typ f = refl

header_len : (f : Frame) → take 2 (drop 5 (header f)) ≡ be 2 f.len
unfolding be
header_len f = refl

pub write_frame-encode :
    (f : Frame) → Fits f → write_frame f.stream_id f.typ f.payload ≡ ok (encode f)
unfolding write_frame encode
write_frame-encode f h = ground (arith)

header_fields :
    (f : Frame)
    → Fits f
    → (of_be (take 4 (header f)) ≡ f.stream_id)
      × (byte_at 4 (header f) ≡ f.typ)
      × (of_be (take 2 (drop 5 (header f))) ≡ f.len)
header_fields f h = (
  ap of_be (header_stream f) ∙ of_be-be 4 f.stream_id (omega arith),
  header_typ f,
  ap of_be (header_len f) ∙ of_be-be 2 f.len (omega arith),
)

read_full-header :
    (f : Frame) (r : List ℕ) → read_full header_size (header f ++ r) ≡ ok (header f, r)
read_full-header f r = rw (length-header f) at (read_full_exact (header f) r)

read_frame-header :
    (f : Frame) (r : List ℕ)
    → Fits f
    → read_frame (header f ++ r) ≡ read_payload f.stream_id f.typ f.len r
unfolding read_frame
read_frame-header f r h =
    let (es, et, el) = header_fields f h in
    rw (read_full-header f r) (λ i. read_payload (es i) (et i) (el i) r)

read_payload_at :
    (stream_id typ : ℕ) (payload r : List ℕ)
    → read_payload stream_id typ (length payload) (payload ++ r)
      ≡ ok (record { stream_id = stream_id; typ = typ; len = length payload; payload = payload }, r)
unfolding read_payload
read_payload_at stream_id typ [] r = ground arith
read_payload_at stream_id typ (x ∷ xs) r = rw (read_full_exact (x ∷ xs) r) (ground arith)

read_payload_exact :
    (f : Frame) (r : List ℕ)
    → Fits f
    → read_payload f.stream_id f.typ f.len (f.payload ++ r) ≡ ok (f, r)
read_payload_exact f r h =
    ap (λ n. read_payload f.stream_id f.typ n (f.payload ++ r)) h.len_exact
    ∙ read_payload_at f.stream_id f.typ f.payload r
    ∙ ap (λ n. ok (record f { len = n }, r)) (sym h.len_exact)

pub read_frame-encode : (f : Frame) (r : List ℕ) → Fits f → read_frame (encode f ++ r) ≡ ok (f, r)
unfolding encode
read_frame-encode f r h =
    rw (append_assoc (header f) f.payload r)
      (read_frame-header f (f.payload ++ r) h ∙ read_payload_exact f r h)

-- What `write_frame` accepts, `read_frame` reads back: the frame, and whatever follows it.
pub read_frame-write_frame :
    (f : Frame) (r bytes : List ℕ)
    → Fits f
    → write_frame f.stream_id f.typ f.payload ≡ ok bytes
    → read_frame (bytes ++ r) ≡ ok (f, r)
read_frame-write_frame f r bytes h e =
    let same : bytes ≡ encode f = cc (write_frame-encode f h) in rw same (read_frame-encode f r h)

-- The frames of a list, written one after another, and as many frames read from a stream.
unfoldable pub write_frames : List Frame → Result (List ℕ)
write_frames [] = ok []
write_frames (f ∷ fs) = do
  bytes ← write_frame f.stream_id f.typ f.payload
  more ← write_frames fs
  ok (bytes ++ more)

unfoldable pub read_frames : ℕ → List ℕ → Result (List Frame × List ℕ)
read_frames zero r = ok ([], r)
read_frames (suc n) r = do (f, r') ← read_frame r; (fs, r'') ← read_frames n r'; ok (f ∷ fs, r'')

encodes : List Frame → List ℕ
encodes [] = []
encodes (f ∷ fs) = encode f ++ encodes fs

write_frames-encodes : (fs : List Frame) → All Fits fs → write_frames fs ≡ ok (encodes fs)
unfolding write_frames encodes
write_frames-encodes [] h = refl
write_frames-encodes (f ∷ fs) (h, hs) = rw (write_frame-encode f h, write_frames-encodes fs hs)

read_frames-encodes :
    (fs : List Frame) (r : List ℕ)
    → All Fits fs
    → read_frames (length fs) (encodes fs ++ r) ≡ ok (fs, r)
unfolding read_frames encodes
read_frames-encodes [] r h = refl
read_frames-encodes (f ∷ fs) r (h, hs) =
    rw (append_assoc (encode f) (encodes fs) r)
      (rw (read_frame-encode f (encodes fs ++ r) h, read_frames-encodes fs r hs))

-- A stream of frames written one after another is read back as the same frames in the same order,
-- with the bytes behind them left unread.
pub read_frames-write_frames :
    (fs : List Frame) (r bytes : List ℕ)
    → All Fits fs
    → write_frames fs ≡ ok bytes
    → read_frames (length fs) (bytes ++ r) ≡ ok (fs, r)
read_frames-write_frames fs r bytes h e =
    let same : bytes ≡ encodes fs = cc (write_frames-encodes fs h) in
    rw same (read_frames-encodes fs r h)

-- The error of `read_frame` on a stream that ends inside a frame: a clean EOF when it ends before
-- the first byte or right behind the header, and ErrUnexpectedEOF everywhere else.
abbrev pub cut_error : ℕ → Error
cut_error n = if n == 0 || n == header_size then eof else unexpected_eof

read_frame_short : (r : List ℕ) → length r < header_size → read_frame r ≡ err (cut_error (length r))
unfolding read_frame read_full
read_frame_short [] h = refl
read_frame_short (b ∷ r) h = ground arith

read_payload_cut :
    (f : Frame) (p back : List ℕ) (x : ℕ)
    → Fits f
    → f.payload ≡ p ++ (x ∷ back)
    → read_payload f.stream_id f.typ f.len p ≡ err (cut_error (header_size + length p))
unfolding read_payload read_full
read_payload_cut f [] back x h e = ground (arith, ap length e)
read_payload_cut f (b ∷ p) back x h e =
    ground (arith, ap length e, length-append (b ∷ p) (x ∷ back))

read_frame_in_payload :
    (f : Frame) (p back : List ℕ) (x : ℕ)
    → Fits f
    → f.payload ≡ p ++ (x ∷ back)
    → read_frame (header f ++ p) ≡ err (cut_error (length (header f ++ p)))
read_frame_in_payload f p back x h e =
    let len : length (header f ++ p) ≡ header_size + length p =
      omega (arith, length-append (header f) p, length-header f) in
    read_frame-header f p h
    ∙ read_payload_cut f p back x h e
    ∙ ap (λ n. err (cut_error n)) (sym len)

-- A stream that ends before the end of a frame is an error, never a shorter frame, and the error
-- tells where it ended: EOF before the first byte or right behind the header of the frame,
-- ErrUnexpectedEOF at any other place.
pub read_frame_cut :
    (f : Frame) (front back : List ℕ) (x : ℕ)
    → Fits f
    → encode f ≡ front ++ (x ∷ back)
    → read_frame front ≡ err (cut_error (length front))
unfolding encode
read_frame_cut f front back x h e = elim (dec_lt (length front) header_size) [
  | yes short ↦ read_frame_short front short
  | no long ↦
      let (p, here, rest) =
        append_split (header f) f.payload front (x ∷ back) e (omega (arith, length-header f)) in
      rw here (read_frame_in_payload f p back x h rest)
]

-- `write_frame` refuses a payload exactly when its length does not fit the 16-bit field.
pub write_frame_refuses :
    (stream_id typ : ℕ) (payload : List ℕ)
    → (write_frame stream_id typ payload ≡ err payload_too_large) ↔ (max_payload < length payload)
unfolding write_frame
write_frame_refuses stream_id typ payload = ground arith
