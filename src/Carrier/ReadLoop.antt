-- ===== src/Carrier/ReadLoop.antt =====
-- pkg/mux/carrier.go: the rules that the read loop holds a frame to, and its queue for the dispatcher.
use iran_germany_split_tunne.Common.{
  ℕ, ◌≡◌, ◌≢◌, ◌↔◌, refl, Bool, true, false, not, ◌&&◌, ◌||◌, ◌==◌, ltb, if◌then◌else◌, Option,
  none, some, [], ◌∷◌, ◌++◌, length, Bool-cases, inl, inr, ==_iff, arith,
}
use iran_germany_split_tunne.Common.Assoc.{lookup, nat_eq}
use iran_germany_split_tunne.Frame.{Frame, frame_credit}
use iran_germany_split_tunne.Frame.Credit.{credit_payload_size}
use iran_germany_split_tunne.Carrier.{
  CarrierConn, ReadError, protocol_violation, credit_malformed_length, credit_unknown_stream,
  read_failed, frame_auth, frame_ping, frame_pong,
}

abbrev pub is_known : Option ℕ → Bool
is_known none = false
is_known (some i) = true

-- What ends the connection; `known` tells whether the carrier has the frame's stream.
unfoldable pub check_frame : Bool → Frame → Option ReadError
check_frame known f =
    if f.typ == frame_auth
      || ((f.stream_id == 0) && (not (f.typ == frame_ping) && not (f.typ == frame_pong)))
    then some protocol_violation
    else if f.typ == frame_credit
    then (if not (length f.payload == credit_payload_size)
        then some credit_malformed_length
        else if not known
        then some credit_unknown_stream
        else none)
    else none

-- The capacity of the channel `frames`.
abbrev pub frames_capacity : ℕ
frames_capacity = 256

unfoldable pub enqueue : CarrierConn → Frame → Option ReadError → CarrierConn
enqueue c f none = record c { frames = c.frames ++ (f ∷ []) }
enqueue c f (some e) = record c { read_err = some e }

-- One round on a frame that was read. The loop has ended once it has an error, and it waits while
-- the channel is full.
unfoldable pub read : CarrierConn → Frame → CarrierConn
unfolding check_frame enqueue
read c f = elim c.read_err [
  | some e ↦ c
  | none ↦
      if ltb (length c.frames) frames_capacity
      then enqueue c f (check_frame (is_known (lookup f.stream_id c.streams)) f)
      else c
]

-- The reader fails, or the connection was closed.
unfoldable pub read_fails : CarrierConn → CarrierConn
read_fails c = elim c.read_err [ some e ↦ c | none ↦ record c { read_err = some read_failed } ]

-- A frame that the dispatcher may see.
pub record IsAdmissible (f : Frame) : Type 0 where
  pub no_auth : f.typ ≢ frame_auth
  pub stream_0 : f.stream_id ≡ 0 → (f.typ ≢ frame_ping) → f.typ ≡ frame_pong
  pub credit_size : f.typ ≡ frame_credit → length f.payload ≡ credit_payload_size

passed : (known : Bool) (f : Frame) → check_frame known f ≡ none → IsAdmissible f
unfolding check_frame
passed known f h = record {
  no_auth = λ e. ground arith;
  stream_0 = λ z p. ground arith;
  credit_size = λ e. ground arith;
}

passed_known :
    (known : Bool) (f : Frame) → check_frame known f ≡ none → f.typ ≡ frame_credit → known ≡ true
unfolding check_frame
passed_known true f h e = refl
passed_known false f h e = ground arith

passes :
    (known : Bool) (f : Frame)
    → IsAdmissible f
    → (f.typ ≡ frame_credit → known ≡ true)
    → check_frame known f ≡ none
unfolding check_frame
passes known f a k = elim (Bool-cases (f.typ == frame_credit)) [
  | inl credit ↦
      rw (k ((==_iff f.typ frame_credit).0 credit)) (ground (arith, a.no_auth, a.credit_size))
  | inr other ↦ elim (Bool-cases (f.typ == frame_ping)) [
    | inl ping ↦ ground (arith, a.no_auth)
    | inr more ↦ ground (arith, a.no_auth, a.stream_0)
  ]
]

-- The read loop lets a frame pass exactly if it is no authentication frame, is on a stream other
-- than 0 unless it is a ping or a pong and, if it is a credit, has the fixed size and is on a stream
-- that the carrier has. Each other frame ends the connection.
pub check_frame_accepts :
    (known : Bool) (f : Frame)
    → (check_frame known f ≡ none) ↔ (IsAdmissible f × (f.typ ≡ frame_credit → known ≡ true))
unfolding check_frame
check_frame_accepts known f =
    (λ h. (passed known f h, passed_known known f h), λ (a, k). passes known f a k)
