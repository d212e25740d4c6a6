-- ===== src/Frame/Tests.antt =====
-- The frame codec (pkg/mux/frame.go) on concrete inputs.
use iran_germany_split_tunne.Common.{ℕ, ◌≡◌, refl, List, [], ◌∷◌, ◌++◌, replicate, arith}
use iran_germany_split_tunne.Common.Bytes.{be}
use iran_germany_split_tunne.Frame.{Frame, ok, err, unexpected_eof, write_frame, read_frame}
use iran_germany_split_tunne.Frame.Stream.{
  Fits, encode, write_frames, read_frames, read_frames-write_frames, read_frame_cut,
}
use iran_germany_split_tunne.Frame.Credit.{
  CreditPayload, encode_credit_payload, decode_credit_payload, validate_credit_payload,
  decode-encode_credit_payload, decode_credit_payload_refuses, validate_credit_payload_accepts,
  copy_into,
}
use iran_germany_split_tunne.Frame.Credit

abbrev hello : Frame
hello = record { stream_id = 258; typ = 0; len = 2; payload = 104 ∷ 105 ∷ [] }

abbrev goodbye : Frame
goodbye = record { stream_id = 258; typ = 4; len = 0; payload = [] }

hello-Fits : Fits hello
hello-Fits = omega arith

goodbye-Fits : Fits goodbye
goodbye-Fits = omega arith

abbrev hello_bytes : List ℕ
hello_bytes = 0 ∷ 0 ∷ 1 ∷ 2 ∷ 0 ∷ 0 ∷ 2 ∷ 104 ∷ 105 ∷ []

write_hello : write_frame 258 0 (104 ∷ 105 ∷ []) ≡ ok hello_bytes
unfolding write_frame be
write_hello = refl

abbrev two_bytes : List ℕ
two_bytes = hello_bytes ++ (0 ∷ 0 ∷ 1 ∷ 2 ∷ 4 ∷ 0 ∷ 0 ∷ [])

write_two : write_frames (hello ∷ goodbye ∷ []) ≡ ok two_bytes
unfolding write_frames write_frame be
write_two = refl

read_frames-write_frames_example :
    read_frames 2 (two_bytes ++ (9 ∷ [])) ≡ ok (hello ∷ goodbye ∷ [], 9 ∷ [])
read_frames-write_frames_example =
    read_frames-write_frames (hello ∷ goodbye ∷ []) (9 ∷ []) two_bytes
      (hello-Fits, (goodbye-Fits, tt)) write_two

encode-hello : encode hello ≡ (0 ∷ 0 ∷ 1 ∷ 2 ∷ 0 ∷ 0 ∷ 2 ∷ 104 ∷ []) ++ (105 ∷ [])
unfolding encode be
encode-hello = refl

read_frame_cut_example : read_frame (0 ∷ 0 ∷ 1 ∷ 2 ∷ 0 ∷ 0 ∷ 2 ∷ 104 ∷ []) ≡ err unexpected_eof
read_frame_cut_example =
    read_frame_cut hello (0 ∷ 0 ∷ 1 ∷ 2 ∷ 0 ∷ 0 ∷ 2 ∷ 104 ∷ []) [] 105 hello-Fits encode-hello

abbrev some_credit : CreditPayload
some_credit = record {
  version = 1;
  gen = 3;
  bytes_consumed = 70000;
  window_granted = 524288;
  flags = 1;
  reserved = replicate 10 0;
}

some_credit-Fits : Credit.Fits some_credit
some_credit-Fits = omega arith
