-- ===== src/Auth/Tests.antt =====
-- Runs of the handshake, with a keyed toy in place of HMAC-SHA256.
use iran_germany_split_tunne.Common.{
  ℕ, ◌≡◌, ◌≢◌, ◌↔◌, refl, true, false, none, some, List, [], ◌∷◌, ◌++◌, length, length-append,
  length-take_of_le, take, drop, replicate, arith,
}
use iran_germany_split_tunne.Auth.{
  Clock, End, protocol, role_upload, role_download, auth_now, build_challenge, build_response,
  verify_response, clock_distance, valid_role, role_mismatch,
}
use iran_germany_split_tunne.Auth.Response.{
  IsResponse, length-build_response, verify_response-IsResponse, replay_refused,
}
use iran_germany_split_tunne.Auth.Messages.{length-build_challenge}
use iran_germany_split_tunne.Auth.Handshake.{CanTalk, Completes, handshake_completes}
use iran_germany_split_tunne.Auth.Mutual.{Saw, success_authenticates}
use iran_germany_split_tunne.Common.Slices.{copied}
use iran_germany_split_tunne.Common.Bytes.{be}

abbrev padding : List ℕ
padding = replicate 32 0

abbrev toy_mac : List ℕ → List ℕ → List ℕ
toy_mac secret bytes = take 32 (secret ++ (bytes ++ padding))

toy_mac_size : (secret bytes : List ℕ) → length (toy_mac secret bytes) ≡ 32
toy_mac_size secret bytes =
    length-take_of_le 32 (secret ++ (bytes ++ padding))
      (omega (arith, length-append secret (bytes ++ padding), length-append bytes padding))

abbrev clock_s : Clock
clock_s = record { sec = 1700000000; nsec = 5 }

abbrev clock_c : Clock
clock_c = record { sec = 1700000050; nsec = 0 }

abbrev server : End
server = record {
  secret = 11 ∷ 12 ∷ 13 ∷ [];
  role = role_upload;
  stamp = clock_s;
  now = clock_s;
  nonce = replicate 16 7;
  nonce2 = replicate 16 8;
  is_cancelled = false;
  first_write = true;
  second_write = true;
}

abbrev client : End
client = record server { stamp = clock_c; now = clock_c; nonce = replicate 16 9 }

they_talk : CanTalk server client
unfolding valid_role clock_distance
they_talk = record {
  same_secret = refl;
  same_role = refl;
  has_role = refl;
  server_on = refl;
  client_on = refl;
  challenge_goes = refl;
  response_goes = refl;
  confirm_goes = refl;
  nonce_s = refl;
  nonce_c = refl;
  nonce_s2 = refl;
  server_in_range = omega arith;
  client_in_range = omega arith;
  client_near = omega arith;
  server_near = omega arith;
}

handshake_completes_example : Completes toy_mac server client (1 ∷ []) (2 ∷ 3 ∷ [])
handshake_completes_example =
    handshake_completes toy_mac toy_mac_size server client they_talk (1 ∷ []) (2 ∷ 3 ∷ [])

abbrev talked : Completes toy_mac server client [] (2 ∷ [])
talked = handshake_completes toy_mac toy_mac_size server client they_talk [] (2 ∷ [])

success_authenticates_example : Saw toy_mac false server (talked.sent_c ++ (2 ∷ [])) (2 ∷ [])
success_authenticates_example =
    success_authenticates toy_mac toy_mac_size false server (talked.sent_c ++ (2 ∷ []))
      talked.sent_s (2 ∷ []) refl talked.server_ends

abbrev challenge : List ℕ
challenge = build_challenge role_upload (auth_now clock_s) (replicate 16 7)

abbrev next_challenge : List ℕ
next_challenge = build_challenge role_upload (auth_now clock_s) (replicate 16 6)

challenge_length : length challenge ≡ 22
unfolding be
challenge_length = length-build_challenge role_upload (auth_now clock_s) (replicate 16 7) refl refl

abbrev response : List ℕ
response =
    build_response toy_mac (11 ∷ []) role_upload challenge (auth_now clock_c) (replicate 16 9)

response_length : length response ≡ 74
unfolding be
response_length =
    length-build_response toy_mac toy_mac_size (11 ∷ []) role_upload challenge challenge_length
      (auth_now clock_c) (replicate 16 9) refl refl

verify_response-IsResponse_example :
    (verify_response toy_mac (11 ∷ []) role_upload clock_s challenge response ≡ none)
    ↔ IsResponse toy_mac (11 ∷ []) role_upload clock_s challenge response
verify_response-IsResponse_example =
    verify_response-IsResponse toy_mac toy_mac_size (11 ∷ []) role_upload challenge challenge_length
      clock_s response response_length

challenges_differ : drop 2 challenge ≢ drop 2 next_challenge
unfolding build_challenge copied be
challenges_differ e = ground arith

replay_refused_example :
    verify_response toy_mac (11 ∷ []) role_upload clock_s next_challenge response ≡ some protocol
unfolding be
replay_refused_example =
    replay_refused toy_mac toy_mac_size (11 ∷ []) (11 ∷ []) role_upload clock_s challenge
      next_challenge (auth_now clock_c) (replicate 16 9) challenge_length
      (length-build_challenge role_upload (auth_now clock_s) (replicate 16 6) refl refl)
      challenges_differ refl refl

-- A server of the download carrier refuses the response to an upload challenge.
wrong_role :
    verify_response toy_mac (11 ∷ []) role_download clock_s challenge response ≡ some role_mismatch
unfolding verify_response build_response
wrong_role = refl
