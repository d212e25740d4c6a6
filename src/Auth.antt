-- ===== src/Auth.antt =====
-- pkg/mux/auth.go: the handshake that authenticates the two ends of a carrier to each other.
-- HMAC-SHA256 is a parameter: of the secret and the bytes written to it, one part after another.
-- An end's incoming bytes are all that it will ever be sent; a read that the deadline or the caller's
-- context cuts short ends as a read of a stream that ends there.
pub mod Response
pub mod Messages
pub mod Handshake
pub mod Mutual
pub mod Tests
use iran_germany_split_tunne.Common.{
  ℕ, ◌+◌, ◌*◌, ◌-◌, ◌%◌, ◌^◌, Bool, true, false, not, ◌&&◌, ◌||◌, ltb, leb, ◌==◌, if◌then◌else◌,
  Option, none, some, List, [], ◌∷◌, ◌++◌, length, drop,
}
use iran_germany_split_tunne.Common.Bytes.{be, of_be}
use iran_germany_split_tunne.Common.Slices.{same_bytes, slice, copied}
use iran_germany_split_tunne.Frame.{Error, ok, err, byte_at, write_frame, read_frame}

abbrev pub auth_version : ℕ
auth_version = 2

abbrev pub frame_auth : ℕ
frame_auth = 0x01

abbrev pub role_upload : ℕ
role_upload = b'U'

abbrev pub role_download : ℕ
role_download = b'D'

unfoldable pub valid_role : ℕ → Bool
valid_role r = (r == role_upload) || (r == role_download)

abbrev pub auth_challenge_size : ℕ
auth_challenge_size = 22

abbrev pub auth_response_size : ℕ
auth_response_size = 74

abbrev pub auth_confirm_size : ℕ
auth_confirm_size = 50

abbrev pub auth_nonce_size : ℕ
auth_nonce_size = 16

-- `cancelled` is the error of a context that is done before the handshake begins.
pub data AuthError : Type 0 where
  invalid_role protocol version role_mismatch freshness bad_mac : AuthError
  cancelled write_failed : AuthError
  read_failed : Error → AuthError

pub data Checked {ℓ} (A : Type ℓ) : Type ℓ where
  failed : AuthError → Checked A
  passed : A → Checked A

-- The local clock: seconds since 1970 and the nanoseconds of the second.
pub record Clock : Type 0 where
  pub sec : ℕ
  pub nsec : ℕ

abbrev pub second : ℕ
second = 1000000000

abbrev pub auth_max_clock_skew : ℕ
auth_max_clock_skew = 60 * second

abbrev pub auth_now : Clock → List ℕ
auth_now c = be 4 (c.sec % 2 ^ 32)

-- |now - ts| in nanoseconds; one of the two differences is 0.
unfoldable pub clock_distance : Clock → ℕ → ℕ
clock_distance c ts =
    (c.sec * second + c.nsec) - ts * second + (ts * second - (c.sec * second + c.nsec))

unfoldable pub auth_clock_ok : Clock → List ℕ → Bool
unfolding clock_distance
auth_clock_ok c ts = leb (clock_distance c (of_be ts)) auth_max_clock_skew

-- The timestamp and the nonce are those that the server draws.
unfoldable pub build_challenge : ℕ → List ℕ → List ℕ → List ℕ
build_challenge role ts nonce = auth_version ∷ role ∷ copied 4 ts ++ copied 16 nonce

module _ (mac : List ℕ → List ℕ → List ℕ) where
  unfoldable pub build_response : List ℕ → ℕ → List ℕ → List ℕ → List ℕ → List ℕ
  build_response secret role challenge ts nonce =
      auth_version ∷ role ∷ copied 4 ts
      ++ (copied 4 (slice 2 6 challenge)
          ++ (copied 16 (drop 6 challenge)
              ++ (copied 16 nonce ++ copied 32 (mac secret (challenge ++ (ts ++ nonce))))))

  unfoldable pub build_confirm : List ℕ → ℕ → List ℕ → List ℕ → List ℕ → List ℕ
  build_confirm secret role challenge response nonce =
      auth_version ∷ role ∷ copied 16 nonce
      ++ copied 32 (mac secret (challenge ++ (response ++ nonce)))

  -- `none` is a nil error.
  unfoldable pub verify_response : List ℕ → ℕ → Clock → List ℕ → List ℕ → Option AuthError
  verify_response secret role now challenge r =
      if not (byte_at 0 r == auth_version)
      then some version
      else if not (byte_at 1 r == role)
      then some role_mismatch
      else if not (same_bytes (slice 6 10 r) (slice 2 6 challenge))
          || not (same_bytes (slice 10 26 r) (drop 6 challenge))
      then some protocol
      else if not (auth_clock_ok now (slice 2 6 r))
      then some freshness
      else if not
          (same_bytes (mac secret (challenge ++ (slice 2 6 r ++ slice 26 42 r))) (drop 42 r))
      then some bad_mac
      else none

  -- The client's checks of the confirmation.
  unfoldable pub verify_confirm : List ℕ → ℕ → List ℕ → List ℕ → List ℕ → Option AuthError
  verify_confirm secret role challenge response k =
      if not (byte_at 0 k == auth_version)
      then some version
      else if not (byte_at 1 k == role)
      then some role_mismatch
      else if not (same_bytes (mac secret (challenge ++ (response ++ slice 2 18 k))) (drop 18 k))
      then some bad_mac
      else none

-- The client's checks of the challenge.
unfoldable pub verify_challenge : ℕ → Clock → List ℕ → Option AuthError
unfolding auth_clock_ok
verify_challenge role now challenge =
    if not (byte_at 0 challenge == auth_version)
    then some version
    else if not (byte_at 1 challenge == role)
    then some role_mismatch
    else if not (auth_clock_ok now (slice 2 6 challenge))
    then some freshness
    else none

-- The payload of the next frame, and what the reader still holds.
unfoldable pub read_auth_frame : ℕ → List ℕ → Checked (List ℕ × List ℕ)
read_auth_frame want incoming = elim (read_frame incoming) [
  | err e ↦ failed (read_failed e)
  | ok (f, rest) ↦
      if not (f.typ == frame_auth) || not (f.stream_id == 0)
      then failed protocol
      else if not (length f.payload == want)
      then failed protocol
      else passed (f.payload, rest)
]

-- The bytes that an end has written, and how its handshake ended: on success with the bytes that the
-- reader still holds.
abbrev pub Run : Type 0
Run = List ℕ × Checked (List ℕ)

-- `writeAuth`, and what follows it unless it fails.
unfoldable pub write_auth : Bool → List ℕ → Run → Run
write_auth goes payload next =
    if goes
    then elim (write_frame 0 frame_auth payload) [
      | err e ↦ ([], failed write_failed)
      | ok sent ↦ (sent ++ next.0, next.1)
    ]
    else ([], failed write_failed)

-- What an end has for one handshake. `stamp` is the clock when it builds its timestamp, and `now`
-- when it checks the peer's; only the server draws a second nonce.
pub record End : Type 0 where
  pub secret : List ℕ
  pub role : ℕ
  pub stamp : Clock
  pub now : Clock
  pub nonce : List ℕ
  pub nonce2 : List ℕ
  pub is_cancelled : Bool
  pub first_write : Bool
  pub second_write : Bool

module _ (mac : List ℕ → List ℕ → List ℕ) where
  -- The server, after its challenge.
  unfoldable pub await_response : End → List ℕ → List ℕ → Run
  unfolding write_auth read_auth_frame
  await_response n challenge incoming = elim (read_auth_frame auth_response_size incoming) [
    | failed e ↦ ([], failed e)
    | passed (response, rest) ↦
        elim (verify_response mac n.secret n.role n.now challenge response) [
          | some e ↦ ([], failed e)
          | none ↦
              write_auth n.second_write
                (build_confirm mac n.secret n.role challenge response n.nonce2) ([], passed rest)
        ]
  ]

  -- The client, after its response.
  unfoldable pub await_confirm : End → List ℕ → List ℕ → List ℕ → Run
  unfolding read_auth_frame
  await_confirm n challenge response incoming = elim (read_auth_frame auth_confirm_size incoming) [
    | failed e ↦ ([], failed e)
    | passed (confirm, rest) ↦
        elim (verify_confirm mac n.secret n.role challenge response confirm) [
          | some e ↦ ([], failed e)
          | none ↦ ([], passed rest)
        ]
  ]

  unfoldable pub await_challenge : End → List ℕ → Run
  unfolding read_auth_frame write_auth await_confirm
  await_challenge n incoming = elim (read_auth_frame auth_challenge_size incoming) [
    | failed e ↦ ([], failed e)
    | passed (challenge, rest) ↦ elim (verify_challenge n.role n.now challenge) [
      | some e ↦ ([], failed e)
      | none ↦
          let response = build_response mac n.secret n.role challenge (auth_now n.stamp) n.nonce in
          write_auth n.first_write response (await_confirm n challenge response rest)
    ]
  ]

  unfoldable pub carrier_auth : Bool → End → List ℕ → Run
  unfolding valid_role await_challenge await_response write_auth
  carrier_auth is_client n incoming =
      if not (valid_role n.role)
      then ([], failed invalid_role)
      else if n.is_cancelled
      then ([], failed cancelled)
      else if is_client
      then await_challenge n incoming
      else let challenge = build_challenge n.role (auth_now n.stamp) n.nonce in
        write_auth n.first_write challenge (await_response n challenge incoming)
