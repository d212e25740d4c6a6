-- ===== src/Auth/Mutual.antt =====
-- pkg/mux/auth.go, CarrierAuth: what an end has seen of the other when its handshake succeeds.
use iran_germany_split_tunne.Common.{
  ℕ, ◌≡◌, ◌⊎◌, inl, inr, refl, subst, ◌%◌, ◌^◌, Option-cases, Bool, true, false, none, List, [],
  length, arith,
}
use iran_germany_split_tunne.Common.Bytes.{length-be}
use iran_germany_split_tunne.Frame.{Frame, Error, Result, ok, err, read_frame}
use iran_germany_split_tunne.Auth.{
  Checked, passed, failed, Run, End, frame_auth, auth_challenge_size, auth_response_size,
  auth_confirm_size, auth_now, AuthError, build_challenge, build_response, build_confirm,
  verify_response, verify_confirm, verify_challenge, read_auth_frame, write_auth, await_response,
  await_confirm, await_challenge, carrier_auth,
}
use iran_germany_split_tunne.Auth.Response.{IsResponse, verify_response-IsResponse}
use iran_germany_split_tunne.Auth.Messages.{
  IsConfirm, verify_confirm-IsConfirm, length-build_challenge,
}

-- The next frame of the bytes is the message.
pub record Carries (incoming p rest : List ℕ) : Type 0 where
  pub f : Frame
  pub is_next : read_frame incoming ≡ ok (f, rest)
  pub is_auth : f.typ ≡ frame_auth
  pub is_control : f.stream_id ≡ 0
  pub is_message : f.payload ≡ p

frame_cases :
    (o : Result (Frame × List ℕ))
    → ((f : Frame) × (r : List ℕ) × (o ≡ ok (f, r))) ⊎ ((e : Error) × (o ≡ err e))
frame_cases (ok (f, r)) = inl (f, r, refl)
frame_cases (err e) = inr (e, refl)

read_auth_frame-Carries :
    (want : ℕ) (incoming p rest : List ℕ)
    → read_auth_frame want incoming ≡ passed (p, rest)
    → Carries incoming p rest × (length p ≡ want)
unfolding read_auth_frame
read_auth_frame-Carries want incoming p rest h = elim (frame_cases (read_frame incoming)) [
  | inr (e, fails) ↦ absurd (ground arith)
  | inl (f, r, e) ↦
      let same_rest : r ≡ rest = ground arith in
      let same_payload : f.payload ≡ p = ground arith in
      let auth : f.typ ≡ frame_auth = ground arith in
      let control : f.stream_id ≡ 0 = ground arith in
      (
        record {
          f = f;
          is_next = subst (λ x. read_frame incoming ≡ ok (f, x)) same_rest e;
          is_auth = auth;
          is_control = control;
          is_message = same_payload;
        },
        ground arith,
      )
]

checked_cases :
    (o : Checked (List ℕ × List ℕ))
    → ((p : List ℕ) × (r : List ℕ) × (o ≡ passed (p, r))) ⊎ ((e : AuthError) × (o ≡ failed e))
checked_cases (passed (p, r)) = inl (p, r, refl)
checked_cases (failed e) = inr (e, refl)

write_auth-passed :
    (goes : Bool) (p after : List ℕ) (next : Run)
    → (write_auth goes p next).1 ≡ passed after
    → next.1 ≡ passed after
unfolding write_auth
write_auth-passed goes p after next h = ground arith

-- The message that a server has read, when it ends well.
ServerRead : (List ℕ → List ℕ → List ℕ) → End → List ℕ → List ℕ → List ℕ → Type 0
ServerRead mac n challenge incoming rest =
    (p : List ℕ) × (read_auth_frame auth_response_size incoming ≡ passed (p, rest))
    × (verify_response mac n.secret n.role n.now challenge p ≡ none)

server_read :
    (mac : List ℕ → List ℕ → List ℕ) (n : End) (challenge incoming rest : List ℕ)
    → (await_response mac n challenge incoming).1 ≡ passed rest
    → ServerRead mac n challenge incoming rest
unfolding await_response ServerRead
server_read mac n challenge incoming rest h =
    elim (checked_cases (read_auth_frame auth_response_size incoming)) [
      | inr (e, fails) ↦ absurd (ground arith)
      | inl (p, r, e) ↦
          elim (Option-cases (verify_response mac n.secret n.role n.now challenge p)) [
            | inr (bad, refused) ↦ absurd (ground arith)
            | inl good ↦
                let same : r ≡ rest =
                  (ground (
                    arith,
                    write_auth-passed n.second_write
                        (build_confirm mac n.secret n.role challenge p n.nonce2) rest
                        ([], passed r),
                  )) in
                (
                  p,
                  subst (λ x. read_auth_frame auth_response_size incoming ≡ passed (p, x)) same e,
                  good,
                )
          ]
    ]

confirm_read :
    (mac : List ℕ → List ℕ → List ℕ) (n : End) (challenge response incoming rest : List ℕ)
    → (await_confirm mac n challenge response incoming).1 ≡ passed rest
    → (k : List ℕ) × (read_auth_frame auth_confirm_size incoming ≡ passed (k, rest))
      × (verify_confirm mac n.secret n.role challenge response k ≡ none)
unfolding await_confirm
confirm_read mac n challenge response incoming rest h =
    elim (checked_cases (read_auth_frame auth_confirm_size incoming)) [
      | inr (e, fails) ↦ absurd (ground arith)
      | inl (k, r, e) ↦
          elim (Option-cases (verify_confirm mac n.secret n.role challenge response k)) [
            | inr (bad, refused) ↦ absurd (ground arith)
            | inl good ↦
                let same : r ≡ rest = ground arith in
                (
                  k,
                  subst (λ x. read_auth_frame auth_confirm_size incoming ≡ passed (k, x)) same e,
                  good,
                )
          ]
    ]

-- What the client has read, when it ends well: a challenge that it takes, and then a confirmation.
ClientRead : (List ℕ → List ℕ → List ℕ) → End → List ℕ → List ℕ → Type 0
ClientRead mac n incoming rest =
    (c : List ℕ) × (between : List ℕ) × (k : List ℕ) × (read_auth_frame auth_challenge_size incoming
      ≡ passed (c, between))
    × (verify_challenge n.role n.now c ≡ none)
    × (read_auth_frame auth_confirm_size between ≡ passed (k, rest))
    × (verify_confirm mac n.secret n.role c
          (build_response mac n.secret n.role c (auth_now n.stamp) n.nonce) k
        ≡ none)

client_read :
    (mac : List ℕ → List ℕ → List ℕ) (n : End) (incoming rest : List ℕ)
    → (await_challenge mac n incoming).1 ≡ passed rest
    → ClientRead mac n incoming rest
unfolding await_challenge ClientRead
client_read mac n incoming rest h =
    elim (checked_cases (read_auth_frame auth_challenge_size incoming)) [
      | inr (e, fails) ↦ absurd (ground arith)
      | inl (c, between, e) ↦ elim (Option-cases (verify_challenge n.role n.now c)) [
        | inr (bad, refused) ↦ absurd (ground arith)
        | inl taken ↦
            let r = build_response mac n.secret n.role c (auth_now n.stamp) n.nonce in
            let done : (await_confirm mac n c r between).1 ≡ passed rest =
              ground
                (arith, write_auth-passed n.first_write r rest (await_confirm mac n c r between)) in
            let (k, e2, good) = confirm_read mac n c r between rest done in
            (c, between, k, e, taken, e2, good)
      ]
    ]

abbrev pub server_challenge : End → List ℕ
server_challenge n = build_challenge n.role (auth_now n.stamp) n.nonce

-- What a server has been sent.
pub record ServerSaw (mac : List ℕ → List ℕ → List ℕ) (n : End) (incoming rest : List ℕ)
    : Type 0 where
  pub response : List ℕ
  pub came : Carries incoming response rest
  pub is_response : IsResponse mac n.secret n.role n.now (server_challenge n) response

-- What a client has been sent.
pub record ClientSaw (mac : List ℕ → List ℕ → List ℕ) (n : End) (incoming rest : List ℕ)
    : Type 0 where
  pub challenge : List ℕ
  pub between : List ℕ
  pub confirm : List ℕ
  pub first : Carries incoming challenge between
  pub taken : verify_challenge n.role n.now challenge ≡ none
  pub second : Carries between confirm rest
  pub is_confirm :
      IsConfirm mac n.secret n.role challenge
        (build_response mac n.secret n.role challenge (auth_now n.stamp) n.nonce)
        confirm

pub Saw : (List ℕ → List ℕ → List ℕ) → Bool → End → List ℕ → List ℕ → Type 0
Saw mac true n incoming rest = ClientSaw mac n incoming rest
Saw mac false n incoming rest = ServerSaw mac n incoming rest

server_saw :
    (mac : List ℕ → List ℕ → List ℕ) (mac_size : (k d : List ℕ) → length (mac k d) ≡ 32) (n : End)
    (incoming rest : List ℕ)
    → length n.nonce ≡ 16
    → ServerRead mac n (server_challenge n) incoming rest
    → ServerSaw mac n incoming rest
unfolding ServerRead
server_saw mac mac_size n incoming rest hn (p, e, good) =
    let c = build_challenge n.role (auth_now n.stamp) n.nonce in
    let size : length c ≡ auth_challenge_size =
      length-build_challenge n.role (auth_now n.stamp) n.nonce (length-be 4 (n.stamp.sec % 2 ^ 32))
        hn in
    let (came, p_size) = read_auth_frame-Carries auth_response_size incoming p rest e in
    record {
      response = p;
      came = came;
      is_response =
          (verify_response-IsResponse mac mac_size n.secret n.role c size n.now p p_size).0 good;
    }

client_saw :
    (mac : List ℕ → List ℕ → List ℕ) (mac_size : (k d : List ℕ) → length (mac k d) ≡ 32) (n : End)
    (incoming rest : List ℕ)
    → ClientRead mac n incoming rest
    → ClientSaw mac n incoming rest
unfolding ClientRead
client_saw mac mac_size n incoming rest (c, between, k, e1, taken, e2, good) =
    let r = build_response mac n.secret n.role c (auth_now n.stamp) n.nonce in
    let (first, c_size) = read_auth_frame-Carries auth_challenge_size incoming c between e1 in
    let (second, k_size) = read_auth_frame-Carries auth_confirm_size between k rest e2 in
    record {
      challenge = c;
      between = between;
      confirm = k;
      first = first;
      taken = taken;
      second = second;
      is_confirm = (verify_confirm-IsConfirm mac mac_size n.secret n.role c r k k_size).0 good;
    }

-- A handshake that succeeds has read messages made with the end's secret, for a MAC of 32 bytes and whole
-- nonces. A server has read one authentication frame, whose payload is a response that buildResponse
-- makes of its secret, its role and the very challenge it drew, with a timestamp near its clock. A
-- client has read two: a challenge of its version and role with a timestamp near its clock, and a
-- confirmation that buildConfirm makes of its secret, its role, that challenge and its own response.
-- The reader holds what follows.
pub success_authenticates :
    (mac : List ℕ → List ℕ → List ℕ) (mac_size : (k d : List ℕ) → length (mac k d) ≡ 32)
    (is_client : Bool) (n : End) (incoming sent rest : List ℕ)
    → length n.nonce ≡ 16
    → carrier_auth mac is_client n incoming ≡ (sent, passed rest)
    → Saw mac is_client n incoming rest
unfolding carrier_auth Saw
success_authenticates mac mac_size true n incoming sent rest hn h =
    client_saw mac mac_size n incoming rest (client_read mac n incoming rest (ground arith))
success_authenticates mac mac_size false n incoming sent rest hn h =
    let c = build_challenge n.role (auth_now n.stamp) n.nonce in
    server_saw mac mac_size n incoming rest hn (
      server_read mac n c incoming rest
        (ground (arith, write_auth-passed n.first_write c rest (await_response mac n c incoming))))
