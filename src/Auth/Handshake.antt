-- ===== src/Auth/Handshake.antt =====
-- pkg/mux/auth.go, CarrierAuth: the handshake of two ends over a connection.
use iran_germany_split_tunne.Common.{
  ℕ, ◌^◌, ◌%◌, ◌<◌, ◌≤◌, ◌≡◌, ◌∙◌, refl, sym, ap, subst, true, false, none, List, [], ◌++◌,
  append_assoc, append-nil, length, arith,
}
use iran_germany_split_tunne.Common.Bytes.{of_be, of_be-be, length-be}
use iran_germany_split_tunne.Frame.{Frame}
use iran_germany_split_tunne.Frame.Stream.{encode, Fits, write_frame-encode, read_frame-encode}
use iran_germany_split_tunne.Auth.{
  Clock, passed, Run, End, frame_auth, auth_challenge_size, auth_response_size, auth_confirm_size,
  auth_max_clock_skew, clock_distance, auth_now, auth_clock_ok, valid_role, build_challenge,
  build_response, build_confirm, verify_response, verify_confirm, verify_challenge, read_auth_frame,
  write_auth, await_response, await_confirm, await_challenge, carrier_auth,
}
use iran_germany_split_tunne.Auth.Response.{accepted, length-build_response}
use iran_germany_split_tunne.Auth.Messages.{
  length-build_challenge, length-build_confirm, challenge_taken, confirm_taken,
}

-- The frame of a message, and its bytes.
abbrev frame : List ℕ → Frame
frame p = record { stream_id = 0; typ = frame_auth; len = length p; payload = p }

abbrev wire : List ℕ → List ℕ
wire p = encode (frame p)

frame-Fits : (p : List ℕ) → length p ≤ 65535 → Fits (frame p)
frame-Fits p h = record {
  stream_fits = omega arith;
  typ_fits = omega arith;
  len_exact = refl;
  len_fits = h;
}

write_wire :
    (p : List ℕ) (next : Run)
    → length p ≤ 65535
    → write_auth true p next ≡ (wire p ++ next.0, next.1)
unfolding write_auth
write_wire p next h = rw (write_frame-encode (frame p) (frame-Fits p h)) refl

read_wire :
    (want : ℕ) (p r : List ℕ)
    → length p ≡ want
    → length p ≤ 65535
    → read_auth_frame want (wire p ++ r) ≡ passed (p, r)
unfolding read_auth_frame
read_wire want p r e h =
    rw (read_auth_frame, read_frame-encode (frame p) r (frame-Fits p h)) (ground arith)

now_accepted :
    (now stamp : Clock)
    → stamp.sec < 2 ^ 32
    → clock_distance now stamp.sec ≤ auth_max_clock_skew
    → auth_clock_ok now (auth_now stamp) ≡ true
unfolding auth_clock_ok
now_accepted now stamp h near =
    let same : of_be (auth_now stamp) ≡ stamp.sec =
      of_be-be 4 (stamp.sec % 2 ^ 32) (omega arith) ∙ omega arith in
    rw same (ground arith)

-- The two ends may talk: they share the secret and a valid role, nothing stops them, their nonces are
-- whole, and the clock by which each checks is near the one that the other stamped.
pub record CanTalk (server client : End) : Type 0 where
  pub same_secret : client.secret ≡ server.secret
  pub same_role : client.role ≡ server.role
  pub has_role : valid_role server.role ≡ true
  pub server_on : server.is_cancelled ≡ false
  pub client_on : client.is_cancelled ≡ false
  pub challenge_goes : server.first_write ≡ true
  pub response_goes : client.first_write ≡ true
  pub confirm_goes : server.second_write ≡ true
  pub nonce_s : length server.nonce ≡ 16
  pub nonce_c : length client.nonce ≡ 16
  pub nonce_s2 : length server.nonce2 ≡ 16
  pub server_in_range : server.stamp.sec < 2 ^ 32
  pub client_in_range : client.stamp.sec < 2 ^ 32
  pub client_near : clock_distance client.now server.stamp.sec ≤ auth_max_clock_skew
  pub server_near : clock_distance server.now client.stamp.sec ≤ auth_max_clock_skew

module _ (mac : List ℕ → List ℕ → List ℕ) (mac_size : (k d : List ℕ) → length (mac k d) ≡ 32)
    (server client : End) (talk : CanTalk server client) where
  challenge : ℕ → List ℕ
  challenge role = build_challenge role (auth_now server.stamp) server.nonce

  response : List ℕ → ℕ → List ℕ
  response secret role =
      build_response mac secret role (challenge role) (auth_now client.stamp) client.nonce

  confirm : List ℕ → ℕ → List ℕ
  confirm secret role =
      build_confirm mac secret role (challenge role) (response secret role) server.nonce2

  challenge_size : (role : ℕ) → length (challenge role) ≡ auth_challenge_size
  unfolding challenge
  challenge_size role =
      length-build_challenge role (auth_now server.stamp) server.nonce
        (length-be 4 (server.stamp.sec % 2 ^ 32)) talk.nonce_s

  response_size : (secret : List ℕ) (role : ℕ) → length (response secret role) ≡ auth_response_size
  unfolding response
  response_size secret role =
      length-build_response mac mac_size secret role (challenge role) (challenge_size role)
        (auth_now client.stamp) client.nonce (length-be 4 (client.stamp.sec % 2 ^ 32)) talk.nonce_c

  confirm_size : (secret : List ℕ) (role : ℕ) → length (confirm secret role) ≡ auth_confirm_size
  unfolding confirm
  confirm_size secret role =
      length-build_confirm mac mac_size secret role (challenge role) (response secret role)
        server.nonce2 talk.nonce_s2

  response_good :
      (secret : List ℕ) (role : ℕ)
      → verify_response mac secret role server.now (challenge role) (response secret role) ≡ none
  unfolding response
  response_good secret role =
      accepted mac mac_size secret role (challenge role) (challenge_size role) server.now
        (auth_now client.stamp) client.nonce (length-be 4 (client.stamp.sec % 2 ^ 32)) talk.nonce_c
        (now_accepted server.now client.stamp talk.client_in_range talk.server_near)

  confirm_good :
      (secret : List ℕ) (role : ℕ)
      → verify_confirm mac secret role (challenge role) (response secret role) (confirm secret role)
        ≡ none
  unfolding confirm
  confirm_good secret role =
      confirm_taken mac mac_size secret role (challenge role) (response secret role) server.nonce2
        talk.nonce_s2

  challenge_good : (role : ℕ) → verify_challenge role client.now (challenge role) ≡ none
  unfolding challenge
  challenge_good role =
      challenge_taken role client.now (auth_now server.stamp) server.nonce
        (length-be 4 (server.stamp.sec % 2 ^ 32)) talk.nonce_s
        (now_accepted client.now server.stamp talk.server_in_range talk.client_near)

  confirm_run :
      (after : List ℕ)
      → await_confirm mac client
          (challenge client.role)
          (response client.secret client.role)
          (wire (confirm client.secret client.role) ++ after)
        ≡ ([], passed after)
  unfolding await_confirm
  confirm_run after =
      let k = confirm client.secret client.role in
      let size = confirm_size client.secret client.role in
      rw
        (
          await_confirm,
          read_wire auth_confirm_size k after size (omega arith),
          confirm_good client.secret client.role,
        )
        refl

  client_run :
      (after : List ℕ)
      → carrier_auth mac true client
          (wire (challenge client.role) ++ (wire (confirm client.secret client.role) ++ after))
        ≡ (wire (response client.secret client.role) ++ [], passed after)
  unfolding carrier_auth await_challenge response
  client_run after =
      let r = response client.secret client.role in
      let rest = wire (confirm client.secret client.role) ++ after in
      let on = talk.client_on in
      let role_ok : valid_role client.role ≡ true =
        subst (λ x. valid_role x ≡ true) (sym talk.same_role) talk.has_role in
      rw
        (
          role_ok,
          on,
          await_challenge,
          read_wire auth_challenge_size (challenge client.role) rest (challenge_size client.role)
              (omega (arith, challenge_size client.role)),
          challenge_good client.role,
          talk.response_goes,
          write_wire r (await_confirm mac client (challenge client.role) r rest)
              (omega (arith, response_size client.secret client.role)),
          confirm_run after,
        )
        refl

  server_run :
      (after : List ℕ)
      → carrier_auth mac false server (wire (response server.secret server.role) ++ after) ≡ (
        wire (challenge server.role) ++ (wire (confirm server.secret server.role) ++ []),
        passed after,
      )
  unfolding carrier_auth await_response challenge confirm
  server_run after =
      let c = challenge server.role in
      let r = response server.secret server.role in
      let k = confirm server.secret server.role in
      let incoming = wire r ++ after in
      let reply : await_response mac server c incoming ≡ (wire k ++ [], passed after) =
        rw
          (
            await_response,
            read_wire auth_response_size r after (response_size server.secret server.role)
                (omega (arith, response_size server.secret server.role)),
            response_good server.secret server.role,
            talk.confirm_goes,
            write_wire k ([], passed after) (omega (arith, confirm_size server.secret server.role)),
          )
          refl in
      rw
        (
          talk.has_role,
          talk.server_on,
          talk.challenge_goes,
          write_wire c (await_response mac server c incoming)
              (omega (arith, challenge_size server.role)),
          reply,
        )
        refl

-- The two ends' handshakes, each reading what the other writes and whatever follows it, succeed and
-- leave what follows in the reader.
pub record Completes (mac : List ℕ → List ℕ → List ℕ) (server client : End)
    (after_s after_c : List ℕ) : Type 0 where
  pub sent_s : List ℕ
  pub sent_c : List ℕ
  pub client_ends : carrier_auth mac true client (sent_s ++ after_s) ≡ (sent_c, passed after_s)
  pub server_ends : carrier_auth mac false server (sent_c ++ after_c) ≡ (sent_s, passed after_c)

-- With a MAC of 32 bytes, a server and a client that share the secret and a valid role, neither of
-- them cancelled, their writes going through, their nonces whole and their clocks before 2106 and
-- within the allowed skew, both complete the handshake over a connection that carries each one's
-- bytes to the other, and every byte behind the last message is left to the carrier.
pub handshake_completes :
    (mac : List ℕ → List ℕ → List ℕ) (mac_size : (k d : List ℕ) → length (mac k d) ≡ 32)
    (server client : End)
    → CanTalk server client
    → (after_s after_c : List ℕ) → Completes mac server client after_s after_c
handshake_completes mac mac_size server client talk after_s after_c =
    let c = λ (role : ℕ). wire (challenge mac mac_size server client talk role) in
    let r =
      λ (secret : List ℕ) (role : ℕ). wire (response mac mac_size server client talk secret role) in
    let k =
      λ (secret : List ℕ) (role : ℕ). wire (confirm mac mac_size server client talk secret role) in
    let client_at : List ℕ → ℕ → Type 0 = λ secret role.
      carrier_auth mac true client (c role ++ (k secret role ++ after_s))
      ≡ (r secret role ++ [], passed after_s) in
    let client_done : client_at server.secret server.role =
      subst (λ secret. client_at secret server.role) talk.same_secret
        (subst (client_at client.secret) talk.same_role
          (client_run mac mac_size server client talk after_s)) in
    record {
      sent_s = c server.role ++ (k server.secret server.role ++ []);
      sent_c = r server.secret server.role ++ [];
      client_ends =
          ap (carrier_auth mac true client) (
            append_assoc (c server.role) (k server.secret server.role ++ []) after_s
            ∙ ap (λ x. c server.role ++ (x ++ after_s)) (append-nil (k server.secret server.role)))
          ∙ client_done;
      server_ends =
          ap (λ x. carrier_auth mac false server (x ++ after_c))
            (append-nil (r server.secret server.role))
          ∙ server_run mac mac_size server client talk after_c;
    }
