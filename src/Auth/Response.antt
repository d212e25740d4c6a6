-- ===== src/Auth/Response.antt =====
-- pkg/mux/auth.go, verifyResponse: what a server takes for the response to its challenge.
use iran_germany_split_tunne.Common.{
  ℕ, ◌≡◌, ◌≢◌, Bool-cases, inl, inr, ◌↔◌, ◌∙◌, refl, sym, ap, subst, true, not, ◌||◌, if◌then◌else◌,
  none, some, List, [], ◌∷◌, ◌++◌, length, length-append, length-drop, length-take_of_le, drop,
  take, arith,
}
use iran_germany_split_tunne.Common.Slices.{
  same_bytes, same_bytes_eq, same_bytes_self, slice, copied_whole, take_front, drop_front, cut,
}
use iran_germany_split_tunne.Frame.{byte_at}
use iran_germany_split_tunne.Auth.{
  protocol, freshness, bad_mac, Clock, auth_version, auth_challenge_size, auth_response_size,
  auth_clock_ok, build_response, verify_response,
}

-- The fields of a response after its version and its role.
abbrev fields : List ℕ → List ℕ → List ℕ → List ℕ → List ℕ → List ℕ
fields ts echo_ts echo_nonce nonce tag = ts ++ (echo_ts ++ (echo_nonce ++ (nonce ++ tag)))

module _ (v role : ℕ) (ts echo_ts echo_nonce nonce tag : List ℕ) (h1 : length ts ≡ 4)
    (h2 : length echo_ts ≡ 4) (h3 : length echo_nonce ≡ 16) (h4 : length nonce ≡ 16) where
  abbrev r : List ℕ
  r = v ∷ role ∷ fields ts echo_ts echo_nonce nonce tag

  at_6 : drop 6 r ≡ echo_ts ++ (echo_nonce ++ (nonce ++ tag))
  at_6 = drop_front 4 0 ts (echo_ts ++ (echo_nonce ++ (nonce ++ tag))) h1

  at_10 : drop 10 r ≡ echo_nonce ++ (nonce ++ tag)
  at_10 =
      drop_front 4 4 ts (echo_ts ++ (echo_nonce ++ (nonce ++ tag))) h1
      ∙ drop_front 4 0 echo_ts (echo_nonce ++ (nonce ++ tag)) h2

  at_26 : drop 26 r ≡ nonce ++ tag
  at_26 =
      drop_front 4 20 ts (echo_ts ++ (echo_nonce ++ (nonce ++ tag))) h1
      ∙ drop_front 4 16 echo_ts (echo_nonce ++ (nonce ++ tag)) h2
      ∙ drop_front 16 0 echo_nonce (nonce ++ tag) h3

  at_42 : drop 42 r ≡ tag
  at_42 =
      drop_front 4 36 ts (echo_ts ++ (echo_nonce ++ (nonce ++ tag))) h1
      ∙ drop_front 4 32 echo_ts (echo_nonce ++ (nonce ++ tag)) h2
      ∙ drop_front 16 16 echo_nonce (nonce ++ tag) h3
      ∙ drop_front 16 0 nonce tag h4

  slices :
      (slice 2 6 r ≡ ts)
      × (slice 6 10 r ≡ echo_ts)
      × (slice 10 26 r ≡ echo_nonce)
      × (slice 26 42 r ≡ nonce)
      × (drop 42 r ≡ tag)
  unfolding slice
  slices = (
    take_front 4 ts (echo_ts ++ (echo_nonce ++ (nonce ++ tag))) h1,
    ap (take 4) at_6 ∙ take_front 4 echo_ts (echo_nonce ++ (nonce ++ tag)) h2,
    ap (take 16) at_10 ∙ take_front 16 echo_nonce (nonce ++ tag) h3,
    ap (take 16) at_26 ∙ take_front 16 nonce tag h4,
    at_42,
  )

-- A response is what its fields make of it.
whole :
    (r : List ℕ)
    → length r ≡ auth_response_size
    → r
      ≡ byte_at 0 r
        ∷ byte_at 1 r
        ∷ fields (slice 2 6 r) (slice 6 10 r) (slice 10 26 r) (slice 26 42 r) (drop 42 r)
unfolding slice
whole [] h = absurd (omega arith)
whole (a ∷ []) h = absurd (omega arith)
whole (a ∷ b ∷ t) h =
    let r = a ∷ b ∷ t in
    ap (λ x. a ∷ b ∷ x) (cut 2 4 r)
    ∙ ap (λ x. a ∷ b ∷ slice 2 6 r ++ x) (cut 6 4 r)
    ∙ ap (λ x. a ∷ b ∷ slice 2 6 r ++ (slice 6 10 r ++ x)) (cut 10 16 r)
    ∙ ap (λ x. a ∷ b ∷ slice 2 6 r ++ (slice 6 10 r ++ (slice 10 26 r ++ x))) (cut 26 16 r)

-- The sizes of the slices of a challenge and of a response.
module _ (c : List ℕ) (hc : length c ≡ auth_challenge_size) where
  pub echo_ts_size : length (slice 2 6 c) ≡ 4
  unfolding slice
  echo_ts_size = length-take_of_le 4 (drop 2 c) (omega (arith, length-drop 2 c))

  pub echo_nonce_size : length (drop 6 c) ≡ 16
  echo_nonce_size = omega (arith, length-drop 6 c)

module _ (r : List ℕ) (hr : length r ≡ auth_response_size) where
  ts_size : length (slice 2 6 r) ≡ 4
  unfolding slice
  ts_size = length-take_of_le 4 (drop 2 r) (omega (arith, length-drop 2 r))

  nonce_size : length (slice 26 42 r) ≡ 16
  unfolding slice
  nonce_size = length-take_of_le 16 (drop 26 r) (omega (arith, length-drop 26 r))

-- The response is the one that the secret, the role, the challenge and a nonce give, with a
-- timestamp in the range of the clock.
pub record IsResponse (mac : List ℕ → List ℕ → List ℕ) (secret : List ℕ) (role : ℕ) (now : Clock)
    (challenge r : List ℕ) : Type 0 where
  pub ts : List ℕ
  pub nonce : List ℕ
  pub ts_whole : length ts ≡ 4
  pub nonce_whole : length nonce ≡ 16
  pub is_fresh : auth_clock_ok now ts ≡ true
  pub built : r ≡ build_response mac secret role challenge ts nonce

module _ (mac : List ℕ → List ℕ → List ℕ) (mac_size : (k d : List ℕ) → length (mac k d) ≡ 32)
    (secret : List ℕ) (role : ℕ) (challenge : List ℕ)
    (hc : length challenge ≡ auth_challenge_size) where
  tag : List ℕ → List ℕ → List ℕ
  tag ts nonce = mac secret (challenge ++ (ts ++ nonce))

  build_response-fields :
      (ts nonce : List ℕ)
      → length ts ≡ 4
      → length nonce ≡ 16
      → build_response mac secret role challenge ts nonce
        ≡ auth_version
          ∷ role
          ∷ fields ts (slice 2 6 challenge) (drop 6 challenge) nonce (tag ts nonce)
  unfolding build_response tag
  build_response-fields ts nonce h1 h4 =
      rw
        (
          copied_whole 4 ts h1,
          copied_whole 4 (slice 2 6 challenge) (echo_ts_size challenge hc),
          copied_whole 16 (drop 6 challenge) (echo_nonce_size challenge hc),
          copied_whole 16 nonce h4,
          copied_whole 32 (mac secret (challenge ++ (ts ++ nonce)))
              (mac_size secret (challenge ++ (ts ++ nonce))),
        )
        refl

  pub length-build_response :
      (ts nonce : List ℕ)
      → length ts ≡ 4
      → length nonce ≡ 16
      → length (build_response mac secret role challenge ts nonce) ≡ auth_response_size
  unfolding tag
  length-build_response ts nonce h1 h4 =
      let mark = tag ts nonce in
      rw (build_response-fields ts nonce h1 h4) (
        omega (
          arith,
          length-append ts (slice 2 6 challenge ++ (drop 6 challenge ++ (nonce ++ mark))),
          length-append (slice 2 6 challenge) (drop 6 challenge ++ (nonce ++ mark)),
          length-append (drop 6 challenge) (nonce ++ mark),
          length-append nonce mark,
          echo_ts_size challenge hc,
          echo_nonce_size challenge hc,
          mac_size secret (challenge ++ (ts ++ nonce)),
        ))

  checks :
      (now : Clock) (r : List ℕ)
      → verify_response mac secret role now challenge r ≡ none
      → (byte_at 0 r ≡ auth_version)
        × (byte_at 1 r ≡ role)
        × (same_bytes (slice 6 10 r) (slice 2 6 challenge) ≡ true)
        × (same_bytes (slice 10 26 r) (drop 6 challenge) ≡ true)
        × (auth_clock_ok now (slice 2 6 r) ≡ true)
        × (same_bytes (tag (slice 2 6 r) (slice 26 42 r)) (drop 42 r) ≡ true)
  unfolding verify_response tag
  checks now r h =
      (ground arith, ground arith, ground arith, ground arith, ground arith, ground arith)

  -- Whatever challenge a response of this role answers, its echoes decide first.
  module _ (now : Clock) (ts echo_ts echo_nonce nonce mark : List ℕ) (h1 : length ts ≡ 4)
      (h2 : length echo_ts ≡ 4) (h3 : length echo_nonce ≡ 16) (h4 : length nonce ≡ 16) where
    verify-fields :
        verify_response mac secret role now challenge
          (auth_version ∷ role ∷ fields ts echo_ts echo_nonce nonce mark)
        ≡ (if not (same_bytes echo_ts (slice 2 6 challenge))
              || not (same_bytes echo_nonce (drop 6 challenge))
            then some protocol
            else if not (auth_clock_ok now ts)
            then some freshness
            else if not (same_bytes (tag ts nonce) mark)
            then some bad_mac
            else none)
    unfolding verify_response tag
    verify-fields =
        let (s1, s2, s3, s4, s5) =
          slices auth_version role ts echo_ts echo_nonce nonce mark h1 h2 h3 h4 in
        rw (s1, s2, s3, s4, s5) (ground arith)

  pub accepted :
      (now : Clock) (ts nonce : List ℕ)
      → length ts ≡ 4
      → length nonce ≡ 16
      → auth_clock_ok now ts ≡ true
      → verify_response mac secret role now challenge
          (build_response mac secret role challenge ts nonce)
        ≡ none
  accepted now ts nonce h1 h4 fresh = rw (build_response-fields ts nonce h1 h4) (
      verify-fields now ts (slice 2 6 challenge) (drop 6 challenge) nonce (tag ts nonce) h1
        (echo_ts_size challenge hc) (echo_nonce_size challenge hc) h4
      ∙ ground (
        arith,
        same_bytes_self (slice 2 6 challenge),
        same_bytes_self (drop 6 challenge),
        same_bytes_self (tag ts nonce),
      ))

  built_from :
      (now : Clock) (r : List ℕ)
      → length r ≡ auth_response_size
      → verify_response mac secret role now challenge r ≡ none
      → IsResponse mac secret role now challenge r
  built_from now r hr h =
      let (ev, er, e1, e2, fresh, em) = checks now r h in
      let same_ts = same_bytes_eq (slice 6 10 r) (slice 2 6 challenge) e1 in
      let same_nonce = same_bytes_eq (slice 10 26 r) (drop 6 challenge) e2 in
      let same_tag = same_bytes_eq (tag (slice 2 6 r) (slice 26 42 r)) (drop 42 r) em in
      record {
        ts = slice 2 6 r;
        nonce = slice 26 42 r;
        ts_whole = ts_size r hr;
        nonce_whole = nonce_size r hr;
        is_fresh = fresh;
        built =
            whole r hr
            ∙ (λ i.
                ev i
                ∷ er i
                ∷ fields (slice 2 6 r) (same_ts i) (same_nonce i) (slice 26 42 r) (sym same_tag i))
            ∙ sym (
                build_response-fields (slice 2 6 r) (slice 26 42 r) (ts_size r hr)
                  (nonce_size r hr));
      }

  -- With a MAC of 32 bytes, a server takes 74 bytes for a response to its challenge exactly if
  -- buildResponse makes them of the same secret, role and challenge, with some client nonce and a
  -- timestamp within the allowed skew of the server's clock.
  pub verify_response-IsResponse :
      (now : Clock) (r : List ℕ)
      → length r ≡ auth_response_size
      → (verify_response mac secret role now challenge r ≡ none)
        ↔ IsResponse mac secret role now challenge r
  verify_response-IsResponse now r hr = (
    built_from now r hr,
    λ b.
        subst (λ x. verify_response mac secret role now challenge x ≡ none) (sym b.built)
          (accepted now b.ts b.nonce b.ts_whole b.nonce_whole b.is_fresh),
  )

-- Two challenges with the same echoes agree from their timestamps on.
same_challenge :
    (c1 c2 : List ℕ)
    → same_bytes (slice 2 6 c1) (slice 2 6 c2) ≡ true
    → same_bytes (drop 6 c1) (drop 6 c2) ≡ true
    → drop 2 c1 ≡ drop 2 c2
unfolding slice
same_challenge c1 c2 e1 e2 =
    let same_ts = same_bytes_eq (take 4 (drop 2 c1)) (take 4 (drop 2 c2)) e1 in
    let same_nonce = same_bytes_eq (drop 6 c1) (drop 6 c2) e2 in
    cut 2 4 c1 ∙ (λ i. same_ts i ++ same_nonce i) ∙ sym (cut 2 4 c2)

echo_differs :
    (c1 c2 : List ℕ)
    → drop 2 c1 ≢ drop 2 c2
    → (not (same_bytes (slice 2 6 c1) (slice 2 6 c2)) || not (same_bytes (drop 6 c1) (drop 6 c2)))
      ≡ true
echo_differs c1 c2 differ = elim (Bool-cases (same_bytes (slice 2 6 c1) (slice 2 6 c2))) [
  | inr different ↦ rw different refl
  | inl same_ts ↦ elim (Bool-cases (same_bytes (drop 6 c1) (drop 6 c2))) [
    | inr different ↦ rw (same_ts, different) refl
    | inl same_nonce ↦ absurd (differ (same_challenge c1 c2 same_ts same_nonce))
  ]
]

-- A response to one challenge is a protocol violation as the response to another that differs in the
-- timestamp or the nonce, whatever the two secrets.
pub replay_refused :
    (mac : List ℕ → List ℕ → List ℕ) (mac_size : (k d : List ℕ) → length (mac k d) ≡ 32)
    (secret secret2 : List ℕ) (role : ℕ) (now : Clock) (c1 c2 ts nonce : List ℕ)
    → length c1 ≡ auth_challenge_size
    → length c2 ≡ auth_challenge_size
    → drop 2 c1 ≢ drop 2 c2
    → length ts ≡ 4
    → length nonce ≡ 16
    → verify_response mac secret2 role now c2 (build_response mac secret role c1 ts nonce)
      ≡ some protocol
unfolding tag
replay_refused mac mac_size secret secret2 role now c1 c2 ts nonce hc1 hc2 differ h1 h4 =
    rw (build_response-fields mac mac_size secret role c1 hc1 ts nonce h1 h4) (
      verify-fields mac mac_size secret2 role c2 hc2 now ts (slice 2 6 c1) (drop 6 c1) nonce
        (mac secret (c1 ++ (ts ++ nonce))) h1 (echo_ts_size c1 hc1) (echo_nonce_size c1 hc1) h4
      ∙ rw (echo_differs c1 c2 differ) refl)
