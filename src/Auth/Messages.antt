-- ===== src/Auth/Messages.antt =====
-- pkg/mux/auth.go: the challenge and the confirmation, as the client checks them, and the frames
-- that carry the three messages.
use iran_germany_split_tunne.Common.{
  ℕ, ◌≡◌, ◌↔◌, ◌∙◌, refl, sym, ap, subst, true, none, List, [], ◌∷◌, ◌++◌, length, length-append,
  length-drop, length-take_of_le, drop, arith,
}
use iran_germany_split_tunne.Common.Slices.{
  same_bytes_eq, same_bytes_self, slice, copied_whole, take_front, drop_front, cut,
}
use iran_germany_split_tunne.Frame.{byte_at}
use iran_germany_split_tunne.Auth.{
  Clock, auth_version, auth_confirm_size, auth_challenge_size, auth_clock_ok, build_challenge,
  build_confirm, verify_confirm, verify_challenge,
}

pub length-build_challenge :
    (role : ℕ) (ts nonce : List ℕ)
    → length ts ≡ 4
    → length nonce ≡ 16
    → length (build_challenge role ts nonce) ≡ auth_challenge_size
unfolding build_challenge
length-build_challenge role ts nonce h1 h2 =
    rw (copied_whole 4 ts h1, copied_whole 16 nonce h2) (omega (arith, length-append ts nonce))

-- A client takes the challenge of a server of its role whose clock is near.
pub challenge_taken :
    (role : ℕ) (now : Clock) (ts nonce : List ℕ)
    → length ts ≡ 4
    → length nonce ≡ 16
    → auth_clock_ok now ts ≡ true
    → verify_challenge role now (build_challenge role ts nonce) ≡ none
unfolding verify_challenge build_challenge slice
challenge_taken role now ts nonce h1 h2 fresh =
    rw (copied_whole 4 ts h1, copied_whole 16 nonce h2, take_front 4 ts nonce h1) (ground arith)

-- The confirmation is the one that the secret, the role, the challenge, the response and a nonce
-- give.
pub record IsConfirm (mac : List ℕ → List ℕ → List ℕ) (secret : List ℕ) (role : ℕ)
    (challenge response k : List ℕ) : Type 0 where
  pub nonce : List ℕ
  pub nonce_whole : length nonce ≡ 16
  pub built : k ≡ build_confirm mac secret role challenge response nonce

module _ (mac : List ℕ → List ℕ → List ℕ) (mac_size : (k d : List ℕ) → length (mac k d) ≡ 32)
    (secret : List ℕ) (role : ℕ) (challenge response : List ℕ) where
  seal : List ℕ → List ℕ
  seal nonce = mac secret (challenge ++ (response ++ nonce))

  build_confirm-fields :
      (nonce : List ℕ)
      → length nonce ≡ 16
      → build_confirm mac secret role challenge response nonce
        ≡ auth_version ∷ role ∷ nonce ++ seal nonce
  unfolding build_confirm seal
  build_confirm-fields nonce h =
      rw
        (
          copied_whole 16 nonce h,
          copied_whole 32 (seal nonce) (mac_size secret (challenge ++ (response ++ nonce))),
        )
        refl

  pub length-build_confirm :
      (nonce : List ℕ)
      → length nonce ≡ 16
      → length (build_confirm mac secret role challenge response nonce) ≡ auth_confirm_size
  unfolding seal
  length-build_confirm nonce h = rw (build_confirm-fields nonce h) (
      omega (
        arith,
        length-append nonce (seal nonce),
        mac_size secret (challenge ++ (response ++ nonce)),
      ))

  pub confirm_taken :
      (nonce : List ℕ)
      → length nonce ≡ 16
      → verify_confirm mac secret role challenge response
          (build_confirm mac secret role challenge response nonce)
        ≡ none
  unfolding verify_confirm seal slice
  confirm_taken nonce h =
      rw
        (
          build_confirm-fields nonce h,
          take_front 16 nonce (seal nonce) h,
          drop_front 16 0 nonce (seal nonce) h,
        )
        (ground (arith, same_bytes_self (seal nonce)))

  whole_confirm :
      (k : List ℕ)
      → length k ≡ auth_confirm_size
      → k ≡ byte_at 0 k ∷ byte_at 1 k ∷ slice 2 18 k ++ drop 18 k
  unfolding slice
  whole_confirm [] h = absurd (omega arith)
  whole_confirm (a ∷ []) h = absurd (omega arith)
  whole_confirm (a ∷ b ∷ t) h = ap (λ x. a ∷ b ∷ x) (cut 2 16 (a ∷ b ∷ t))

  IsConfirm-built :
      (k : List ℕ)
      → length k ≡ auth_confirm_size
      → verify_confirm mac secret role challenge response k ≡ none
      → IsConfirm mac secret role challenge response k
  unfolding verify_confirm seal slice
  IsConfirm-built k hk h =
      let size : length (slice 2 18 k) ≡ 16 =
        length-take_of_le 16 (drop 2 k) (omega (arith, length-drop 2 k)) in
      let ev : byte_at 0 k ≡ auth_version = ground arith in
      let er : byte_at 1 k ≡ role = ground arith in
      let same_seal = same_bytes_eq (seal (slice 2 18 k)) (drop 18 k) (ground arith) in
      record {
        nonce = slice 2 18 k;
        nonce_whole = size;
        built =
            whole_confirm k hk
            ∙ (λ i. ev i ∷ er i ∷ slice 2 18 k ++ sym same_seal i)
            ∙ sym (build_confirm-fields (slice 2 18 k) size);
      }

  -- With a MAC of 32 bytes, a client takes 50 bytes for the confirmation of its response exactly if
  -- buildConfirm makes them of the same secret, role, challenge and response, with some nonce.
  pub verify_confirm-IsConfirm :
      (k : List ℕ)
      → length k ≡ auth_confirm_size
      → (verify_confirm mac secret role challenge response k ≡ none)
        ↔ IsConfirm mac secret role challenge response k
  verify_confirm-IsConfirm k hk = (
    IsConfirm-built k hk,
    λ b.
        subst (λ x. verify_confirm mac secret role challenge response x ≡ none) (sym b.built)
          (confirm_taken b.nonce b.nonce_whole),
  )
