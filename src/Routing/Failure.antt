-- ===== src/Routing/Failure.antt =====
-- pkg/routing/engine.go, dialWarp: which failure a proxy is reported by, and what becomes of the
-- connection to it.
use iran_germany_split_tunne.Common.{
  ℕ, ◌≤◌, ◌<◌, ◌≡◌, ◌≢◌, ◌↔◌, ◌∙◌, refl, sym, subst, ◌⊎◌, inl, inr, Bool, true, false, not, ◌==◌,
  if◌then◌else◌, if_intro, List, [], ◌∷◌, length, drop, Bool-cases, ltb, arith,
}
use iran_germany_split_tunne.Frame.{ok, byte_at, read_full}
use iran_germany_split_tunne.Routing.Engine.{
  Proxy, unreachable, refused, malformed, WarpResult, tunnel, failed, read_addr_block,
  connect_reply, handshake, dial_warp,
}

-- The handshake does not come as far as the head of the CONNECT reply.
abbrev pub IsCut : Proxy → Type 0
IsCut p = (p.greeting_sent ≡ false) ⊎ ((p.request_sent ≡ false) ⊎ (length p.replies < 6))

-- The two bytes of the greeting's answer and the four of the reply's head were read.
pub record IsAnswered (p : Proxy) : Type 0 where
  pub accepted : p.accepts ≡ true
  pub greeted : p.greeting_sent ≡ true
  pub requested : p.request_sent ≡ true
  pub replied : 6 ≤ length p.replies

-- What a dial of the proxy comes to, by what the proxy does.
pub data IsOutcome (p : Proxy) : WarpResult → Type 0 where
  no_connection : p.accepts ≡ false → IsOutcome p (failed unreachable false)
  cut_short : p.accepts ≡ true → IsCut p → IsOutcome p (failed unreachable true)
  refusal :
      IsAnswered p
      → byte_at 3 p.replies ≢ 0
      → IsOutcome p (failed (refused (byte_at 3 p.replies)) true)
  bad_address :
      IsAnswered p
      → byte_at 3 p.replies ≡ 0
      → read_addr_block (drop 6 p.replies) (byte_at 5 p.replies) ≡ false
      → IsOutcome p (failed malformed true)
  connected :
      IsAnswered p
      → byte_at 3 p.replies ≡ 0
      → read_addr_block (drop 6 p.replies) (byte_at 5 p.replies) ≡ true
      → IsOutcome p tunnel

short_replies :
    (g q : Bool) (rs : List ℕ)
    → length rs < 6
    → handshake (record { accepts = true; greeting_sent = g; request_sent = q; replies = rs })
      ≡ failed unreachable true
unfolding handshake connect_reply read_full
short_replies g q [] h = ground arith
short_replies g q (a ∷ []) h = ground arith
short_replies g q (a ∷ b ∷ []) h = ground arith
short_replies g q (a ∷ b ∷ c ∷ []) h = ground arith
short_replies g q (a ∷ b ∷ c ∷ d ∷ []) h = ground arith
short_replies g q (a ∷ b ∷ c ∷ d ∷ e ∷ []) h = ground arith
short_replies g q (a ∷ b ∷ c ∷ d ∷ e ∷ f ∷ rs) h = absurd (omega arith)

cut-handshake : (p : Proxy) → IsCut p → handshake p ≡ failed unreachable true
unfolding handshake read_full
cut-handshake p (inl unsent) = ground arith
cut-handshake p (inr (inl unsent)) = ground arith
cut-handshake p (inr (inr short)) = short_replies p.greeting_sent p.request_sent p.replies short

two_read : (a b : ℕ) (rs : List ℕ) → read_full 2 (a ∷ b ∷ rs) ≡ ok (a ∷ b ∷ [], rs)
unfolding read_full
two_read a b rs = ground arith

four_read :
    (a b c d : ℕ) (rs : List ℕ) → read_full 4 (a ∷ b ∷ c ∷ d ∷ rs) ≡ ok (a ∷ b ∷ c ∷ d ∷ [], rs)
unfolding read_full
four_read a b c d rs = ground arith

-- The head of the reply decides, and then the address block.
unfoldable judged : List ℕ → WarpResult
judged rs =
    if not (byte_at 3 rs == 0)
    then failed (refused (byte_at 3 rs)) true
    else if read_addr_block (drop 6 rs) (byte_at 5 rs)
    then tunnel
    else failed malformed true

full-handshake :
    (a b c d e f : ℕ) (rs : List ℕ)
    → handshake (record {
      accepts = true;
      greeting_sent = true;
      request_sent = true;
      replies = a ∷ b ∷ c ∷ d ∷ e ∷ f ∷ rs;
    })
      ≡ judged (a ∷ b ∷ c ∷ d ∷ e ∷ f ∷ rs)
unfolding judged handshake read_addr_block
full-handshake a b c d e f rs =
    rw (handshake, two_read a b (c ∷ d ∷ e ∷ f ∷ rs), connect_reply, four_read c d e f rs) refl

answered-handshake :
    (rs : List ℕ)
    → 6 ≤ length rs
    → handshake (record { accepts = true; greeting_sent = true; request_sent = true; replies = rs })
      ≡ judged rs
answered-handshake [] h = absurd (omega arith)
answered-handshake (a ∷ []) h = absurd (omega arith)
answered-handshake (a ∷ b ∷ []) h = absurd (omega arith)
answered-handshake (a ∷ b ∷ c ∷ []) h = absurd (omega arith)
answered-handshake (a ∷ b ∷ c ∷ d ∷ []) h = absurd (omega arith)
answered-handshake (a ∷ b ∷ c ∷ d ∷ e ∷ []) h = absurd (omega arith)
answered-handshake (a ∷ b ∷ c ∷ d ∷ e ∷ f ∷ rs) h = full-handshake a b c d e f rs

answered : (p : Proxy) → IsAnswered p → dial_warp true p ≡ judged p.replies
unfolding dial_warp
answered p h = rw h.accepted (
    (λ i. handshake (record {
      accepts = h.accepted i;
      greeting_sent = h.greeted i;
      request_sent = h.requested i;
      replies = p.replies;
    }))
    ∙ answered-handshake p.replies h.replied)

judged-IsOutcome : (p : Proxy) → IsAnswered p → IsOutcome p (judged p.replies)
unfolding judged
judged-IsOutcome p h =
    if_intro (IsOutcome p) (not (byte_at 3 p.replies == 0)) (λ bad. refusal h (λ z. ground arith))
      (λ fine.
        let zero_reply : byte_at 3 p.replies ≡ 0 = ground arith in
        if_intro (IsOutcome p) (read_addr_block (drop 6 p.replies) (byte_at 5 p.replies))
          (λ block. connected h zero_reply block) (λ block. bad_address h zero_reply block))

-- Each proxy gives one of the cases.
reached_cases : (p : Proxy) → p.accepts ≡ true → IsCut p ⊎ IsAnswered p
reached_cases p up = elim (Bool-cases p.greeting_sent) [
  | inr unsent ↦ inl (inl unsent)
  | inl sent ↦ elim (Bool-cases p.request_sent) [
    | inr unsent ↦ inl (inr (inl unsent))
    | inl asked ↦ elim (Bool-cases (ltb (length p.replies) 6)) [
      | inl short ↦ inl (inr (inr (ground arith)))
      | inr long ↦
          inr (record { accepted = up; greeted = sent; requested = asked; replied = ground arith })
    ]
  ]
]

outcome : (p : Proxy) → IsOutcome p (dial_warp true p)
unfolding dial_warp
outcome p = elim (Bool-cases p.accepts) [
  | inr down ↦ subst (IsOutcome p) (rw down refl) (no_connection down)
  | inl up ↦ elim (reached_cases p up) [
    | inl cut ↦ subst (IsOutcome p) (rw up (sym (cut-handshake p cut))) (cut_short up cut)
    | inr h ↦ subst (IsOutcome p) (sym (answered p h)) (judged-IsOutcome p h)
  ]
]

determined : (p : Proxy) (w : WarpResult) → IsOutcome p w → dial_warp true p ≡ w
unfolding dial_warp judged
determined p _ (no_connection down) = rw down refl
determined p _ (cut_short up cut) = rw up (cut-handshake p cut)
determined p _ (refusal h bad) = answered p h ∙ ground (arith, bad)
determined p _ (bad_address h good block) = answered p h ∙ rw (good, block) refl
determined p _ (connected h good block) = answered p h ∙ rw (good, block) refl

-- A dial of the proxy with its protocol comes to a result exactly if the proxy's behaviour calls for
-- it. The proxy is unreachable if it does not accept the connection, if a write to it fails or if it
-- ends before the two bytes of its first answer and the four of its CONNECT reply's head: only then,
-- and not when it answers, by which it refuses the target with the reply's second byte, sends an
-- address block that is no good, or opens the tunnel. Every failure after the connection closes it.
pub dial_warp-IsOutcome : (p : Proxy) (w : WarpResult) → (dial_warp true p ≡ w) ↔ IsOutcome p w
dial_warp-IsOutcome p w = (λ e. subst (IsOutcome p) e (outcome p), determined p w)
