-- ===== src/Backoff/Bounds.antt =====
-- The delays of internal/backoff/backoff.go: their bounds, their exact values, and the window.
use iran_germany_split_tunne.Common.{
  ℕ, zero, suc, ◌+◌, ◌*◌, ◌/◌, ◌^◌, ◌≤◌, ◌<◌, ◌≡◌, refl, ap, inl, inr, true, false, Bool-cases, ltb,
  if◌then◌else◌, arith,
}
use Prim.Native.Nat.{min, suc-le-suc}
use native.Mathlib.Nat.{one-le-pow, pow-le-pow_right, mul-le-mul_left, le_trans}
use iran_germany_split_tunne.Backoff.{
  Backoff, DialBackoff, new_bounded, scheduled, window_exhausted, next_delay, next, jitter,
  dial_next_delay,
}

-- What the constructor sanitises: the base is positive and within the cap, the cap is an int64, the
-- clamp is within the cap, and the window and the clamp are set together.
pub record IsValid (b : Backoff) : Type 0 where
  pub base_pos : 0 < b.base
  pub base_le : b.base ≤ b.max
  pub max_fits : b.max < 2 ^ 63
  pub clamp_le : b.clamp ≤ b.max
  pub clamp_pos : 0 < b.window → 0 < b.clamp
  pub window_pos : 0 < b.clamp → 0 < b.window

-- The constructor makes a valid schedule from any durations.
pub new_bounded-IsValid :
    (base max window clamp : ℕ)
    → base < 2 ^ 63
    → max < 2 ^ 63
    → IsValid (new_bounded base max window clamp)
unfolding new_bounded
new_bounded-IsValid base max window clamp h k = ground arith

scheduled_bounds :
    (base max attempts : ℕ)
    → 0 < max
    → (0 < scheduled base max attempts) × (scheduled base max attempts ≤ max)
unfolding scheduled
scheduled_bounds base max attempts h = ground arith

-- Every delay is positive and at most the cap, also where the shift wraps around, and the schedule
-- stays valid.
pub next_bounds :
    (b : Backoff) → IsValid b → let (b', d) = next b in (0 < d) × (d ≤ b.max) × IsValid b'
unfolding next next_delay window_exhausted
next_bounds b v = ground (arith, scheduled_bounds b.base b.max b.attempts)

-- The doubled base stays within an int64 as long as the thirtieth doubling does.
doubled_bounds :
    (base e : ℕ)
    → 0 < base
    → base * 2 ^ 30 < 2 ^ 63
    → e ≤ 30
    → (0 < base * 2 ^ e) × (base * 2 ^ e < 2 ^ 63)
doubled_bounds base e h k le =
    let low : 1 ≤ 2 ^ e = one-le-pow e 2 (omega arith) in
    let high : 2 ^ e ≤ 2 ^ 30 = pow-le-pow_right (omega arith) le in
    (grind arith, le_trans (suc-le-suc (mul-le-mul_left base high)) k)

scheduled_at :
    (base max attempts e : ℕ)
    → e ≡ min attempts 30
    → (0 < base * 2 ^ e) × (base * 2 ^ e < 2 ^ 63)
    → scheduled base max attempts ≡ min max (base * 2 ^ e)
unfolding scheduled
scheduled_at base max attempts e h k =
    let same : (if ltb 30 attempts then 30 else attempts) ≡ e = ground arith in
    rw same (ground arith)

-- While the thirtieth doubling of the base fits an int64, the delays are base, 2 * base, 4 * base and
-- so on, each cut at the cap, and from the thirty-first on they stay.
pub scheduled_exact :
    (base max attempts : ℕ)
    → 0 < base
    → base * 2 ^ 30 < 2 ^ 63
    → scheduled base max attempts ≡ min max (base * 2 ^ min attempts 30)
scheduled_exact base max attempts h k =
    scheduled_at base max attempts (min attempts 30) refl
      (doubled_bounds base (min attempts 30) h k (omega arith))

-- Before the window is used up a delay may cross it, but by less than one cap; and once it is used up
-- every delay is at most the clamp, and it stays used up.
pub next_window :
    (b : Backoff)
    → IsValid b
    → b.slept + b.max < 2 ^ 63
    → 0 < b.window
    → let (b', d) = next b in
      (window_exhausted b ≡ false → b'.slept < b.window + b.max)
      × (window_exhausted b ≡ true → (d ≤ b.clamp) × (window_exhausted b' ≡ true))
unfolding next next_delay window_exhausted
next_window b v fits w = ground (arith, scheduled_bounds b.base b.max b.attempts)

-- What a step leaves alone, and the sum, which an int64 holds.
next_keeps :
    (b : Backoff)
    → IsValid b
    → b.slept + b.max < 2 ^ 63
    → let (b', d) = next b in
      (b'.window ≡ b.window) × (b'.clamp ≡ b.clamp) × (b'.max ≡ b.max) × (b'.slept ≡ b.slept + d)
next_keeps b v fits =
    let (lo, hi, v') = next_bounds b v in unfold next in (refl, refl, refl, omega arith)

-- The delays of `n` failed attempts in a row, and their sum.
unfoldable pub delays : ℕ → Backoff → ℕ
delays zero b = 0
delays (suc n) b = let (b', d) = next b in d + delays n b'

delays_clamped :
    (n : ℕ) (b : Backoff)
    → IsValid b
    → 0 < b.window
    → b.slept + b.max + n * b.clamp < 2 ^ 63
    → window_exhausted b ≡ true
    → delays n b ≤ n * b.clamp
unfolding delays
delays_clamped zero b v w fits out = omega arith
delays_clamped (suc n) b v w fits out =
    let (b', d) = next b in
    let (lo, hi, v') = next_bounds b v in
    let (ew, ec, em, es) = next_keeps b v (omega arith) in
    let (below, above) = next_window b v (omega arith) w in
    let (small, still) = above out in
    let rest : delays n b' ≤ n * b'.clamp =
      delays_clamped n b' v' (omega arith) (rw ec (omega arith)) still in
    omega (arith, ap (λ (z : ℕ). n * z) ec)

not_exhausted :
    (b : Backoff)
    → IsValid b
    → 0 < b.window
    → b.slept < 2 ^ 63
    → window_exhausted b ≡ false
    → b.slept < b.window
unfolding window_exhausted
not_exhausted b v w fits h = ground arith

not_yet : (b : Backoff) → b.slept < b.window → window_exhausted b ≡ false
unfolding window_exhausted
not_yet b h = ground arith

-- With a reconnect window that is on and not used up, and settings whose delays for the attempts fit
-- in 63 bits, that many attempts that fail in a row keep the reconnect loop asleep for less than the
-- window, one cap and a clamp for each attempt.
pub delays_bounded :
    (n : ℕ) (b : Backoff)
    → IsValid b
    → 0 < b.window
    → b.window + b.max + b.max + n * b.clamp < 2 ^ 63
    → b.slept < b.window
    → b.slept + delays n b < b.window + b.max + n * b.clamp
unfolding delays
delays_bounded zero b v w fits fresh = omega arith
delays_bounded (suc n) b v w fits fresh =
    let (b', d) = next b in
    let (lo, hi, v') = next_bounds b v in
    let (ew, ec, em, es) = next_keeps b v (omega arith) in
    let (below, above) = next_window b v (omega arith) w in
    let less : b'.slept < b.window + b.max = below (not_yet b fresh) in
    let scaled : n * b'.clamp ≡ n * b.clamp = ap (λ (z : ℕ). n * z) ec in
    elim (Bool-cases (window_exhausted b')) [
      | inl out ↦ omega (arith, delays_clamped n b' v' (omega arith) (omega arith) out)
      | inr more ↦
          let inside : b'.slept < b'.window =
            not_exhausted b' v' (omega arith) (omega arith) more in
          omega (arith, delays_bounded n b' v' (omega arith) (omega arith) inside)
    ]

dial_delay_at :
    (b : DialBackoff) (r : ℕ)
    → r ≤ scheduled b.base b.max b.count / 2
    → (0 < scheduled b.base b.max b.count) × (scheduled b.base b.max b.count ≤ b.max)
    → (scheduled b.base b.max b.count / 2 ≤ jitter (scheduled b.base b.max b.count) r)
      × (jitter (scheduled b.base b.max b.count) r ≤ b.max)
unfolding jitter
dial_delay_at b r k h = ground arith

-- A retry of a target dial waits at least half of the scheduled delay, and never longer than the cap.
pub dial_next_delay_bounds :
    (b : DialBackoff) (r : ℕ)
    → 0 < b.max
    → r ≤ scheduled b.base b.max b.count / 2
    → (scheduled b.base b.max b.count / 2 ≤ (dial_next_delay b r).1)
      × ((dial_next_delay b r).1 ≤ b.max)
unfolding dial_next_delay
dial_next_delay_bounds b r h k = dial_delay_at b r k (scheduled_bounds b.base b.max b.count h)
