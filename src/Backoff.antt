-- ===== src/Backoff.antt =====
-- internal/backoff/backoff.go: the carrier's reconnect schedule, and the retry schedule of a target
-- dial in pkg/node/target_dial_governor.go, which doubles in the same way.
-- A duration is a number of nanoseconds. In a configuration 0 stands for every duration that is not
-- positive: the code compares with 0 only. What is computed is an int64 by its 64 bits.
pub mod Bounds
pub mod Tests
use iran_germany_split_tunne.Common.{
  ℕ, suc, ◌+◌, ◌*◌, ◌/◌, ◌%◌, ◌^◌, Bool, true, false, ◌&&◌, ◌||◌, ltb, leb, ◌==◌, if◌then◌else◌,
}

abbrev pub millisecond : ℕ
millisecond = 1_000_000

pub record Backoff : Type 0 where
  pub base : ℕ
  pub max : ℕ
  pub attempts : ℕ
  pub window : ℕ
  pub clamp : ℕ
  pub slept : ℕ

-- Is an int64 with these 64 bits negative?
abbrev pub negative : ℕ → Bool
negative bits = leb (2 ^ 63) bits

positive_base : ℕ → ℕ
positive_base base = if base == 0 then millisecond else base

unfoldable pub new_bounded : ℕ → ℕ → ℕ → ℕ → Backoff
unfolding positive_base
new_bounded base max window clamp =
    let base' = positive_base base in
    let max' = if ltb max base' then base' else max in
    let clamp' = if ltb max' clamp then max' else clamp in
    let window' = if clamp' == 0 then 0 else window in
    let clamp'' = if window' == 0 then 0 else clamp' in
    record { base = base'; max = max'; attempts = 0; window = window'; clamp = clamp''; slept = 0 }

pub new : ℕ → ℕ → Backoff
unfolding new_bounded
new base max = new_bounded base max 0 0

-- `base << exp`, with `exp` at most 30, kept at `max` where it is not positive or above it.
unfoldable pub scheduled : ℕ → ℕ → ℕ → ℕ
scheduled base max attempts =
    let exp = if ltb 30 attempts then 30 else attempts in
    let bits = base * 2 ^ exp % 2 ^ 64 in
    if bits == 0 || (negative bits || ltb max bits) then max else bits

unfoldable pub window_exhausted : Backoff → Bool
window_exhausted b =
    ltb 0 b.window && (ltb 0 b.clamp && (ltb b.slept (2 ^ 63) && leb b.window b.slept))

unfoldable pub next_delay : Backoff → ℕ
unfolding scheduled window_exhausted
next_delay b =
    let d = scheduled b.base b.max b.attempts in
    if window_exhausted b && ltb b.clamp d then b.clamp else d

unfoldable pub next : Backoff → Backoff × ℕ
unfolding next_delay
next b =
    let d = next_delay b in
    (record b { slept = (b.slept + d) % 2 ^ 64; attempts = b.attempts + 1 }, d)

pub reset : Backoff → Backoff
reset b = record b { attempts = 0; slept = 0 }

-- The time that `Sleep` waits for the delay `d`: half of it and `r`, which `rnd.Int63n(d/2 + 1)`
-- gives, a number up to d/2.
unfoldable pub jitter : ℕ → ℕ → ℕ
jitter d r = if ltb 0 (d / 2) then d / 2 + r else d / 2

-- The schedule of pkg/node, with no window.
pub record DialBackoff : Type 0 where
  pub base : ℕ
  pub max : ℕ
  pub count : ℕ

unfoldable pub new_dial_backoff : ℕ → ℕ → DialBackoff
unfolding positive_base
new_dial_backoff base max =
    let base' = positive_base base in
    record { base = base'; max = if ltb max base' then base' else max; count = 0 }

-- The jittered delay, for the number `r` that the random source gives.
unfoldable pub dial_next_delay : DialBackoff → ℕ → DialBackoff × ℕ
unfolding scheduled jitter
dial_next_delay b r = (record b { count = b.count + 1 }, jitter (scheduled b.base b.max b.count) r)

unfoldable pub dial_reset : DialBackoff → DialBackoff
dial_reset b = record b { count = 0 }
