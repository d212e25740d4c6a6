-- ===== src/Governor.antt =====
-- pkg/node/target_dial_governor.go: the circuit breaker of target dials, with the retry backoff.
-- A method holds the governor's mutex from end to end, so it is one step. A time is a number of
-- nanoseconds since Go's zero time, which is 0. In a configuration 0 stands for every value that is
-- not positive. Wait takes its delay in the step in which it disarms the retry.
pub mod Config
pub mod Dial
pub mod Recency
pub mod Touch
pub mod Size
pub mod Breaker
pub mod Probe
pub mod Abandoned
pub mod Direct
pub mod Tests
use iran_germany_split_tunne.Common.{
  ℕ, ◌+◌, ◌*◌, ◌%◌, ◌^◌, Bool, true, false, not, ◌&&◌, ◌||◌, Option, none, some, List, [], ◌∷◌,
  ◌++◌, ltb, leb, ◌==◌, if◌then◌else◌, length,
}
use iran_germany_split_tunne.Common.Assoc.{Eq, lookup, insert, delete, string_eq}
use iran_germany_split_tunne.Backoff.{
  DialBackoff, new_dial_backoff, dial_next_delay, dial_reset, millisecond,
}
use Prim.Native.String.{String}

pub record GovernorEntry : Type 0 where
  pub is_open : Bool
  pub opened_at : ℕ
  pub failures : ℕ
  pub window_start : ℕ
  pub half_probed : Bool
  pub bo : Option DialBackoff
  pub pending_ret : Bool

-- `order` has the least recently used target first.
pub record Governor : Type 0 where
  pub bound : ℕ
  pub breaker_enabled : Bool
  pub window : ℕ
  pub threshold : ℕ
  pub cooldown : ℕ
  pub backoff_enabled : Bool
  pub boff_base : ℕ
  pub boff_max : ℕ
  pub max_targets : ℕ
  pub entries : List (String × GovernorEntry)
  pub order : List String

abbrev pub new_entry : GovernorEntry
new_entry = record {
  is_open = false;
  opened_at = 0;
  failures = 0;
  window_start = 0;
  half_probed = false;
  bo = none;
  pending_ret = false;
}

unfoldable pub remove_first : String → List String → List String
remove_first t [] = []
remove_first t (s ∷ order) = if string_eq.beq s t then order else s ∷ remove_first t order

unfoldable pub contains : String → List String → Bool
contains t [] = false
contains t (s ∷ order) = if string_eq.beq s t then true else contains t order

-- The eviction of the least recently used target, when the map is full.
unfoldable pub make_room : Governor → Governor
make_room g = elim g.order [
  | [] ↦ g
  | evict ∷ rest ↦
      if leb g.max_targets (length g.entries)
      then record g { order = rest; entries = delete evict g.entries }
      else g
]

-- The target's entry, which the map of the governor holds afterwards.
unfoldable pub touch_mru : Governor → String → Governor × GovernorEntry
unfolding remove_first contains make_room
touch_mru g target = elim (lookup target g.entries) [
  | none ↦
      let g' = make_room g in
      (
        record g' {
          entries = insert target new_entry g'.entries;
          order = g'.order ++ (target ∷ []);
        },
        new_entry,
      )
  | some e ↦ (
    if contains target g.order
        then record g { order = remove_first target g.order ++ (target ∷ []) }
        else g,
    e,
  )
]

-- A change of an entry through its pointer.
pub store : Governor → String → GovernorEntry → Governor
store g target e = record g { entries = insert target e g.entries }

-- `now.Sub(start) < d`, for a positive `d`.
abbrev pub within : ℕ → ℕ → ℕ → Bool
within now start d = ltb now (start + d)

-- Allow's two results: may the dial proceed, and is it the probe?
abbrev pub Verdict : Type 0
Verdict = Bool × Bool

abbrev pub probed : GovernorEntry → GovernorEntry
probed e = record e { half_probed = true }

-- Allow for a tracked target with the entry `e`.
pub gate : ℕ → Governor → String → GovernorEntry → Governor × Verdict
unfolding store
gate now g target e =
    if not e.is_open
    then (g, (true, false))
    else if within now e.opened_at g.cooldown
    then (g, (false, false))
    else if e.half_probed
    then (g, (false, false))
    else (store g target (probed e), (true, true))

unfoldable pub allow : ℕ → Governor → String → Governor × Verdict
unfolding touch_mru gate
allow now g target =
    if not g.breaker_enabled then (g, (true, false)) else elim (lookup target g.entries) [
      | none ↦ (g, (true, false))
      | some e ↦ gate now (touch_mru g target).0 target e
    ]

pub reset_backoff : Bool → Option DialBackoff → Option DialBackoff
unfolding dial_reset
reset_backoff true (some b) = some (dial_reset b)
reset_backoff true none = none
reset_backoff false bo = bo

abbrev pub recovered : Bool → GovernorEntry → GovernorEntry
recovered backoff_enabled e = record e {
  is_open = false;
  half_probed = false;
  failures = 0;
  window_start = 0;
  pending_ret = false;
  bo = reset_backoff backoff_enabled e.bo;
}

unfoldable pub record_success : Governor → String → Governor
unfolding store
record_success g target = elim (lookup target g.entries) [
  | none ↦ g
  | some e ↦ store g target (recovered g.backoff_enabled e)
]

-- The breaker's part of RecordFailure: what a failure at the time `now` does to an entry.
unfoldable pub count_failure : ℕ → Governor → GovernorEntry → GovernorEntry
count_failure now g e =
    if e.is_open
    then record e { opened_at = now; half_probed = false }
    else let start = if e.window_start == 0 then now else e.window_start in
      let slid = not (within now start g.window) in
      let failures = if slid then 1 else e.failures + 1 in
      let counted = record e { failures = failures; window_start = if slid then now else start } in
      if g.breaker_enabled && leb g.threshold failures
      then record counted { is_open = true; half_probed = false; opened_at = now }
      else counted

arm_retry : Governor → GovernorEntry → GovernorEntry
unfolding new_dial_backoff
arm_retry g e =
    if g.backoff_enabled
    then record e {
      bo = elim e.bo [ some b ↦ some b | none ↦ some (new_dial_backoff g.boff_base g.boff_max) ];
      pending_ret = true;
    }
    else e

unfoldable pub record_failure : ℕ → Governor → String → Governor
unfolding touch_mru store count_failure arm_retry
record_failure now g target =
    let (touched, e) = touch_mru g target in
    store touched target (arm_retry g (count_failure now g e))

-- The retry that Wait waits for, if one is armed; `r` is what the random source gives.
abbrev pub retried : ℕ → DialBackoff → GovernorEntry → GovernorEntry
unfolding dial_next_delay
retried r b e = record e { pending_ret = false; bo = some (dial_next_delay b r).0 }

take_retry : ℕ → Governor → String → GovernorEntry → Governor × Option ℕ
unfolding store dial_next_delay
take_retry r g target e = elim e.bo [
  | none ↦ (g, none)
  | some b ↦
      if e.pending_ret
      then (store g target (retried r b e), some (dial_next_delay b r).1)
      else (g, none)
]

unfoldable pub wait : ℕ → Governor → String → Governor × Option ℕ
unfolding take_retry
wait r g target =
    if not g.backoff_enabled
    then (g, none)
    else elim (lookup target g.entries) [ none ↦ (g, none) | some e ↦ take_retry r g target e ]

-- The governor's calls, from any number of goroutines in the order in which they take the mutex.
pub data Call : Type 0 where
  allow_call wait_call : ℕ → String → Call
  failure_call : ℕ → String → Call
  success_call : String → Call

unfoldable pub call : Governor → Call → Governor
unfolding allow wait record_failure record_success
call g (allow_call now t) = (allow now g t).0
call g (wait_call r t) = (wait r g t).0
call g (failure_call now t) = record_failure now g t
call g (success_call t) = record_success g t

unfoldable pub calls : Governor → List Call → Governor
calls g [] = g
calls g (c ∷ cs) = calls (call g c) cs
