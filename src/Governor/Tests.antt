-- ===== src/Governor/Tests.antt =====
-- The circuit breaker (pkg/node/target_dial_governor.go) on concrete inputs.
use iran_germany_split_tunne.Common.{
  ℕ, Bool, ◌+◌, ◌≡◌, refl, ◌≤◌, true, false, some, List, [], ◌∷◌, leb, arith, All,
}
use iran_germany_split_tunne.Common.Assoc.{lookup, Unique, string_eq}
use iran_germany_split_tunne.Backoff.{new_dial_backoff}
use iran_germany_split_tunne.Governor.{
  Governor, GovernorEntry, Call, allow_call, wait_call, failure_call, success_call, calls,
}
use iran_germany_split_tunne.Governor.Dial.{
  Weather, returned, connected, breaker_open, context_done, dial,
}
use iran_germany_split_tunne.Governor.Recency.{occurs}
use iran_germany_split_tunne.Governor.Touch.{IsSized}
use iran_germany_split_tunne.Governor.Size.{calls-IsSized}
use iran_germany_split_tunne.Governor.Breaker.{HasBreaker, failures, failures_open}
use iran_germany_split_tunne.Governor.Probe.{records, probes, probes_at_most_one}
use iran_germany_split_tunne.Governor.Abandoned.{dials, abandoned_probe_locks}

-- Two targets at most, a threshold of two failures within ten, a cooldown of five.
abbrev small : Governor
small = record {
  bound = 3;
  breaker_enabled = true;
  window = 10;
  threshold = 2;
  cooldown = 5;
  backoff_enabled = true;
  boff_base = 4;
  boff_max = 8;
  max_targets = 2;
  entries = [];
  order = [];
}

small-IsSized : IsSized small
unfolding occurs lookup Unique
small-IsSized = record {
  unique = tt;
  listed = λ t. refl;
  same_length = refl;
  bounded = omega arith;
  room = omega arith;
}

abbrev some_calls : List Call
some_calls =
    failure_call 1 "a"
    ∷ failure_call 2 "b"
    ∷ failure_call 3 "c"
    ∷ allow_call 4 "b"
    ∷ success_call "c"
    ∷ wait_call 1 "b"
    ∷ []

calls-IsSized_example : IsSized (calls small some_calls)
calls-IsSized_example = calls-IsSized small some_calls small-IsSized

small-HasBreaker : HasBreaker 2 10 small
small-HasBreaker = record { enabled = refl; its_window = refl; its_threshold = refl }

failures_open_example :
    (e : GovernorEntry) × (lookup "a" (failures small "a" (7 ∷ 9 ∷ 12 ∷ [])).entries ≡ some e)
    × (e.is_open ≡ leb 2 3)
unfolding lookup
failures_open_example =
    failures_open 2 10 7 small "a" (9 ∷ 12 ∷ []) small-HasBreaker (λ e. cc) (omega arith)
      (omega arith, (omega arith, tt)) refl

abbrev open_entry : GovernorEntry
open_entry = record {
  is_open = true;
  opened_at = 9;
  failures = 2;
  window_start = 7;
  half_probed = false;
  bo = some (new_dial_backoff 4 8);
  pending_ret = true;
}

abbrev tripped : Governor
tripped = record small { entries = ("a", open_entry) ∷ []; order = "a" ∷ [] }

-- Two goroutines ask for the probe; the second one is refused.
probes_at_most_one_example :
    probes "a" tripped (allow_call 14 "a" ∷ failure_call 15 "b" ∷ allow_call 20 "a" ∷ []) ≤ 1
unfolding records
probes_at_most_one_example =
    probes_at_most_one "a" tripped
      (allow_call 14 "a" ∷ failure_call 15 "b" ∷ allow_call 20 "a" ∷ []) (refl, (refl, (refl, tt)))

abbrev weather : ℕ → Bool → Weather
weather now cancelled = record {
  start = now;
  finish = now + 1;
  random = 1;
  cancelled = cancelled;
  first = returned;
  raw = some (connected 5);
}

abandoned_probe_locks_example :
    ((dial (weather 14 true) tripped "a").1 ≡ context_done)
    × All
        (λ r. r ≡ breaker_open)
        (dials
          (weather 20 false ∷ weather 1000 false ∷ [])
          (dial (weather 14 true) tripped "a").0
          "a")
unfolding lookup
abandoned_probe_locks_example =
    abandoned_probe_locks (weather 14 true) (connected 5)
      (weather 20 false ∷ weather 1000 false ∷ []) tripped "a" open_entry (new_dial_backoff 4 8)
      (record {
        breaker = refl;
        backoff = refl;
        found = refl;
        opened = refl;
        untaken = refl;
        cooled = omega arith;
        armed = refl;
      })
      refl refl refl ((connected 5, refl), ((connected 5, refl), tt))
