-- ===== src/Backoff/Tests.antt =====
-- The schedule (internal/backoff/backoff.go) on concrete inputs.
use iran_germany_split_tunne.Common.{◌+◌, ◌*◌, ◌<◌, ◌≡◌, refl, arith}
use iran_germany_split_tunne.Backoff.{Backoff, new_bounded, scheduled, next}
use iran_germany_split_tunne.Backoff.Bounds.{IsValid, new_bounded-IsValid, delays, delays_bounded}

-- One second doubled up to ten seconds, with a window of thirty and a clamp of two.
abbrev production : Backoff
unfolding new_bounded
production = new_bounded 1_000_000_000 10_000_000_000 30_000_000_000 2_000_000_000

production-IsValid : IsValid production
unfolding new_bounded
production-IsValid =
    new_bounded-IsValid 1_000_000_000 10_000_000_000 30_000_000_000 2_000_000_000 (omega arith)
      (omega arith)

scheduled_three : scheduled 1_000_000_000 10_000_000_000 3 ≡ 8_000_000_000
unfolding scheduled
scheduled_three = refl

delays_bounded_example :
    production.slept + delays 20 production
    < production.window + production.max + 20 * production.clamp
unfolding new_bounded
delays_bounded_example =
    delays_bounded 20 production production-IsValid (omega arith) (omega arith) (omega arith)

-- Six attempts sleep 35 seconds, and the seventh 2.
delays_seven : delays 7 production ≡ 37_000_000_000
unfolding delays new_bounded next
delays_seven = refl
