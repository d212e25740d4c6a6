-- ===== src/Governor/Dial.antt =====
-- pkg/node/target_dial_governor.go: Dial, and dialBounded with the outcome of its race.
use iran_germany_split_tunne.Common.{
  ℕ, Bool, true, false, not, ◌&&◌, Option, none, some, ◌==◌, if◌then◌else◌,
}
use iran_germany_split_tunne.Governor.{Governor, allow, wait, record_success, record_failure}
use Prim.Native.String.{String}

-- A dial's error, or the connection that the raw dialer made.
pub data DialResult : Type 0 where
  connected : ℕ → DialResult
  dial_error : ℕ → DialResult
  nil_dialer breaker_open dial_timeout context_done : DialResult

-- What the select of dialBounded sees first.
pub data First : Type 0 where
  returned deadline context : First

unfoldable pub dial_bounded : ℕ → First → DialResult → DialResult
dial_bounded timeout first raw =
    if timeout == 0
    then raw
    else elim first [ returned ↦ raw | deadline ↦ dial_timeout | context ↦ context_done ]

unfoldable pub is_connected : DialResult → Bool
is_connected r = elim r [ connected c ↦ true | _ ↦ false ]

-- What a dial meets: the times of its gate and of its end, the random number, whether the context
-- ends while it waits, and how its raw dial comes out: none for a dialer that is nil.
pub record Weather : Type 0 where
  pub start : ℕ
  pub finish : ℕ
  pub random : ℕ
  pub cancelled : Bool
  pub first : First
  pub raw : Option DialResult

unfoldable pub conclude : Weather → Governor → String → DialResult → Governor × DialResult
unfolding record_success record_failure dial_bounded is_connected
conclude w g target raw =
    let r = dial_bounded g.bound w.first raw in
    (if is_connected r then record_success g target else record_failure w.finish g target, r)

-- The breaker's gate, the backoff and the bounded dial. Nothing else may run in between.
unfoldable pub governed_dial : Weather → Governor → String → DialResult → Governor × DialResult
unfolding allow wait conclude
governed_dial w g target raw =
    let (gated, (allowed, probe)) = allow w.start g target in
    if not allowed
    then (gated, breaker_open)
    else let (waited, delay) = wait w.random gated target in
      elim delay [
        | none ↦ conclude w waited target raw
        | some d ↦ if w.cancelled then (waited, context_done) else conclude w waited target raw
      ]

unfoldable pub dial : Weather → Governor → String → Governor × DialResult
unfolding governed_dial
dial w g target = elim w.raw [
  | none ↦ (g, nil_dialer)
  | some raw ↦
      if g.bound == 0 && (not g.breaker_enabled && not g.backoff_enabled)
      then (g, raw)
      else governed_dial w g target raw
]
