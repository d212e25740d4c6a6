-- ===== src/CreditPlane/Gate/Timers.antt =====
-- Which timer of pkg/node/credit.go acts: only the last one armed for a stream that is still there.
use iran_germany_split_tunne.Common.{
  ℕ, suc, ◌<◌, ◌≡◌, ap, ◌∙◌, ◌≢◌, inl, inr, none, some, ◌==◌, if◌then◌else◌, Option-cases, arith,
}
use iran_germany_split_tunne.Common.Assoc.{nat_eq, lookup, lookup-insert, lookup-delete}
use iran_germany_split_tunne.CreditPlane.{latch_safely_capped}
use iran_germany_split_tunne.CreditPlane.Gate.{
  Slot, Gate, Timer, reset_stream, cancel_timer, remove_stream, fire,
}

-- A timer that is not the current one of its stream does nothing when it fires.
pub fire_stale : (g : Gate) (t : Timer) → lookup t.stream_id g.timers ≢ some t.id → fire g t ≡ g
unfolding fire
fire_stale g t stale = elim (Option-cases (lookup t.stream_id g.timers)) [
  | inl gone ↦ ground arith
  | inr (id, e) ↦ let other : id ≢ t.id = λ same. stale (e ∙ ap some same) in ground arith
]

reset_stream_timer :
    (g : Gate) (gen stream_id id : ℕ)
    → id < g.next_id
    → lookup stream_id (reset_stream g gen stream_id).timers ≢ some id
unfolding reset_stream
reset_stream_timer g gen stream_id id old e = ground (
  arith,
  lookup-insert stream_id stream_id g.next_id g.timers,
  lookup-insert stream_id stream_id (suc g.next_id) g.timers,
  nat_eq.beq_iff stream_id stream_id,
)

-- After a rebind every timer that was armed before does nothing when it fires.
pub fire-reset_stream :
    (g : Gate) (gen : ℕ) (t : Timer)
    → t.id < g.next_id
    → fire (reset_stream g gen t.stream_id) t ≡ reset_stream g gen t.stream_id
fire-reset_stream g gen t old =
    fire_stale (reset_stream g gen t.stream_id) t
      (λ e. absurd (reset_stream_timer g gen t.stream_id t.id old e))

cancelled : (g : Gate) (stream_id : ℕ) → lookup stream_id (cancel_timer g stream_id).timers ≡ none
unfolding cancel_timer
cancelled g stream_id = ground (arith, lookup-delete stream_id stream_id g.timers)

removed :
    (g : Gate) (stream_id : ℕ)
    → (lookup stream_id (remove_stream g stream_id).timers ≡ none)
      × (lookup stream_id (remove_stream g stream_id).ledgers ≡ none)
unfolding remove_stream
removed g stream_id =
    ground (
      arith,
      lookup-delete stream_id stream_id g.timers,
      lookup-delete stream_id stream_id g.ledgers,
    )

-- After a credit cancelled the stream's timer, or the stream was removed, no timer of the stream does
-- anything when it fires; and a removed stream has no ledger.
pub fire-cancel_timer :
    (g : Gate) (t : Timer)
    → (fire (cancel_timer g t.stream_id) t ≡ cancel_timer g t.stream_id)
      × (fire (remove_stream g t.stream_id) t ≡ remove_stream g t.stream_id)
      × (lookup t.stream_id (remove_stream g t.stream_id).ledgers ≡ none)
fire-cancel_timer g t = (
  fire_stale (cancel_timer g t.stream_id) t (λ e. cc (cancelled g t.stream_id)),
  fire_stale (remove_stream g t.stream_id) t (λ e. cc ((removed g t.stream_id).0)),
  (removed g t.stream_id).1,
)

-- The current timer of a stream degrades the ledger that it was armed for, and touches no other.
pub fire_current :
    (g : Gate) (t : Timer) (s : Slot) (j : ℕ)
    → lookup t.stream_id g.timers ≡ some t.id
    → lookup t.stream_id g.ledgers ≡ some s
    → s.id ≡ t.slot_id
    → lookup j (fire g t).ledgers ≡ (
        if t.stream_id == j
        then some (record s { ledger = latch_safely_capped s.ledger })
        else lookup j g.ledgers)
unfolding fire
fire_current g t s j armed here same =
    let degraded : Slot = record s { ledger = latch_safely_capped s.ledger } in
    ground (arith, lookup-insert t.stream_id j degraded g.ledgers)
