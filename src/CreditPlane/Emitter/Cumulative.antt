-- ===== src/CreditPlane/Emitter/Cumulative.antt =====
-- Credits of pkg/node/credit.go are cumulative and well formed, whatever the control queue drops.
use iran_germany_split_tunne.Common.{
  ℕ, ◌+◌, ◌-◌, ◌^◌, ◌≤◌, ◌<◌, ◌≡◌, refl, ◌∙◌, ◌⊎◌, ◌↔◌, Bool, true, false, not, ◌&&◌, none, some,
  ◌==◌, if◌then◌else◌, arith,
}
use iran_germany_split_tunne.Common.Assoc.{lookup, insert, lookup-insert}
use iran_germany_split_tunne.Frame.{ok}
use iran_germany_split_tunne.Frame.Credit.{
  IsValid, Fits, clamp_credit_window, validate_credit_payload, validate_credit_payload_accepts,
  encode_credit_payload, decode_credit_payload, decode-encode_credit_payload,
}
use iran_germany_split_tunne.CreditPlane.{CreditLedger, on_credit}
use iran_germany_split_tunne.CreditPlane.Ledger.{on_credit_lowers, on_credit_accepts}
use iran_germany_split_tunne.CreditPlane.Emitter.{
  StreamCredit, CarrierKey, CreditEmitter, key_eq, record_locked, record_consumed, build_payload,
  emit, add_consumed, flushed,
}

-- What the record counts: everything consumed is either in the last credit or pending.
pub record IsCounted (rc : StreamCredit) : Type 0 where
  pub counted : rc.consumed ≡ rc.last_emit + rc.pending
  pub fits : rc.consumed < 2 ^ 64

-- The record of a key after it was written.
record_locked_put :
    (e : CreditEmitter) (key : CarrierKey) (rc : StreamCredit) (now : ℕ)
    → record_locked (record e { recs = insert key rc e.recs }) key now ≡ rc
unfolding record_locked
record_locked_put e key rc now =
    let same : lookup key (insert key rc e.recs) ≡ some rc =
      rw (lookup-insert key key rc e.recs, (key_eq.beq_iff key key).1 refl) refl in
    rw (same, record_locked) refl

record_locked-record_consumed :
    (e : CreditEmitter) (key : CarrierKey) (n now : ℕ)
    → record_locked (record_consumed e key n now).0 key now
      ≡ add_consumed (record_locked e key now) n
unfolding record_consumed
record_locked-record_consumed e key n now =
    record_locked_put e key (add_consumed (record_locked e key now) n) now

add_consumed-IsCounted :
    (rc : StreamCredit) (n : ℕ)
    → IsCounted rc
    → rc.consumed + n < 2 ^ 64
    → IsCounted (add_consumed rc n) × ((add_consumed rc n).consumed ≡ rc.consumed + n)
unfolding add_consumed
add_consumed-IsCounted rc n c h =
    (record { counted = omega arith; fits = omega arith }, omega arith)

-- Bytes written to the client are added to the running total, which stays the sum of what the last
-- credit told and what is pending, as long as it fits 64 bits.
pub record_consumed_counts :
    (e : CreditEmitter) (key : CarrierKey) (n now : ℕ)
    → IsCounted (record_locked e key now)
    → (record_locked e key now).consumed + n < 2 ^ 64
    → let e' = (record_consumed e key n now).0 in
      IsCounted (record_locked e' key now)
      × ((record_locked e' key now).consumed ≡ (record_locked e key now).consumed + n)
record_consumed_counts e key n now c h =
    rw (record_locked-record_consumed e key n now)
      (add_consumed-IsCounted (record_locked e key now) n c h)

-- A credit is due as soon as 65535 bytes are pending or the last credit is 100 ms old, and only then.
pub record_consumed_due :
    (e : CreditEmitter) (key : CarrierKey) (n now : ℕ)
    → ((record_consumed e key n now).1 ≡ true) ↔ (
        (65535 ≤ (add_consumed (record_locked e key now) n).pending)
        ⊎ (100_000_000 ≤ now - (record_locked e key now).last_emit_time))
unfolding record_consumed add_consumed
record_consumed_due e key n now = (λ h. ground arith, λ h. ground arith)

-- The record after an emission to a live carrier, whether the control queue took the credit or not.
record_locked-emit :
    (e : CreditEmitter) (key : CarrierKey) (final queued : Bool) (now c : ℕ)
    → key.carrier ≡ some c
    → let rc = record_locked e key now in
      record_locked (emit e key final now queued).0 key now
      ≡ (if rc.pending == 0 && not final then rc else flushed rc now)
unfolding emit
record_locked-emit e key final queued now c live = ground (
  arith,
  record_locked_put e key (record_locked e key now) now,
  record_locked_put e key (flushed (record_locked e key now) now) now,
)

emit_made :
    (e : CreditEmitter) (key : CarrierKey) (final queued : Bool) (now c : ℕ)
    → key.carrier ≡ some c
    → let rc = record_locked e key now in
      let idle = rc.pending == 0 && not final in
      ((emit e key final now queued).1 ≡ (if idle then none else some (build_payload e rc final)))
      × ((emit e key final now queued).2 ≡ (if idle then false else queued))
unfolding emit
emit_made e key final queued now c live = ground arith

-- An emission keeps the running total and leaves nothing pending, also when the control queue drops
-- the credit. The credit carries the whole total, and there is none only if nothing is pending and
-- the emission is not the last.
pub emit_cumulative :
    (e : CreditEmitter) (key : CarrierKey) (final queued : Bool) (now c : ℕ)
    → key.carrier ≡ some c
    → IsCounted (record_locked e key now)
    → let (e', p, taken) = emit e key final now queued in
      let rc = record_locked e key now in
      let rc' = record_locked e' key now in
      (rc'.consumed ≡ rc.consumed)
      × (rc'.pending ≡ 0)
      × (rc'.consumed ≡ rc'.last_emit + rc'.pending)
      × (p ≡ (if rc.pending == 0 && not final then none else some (build_payload e rc final)))
      × ((build_payload e rc final).bytes_consumed ≡ rc.consumed)
unfolding flushed build_payload
emit_cumulative e key final queued now c live counted =
    let (made, taken) = emit_made e key final queued now c live in
    let state = record_locked-emit e key final queued now c live in ground (arith, state, made)

build_payload_fields :
    (e : CreditEmitter) (rc : StreamCredit) (final : Bool)
    → ((build_payload e rc final).gen ≡ rc.peer_gen)
      × ((build_payload e rc final).bytes_consumed ≡ rc.consumed)
unfolding build_payload
build_payload_fields e rc final = (refl, refl)

build_payload-Fits :
    (e : CreditEmitter) (rc : StreamCredit) (final : Bool)
    → e.max_bytes < 2 ^ 32
    → rc.consumed < 2 ^ 64
    → rc.peer_gen < 2 ^ 64
    → Fits (build_payload e rc final)
unfolding build_payload clamp_credit_window
build_payload-Fits e rc final m h g = ground arith

build_payload-IsValid :
    (e : CreditEmitter) (rc : StreamCredit) (final : Bool)
    → 0 < rc.peer_gen
    → IsValid (build_payload e rc final)
unfolding build_payload
build_payload-IsValid e rc final g = ground arith

-- A credit made from a record with a peer generation is valid, and it reaches the other node as it
-- was made: the sender's decoder returns it and its validation accepts it.
pub build_payload-decodes :
    (e : CreditEmitter) (rc : StreamCredit) (final : Bool)
    → e.max_bytes < 2 ^ 32
    → rc.consumed < 2 ^ 64
    → (0 < rc.peer_gen) × (rc.peer_gen < 2 ^ 64)
    → let p = build_payload e rc final in
      (decode_credit_payload (encode_credit_payload p) ≡ ok p) × (validate_credit_payload p ≡ none)
build_payload-decodes e rc final m h g =
    let p = build_payload e rc final in
    let fits : Fits p = build_payload-Fits e rc final m h g.1 in
    (
      decode-encode_credit_payload p fits,
      (validate_credit_payload_accepts p fits).1 (build_payload-IsValid e rc final g.0),
    )

-- From the client's socket to the sender's gate: a credit that reports `rc.consumed`, on the
-- generation that the ledger is pinned to, takes exactly the bytes that the ledger has not yet seen
-- off the bytes in flight, no matter how many earlier credits were dropped.
pub build_payload-on_credit :
    (e : CreditEmitter) (rc : StreamCredit) (final : Bool) (l : CreditLedger) (cap_bytes : ℕ)
    → rc.peer_gen ≡ l.gen
    → l.last_seen ≤ rc.consumed
    → rc.consumed ≤ l.last_seen + l.outstanding
    → let (l', done) = on_credit l (build_payload e rc final) l.gen cap_bytes in
      (done ≡ true)
      × (l'.last_seen ≡ rc.consumed)
      × (l'.last_seen + l'.outstanding ≡ l.last_seen + l.outstanding)
build_payload-on_credit e rc final l cap_bytes same seen sent =
    let (g, b) = build_payload_fields e rc final in
    let p = build_payload e rc final in
    let done : (on_credit l p l.gen cap_bytes).1 ≡ true =
      (on_credit_accepts l p l.gen cap_bytes).0.1 (g ∙ same, g ∙ same, omega arith) in
    let (lowered, marked, _, _, _) = on_credit_lowers l p l.gen cap_bytes done in
    (done, marked ∙ b, omega arith)
