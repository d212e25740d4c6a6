-- ===== src/CreditPlane/Emitter.antt =====
-- pkg/node/credit.go: the receiver's emitter. A carrier is a number, `none` for nil; the clock is an
-- argument, in nanoseconds. Whether the carrier's control queue took a credit is the caller's `queued`.
pub mod Cumulative
use iran_germany_split_tunne.Common.{
  ℕ, suc, ◌+◌, ◌-◌, ◌*◌, ◌%◌, ◌^◌, ◌≤◌, ◌<◌, ◌≡◌, refl, ◌≢◌, ◌↔◌, ◌⊎◌, inl, inr, Bool, true, false,
  ◌&&◌, ◌||◌, not, Option, none, some, List, [], ◌∷◌, ltb, leb, ◌==◌, if◌then◌else◌, Option-cases,
  replicate, arith,
}
use iran_germany_split_tunne.Common.Assoc.{Eq, lookup, insert, delete, lookup-insert, lookup-delete}
use iran_germany_split_tunne.Frame.{max_payload}
use iran_germany_split_tunne.Frame.Credit.{
  CreditPayload, Rule, clamp_credit_window, credit_version, credit_flags_final,
  validate_credit_payload, Fits,
}
use iran_germany_split_tunne.CreditPlane.{credit_window_max}

abbrev pub credit_batch_bytes : ℕ
credit_batch_bytes = max_payload

abbrev pub credit_batch_max_age : ℕ
credit_batch_max_age = 100_000_000

pub record StreamCredit : Type 0 where
  pub consumed : ℕ
  pub pending : ℕ
  pub peer_gen : ℕ
  pub last_emit : ℕ
  pub last_emit_time : ℕ

-- The record's key: the carrier and the stream.
pub record CarrierKey : Type 0 where
  pub carrier : Option ℕ
  pub stream_id : ℕ

abbrev pub same_carrier : Option ℕ → Option ℕ → Bool
same_carrier none none = true
same_carrier (some a) (some b) = a == b
same_carrier _ _ = false

abbrev pub key_beq : CarrierKey → CarrierKey → Bool
key_beq a b = same_carrier a.carrier b.carrier && a.stream_id == b.stream_id

pub key_beq_iff : (a b : CarrierKey) → (key_beq a b ≡ true) ↔ (a ≡ b)
key_beq_iff a b = (λ h. ground arith, λ h. ground arith)

instance abbrev pub key_eq : Eq CarrierKey
key_eq = record { beq = key_beq; beq_iff = key_beq_iff }

pub record CreditEmitter : Type 0 where
  pub recs : List (CarrierKey × StreamCredit)
  pub max_bytes : ℕ

fresh_record : ℕ → StreamCredit
fresh_record now = record {
  consumed = 0;
  pending = 0;
  peer_gen = 0;
  last_emit = 0;
  last_emit_time = now;
}

-- `recordLocked`: the record of a key, made if there is none.
unfoldable pub record_locked : CreditEmitter → CarrierKey → ℕ → StreamCredit
unfolding fresh_record
record_locked e key now = elim (lookup key e.recs) [ some rc ↦ rc | none ↦ fresh_record now ]

put : CreditEmitter → CarrierKey → StreamCredit → CreditEmitter
put e key rc = record e { recs = insert key rc e.recs }

unfoldable pub record_peer_gen : CreditEmitter → CarrierKey → ℕ → ℕ → CreditEmitter
unfolding put
record_peer_gen e key gen now = put e key (record (record_locked e key now) { peer_gen = gen })

unfoldable pub time_due_locked : StreamCredit → ℕ → Bool
time_due_locked rc now = leb credit_batch_max_age (now - rc.last_emit_time)

unfoldable pub add_consumed : StreamCredit → ℕ → StreamCredit
add_consumed rc n = record rc {
  consumed = (rc.consumed + n) % 2 ^ 64;
  pending = (rc.pending + n) % 2 ^ 64;
}

unfoldable pub record_consumed : CreditEmitter → CarrierKey → ℕ → ℕ → CreditEmitter × Bool
unfolding put time_due_locked
record_consumed e key n now =
    let rc' = add_consumed (record_locked e key now) n in
    (put e key rc', leb credit_batch_bytes rc'.pending || time_due_locked rc' now)

unfoldable pub build_payload : CreditEmitter → StreamCredit → Bool → CreditPayload
build_payload e rc final = record {
  version = credit_version;
  gen = rc.peer_gen;
  bytes_consumed = rc.consumed;
  window_granted = clamp_credit_window credit_window_max e.max_bytes;
  flags = if final then credit_flags_final else 0;
  reserved = replicate 10 0;
}

unfoldable pub flushed : StreamCredit → ℕ → StreamCredit
flushed rc now = record rc { last_emit = rc.consumed; pending = 0; last_emit_time = now }

-- The credit that is handed to the control queue, if any; `queued` tells whether the queue took it.
unfoldable pub emit :
    CreditEmitter → CarrierKey → Bool → ℕ → Bool → CreditEmitter × Option CreditPayload × Bool
unfolding put
emit e key final now queued = elim key.carrier [
  | none ↦ (e, none, false)
  | some c ↦
      let rc = record_locked e key now in
      if rc.pending == 0 && not final
      then (put e key rc, none, false)
      else (put e key (flushed rc now), some (build_payload e rc final), queued)
]

-- The credit of an attach: nothing consumed, on the record's generation.
unfoldable pub emit_anchor : CreditEmitter → CarrierKey → ℕ → CreditEmitter × Option CreditPayload
unfolding put
emit_anchor e key now = elim key.carrier [
  | none ↦ (e, none)
  | some c ↦
      let rc = record_locked e key now in
      (put e key rc, some (record (build_payload e rc false) { bytes_consumed = 0 }))
]

unfoldable pub finalize :
    CreditEmitter → CarrierKey → ℕ → Bool → CreditEmitter × Option CreditPayload × Bool
unfolding emit
finalize e key now queued = emit e key true now queued

unfoldable pub reset_stream : CreditEmitter → CarrierKey → CreditEmitter
reset_stream e key = record e { recs = delete key e.recs }

unfoldable pub remove_stream : CreditEmitter → CarrierKey → CreditEmitter
remove_stream e key = record e { recs = delete key e.recs }
