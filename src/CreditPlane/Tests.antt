-- ===== src/CreditPlane/Tests.antt =====
-- The credit plane (pkg/node/credit.go) on concrete inputs.
use iran_germany_split_tunne.Common.{ℕ, ◌≡◌, refl, true, false, some, [], ◌∷◌, replicate, arith}
use iran_germany_split_tunne.Common.Assoc.{nat_eq, lookup, insert}
use iran_germany_split_tunne.Frame.Credit.{CreditPayload}
use iran_germany_split_tunne.CreditPlane.{
  CreditLedger, new_ledger, can_send, record_sent, on_credit,
}
use iran_germany_split_tunne.CreditPlane.Ledger.{on_credit_cumulative}
use iran_germany_split_tunne.CreditPlane.Emitter.{
  StreamCredit, CarrierKey, CreditEmitter, record_locked, emit,
}
use iran_germany_split_tunne.CreditPlane.Emitter.Cumulative.{IsCounted, emit_cumulative}
use iran_germany_split_tunne.CreditPlane.Gate.{Slot, Gate, Timer, new_gate, ledger}

abbrev sending : CreditLedger
unfolding new_ledger record_sent
sending = record_sent (new_ledger 2) 100000

abbrev credit_of : ℕ → CreditPayload
credit_of n = record {
  version = 1;
  gen = 2;
  bytes_consumed = n;
  window_granted = 524288;
  flags = 0;
  reserved = replicate 10 0;
}

first_accepted : (on_credit sending (credit_of 70000) 2 1000000).1 ≡ true
unfolding on_credit new_ledger record_sent
first_accepted = refl

on_credit_cumulative_example :
    ((on_credit
        (on_credit sending (credit_of 70000) 2 1000000).0
        (credit_of 90000)
        2
        1000000).0.outstanding
      ≡ (on_credit sending (credit_of 90000) 2 1000000).0.outstanding)
    × ((on_credit
          (on_credit sending (credit_of 70000) 2 1000000).0
          (credit_of 90000)
          2
          1000000).0.last_seen
        ≡ (on_credit sending (credit_of 90000) 2 1000000).0.last_seen)
on_credit_cumulative_example =
    on_credit_cumulative sending (credit_of 70000) (credit_of 90000) 2 1000000 first_accepted refl
      (omega arith)

admitted : can_send sending 32768 1048576 ≡ true
unfolding can_send new_ledger record_sent
admitted = refl

abbrev down : CarrierKey
down = record { carrier = some 1; stream_id = 5 }

abbrev receiving : CreditEmitter
receiving = record {
  recs =
      (
        down,
        record {
          consumed = 70000;
          pending = 70000;
          peer_gen = 2;
          last_emit = 0;
          last_emit_time = 0;
        },
      )
      ∷ [];
  max_bytes = 1048576;
}

receiving_record :
    record_locked receiving down 7
    ≡ record { consumed = 70000; pending = 70000; peer_gen = 2; last_emit = 0; last_emit_time = 0 }
unfolding record_locked lookup
receiving_record = refl

receiving-IsCounted : IsCounted (record_locked receiving down 7)
receiving-IsCounted = rw receiving_record (omega arith)

emit_cumulative_example : (record_locked (emit receiving down false 7 false).0 down 7).pending ≡ 0
emit_cumulative_example =
    (emit_cumulative receiving down false false 7 1 refl receiving-IsCounted).1

abbrev counting : StreamCredit
counting = record {
  consumed = 70000;
  pending = 70000;
  peer_gen = 2;
  last_emit = 0;
  last_emit_time = 0;
}

-- A registry with one stream, its ledger and its timer.
abbrev attached : Gate
unfolding ledger new_gate lookup insert
attached = (ledger new_gate 2 5).0

abbrev armed_timer : Timer
armed_timer = record { id = 1; stream_id = 5; slot_id = 0 }

abbrev first_slot : Slot
unfolding new_ledger
first_slot = record { id = 0; ledger = new_ledger 2 }
