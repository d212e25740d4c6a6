-- ===== src/CreditPlane/Ledger.antt =====
-- What the credit ledger of pkg/node/credit.go guarantees.
use iran_germany_split_tunne.Common.{
  ℕ, ◌-◌, ◌≤◌, ◌<◌, ◌≡◌, sym, ◌∙◌, leb, ◌↔◌, true, false, if◌then◌else◌, arith,
}
use iran_germany_split_tunne.Frame.Credit.{CreditPayload}
use iran_germany_split_tunne.CreditPlane.{
  CreditLedger, credit_pre_latch_bound, credit_safe_window, can_send, record_sent, on_credit,
  credit_park,
}

-- A credit is accepted exactly when it names the arriving carrier's generation, which is the
-- ledger's, and does not go back; a refused credit changes nothing.
pub on_credit_accepts :
    (l : CreditLedger) (p : CreditPayload) (arriving_gen cap_bytes : ℕ)
    → (((on_credit l p arriving_gen cap_bytes).1 ≡ true)
        ↔ ((p.gen ≡ arriving_gen) × (p.gen ≡ l.gen) × (l.last_seen ≤ p.bytes_consumed)))
      × ((on_credit l p arriving_gen cap_bytes).1 ≡ false
          → (on_credit l p arriving_gen cap_bytes).0 ≡ l)
unfolding on_credit
on_credit_accepts l p arriving_gen cap_bytes =
    ((λ h. ground arith, λ h. ground arith), λ h. ground arith)

-- An accepted credit takes what the receiver consumed since the last one off the bytes in flight,
-- but no more than there are; it latches the ledger, lifts the safe cap, and wakes the parked senders
-- exactly when it lowers the bytes in flight.
pub on_credit_lowers :
    (l : CreditLedger) (p : CreditPayload) (arriving_gen cap_bytes : ℕ)
    → let (l', done) = on_credit l p arriving_gen cap_bytes in
      done ≡ true
      → (l'.outstanding ≡ l.outstanding - (p.bytes_consumed - l.last_seen))
        × (l'.last_seen ≡ p.bytes_consumed)
        × (l'.latched ≡ true)
        × (l.latched ≡ true → l'.safely_capped ≡ false)
        × (l'.n_waiters ≡ (if leb l.outstanding l'.outstanding then l.n_waiters else 0))
unfolding on_credit
on_credit_lowers l p arriving_gen cap_bytes h = ground arith

on_credit-gen :
    (l : CreditLedger) (p : CreditPayload) (arriving_gen cap_bytes : ℕ)
    → (on_credit l p arriving_gen cap_bytes).0.gen ≡ l.gen
unfolding on_credit
on_credit-gen l p arriving_gen cap_bytes = ground arith

-- A credit that is lost is made good by the next: after two credits of the ledger's generation, in
-- order, the bytes in flight and the mark are what the second credit alone would have left.
pub on_credit_cumulative :
    (l : CreditLedger) (p q : CreditPayload) (g cap_bytes : ℕ)
    → (on_credit l p g cap_bytes).1 ≡ true
    → q.gen ≡ p.gen
    → p.bytes_consumed ≤ q.bytes_consumed
    → let both = (on_credit (on_credit l p g cap_bytes).0 q g cap_bytes).0 in
      let last = (on_credit l q g cap_bytes).0 in
      (both.outstanding ≡ last.outstanding) × (both.last_seen ≡ last.last_seen)
on_credit_cumulative l p q g cap_bytes h e le =
    let (arrives, pinned, monotone) = (on_credit_accepts l p g cap_bytes).0.0 h in
    let (lowered, marked, _, _, _) = on_credit_lowers l p g cap_bytes h in
    let mid = (on_credit l p g cap_bytes).0 in
    let alone : (on_credit l q g cap_bytes).1 ≡ true =
      (on_credit_accepts l q g cap_bytes).0.1 (e ∙ arrives, e ∙ pinned, omega arith) in
    let after : (on_credit mid q g cap_bytes).1 ≡ true =
      (on_credit_accepts mid q g cap_bytes).0.1
        (e ∙ arrives, e ∙ pinned ∙ sym (on_credit-gen l p g cap_bytes), omega arith) in
    let (lowered_alone, marked_alone, _, _, _) = on_credit_lowers l q g cap_bytes alone in
    let (lowered_after, marked_after, _, _, _) = on_credit_lowers mid q g cap_bytes after in
    (omega arith, omega arith)

-- A chunk that the gate admits leaves no more in flight than 640 KiB before the first credit, and no
-- more than one full payload once the timer has degraded the ledger.
pub can_send_bounded :
    (l : CreditLedger) (chunk cap_bytes : ℕ)
    → can_send l chunk cap_bytes ≡ true
    → let l' = record_sent l chunk in
      (l.latched ≡ false → l'.outstanding ≤ credit_pre_latch_bound)
      × (l.latched ≡ true → l.safely_capped ≡ true → l'.outstanding ≤ credit_safe_window)
      × (l'.outstanding ≤ cap_bytes)
unfolding can_send record_sent
can_send_bounded l chunk cap_bytes h = ground arith

-- A sender parks only where the gate refuses its chunk, on a channel that a waking credit can close.
pub credit_park_waits :
    (l : CreditLedger) (chunk cap_bytes : ℕ)
    → let (l', waits) = credit_park l chunk cap_bytes in
      ((waits ≡ true) ↔ (can_send l chunk cap_bytes ≡ false))
      × (waits ≡ true → (0 < l'.n_waiters) × (l'.ready ≡ true))
      × (waits ≡ false → l' ≡ l)
unfolding credit_park
credit_park_waits l chunk cap_bytes = ground arith
