-- ===== src/CreditPlane.antt =====
-- pkg/node/credit.go: the sender's credit ledger, its registry and the receiver's credit emitter.
-- Each method holds its mutex from end to end, so it is one step. This file has the ledger; a credit
-- is the payload of pkg/mux/frame.go (Frame/Credit).
pub mod Emitter
pub mod Gate
pub mod Ledger
pub mod Tests
use iran_germany_split_tunne.Common.{
  ℕ, suc, ◌+◌, ◌-◌, ◌*◌, ◌%◌, ◌^◌, Bool, true, false, not, ltb, leb, ◌==◌, if◌then◌else◌,
}
use iran_germany_split_tunne.Frame.{max_payload}
use iran_germany_split_tunne.Frame.Credit.{
  CreditPayload, clamp_credit_window, stale_credit_generation,
}

abbrev pub credit_window_max : ℕ
credit_window_max = 512 * 1024

abbrev pub credit_unacked_allowance : ℕ
credit_unacked_allowance = 128 * 1024

abbrev pub credit_pre_latch_bound : ℕ
credit_pre_latch_bound = credit_window_max + credit_unacked_allowance

abbrev pub credit_safe_window : ℕ
credit_safe_window = max_payload

abbrev pub credit_initial_window : ℕ
credit_initial_window = credit_window_max

-- `ready` tells whether a wake channel is installed.
pub record CreditLedger : Type 0 where
  pub outstanding : ℕ
  pub last_seen : ℕ
  pub window : ℕ
  pub latched : Bool
  pub safely_capped : Bool
  pub gen : ℕ
  pub ready : Bool
  pub n_waiters : ℕ

unfoldable pub new_ledger : ℕ → CreditLedger
new_ledger gen = record {
  outstanding = 0;
  last_seen = 0;
  window = credit_initial_window;
  latched = false;
  safely_capped = false;
  gen = gen;
  ready = false;
  n_waiters = 0;
}

wake_locked : CreditLedger → CreditLedger
wake_locked l = if ltb 0 l.n_waiters then record l { ready = false; n_waiters = 0 } else l

-- The bytes that may be in flight.
unfoldable pub send_limit : CreditLedger → ℕ → ℕ
send_limit l cap_bytes =
    let limit =
      if l.latched
      then (if l.safely_capped then credit_safe_window else l.window + credit_unacked_allowance)
      else credit_pre_latch_bound in
    if ltb cap_bytes limit then cap_bytes else limit

unfoldable pub can_send : CreditLedger → ℕ → ℕ → Bool
unfolding send_limit
can_send l chunk cap_bytes = leb ((l.outstanding + chunk) % 2 ^ 64) (send_limit l cap_bytes)

unfoldable pub record_sent : CreditLedger → ℕ → CreditLedger
record_sent l n = record l { outstanding = (l.outstanding + n) % 2 ^ 64 }

-- An accepted credit, for the bytes that it says were consumed since the last one.
accept_credit : CreditLedger → CreditPayload → ℕ → ℕ → CreditLedger
unfolding wake_locked
accept_credit l p cap_bytes since =
    let consumed = if ltb l.outstanding since then l.outstanding else since in
    let l' : CreditLedger = record l {
      outstanding = l.outstanding - consumed;
      last_seen = p.bytes_consumed;
      window =
          if l.latched then clamp_credit_window p.window_granted (cap_bytes % 2 ^ 32) else l.window;
      safely_capped = if l.latched then false else l.safely_capped;
      latched = true;
    } in
    if ltb 0 consumed then wake_locked l' else l'

unfoldable pub on_credit : CreditLedger → CreditPayload → ℕ → ℕ → CreditLedger × Bool
unfolding accept_credit stale_credit_generation clamp_credit_window
on_credit l p arriving_gen cap_bytes =
    if stale_credit_generation p.gen arriving_gen
    then (l, false)
    else if not (p.gen == l.gen)
    then (l, false)
    else if ltb p.bytes_consumed l.last_seen
    then (l, false)
    else (accept_credit l p cap_bytes (p.bytes_consumed - l.last_seen), true)

unfoldable pub reset : CreditLedger → ℕ → CreditLedger
reset l gen = record {
  outstanding = 0;
  last_seen = 0;
  window = credit_initial_window;
  latched = false;
  safely_capped = false;
  gen = gen;
  ready = false;
  n_waiters = 0;
}

unfoldable pub latch_safely_capped : CreditLedger → CreditLedger
latch_safely_capped l = record l {
  latched = true;
  safely_capped = true;
  window = credit_safe_window;
}

-- `creditPark` up to its wait; the Boolean tells whether it waits.
unfoldable pub credit_park : CreditLedger → ℕ → ℕ → CreditLedger × Bool
unfolding can_send
credit_park l chunk cap_bytes =
    if can_send l chunk cap_bytes
    then (l, false)
    else (record l { ready = true; n_waiters = l.n_waiters + 1 }, true)
