-- ===== src/Carrier/Fate.antt =====
-- pkg/mux/carrier.go, deliver-or-fail: what becomes of an item that the dispatcher has taken on.
pub mod Deliver
use iran_germany_split_tunne.Common.{
  ℕ, zero, suc, ◌≡◌, ◌∙◌, refl, sym, ap, subst, ◌⊎◌, inl, inr, Bool, true, false, ◌||◌, ◌==◌,
  if◌then◌else◌, if_intro, option_intro, Option, none, some, List, [], ◌∷◌, ◌++◌, get_elem?, set,
  All, All-get, append-nil, append_assoc, empty_of_length, Bool-cases, arith,
}
use iran_germany_split_tunne.Mailbox.{
  Item, StreamQueue, Counters, Reply, accepted, refused, cancelled, parked, RejectReason, Op, push,
  carry, park, step, Step, over_budget, full_locked, carry_fits,
}
use iran_germany_split_tunne.Mailbox.Fifo.{contents}
use iran_germany_split_tunne.Carrier.{
  StreamLimits, StreamRec, Worker, ready, waiting, holding, exited, Dispatcher, idle, returned,
  pushing, carrying, parking, sleeping, failing, CarrierConn, Change, Callbacks, update, applied,
  terminate_stream, hand_end, hand, new_stream_rec,
}
use iran_germany_split_tunne.Carrier.Limits.{resync}
use iran_germany_split_tunne.Carrier.Dispatch.{
  on_queue, after_push, after_carry, after_park, is_stream_bound, try, fail,
  fail_undeliverable_data, try_wake, deliver_step, announce, dispatch,
}
use iran_germany_split_tunne.Carrier.Every.Steps.{next-Of}
use iran_germany_split_tunne.Carrier.Every.{
  Keeps, IsChange, queue_change, end_change, fail_change, announce_change, work_change,
  consume_change, IsKeptByEach, Each, Each-IsKept,
}
use iran_germany_split_tunne.Carrier.Run.{
  Outcome, handed, aborted, stalled, work, work_from, hand_over, stall, consume, close_channels,
  close_streams, shut_channels, may_close_channels, Event, dispatch_step, next, run,
  new_carrier_conn,
}

-- A record whose termination has run is terminated.
pub record IsStopped (s : StreamRec) : Type 0 where
  pub marked : s.stop_once ≡ true → s.terminated ≡ true

IsStopped-hand_over :
    (cb : Callbacks) (closing : Bool) (outcome : Outcome) (taken : Bool) (it : Item)
    → Keeps IsStopped (hand_over cb closing outcome taken it)
unfolding hand_over hand stall terminate_stream hand_end
IsStopped-hand_over cb closing handed taken it s k h = record {
  marked = λ e. ground (arith, h.marked);
}
IsStopped-hand_over cb closing aborted taken it s k h = record {
  marked = λ e. ground (arith, h.marked);
}
IsStopped-hand_over cb closing stalled taken it s k h = record {
  marked = λ e. ground (arith, h.marked);
}

IsStopped-work_from :
    (cb : Callbacks) (closing : Bool) (outcome : Outcome) (taken : Bool) (w : Worker)
    → Keeps IsStopped (work_from cb closing outcome taken w)
unfolding work_from
IsStopped-work_from cb closing outcome taken ready s k h = record { marked = h.marked }
IsStopped-work_from cb closing outcome taken waiting s k h = record { marked = h.marked }
IsStopped-work_from cb closing outcome taken (holding it) s k h =
    IsStopped-hand_over cb closing outcome taken it s k h
IsStopped-work_from cb closing outcome taken exited s k h = h

IsStopped-change : (f : Change) → IsChange f → Keeps IsStopped f
unfolding on_queue terminate_stream fail announce work hand_end hand consume
IsStopped-change _ (queue_change op) s k h = record { marked = h.marked }
IsStopped-change _ (end_change cb closing signal taken) s k h = record {
  marked = λ e. ground (arith, h.marked);
}
IsStopped-change _ (fail_change cb closing taken) s k h = record {
  marked = λ e. ground (arith, h.marked);
}
IsStopped-change _ (announce_change typ) s k h = record { marked = λ e. ground (arith, h.marked) }
IsStopped-change _ (work_change cb closing outcome taken) s k h =
    IsStopped-work_from cb closing outcome taken s.worker s k h
IsStopped-change _ consume_change s k h = record { marked = h.marked }

IsStopped-kept : IsKeptByEach IsStopped
unfolding new_stream_rec resync
IsStopped-kept = record {
  changes = IsStopped-change;
  created = λ l id callback. record { marked = λ e. cc };
  resyncs = λ l s h. record { marked = h.marked };
}

closed_channels-IsStopped :
    (ss : List StreamRec) → All IsStopped ss → All IsStopped (close_channels ss)
unfolding close_channels
closed_channels-IsStopped [] h = tt
closed_channels-IsStopped (s ∷ ss) (h, hs) =
    (record { marked = h.marked }, closed_channels-IsStopped ss hs)

close_streams-IsStopped :
    (c : CarrierConn) → All IsStopped c.all_streams → All IsStopped (close_streams c).all_streams
unfolding close_streams shut_channels
close_streams-IsStopped c all =
    if_intro (λ (r : CarrierConn). All IsStopped r.all_streams) (may_close_channels c)
      (λ h. closed_channels-IsStopped c.all_streams all) (λ h. all)

run-IsStopped :
    (c : CarrierConn) (es : List Event)
    → All IsStopped c.all_streams
    → All IsStopped (run c es).all_streams
unfolding run
run-IsStopped c [] all = all
run-IsStopped c (e ∷ es) all = run-IsStopped (next c e) es (
    next-Of (Each IsStopped) (Each-IsKept IsStopped IsStopped-kept) c e
      (λ last. close_streams-IsStopped c all) all)

-- The dispatcher has taken on an item for the stream at a place.
pub data Holds : Dispatcher → ℕ → Item → Type 0 where
  at_push : (i : ℕ) (it : Item) → Holds (pushing i it) i it
  at_carry : (i : ℕ) (it : Item) → Holds (carrying i it) i it
  at_park : (i : ℕ) (it : Item) → Holds (parking i it) i it
  asleep : (i : ℕ) (it : Item) → Holds (sleeping i it) i it
  at_failure : (i : ℕ) (it : Item) → Holds (failing i it) i it

-- What a step makes of the item: it is still held, it is the last of the stream's mailbox, its
-- stream is terminated, or the carrier is closing.
pub data Fate (c c' : CarrierConn) (i : ℕ) (it : Item) : Type 0 where
  kept : Holds c'.dispatcher i it → Fate c c' i it
  queued :
      (s s' : StreamRec)
      → get_elem? c.all_streams i ≡ some s
      → get_elem? c'.all_streams i ≡ some s'
      → contents s'.q ≡ contents s.q ++ (it ∷ [])
      → Fate c c' i it
  over :
      (s' : StreamRec)
      → get_elem? c'.all_streams i ≡ some s'
      → s'.terminated ≡ true
      → Fate c c' i it
  abandoned : c.closing ≡ true → Fate c c' i it

push_appends :
    (q : StreamQueue) (k : Counters) (it : Item)
    → (step q k (push it)).2 ≡ accepted
    → contents (step q k (push it)).0 ≡ contents q ++ (it ∷ [])
unfolding step
push_appends q k it h =
    ground
      (arith, empty_of_length q.overflow, append-nil q.items, append-nil (q.items ++ (it ∷ [])))

carry_appends :
    (q : StreamQueue) (k : Counters) (it : Item)
    → (step q k (carry it)).2 ≡ accepted
    → contents (step q k (carry it)).0 ≡ contents q ++ (it ∷ [])
unfolding step
carry_appends q k it h = ground (arith, append_assoc q.items q.overflow (it ∷ []))

park_appends :
    (q : StreamQueue) (k : Counters) (it : Item)
    → (step q k (park it)).2 ≡ accepted
    → contents (step q k (park it)).0 ≡ contents q ++ (it ∷ [])
unfolding step
park_appends q k it h = ground (
  arith,
  empty_of_length q.overflow,
  append-nil q.items,
  append-nil (q.items ++ (it ∷ [])),
  append_assoc q.items q.overflow (it ∷ []),
)

-- The replies of the three calls.
abbrev Answer : Reply → Type 0
Answer r = (r ≡ accepted) ⊎ ((reason : RejectReason) × (r ≡ refused reason))

push-Answer : (q : StreamQueue) (k : Counters) (it : Item) → Answer (step q k (push it)).2
unfolding step
push-Answer q k it =
    if_intro (λ (r : Step). Answer r.2) (q.closed || full_locked q it) (λ h. inr (_, refl))
      (λ h.
        if_intro (λ (r : Step). Answer r.2) (over_budget q k it) (λ h. inr (_, refl))
          (λ h. inl refl))

carry-Answer : (q : StreamQueue) (k : Counters) (it : Item) → Answer (step q k (carry it)).2
unfolding step
carry-Answer q k it =
    if_intro (λ (r : Step). Answer r.2) q.closed (λ h. inr (_, refl))
      (λ h.
        if_intro (λ (r : Step). Answer r.2) (carry_fits q it)
          (λ h.
            if_intro (λ (r : Step). Answer r.2) (over_budget q k it) (λ h. inr (_, refl))
              (λ h. inl refl))
          (λ h. inr (_, refl)))

park_answer :
    (q : StreamQueue) (k : Counters) (it : Item)
    → let r = (step q k (park it)).2 in (r ≡ accepted) ⊎ ((r ≡ parked) ⊎ (r ≡ cancelled))
unfolding step
park_answer q k it = ground arith

pub get_elem?-set_self :
    (ss : List StreamRec) (i : ℕ) {s : StreamRec} (s' : StreamRec)
    → get_elem? ss i ≡ some s
    → get_elem? (set ss i s') i ≡ some s'
get_elem?-set_self [] i s' e = cc
get_elem?-set_self (t ∷ ss) zero s' e = refl
get_elem?-set_self (t ∷ ss) (suc i) s' e = get_elem?-set_self ss i s' e

either : (a b : Bool) → (a || b) ≡ true → (a ≡ true) ⊎ (b ≡ true)
either true b h = inl refl
either false b h = inr h

-- The record that a change leaves.
pub updated_at :
    (c : CarrierConn) (i : ℕ) (f : Change) (s : StreamRec)
    → get_elem? c.all_streams i ≡ some s
    → get_elem? (update c i f).all_streams i ≡ some (f s c.counters).0
updated_at c i f s e =
    subst (λ o. get_elem? (applied c.all_streams c.counters i f o).0 i ≡ some (f s c.counters).0)
      (sym e) (get_elem?-set_self c.all_streams i _ e)
