-- ===== src/Carrier/Exact.antt =====
-- pkg/mux/carrier.go, `queuedBytes` and `queuedItems`: the carrier as the system of its mailboxes.
pub mod Run
use iran_germany_split_tunne.Common.{
  ℕ, zero, suc, ◌+◌, ◌≡◌, ◌≢◌, ◌∙◌, refl, sym, ap, subst, ◌⊎◌, inl, inr, Bool, true, false, not,
  ◌&&◌, ◌||◌, ◌==◌, if◌then◌else◌, if_intro, option_intro, Option, none, some, List, [], ◌∷◌, ◌++◌,
  length, get_elem?, set, All, Bool-cases, Option-cases, arith,
}
use iran_germany_split_tunne.Common.Assoc.{lookup, nat_eq}
use iran_germany_split_tunne.Common.Int.{ℤ, pos, pos_part}
use iran_germany_split_tunne.Frame.{Frame}
use iran_germany_split_tunne.Frame.Credit.{CreditPayload, validate_credit_payload}
use iran_germany_split_tunne.Mailbox.{
  Item, StreamQueue, Counters, Op, push, carry, park, pop, close_queue, step, new_stream_queue,
}
use iran_germany_split_tunne.Mailbox.Invariant.{IsValid, new_stream_queue-IsValid}
use iran_germany_split_tunne.Mailbox.Aggregate as Aggregate
use iran_germany_split_tunne.Mailbox.Aggregate.{
  IsExact, step_found-IsExact, step_found, bytes_in, items_in, total,
}
use iran_germany_split_tunne.Carrier.{
  StreamLimits, StreamRec, Worker, ready, waiting, holding, exited, Dispatcher, idle, returned,
  pushing, carrying, parking, sleeping, failing, CarrierConn, Change, Callbacks, Notice, applied,
  update, terminate_stream, hand_end, hand, new_stream_rec, new_mailbox, opened,
  create_stream_locked, is_empty,
}
use iran_germany_split_tunne.Carrier.Limits.{resync, resync_all}
use iran_germany_split_tunne.Carrier.Dispatch.{on_queue, fail, announce}
use iran_germany_split_tunne.Carrier.Every.{
  IsChange, queue_change, end_change, fail_change, announce_change, work_change, consume_change,
  IsKept, All-append,
}
use iran_germany_split_tunne.Carrier.Run.{
  Outcome, handed, aborted, stalled, work, work_from, hand_over, stall, consume, close_channels,
  close_streams, shut_channels, may_close_channels, Event, next, run, new_carrier_conn,
}

abbrev pub queues : List StreamRec → List StreamQueue
queues [] = []
queues (s ∷ ss) = s.q ∷ queues ss

-- The mailboxes of a carrier with their counters.
abbrev pub mailboxes : CarrierConn → Aggregate.Carrier
mailboxes c = record { queues = queues c.all_streams; counters = c.counters }

-- A change of a record that leaves its mailbox and the counters alone, or is one operation on them.
pub data Operates (s : StreamRec) (k : Counters) (r : StreamRec × Counters × List Notice)
    : Type 0 where
  nothing : r.0.q ≡ s.q → r.1 ≡ k → Operates s k r
  operation : (op : Op) → r.0.q ≡ (step s.q k op).0 → r.1 ≡ (step s.q k op).1 → Operates s k r

pub IsOperation : Change → Type 0
IsOperation f = (s : StreamRec) (k : Counters) → Operates s k (f s k)

queue_at :
    (ss : List StreamRec) (i : ℕ) {s : StreamRec}
    → get_elem? ss i ≡ some s
    → get_elem? (queues ss) i ≡ some s.q
queue_at [] i e = cc
queue_at (t ∷ ss) zero e = cc
queue_at (t ∷ ss) (suc i) e = queue_at ss i e

queues-set :
    (ss : List StreamRec) (i : ℕ) (s : StreamRec) → queues (set ss i s) ≡ set (queues ss) i s.q
queues-set [] i s = refl
queues-set (t ∷ ss) zero s = refl
queues-set (t ∷ ss) (suc i) s = ap (◌∷◌ t.q) (queues-set ss i s)

set_same :
    (qs : List StreamQueue) (i : ℕ) (q : StreamQueue) → get_elem? qs i ≡ some q → set qs i q ≡ qs
set_same [] i q e = refl
set_same (p ∷ qs) zero q e = cc
set_same (p ∷ qs) (suc i) q e = ap (◌∷◌ p) (set_same qs i q e)

-- The view of a change at a record.
abbrev view : List StreamQueue → Counters → Aggregate.Carrier
view qs k = record { queues = qs; counters = k }

changed-IsExact :
    (c : CarrierConn) (i : ℕ) (s : StreamRec) (r : StreamRec × Counters × List Notice)
    → get_elem? c.all_streams i ≡ some s
    → Operates s c.counters r
    → IsExact (mailboxes c)
    → IsExact (view (queues (set c.all_streams i r.0)) r.1)
changed-IsExact c i s r e (nothing q k) x =
    rw
      (
        queues-set c.all_streams i r.0,
        q,
        k,
        set_same (queues c.all_streams) i s.q (queue_at c.all_streams i e),
      )
      x
changed-IsExact c i s r e (operation op q k) x =
    rw (queues-set c.all_streams i r.0, q, k)
      (unfold step_found in
        step_found-IsExact (mailboxes c) i op (some s.q) (queue_at c.all_streams i e) x)

pub update-IsExact :
    (c : CarrierConn) (i : ℕ) (f : Change)
    → IsOperation f
    → IsExact (mailboxes c)
    → IsExact (mailboxes (update c i f))
update-IsExact c i f op x = go (get_elem? c.all_streams i) refl
  where
    go :
        (o : Option StreamRec)
        → get_elem? c.all_streams i ≡ o
        → let r = applied c.all_streams c.counters i f o in IsExact (view (queues r.0) r.1)
    go none e = x
    go (some s) e =
        unfold IsOperation in changed-IsExact c i s (f s c.counters) e (op s c.counters) x

hand_end-q : (closing taken : Bool) (s : StreamRec) → (hand_end closing taken s).q ≡ s.q
unfolding hand_end hand
hand_end-q closing taken s = ground arith

terminate_stream-Operates :
    (cb : Callbacks) (closing signal taken : Bool) (s : StreamRec) (k : Counters)
    → Operates s k (terminate_stream cb closing signal taken s k)
unfolding terminate_stream
terminate_stream-Operates cb closing signal taken s k =
    if_intro (Operates s k) s.stop_once (λ done. nothing refl refl)
      (λ first. operation close_queue (hand_end-q closing taken _) refl)

with_notices :
    {s : StreamRec} {k : Counters} {r : StreamRec × Counters × List Notice} (ns : List Notice)
    → Operates s k r
    → Operates s k (r.0, r.1, r.2 ++ ns)
with_notices ns (nothing q e) = nothing q e
with_notices ns (operation op q e) = operation op q e

exit_first :
    (s : StreamRec) (k : Counters) {r : StreamRec × Counters × List Notice}
    → Operates (record s { worker = exited }) k r
    → Operates s k r
exit_first s k (nothing q e) = nothing q e
exit_first s k (operation op q e) = operation op q e

fail-Operates :
    (cb : Callbacks) (closing taken : Bool) (s : StreamRec) (k : Counters)
    → Operates s k (fail cb closing taken s k)
unfolding fail
fail-Operates cb closing taken s k =
    if_intro (Operates s k) s.terminated (λ over. nothing refl refl)
      (λ live. with_notices _ (terminate_stream-Operates cb closing true taken s k))

work_from-Operates :
    (cb : Callbacks) (closing : Bool) (outcome : Outcome) (taken : Bool) (w : Worker)
    (s : StreamRec) (k : Counters)
    → Operates s k (work_from cb closing outcome taken w s k)
unfolding work_from hand_over hand stall
work_from-Operates cb closing outcome taken ready s k = operation pop refl refl
work_from-Operates cb closing outcome taken waiting s k = nothing refl refl
work_from-Operates cb closing outcome taken exited s k = nothing refl refl
work_from-Operates cb closing handed taken (holding it) s k =
    if_intro (Operates s k) (is_empty s.ch) (λ e. nothing refl refl) (λ e. nothing refl refl)
work_from-Operates cb closing aborted taken (holding it) s k =
    if_intro (Operates s k) closing (λ e. nothing refl refl) (λ e. nothing refl refl)
work_from-Operates cb closing stalled taken (holding it) s k =
    if_intro (Operates s k) (is_empty s.ch) (λ e. nothing refl refl)
      (λ e.
        if_intro (Operates s k) it.is_close (λ h. nothing refl refl)
          (λ h.
            exit_first s k
              (terminate_stream-Operates cb closing false taken (record s { worker = exited }) k)))

change-IsOperation : (f : Change) → IsChange f → IsOperation f
unfolding IsOperation on_queue announce work consume
change-IsOperation _ (queue_change op) s k = operation op refl refl
change-IsOperation _ (end_change cb closing signal taken) s k =
    terminate_stream-Operates cb closing signal taken s k
change-IsOperation _ (fail_change cb closing taken) s k = fail-Operates cb closing taken s k
change-IsOperation _ (announce_change typ) s k =
    if_intro (Operates s k) s.callback (λ e. nothing refl refl) (λ e. nothing refl refl)
change-IsOperation _ (work_change cb closing outcome taken) s k =
    work_from-Operates cb closing outcome taken s.worker s k
change-IsOperation _ consume_change s k = nothing refl refl
