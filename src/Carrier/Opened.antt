-- ===== src/Carrier/Opened.antt =====
-- pkg/mux/carrier.go: when OnNewStream is called. A registered stream, live or terminated, is not
-- opened again.
pub mod Steps
pub mod Due
pub mod Final
use iran_germany_split_tunne.Common.{
  ℕ, zero, suc, set, ◌+◌, ◌≤◌, ◌≡◌, ◌≢◌, ◌∙◌, refl, sym, ap, subst, ◌⊎◌, inl, inr, Bool, true,
  false, not, ◌&&◌, ◌||◌, ◌==◌, if◌then◌else◌, if_intro, option_intro, Option, none, some, List, [],
  ◌∷◌, ◌++◌, length, get_elem?, All, All-get, Bool-cases, Option-cases, ==_self, arith,
}
use iran_germany_split_tunne.Common.Assoc.{
  lookup, insert, delete, lookup-insert, lookup-delete, nat_eq,
}
use iran_germany_split_tunne.Frame.{
  Frame, Result, ok, err, frame_reset, frame_bootstrap_ack, frame_credit,
}
use iran_germany_split_tunne.Frame.Credit.{
  CreditPayload, decode_credit_payload, validate_credit_payload,
}
use iran_germany_split_tunne.Mailbox.{Item, Counters, Op, push, carry, park, close_queue}
use iran_germany_split_tunne.Carrier.{
  StreamLimits, StreamRec, Worker, ready, waiting, holding, exited, Dispatcher, idle, returned,
  pushing, carrying, parking, sleeping, failing, CarrierConn, Change, Callbacks, Notice, new_stream,
  applied, stream_terminated, undeliverable, stream_reset, bootstrap_ack, credited, control, update,
  when, terminate_stream, hand_end, hand, new_stream_rec, opened, create_stream_locked, frame_ping,
  frame_pong,
}
use iran_germany_split_tunne.Carrier.Limits.{resync, resync_all, sanitize_limits, set_stream_limits}
use iran_germany_split_tunne.Carrier.ReadLoop.{is_known, read, enqueue, read_fails}
use iran_germany_split_tunne.Carrier.Dispatch.{
  on_queue, try, fail, fail_undeliverable_data, try_wake, deliver_step, route_known, route_new,
  announce, begin_delivery, route, on_credit_frame, dispatch_frame, dispatch_next, dispatch,
  decoded, reset_notices, ack_notices, is_stream_frame,
}
use iran_germany_split_tunne.Carrier.Run.{
  Outcome, handed, aborted, stalled, work, work_from, hand_over, stall, consume, register,
  deregister, track, terminate, finish_terminate, end_dispatch, close_streams, close_channels,
  shut_channels, may_close_channels, close_mailbox, Event, read_frame, read_failure, dispatch_step,
  dispatch_end, work_step, consume_step, register_call, deregister_call, terminate_call,
  close_mailbox_step, terminate_end, set_limits, close_begin, close_end, next, run,
  new_carrier_conn,
}
use iran_germany_split_tunne.Carrier.Every.{
  Keeps, IsKeptByEach, IsChange, queue_change, end_change, fail_change, announce_change,
  work_change, consume_change, Each, Each-IsKept, get_elem?-append_last,
}

is_opening : ℕ → Notice → ℕ
is_opening id (new_stream j typ) = if j == id then 1 else 0
is_opening id (stream_terminated j) = 0
is_opening id (undeliverable j) = 0
is_opening id (stream_reset j reason gen) = 0
is_opening id (bootstrap_ack j status) = 0
is_opening id (credited j p) = 0
is_opening id (control j typ) = 0

-- How often OnNewStream was called for a stream.
unfoldable pub openings : ℕ → List Notice → ℕ
unfolding is_opening
openings id [] = 0
openings id (n ∷ ns) = is_opening id n + openings id ns

openings-append :
    (id : ℕ) (ms ns : List Notice) → openings id (ms ++ ns) ≡ openings id ms + openings id ns
unfolding openings
openings-append id [] ns = omega arith
openings-append id (m ∷ ms) ns = omega (arith, openings-append id ms ns)

-- May the stream still be opened?
unfoldable pub may_open : CarrierConn → ℕ → ℕ
may_open c id = if is_known (lookup id c.streams) || c.closing then 0 else 1

due_at : ℕ → StreamRec → ℕ
due_at id s = if s.callback then (if s.id == id then 1 else 0) else 0

-- How often OnNewStream is still due for a stream: Dispatch has created a record of it and released
-- the lock, and comes to the call next.
unfoldable pub due : ℕ → List StreamRec → ℕ
unfolding due_at
due id [] = 0
due id (s ∷ ss) = due_at id s + due id ss

due-append : (id : ℕ) (ss ts : List StreamRec) → due id (ss ++ ts) ≡ due id ss + due id ts
unfolding due
due-append id [] ts = omega arith
due-append id (s ∷ ss) ts = omega (arith, due-append id ss ts)

due-set :
    (id : ℕ) (ss : List StreamRec) (i : ℕ) (t : StreamRec) {s : StreamRec}
    → get_elem? ss i ≡ some s
    → due_at id t + due id ss ≡ due_at id s + due id (set ss i t)
unfolding due
due-set id [] i t e = cc
due-set id (u ∷ ss) zero t {s} e =
    let same : u ≡ s = cc in
    let bits : due_at id u ≡ due_at id s = ap (due_at id) same in omega arith
due-set id (u ∷ ss) (suc i) t e = omega (arith, due-set id ss i t e)

due-resync :
    (id : ℕ) (l : StreamLimits) (ss : List StreamRec) → due id (resync_all l ss) ≡ due id ss
unfolding due resync_all resync due_at
due-resync id l [] = refl
due-resync id l (s ∷ ss) = omega (arith, due-resync id l ss)

due-close_channels : (id : ℕ) (ss : List StreamRec) → due id (close_channels ss) ≡ due id ss
unfolding due close_channels due_at
due-close_channels id [] = refl
due-close_channels id (s ∷ ss) = omega (arith, due-close_channels id ss)

-- A step that makes no opening of the stream possible: what it opens was due, and what it makes due
-- might have been opened.
pub Bounded : ℕ → CarrierConn → CarrierConn → Type 0
Bounded id c c' =
    openings id c'.log + due id c'.all_streams + may_open c' id
    ≤ openings id c.log + due id c.all_streams + may_open c id

-- A change that opens a stream no more often than was due.
pub Pays : ℕ → Change → Type 0
Pays id f =
    (s : StreamRec) (k : Counters) → openings id (f s k).2 + due_at id (f s k).0 ≡ due_at id s
