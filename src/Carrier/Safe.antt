-- ===== src/Carrier/Safe.antt =====
-- pkg/mux/carrier.go, Close: nothing is sent on a handoff channel once it is closed.
pub mod Shut
pub mod Quiet
pub mod Run
use iran_germany_split_tunne.Common.{
  ℕ, ◌≡◌, ◌≢◌, refl, ap, subst, ◌∙◌, if◌then◌else◌, if_intro, option_intro, ltb, length, sym, Bool,
  true, false, not, ◌&&◌, ◌||◌, Option, none, some, List, [], ◌∷◌, ◌++◌, ◌⊎◌, inl, inr, get_elem?,
  set, All, All-get, All-set, List-cases, Bool-cases, Option-cases, arith,
}
use iran_germany_split_tunne.Common.Assoc.{lookup, nat_eq}
use iran_germany_split_tunne.Frame.{Frame}
use iran_germany_split_tunne.Mailbox.{Item, Counters, Op, close_queue}
use iran_germany_split_tunne.Carrier.{
  StreamLimits, StreamRec, Worker, ready, waiting, holding, exited, Dispatcher, idle, returned,
  before_wait, after_wait, channels_closed, pushing, carrying, parking, sleeping, failing,
  CarrierConn, ReadError, Change, Callbacks, update, applied, terminate_stream, new_stream_rec,
  create_stream_locked, opened, hand_end, hand,
}
use iran_germany_split_tunne.Carrier.Limits.{resync, resync_all, sanitize_limits, set_stream_limits}
use iran_germany_split_tunne.Carrier.ReadLoop.{
  check_frame, is_known, frames_capacity, read, enqueue, read_fails,
}
use iran_germany_split_tunne.Carrier.Dispatch.{
  on_queue, try, fail, fail_undeliverable_data, try_wake, deliver_step, route_known, route_new,
  announce, begin_delivery, route, on_credit_frame, dispatch_frame, dispatch_next, dispatch,
}
use iran_germany_split_tunne.Carrier.Every.{
  Keeps, IsKeptByEach, IsChange, queue_change, end_change, fail_change, announce_change,
  work_change, consume_change, Each, Each-IsKept, update-All,
}
use iran_germany_split_tunne.Carrier.Run.{
  Outcome, handed, aborted, stalled, work, work_from, hand_over, stall, consume, register,
  deregister, track, terminate, finish_terminate, end_dispatch, all_exited, close_channels,
  may_close_channels, shut_channels, is_exited, is_nil, close_streams, close_mailbox, Event,
  read_frame, read_failure, dispatch_step, dispatch_end, work_step, consume_step, register_call,
  deregister_call, terminate_call, close_mailbox_step, terminate_end, set_limits, close_begin,
  close_end, next, run, new_carrier_conn,
}

-- A record of a carrier that is not shut.
pub record IsOpen (s : StreamRec) : Type 0 where
  pub calm : s.panicked ≡ false
  pub open_ch : s.ch_closed ≡ false

hand_over-IsOpen :
    (cb : Callbacks) (closing : Bool) (outcome : Outcome) (taken : Bool) (it : Item)
    → Keeps IsOpen (hand_over cb closing outcome taken it)
unfolding hand_over hand stall terminate_stream hand_end
hand_over-IsOpen cb closing handed taken it s k h = ground arith
hand_over-IsOpen cb closing aborted taken it s k h = ground arith
hand_over-IsOpen cb closing stalled taken it s k h = ground arith

work_from-IsOpen :
    (cb : Callbacks) (closing : Bool) (outcome : Outcome) (taken : Bool) (w : Worker)
    → Keeps IsOpen (work_from cb closing outcome taken w)
unfolding work_from
work_from-IsOpen cb closing outcome taken ready s k h = record {
  calm = h.calm;
  open_ch = h.open_ch;
}
work_from-IsOpen cb closing outcome taken waiting s k h = record {
  calm = h.calm;
  open_ch = h.open_ch;
}
work_from-IsOpen cb closing outcome taken (holding it) s k h =
    hand_over-IsOpen cb closing outcome taken it s k h
work_from-IsOpen cb closing outcome taken exited s k h = h

IsOpen-change : (f : Change) → IsChange f → Keeps IsOpen f
unfolding on_queue terminate_stream fail announce work hand_end hand consume
IsOpen-change _ (queue_change op) s k h = record { calm = h.calm; open_ch = h.open_ch }
IsOpen-change _ (end_change cb closing signal taken) s k h = ground arith
IsOpen-change _ (fail_change cb closing taken) s k h = ground arith
IsOpen-change _ (announce_change typ) s k h = ground arith
IsOpen-change _ (work_change cb closing outcome taken) s k h =
    work_from-IsOpen cb closing outcome taken s.worker s k h
IsOpen-change _ consume_change s k h = record { calm = h.calm; open_ch = h.open_ch }

IsOpen-kept : IsKeptByEach IsOpen
unfolding new_stream_rec resync
IsOpen-kept = record {
  changes = IsOpen-change;
  created = λ l id callback. record { calm = refl; open_ch = refl };
  resyncs = λ l s h. record { calm = h.calm; open_ch = h.open_ch };
}

-- A record whose worker is gone, before and after its channel is closed.
pub record IsGone (s : StreamRec) : Type 0 where
  pub calm : s.panicked ≡ false
  pub open_ch : s.ch_closed ≡ false
  pub gone : s.worker ≡ exited

pub record IsShut (s : StreamRec) : Type 0 where
  pub calm : s.panicked ≡ false
  pub gone : s.worker ≡ exited

-- The channels are open, and are closed only when everybody who might send is gone: the workers and
-- the dispatcher first, and then the calls of Terminate.
pub data IsSafe (c : CarrierConn) : Type 0 where
  running : c.stage ≡ before_wait → All IsOpen c.all_streams → IsSafe c
  waited :
      c.closing ≡ true
      → c.dispatcher ≡ returned
      → c.stage ≡ after_wait
      → All IsGone c.all_streams
      → IsSafe c
  closed :
      c.closing ≡ true
      → c.dispatcher ≡ returned
      → c.in_flight ≡ []
      → c.stage ≡ channels_closed
      → All IsShut c.all_streams
      → IsSafe c
