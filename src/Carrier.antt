-- ===== src/Carrier.antt =====
-- pkg/mux/carrier.go: one authenticated connection that carries many streams.
-- This file has its state and what a goroutine does to one stream; the children have the read loop,
-- the dispatcher, the workers and the calls. The counters of the telemetry are left out, and the
-- callbacks are entries of a log, whose own calls on the carrier are steps of their own.
pub mod Limits
pub mod ReadLoop
pub mod Dispatch
pub mod Run
pub mod Every
pub mod Safe
pub mod Opened
pub mod Fate
pub mod Exact
pub mod Blocked
pub mod Tests
use iran_germany_split_tunne.Common.{
  ℕ, ◌+◌, ◌*◌, ◌==◌, Bool, true, false, not, ◌&&◌, ◌||◌, if◌then◌else◌, Option, none, some, List,
  [], ◌∷◌, ◌++◌, length, get_elem?, set,
}
use iran_germany_split_tunne.Common.Assoc.{lookup, insert, nat_eq}
use iran_germany_split_tunne.Common.Int.{ℤ, pos, pos_part}
use iran_germany_split_tunne.Frame.{Frame}
use iran_germany_split_tunne.Frame.Credit.{CreditPayload}
use iran_germany_split_tunne.Mailbox.{
  Item, StreamQueue, Counters, new_stream_queue, step, close_queue,
}

abbrev pub frame_auth : ℕ
frame_auth = 0x01

abbrev pub frame_ping : ℕ
frame_ping = 0x02

abbrev pub frame_pong : ℕ
frame_pong = 0x03

abbrev pub frame_close : ℕ
frame_close = 0x04

abbrev pub frame_header : ℕ
frame_header = 0x05

abbrev pub frame_rebind : ℕ
frame_rebind = 0x06

-- The two durations are in nanoseconds.
pub record StreamLimits : Type 0 where
  pub max_frames_per_stream : ℤ
  pub max_bytes_per_stream : ℤ
  pub max_bytes_total : ℤ
  pub overflow_wait : ℤ
  pub consumer_stall : ℤ

-- What a consumer receives: a payload, or the nil that ends its stream.
pub data Handoff : Type 0 where
  bytes : List ℕ → Handoff
  nil : Handoff

-- Where a stream's worker stands: before its Pop, parked in it, at the handoff of an item, or gone.
pub data Worker : Type 0 where
  ready waiting : Worker
  holding : Item → Worker
  exited : Worker

-- `ch` is the one place of the handoff channel. `panicked` tells of a send on the closed channel.
pub record StreamRec : Type 0 where
  pub id : ℕ
  pub q : StreamQueue
  pub ch : Option Handoff
  pub ch_closed : Bool
  pub panicked : Bool
  pub terminated : Bool
  pub callback : Bool
  pub stop_once : Bool
  pub worker : Worker

-- Where the dispatcher stands: before the call of Dispatch, at the next frame, about to call
-- OnNewStream for a frame's stream if that is due, or on its way with an item for a stream, of which
-- it needs the primary mailbox, the carry region, room in either (`parking`, and `sleeping` until
-- the mailbox wakes it), or to fail the stream.
pub data Dispatcher : Type 0 where
  unstarted idle returned : Dispatcher
  announcing : ℕ → Frame → Dispatcher
  pushing carrying parking sleeping failing : ℕ → Item → Dispatcher

-- How far Close is: before or after its wait for the workers and the dispatcher, or past the close
-- of the handoff channels.
pub data CloseStage : Type 0 where
  before_wait after_wait channels_closed : CloseStage

-- Which callbacks are set.
pub record Callbacks : Type 0 where
  pub on_new_stream : Bool
  pub on_stream_terminated : Bool
  pub on_stream_reset : Bool
  pub on_stream_bootstrap_ack : Bool
  pub on_stream_data_undeliverable : Bool
  pub on_stream_credit : Bool

-- The calls of the callbacks, and the control frames that were queued for the peer.
pub data Notice : Type 0 where
  new_stream : ℕ → ℕ → Notice
  stream_terminated undeliverable : ℕ → Notice
  stream_reset : ℕ → ℕ → ℕ → Notice
  bootstrap_ack : ℕ → ℕ → Notice
  credited : ℕ → CreditPayload → Notice
  control : ℕ → ℕ → Notice

pub data ReadError : Type 0 where
  protocol_violation credit_malformed_length credit_unknown_stream read_failed : ReadError

-- `streams` gives the place of a registered stream in `all_streams`, which only grows. `in_flight`
-- has the places of the streams that a tracked Terminate is about to end, and `crashed` tells of a
-- use of a nil record.
pub record CarrierConn : Type 0 where
  pub streams : List (ℕ × ℕ)
  pub all_streams : List StreamRec
  pub counters : Counters
  pub limits : StreamLimits
  pub frames : List Frame
  pub read_err : Option ReadError
  pub dispatcher : Dispatcher
  pub saw_pong : Bool
  pub closing : Bool
  pub in_flight : List ℕ
  pub stage : CloseStage
  pub crashed : Bool
  pub callbacks : Callbacks
  pub log : List Notice

-- What one step does to the stream that it is about, with the counters and the notices.
abbrev pub Change : Type 0
Change = StreamRec → Counters → StreamRec × Counters × List Notice

abbrev pub applied :
    List StreamRec
    → Counters
    → ℕ
    → Change
    → Option StreamRec
    → List StreamRec × Counters × List Notice
applied all k i f none = (all, k, [])
applied all k i f (some s) = let r = f s k in (set all i (r.0), r.1, r.2)

abbrev pub update : CarrierConn → ℕ → Change → CarrierConn
update c i f =
    let r = applied c.all_streams c.counters i f (get_elem? c.all_streams i) in
    record c { all_streams = r.0; counters = r.1; log = c.log ++ r.2 }

abbrev pub when : Bool → Notice → List Notice
when b n = if b then n ∷ [] else []

-- A send on `s.ch` that goes through.
unfoldable pub hand : StreamRec → Handoff → StreamRec
hand s h = record s { ch = some h; panicked = s.panicked || s.ch_closed }

abbrev pub is_empty : Option Handoff → Bool
is_empty none = true
is_empty (some h) = false

-- The last select of `terminateStream`: the nil goes out at once where the channel is free, and
-- else if the consumer takes the item in it in time. On a closing carrier either arm may run.
-- `taken` is what the environment does.
unfoldable pub hand_end : Bool → Bool → StreamRec → StreamRec
unfolding hand
hand_end closing taken s = if taken || (not closing && is_empty s.ch) then hand s nil else s

unfoldable pub terminate_stream : Callbacks → Bool → Bool → Bool → Change
unfolding hand_end
terminate_stream cb closing signal_peer taken s k = if s.stop_once then (s, k, []) else (
  hand_end closing taken
      (record s { terminated = true; stop_once = true; q = (step s.q k close_queue).0 }),
  (step s.q k close_queue).1,
  when cb.on_stream_terminated (stream_terminated s.id)
      ++ when (signal_peer && not closing) (control s.id frame_close),
)

-- `NewStreamQueue` with the carrier's limits, and the `SetOverflowCap` that follows it.
unfoldable pub new_mailbox : StreamLimits → StreamQueue
new_mailbox l =
    let q =
      new_stream_queue (pos_part l.max_frames_per_stream) (pos_part l.max_bytes_per_stream)
        l.max_bytes_total in
    record q { overflow_cap = pos_part l.max_bytes_per_stream }

-- A new record with its mailbox, and its worker started.
unfoldable pub new_stream_rec : StreamLimits → ℕ → Bool → StreamRec
new_stream_rec l id callback = record {
  id = id;
  q = new_mailbox l;
  ch = none;
  ch_closed = false;
  panicked = false;
  terminated = false;
  callback = callback;
  stop_once = false;
  worker = ready;
}

unfoldable pub opened : CarrierConn → ℕ → Bool → CarrierConn
opened c id callback = record c {
  streams = insert id (length c.all_streams) c.streams;
  all_streams = c.all_streams ++ (new_stream_rec c.limits id callback ∷ []);
}

-- The carrier, and the place of the stream unless it is 0.
unfoldable pub create_stream_locked : CarrierConn → ℕ → Bool → CarrierConn × Option ℕ
create_stream_locked c id callback = if id == 0 then (c, none) else elim (lookup id c.streams) [
  | some i ↦ (c, some i)
  | none ↦ (opened c id callback, some (length c.all_streams))
]
