-- ===== src/Carrier/Run.antt =====
-- pkg/mux/carrier.go: the stream workers, the public calls and Close, and a run of the carrier as
-- any sequence of the steps of its goroutines.
use iran_germany_split_tunne.Common.{
  ℕ, zero, suc, ◌==◌, Bool, true, false, ◌&&◌, if◌then◌else◌, Option, none, some, List, [], ◌∷◌,
  ◌++◌, get_elem?,
}
use iran_germany_split_tunne.Common.Assoc.{delete, nat_eq}
use iran_germany_split_tunne.Common.Int.{pos}
use iran_germany_split_tunne.Frame.{Frame}
use iran_germany_split_tunne.Mailbox.{Item, Reply, parked, popped, ended, pop, close_queue, step}
use iran_germany_split_tunne.Carrier.{
  StreamLimits, Handoff, bytes, nil, StreamRec, Worker, ready, waiting, holding, exited, Dispatcher,
  unstarted, idle, returned, CloseStage, before_wait, after_wait, channels_closed, CarrierConn,
  Change, Callbacks, update, when, stream_terminated, is_empty, hand, terminate_stream,
  create_stream_locked, ReadError,
}
use iran_germany_split_tunne.Carrier.Limits.{default_stream_limits, set_stream_limits}
use iran_germany_split_tunne.Carrier.ReadLoop.{read, read_fails}
use iran_germany_split_tunne.Carrier.Dispatch.{on_queue, dispatch}

-- How the select of a handoff ends: the consumer's channel took it, the carrier was closed, or
-- ConsumerStall went by.
pub data Outcome : Type 0 where
  handed aborted stalled : Outcome

after_pop : Reply → Worker
after_pop (popped it) = holding it
after_pop ended = exited
after_pop parked = waiting
after_pop _ = ready

-- The payload of a frame without bytes is a nil slice.
abbrev pub slice_of : List ℕ → Handoff
slice_of [] = nil
slice_of (b ∷ bs) = bytes (b ∷ bs)

unfoldable pub handoff_of : Item → Handoff
handoff_of it = if it.is_close then nil else slice_of it.payload

after_handoff : Item → Worker
after_handoff it = if it.is_close then exited else ready

-- A consumer that took nothing for ConsumerStall: a close ends without the termination proper.
unfoldable pub stall : Callbacks → Bool → Bool → Item → Change
unfolding terminate_stream
stall cb closing taken it s k =
    if it.is_close
    then (
      record s { terminated = true; worker = exited },
      k,
      when cb.on_stream_terminated (stream_terminated s.id),
    )
    else terminate_stream cb closing false taken (record s { worker = exited }) k

-- The select waits while none of its arms can run.
unfoldable pub hand_over : Callbacks → Bool → Outcome → Bool → Item → Change
unfolding hand handoff_of after_handoff stall
hand_over cb closing handed taken it s k =
    if is_empty s.ch
    then (record (hand s (handoff_of it)) { worker = after_handoff it }, k, [])
    else (s, k, [])
hand_over cb closing aborted taken it s k =
    if closing then (record s { worker = exited }, k, []) else (s, k, [])
hand_over cb closing stalled taken it s k =
    if is_empty s.ch then (s, k, []) else stall cb closing taken it s k

unfoldable pub work_from : Callbacks → Bool → Outcome → Bool → Worker → Change
unfolding after_pop hand_over
work_from cb closing outcome taken ready s k = (
  record s { q = (step s.q k pop).0; worker = after_pop ((step s.q k pop).2) },
  (step s.q k pop).1,
  [],
)
work_from cb closing outcome taken waiting s k =
    (record s { worker = if s.q.n_waiters == 0 then ready else waiting }, k, [])
work_from cb closing outcome taken (holding it) s k = hand_over cb closing outcome taken it s k
work_from cb closing outcome taken exited s k = (s, k, [])

-- One step of a stream's worker.
unfoldable pub work : Callbacks → Bool → Outcome → Bool → Change
unfolding work_from
work cb closing outcome taken s k = work_from cb closing outcome taken s.worker s k

-- The consumer takes what is in the channel.
unfoldable pub consume : Change
consume s k = (record s { ch = none }, k, [])

unfoldable pub register : CarrierConn → ℕ → CarrierConn
unfolding create_stream_locked
register c id = if c.closing then c else (create_stream_locked c id false).0

unfoldable pub deregister : CarrierConn → ℕ → CarrierConn
deregister c id = record c { streams = delete id c.streams }

unfoldable pub track : CarrierConn × Option ℕ → CarrierConn
track (c, none) = c
track (c, some i) = record c { in_flight = c.in_flight ++ (i ∷ []) }

-- The part of `Terminate` under the lock; its terminateStream follows.
unfoldable pub terminate : CarrierConn → ℕ → CarrierConn
unfolding create_stream_locked track
terminate c id = if c.closing then c else track (create_stream_locked c id false)

unfoldable pub remove_at : ℕ → List ℕ → List ℕ
remove_at n [] = []
remove_at zero (i ∷ is) = is
remove_at (suc n) (i ∷ is) = i ∷ remove_at n is

unfoldable pub finish_terminate : CarrierConn → ℕ → Bool → CarrierConn
unfolding terminate_stream remove_at
finish_terminate c n taken = elim (get_elem? c.in_flight n) [
  | none ↦ c
  | some i ↦ record (update c i (terminate_stream c.callbacks c.closing true taken)) {
    in_flight = remove_at n c.in_flight;
  }
]

-- Dispatch returns once the read loop has closed the channel and it is drained.
unfoldable pub end_dispatch : CarrierConn → Dispatcher → List Frame → Option ReadError → CarrierConn
end_dispatch c idle [] (some e) = record c { dispatcher = returned }
end_dispatch c d fs e = c

abbrev pub is_exited : Worker → Bool
is_exited exited = true
is_exited ready = false
is_exited waiting = false
is_exited (holding it) = false

-- Dispatch starts: it latches `dispatched`.
unfoldable pub start_dispatch : CarrierConn → Dispatcher → CarrierConn
start_dispatch c unstarted = record c { dispatcher = idle }
start_dispatch c d = c

-- A dispatcher that Close does not wait for, or not any more: a carrier on which Dispatch has not
-- started is skipped.
abbrev pub is_done : Dispatcher → Bool
is_done unstarted = true
is_done returned = true
is_done d = false

-- Every mailbox closed and every worker gone.
unfoldable pub all_exited : List StreamRec → Bool
all_exited [] = true
all_exited (s ∷ ss) = (s.q.closed && is_exited s.worker) && all_exited ss

unfoldable pub close_channels : List StreamRec → List StreamRec
close_channels [] = []
close_channels (s ∷ ss) = record s { ch_closed = true } ∷ close_channels ss

unfoldable pub delete_ids : List StreamRec → List (ℕ × ℕ) → List (ℕ × ℕ)
delete_ids [] m = m
delete_ids (s ∷ ss) m = delete_ids ss (delete s.id m)

abbrev pub is_nil : List ℕ → Bool
is_nil [] = true
is_nil (i ∷ is) = false

abbrev pub is_before_wait : CloseStage → Bool
is_before_wait before_wait = true
is_before_wait after_wait = false
is_before_wait channels_closed = false

abbrev pub is_after_wait : CloseStage → Bool
is_after_wait after_wait = true
is_after_wait before_wait = false
is_after_wait channels_closed = false

-- Close waits for the workers and the dispatcher.
unfoldable pub may_pass_wait : CarrierConn → Bool
unfolding all_exited
may_pass_wait c =
    c.closing && (is_before_wait c.stage && (all_exited c.all_streams && is_done c.dispatcher))

unfoldable pub wait_streams : CarrierConn → CarrierConn
unfolding may_pass_wait
wait_streams c = if may_pass_wait c then record c { stage = after_wait } else c

-- Then it waits for the calls of Terminate, and closes the channels.
unfoldable pub may_close_channels : CarrierConn → Bool
may_close_channels c = c.closing && (is_after_wait c.stage && is_nil c.in_flight)

unfoldable pub shut_channels : CarrierConn → CarrierConn
unfolding close_channels delete_ids
shut_channels c = record c {
  stage = channels_closed;
  all_streams = close_channels c.all_streams;
  streams = delete_ids c.all_streams c.streams;
}

unfoldable pub close_streams : CarrierConn → CarrierConn
unfolding may_close_channels shut_channels
close_streams c = if may_close_channels c then shut_channels c else c

unfoldable pub close_mailbox : CarrierConn → ℕ → CarrierConn
unfolding on_queue
close_mailbox c i = if c.closing then update c i (on_queue close_queue) else c

-- A step of some goroutine. The Booleans are the outcomes of the last select of terminateStream.
pub data Event : Type 0 where
  read_frame : Frame → Event
  read_failure : Event
  dispatch_step : Bool → Event
  dispatch_start dispatch_end : Event
  work_step : ℕ → Outcome → Bool → Event
  consume_step register_call deregister_call terminate_call close_mailbox_step : ℕ → Event
  terminate_end : ℕ → Bool → Event
  set_limits : StreamLimits → Event
  close_begin close_wait close_end : Event

unfoldable pub next : CarrierConn → Event → CarrierConn
unfolding read read_fails dispatch start_dispatch end_dispatch work consume register deregister
    terminate finish_terminate set_stream_limits close_mailbox wait_streams close_streams
next c (read_frame f) = read c f
next c read_failure = read_fails c
next c (dispatch_step taken) = dispatch c c.dispatcher taken
next c dispatch_start = start_dispatch c c.dispatcher
next c dispatch_end = end_dispatch c c.dispatcher c.frames c.read_err
next c (work_step i outcome taken) = update c i (work c.callbacks c.closing outcome taken)
next c (consume_step i) = update c i consume
next c (register_call id) = register c id
next c (deregister_call id) = deregister c id
next c (terminate_call id) = terminate c id
next c (terminate_end n taken) = finish_terminate c n taken
next c (set_limits l) = (set_stream_limits c l).0
next c close_begin = record c { closing = true }
next c (close_mailbox_step i) = close_mailbox c i
next c close_wait = wait_streams c
next c close_end = close_streams c

unfoldable pub run : CarrierConn → List Event → CarrierConn
unfolding next
run c [] = c
run c (e ∷ es) = run (next c e) es

abbrev pub is_unstarted : Dispatcher → Bool
is_unstarted unstarted = true
is_unstarted d = false

abbrev pub is_close_wait : Event → Bool
is_close_wait close_wait = true
is_close_wait e = false

-- A carrier on which Dispatch has not started yet.
unfoldable pub new_carrier_conn : Callbacks → CarrierConn
new_carrier_conn cb = record {
  streams = [];
  all_streams = [];
  counters = record { queued_bytes = pos 0; queued_items = pos 0 };
  limits = default_stream_limits;
  frames = [];
  read_err = none;
  dispatcher = unstarted;
  saw_pong = false;
  closing = false;
  in_flight = [];
  stage = before_wait;
  crashed = false;
  callbacks = cb;
  log = [];
}
