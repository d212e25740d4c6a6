-- ===== src/Carrier/Dispatch.antt =====
-- pkg/mux/carrier.go: Dispatch, deliver, deliverClose and failUndeliverableData.
-- One step runs from one call on the stream's mailbox to before the next, so that workers and other
-- calls may come between; the test of `terminated` after a refusal belongs to the step before it.
use iran_germany_split_tunne.Common.{
  ℕ, ◌==◌, Bool, true, false, not, ◌&&◌, ◌||◌, if◌then◌else◌, Option, none, some, List, [], ◌∷◌,
  ◌++◌, get_elem?, replicate, length,
}
use iran_germany_split_tunne.Common.Assoc.{lookup, nat_eq}
use iran_germany_split_tunne.Frame.{
  Frame, Result, ok, err, frame_data, frame_credit, frame_reset, frame_bootstrap_ack,
}
use iran_germany_split_tunne.Frame.Control.{parse_reset_payload, parse_bootstrap_ack_payload}
use iran_germany_split_tunne.Frame.Credit.{
  CreditPayload, decode_credit_payload, validate_credit_payload,
}
use iran_germany_split_tunne.Mailbox.{
  Item, Reply, refused, cancelled, parked, RejectReason, reject_stream_frames, reject_stream_bytes,
  reject_aggregate, reject_closed, Op, push, carry, park, step,
}
use iran_germany_split_tunne.Carrier.{
  StreamRec, Dispatcher, unstarted, idle, returned, announcing, pushing, carrying, parking,
  sleeping, failing, CarrierConn, Change, Callbacks, Notice, update, when, new_stream, stream_reset,
  bootstrap_ack, credited, undeliverable, control, frame_close, frame_header, frame_rebind,
  frame_ping, frame_pong, terminate_stream, opened,
}

-- A call of the mailbox.
unfoldable pub on_queue : Op → Change
on_queue op s k = (record s { q = (step s.q k op).0 }, (step s.q k op).1, [])

abbrev pub is_stream_bound : RejectReason → Bool
is_stream_bound reject_stream_frames = true
is_stream_bound reject_stream_bytes = true
is_stream_bound reject_aggregate = false
is_stream_bound reject_closed = false

-- After TryPush: a close goes on to the carry region whatever the refusal, anything else only if a
-- bound of its stream refused it.
unfoldable pub after_push : ℕ → Item → StreamRec → Reply → Dispatcher
after_push i it s (refused reason) =
    if s.terminated
    then idle
    else if it.is_close || is_stream_bound reason
    then carrying i it
    else failing i it
after_push i it s _ = idle

unfoldable pub after_carry : ℕ → Item → StreamRec → Reply → Dispatcher
after_carry i it s (refused reason) = if s.terminated then idle else parking i it
after_carry i it s _ = idle

unfoldable pub after_park : Bool → ℕ → Item → StreamRec → Reply → Dispatcher
after_park closing i it s parked = sleeping i it
after_park closing i it s cancelled = if s.terminated || closing then idle else failing i it
after_park closing i it s _ = idle

-- The call and where the dispatcher stands after it.
unfoldable pub try : CarrierConn → ℕ → Op → (StreamRec → Reply → Dispatcher) → CarrierConn
unfolding on_queue
try c i op after = record (update c i (on_queue op)) {
  dispatcher = elim (get_elem? c.all_streams i) [
    | none ↦ idle
    | some s ↦ after s ((step s.q c.counters op).2)
  ];
}

unfoldable pub fail : Callbacks → Bool → Bool → Change
unfolding terminate_stream
fail cb closing taken s k =
    if s.terminated
    then (s, k, [])
    else let r = terminate_stream cb closing true taken s k in
      (r.0, r.1, r.2 ++ when cb.on_stream_data_undeliverable (undeliverable s.id))

unfoldable pub fail_undeliverable_data : CarrierConn → ℕ → Bool → CarrierConn
unfolding fail
fail_undeliverable_data c i taken = record (update c i (fail c.callbacks c.closing taken)) {
  dispatcher = idle;
}

-- The channel that a sleeping dispatcher waits on is closed when no waiter is counted any more.
unfoldable pub try_wake : CarrierConn → ℕ → Item → CarrierConn
try_wake c i it = elim (get_elem? c.all_streams i) [
  | none ↦ c
  | some s ↦ if s.q.n_free_waiters == 0 then record c { dispatcher = parking i it } else c
]

unfoldable pub item_of : Frame → Item
item_of f =
    if f.typ == frame_close
    then record { payload = []; is_close = true }
    else record { payload = f.payload; is_close = false }

unfoldable pub announce : ℕ → Change
announce typ s k =
    if s.callback then (record s { callback = false }, k, new_stream s.id typ ∷ []) else (s, k, [])

abbrev pub is_over : Option StreamRec → Bool
is_over none = true
is_over (some s) = s.terminated

-- The first test of `deliver`: a frame of a stream that is over is dropped.
unfoldable pub begin_delivery : CarrierConn → ℕ → Item → CarrierConn
begin_delivery c i it = record c {
  dispatcher = if is_over (get_elem? c.all_streams i) then idle else pushing i it;
}

-- The lock is released before: whatever happens to the stream meanwhile, the call is made.
unfoldable pub announce_and_begin : CarrierConn → ℕ → Frame → CarrierConn
unfolding announce begin_delivery item_of
announce_and_begin c i f = begin_delivery (update c i (announce f.typ)) i (item_of f)

-- The dispatcher on its way with a frame or an item.
unfoldable pub deliver_step : CarrierConn → Dispatcher → Bool → CarrierConn
unfolding announce_and_begin try after_push after_carry after_park fail_undeliverable_data try_wake
deliver_step c unstarted taken = c
deliver_step c idle taken = c
deliver_step c returned taken = c
deliver_step c (announcing i f) taken = announce_and_begin c i f
deliver_step c (pushing i it) taken = try c i (push it) (after_push i it)
deliver_step c (carrying i it) taken = try c i (carry it) (after_carry i it)
deliver_step c (parking i it) taken = try c i (park it) (after_park c.closing i it)
deliver_step c (sleeping i it) taken = try_wake c i it
deliver_step c (failing i it) taken = fail_undeliverable_data c i taken

abbrev pub is_stream_frame : ℕ → Bool
is_stream_frame typ =
    typ == frame_data || (typ == frame_header || (typ == frame_rebind || typ == frame_close))

unfoldable pub route_known : CarrierConn → Frame → ℕ → CarrierConn
route_known c f i = record c { dispatcher = announcing i f }

-- `createStreamLocked` for a stream that is not registered gives no record for stream 0, and the
-- dispatcher would use it.
unfoldable pub route_new : CarrierConn → Frame → CarrierConn
unfolding opened
route_new c f =
    if f.stream_id == 0
    then record c { crashed = true }
    else route_known (opened c f.stream_id true) f (length c.all_streams)

unfoldable pub route : CarrierConn → Frame → CarrierConn
unfolding route_known route_new
route c f = elim (lookup f.stream_id c.streams) [
  | some i ↦ route_known c f i
  | none ↦ if c.callbacks.on_new_stream && not c.closing then route_new c f else c
]

abbrev pub notify : CarrierConn → List Notice → CarrierConn
notify c ns = record c { log = c.log ++ ns }

unfoldable pub reset_notices : Bool → ℕ → Result (ℕ × ℕ) → List Notice
reset_notices set id (ok (reason, gen)) = when set (stream_reset id reason gen)
reset_notices set id (err e) = []

unfoldable pub ack_notices : Bool → ℕ → Result ℕ → List Notice
ack_notices set id (ok status) = when set (bootstrap_ack id status)
ack_notices set id (err e) = []

-- The payload that a failed decoding leaves.
unfoldable pub decoded : Result CreditPayload → CreditPayload
decoded (ok p) = p
decoded (err e) = record {
  version = 0;
  flags = 0;
  gen = 0;
  bytes_consumed = 0;
  window_granted = 0;
  reserved = replicate 10 0;
}

unfoldable pub on_credit_frame : CarrierConn → ℕ → CreditPayload → Bool → CarrierConn
unfolding terminate_stream
on_credit_frame c id p taken = elim (validate_credit_payload p) [
  | none ↦ notify c (when c.callbacks.on_stream_credit (credited id p))
  | some rule ↦ elim (lookup id c.streams) [
    | none ↦ c
    | some i ↦ update c i (terminate_stream c.callbacks c.closing false taken)
  ]
]

unfoldable pub dispatch_frame : CarrierConn → Frame → Bool → CarrierConn
unfolding route reset_notices ack_notices on_credit_frame decoded
dispatch_frame c f taken =
    if is_stream_frame f.typ
    then route c f
    else if f.typ == frame_reset
    then notify c
        (reset_notices c.callbacks.on_stream_reset f.stream_id (parse_reset_payload f.payload))
    else if f.typ == frame_bootstrap_ack
    then notify c (
        ack_notices c.callbacks.on_stream_bootstrap_ack f.stream_id
          (parse_bootstrap_ack_payload f.payload))
    else if f.typ == frame_ping
    then notify c (when (not c.closing) (control 0 frame_pong))
    else if f.typ == frame_pong
    then record c { saw_pong = true }
    else if f.typ == frame_credit
    then on_credit_frame c f.stream_id (decoded (decode_credit_payload f.payload)) taken
    else c

-- The next frame of the channel.
unfoldable pub dispatch_next : CarrierConn → List Frame → Bool → CarrierConn
unfolding dispatch_frame
dispatch_next c [] taken = c
dispatch_next c (f ∷ rest) taken = dispatch_frame (record c { frames = rest }) f taken

unfoldable pub dispatch : CarrierConn → Dispatcher → Bool → CarrierConn
unfolding dispatch_next deliver_step
dispatch c idle taken = dispatch_next c c.frames taken
dispatch c d taken = deliver_step c d taken
