-- ===== src/Carrier/Safe/Shut.antt =====
-- pkg/mux/carrier.go: which steps of a carrier bring its Close on.
use iran_germany_split_tunne.Common.{
  ℕ, ◌≡◌, ◌≢◌, refl, Bool, false, Option, none, some, List, [], ◌∷◌, arith,
}
use iran_germany_split_tunne.Common.Assoc.{nat_eq}
use iran_germany_split_tunne.Frame.{Frame}
use iran_germany_split_tunne.Carrier.{Dispatcher, CarrierConn, create_stream_locked, opened}
use iran_germany_split_tunne.Carrier.Limits.{set_stream_limits}
use iran_germany_split_tunne.Carrier.ReadLoop.{read, enqueue, read_fails}
use iran_germany_split_tunne.Carrier.Dispatch.{
  try, fail_undeliverable_data, try_wake, deliver_step, route_known, route_new, begin_delivery,
  announce_and_begin, route, on_credit_frame, dispatch_frame, dispatch_next, dispatch,
}
use iran_germany_split_tunne.Carrier.Run.{
  register, deregister, track, terminate, finish_terminate, start_dispatch, end_dispatch,
  close_mailbox, Event, read_frame, read_failure, dispatch_step, dispatch_end, work_step,
  consume_step, register_call, deregister_call, terminate_call, close_mailbox_step, terminate_end,
  set_limits, close_begin, dispatch_start, close_wait, close_end, next,
}

-- No step but those of Close itself changes how far it is.
route_stage : (c : CarrierConn) (f : Frame) → (route c f).stage ≡ c.stage
unfolding route route_new route_known opened
route_stage c f = ground arith

dispatch_frame_stage :
    (c : CarrierConn) (f : Frame) (taken : Bool) → (dispatch_frame c f taken).stage ≡ c.stage
unfolding dispatch_frame on_credit_frame
dispatch_frame_stage c f taken = ground (arith, route_stage c f)

deliver_step_stage :
    (c : CarrierConn) (d : Dispatcher) (taken : Bool) → (deliver_step c d taken).stage ≡ c.stage
unfolding deliver_step announce_and_begin begin_delivery try fail_undeliverable_data try_wake
deliver_step_stage c d taken = ground arith

dispatch_next_stage :
    (c : CarrierConn) (fs : List Frame) (taken : Bool) → (dispatch_next c fs taken).stage ≡ c.stage
unfolding dispatch_next
dispatch_next_stage c [] taken = refl
dispatch_next_stage c (f ∷ rest) taken = dispatch_frame_stage (record c { frames = rest }) f taken

dispatch_stage :
    (c : CarrierConn) (d : Dispatcher) (taken : Bool) → (dispatch c d taken).stage ≡ c.stage
unfolding dispatch
dispatch_stage c d taken =
    ground (arith, dispatch_next_stage c c.frames taken, deliver_step_stage c d taken)

track_stage : (r : CarrierConn × Option ℕ) → (track r).stage ≡ r.0.stage
unfolding track
track_stage (c, none) = refl
track_stage (c, some i) = refl

create_stage :
    (c : CarrierConn) (id : ℕ) (callback : Bool)
    → (create_stream_locked c id callback).0.stage ≡ c.stage
unfolding create_stream_locked opened
create_stage c id callback = ground arith

calls_stage :
    (c : CarrierConn) (id : ℕ)
    → ((register c id).stage ≡ c.stage) × ((terminate c id).stage ≡ c.stage)
unfolding register terminate
calls_stage c id =
    ground (arith, create_stage c id false, track_stage (create_stream_locked c id false))

pub next_stage :
    (c : CarrierConn) (e : Event) → e ≢ close_wait → e ≢ close_end → (next c e).stage ≡ c.stage
unfolding next
next_stage c (read_frame f) w h = unfold read enqueue in ground arith
next_stage c read_failure w h = unfold read_fails in ground arith
next_stage c (dispatch_step taken) w h = dispatch_stage c c.dispatcher taken
next_stage c dispatch_start w h = unfold start_dispatch in ground arith
next_stage c dispatch_end w h = unfold end_dispatch in ground arith
next_stage c (work_step i outcome taken) w h = refl
next_stage c (consume_step i) w h = refl
next_stage c (register_call id) w h = (calls_stage c id).0
next_stage c (deregister_call id) w h = unfold deregister in refl
next_stage c (terminate_call id) w h = (calls_stage c id).1
next_stage c (terminate_end n taken) w h = unfold finish_terminate in ground arith
next_stage c (set_limits l) w h = unfold set_stream_limits in ground arith
next_stage c close_begin w h = refl
next_stage c (close_mailbox_step i) w h = unfold close_mailbox in ground arith
next_stage c close_wait w h = absurd (w refl)
next_stage c close_end w h = absurd (h refl)
