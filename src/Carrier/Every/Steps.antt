-- ===== src/Carrier/Every/Steps.antt =====
-- pkg/mux/carrier.go: the steps of a carrier, one by one, keep what every change of a record keeps.
use iran_germany_split_tunne.Common.{
  ℕ, ◌≡◌, refl, Bool, true, false, not, ◌&&◌, Option, none, some, List, [], ◌∷◌, ◌==◌, if_intro,
  option_intro, get_elem?, length, ltb, arith,
}
use iran_germany_split_tunne.Common.Assoc.{lookup, nat_eq}
use iran_germany_split_tunne.Frame.{Frame}
use iran_germany_split_tunne.Frame.Credit.{
  CreditPayload, decode_credit_payload, validate_credit_payload,
}
use iran_germany_split_tunne.Mailbox.{Item, Counters, push, carry, park, close_queue}
use iran_germany_split_tunne.Carrier.{
  StreamLimits, StreamRec, Dispatcher, unstarted, idle, returned, announcing, pushing, carrying,
  parking, sleeping, failing, CarrierConn, ReadError, terminate_stream, create_stream_locked,
  opened,
}
use iran_germany_split_tunne.Carrier.Limits.{set_stream_limits, sanitize_limits}
use iran_germany_split_tunne.Carrier.ReadLoop.{
  check_frame, is_known, frames_capacity, read, enqueue, read_fails,
}
use iran_germany_split_tunne.Carrier.Dispatch.{
  on_queue, try, fail, fail_undeliverable_data, try_wake, deliver_step, route_known, route_new,
  announce, begin_delivery, announce_and_begin, route, on_credit_frame, dispatch_frame,
  dispatch_next, dispatch, decoded,
}
use iran_germany_split_tunne.Carrier.Run.{
  work, consume, register, deregister, track, terminate, finish_terminate, start_dispatch,
  end_dispatch, may_pass_wait, wait_streams, close_streams, close_mailbox, Event, read_frame,
  read_failure, dispatch_step, dispatch_start, dispatch_end, work_step, consume_step, register_call,
  deregister_call, terminate_call, close_mailbox_step, terminate_end, set_limits, close_begin,
  close_wait, close_end, next,
}
use iran_germany_split_tunne.Carrier.Every.{
  IsKept, announce_change, consume_change, end_change, fail_change, queue_change, work_change,
}

module _ (R : List StreamRec → Counters → Type 0) (kept : IsKept R) where
  abbrev Of : CarrierConn → Type 0
  Of c = R c.all_streams c.counters

  create-Of : (c : CarrierConn) (id : ℕ) → Of c → Of (create_stream_locked c id false).0
  unfolding create_stream_locked opened
  create-Of c id h =
      if_intro (λ (r : CarrierConn × Option ℕ). Of r.0) (id == 0) (λ z. h)
        (λ nz.
          option_intro (λ (r : CarrierConn × Option ℕ). Of r.0) (lookup id c.streams)
            (λ unknown. kept.created c.all_streams c.counters c.limits id false h) (λ i known. h))

  set_stream_limits-Of : (c : CarrierConn) (l : StreamLimits) → Of c → Of (set_stream_limits c l).0
  unfolding set_stream_limits
  set_stream_limits-Of c l h =
      if_intro (λ (r : CarrierConn × Bool). Of r.0) (sanitize_limits l).1
        (λ fine. kept.resyncs c.all_streams c.counters (sanitize_limits l).0 h) (λ bad. h)

  route_new-Of : (c : CarrierConn) (f : Frame) → Of c → Of (route_new c f)
  unfolding route_new route_known opened
  route_new-Of c f h =
      if_intro Of (f.stream_id == 0) (λ z. h)
        (λ nz. kept.created c.all_streams c.counters c.limits f.stream_id true h)

  route-Of : (c : CarrierConn) (f : Frame) → Of c → Of (route c f)
  unfolding route route_known
  route-Of c f h =
      option_intro Of (lookup f.stream_id c.streams)
        (λ unknown.
          if_intro Of (c.callbacks.on_new_stream && not c.closing) (λ new. route_new-Of c f h)
            (λ dropped. h))
        (λ i known. h)

  try_wake-Of : (c : CarrierConn) (i : ℕ) (it : Item) → Of c → Of (try_wake c i it)
  unfolding try_wake
  try_wake-Of c i it h =
      option_intro Of (get_elem? c.all_streams i) (λ e. h)
        (λ s e. if_intro Of (s.q.n_free_waiters == 0) (λ woken. h) (λ waits. h))

  deliver_step-Of :
      (c : CarrierConn) (d : Dispatcher) (taken : Bool) → Of c → Of (deliver_step c d taken)
  unfolding deliver_step announce_and_begin begin_delivery try fail_undeliverable_data
  deliver_step-Of c unstarted taken h = h
  deliver_step-Of c idle taken h = h
  deliver_step-Of c returned taken h = h
  deliver_step-Of c (announcing i f) taken h =
      kept.changes c i (announce f.typ) (announce_change f.typ) h
  deliver_step-Of c (pushing i it) taken h =
      kept.changes c i (on_queue (push it)) (queue_change (push it)) h
  deliver_step-Of c (carrying i it) taken h =
      kept.changes c i (on_queue (carry it)) (queue_change (carry it)) h
  deliver_step-Of c (parking i it) taken h =
      kept.changes c i (on_queue (park it)) (queue_change (park it)) h
  deliver_step-Of c (sleeping i it) taken h = try_wake-Of c i it h
  deliver_step-Of c (failing i it) taken h =
      kept.changes c i (fail c.callbacks c.closing taken) (fail_change c.callbacks c.closing taken)
        h

  on_credit_frame-Of :
      (c : CarrierConn) (id : ℕ) (p : CreditPayload) (taken : Bool)
      → Of c
      → Of (on_credit_frame c id p taken)
  unfolding on_credit_frame
  on_credit_frame-Of c id p taken h =
      option_intro Of (validate_credit_payload p) (λ fine. h)
        (λ rule bad.
          option_intro Of (lookup id c.streams) (λ unknown. h)
            (λ i known.
              kept.changes c i (terminate_stream c.callbacks c.closing false taken)
                (end_change c.callbacks c.closing false taken) h))

  dispatch_frame-Of :
      (c : CarrierConn) (f : Frame) (taken : Bool) → Of c → Of (dispatch_frame c f taken)
  unfolding dispatch_frame
  dispatch_frame-Of c f taken h = ground (
    arith,
    route-Of c f h,
    on_credit_frame-Of c f.stream_id (decoded (decode_credit_payload f.payload)) taken h,
  )

  dispatch_next-Of :
      (c : CarrierConn) (fs : List Frame) (taken : Bool) → Of c → Of (dispatch_next c fs taken)
  unfolding dispatch_next
  dispatch_next-Of c [] taken h = h
  dispatch_next-Of c (f ∷ rest) taken h = dispatch_frame-Of (record c { frames = rest }) f taken h

  dispatch-Of : (c : CarrierConn) (d : Dispatcher) (taken : Bool) → Of c → Of (dispatch c d taken)
  unfolding dispatch
  dispatch-Of c idle taken h = dispatch_next-Of c c.frames taken h
  dispatch-Of c unstarted taken h = deliver_step-Of c unstarted taken h
  dispatch-Of c returned taken h = deliver_step-Of c returned taken h
  dispatch-Of c (announcing i f) taken h = deliver_step-Of c (announcing i f) taken h
  dispatch-Of c (pushing i it) taken h = deliver_step-Of c (pushing i it) taken h
  dispatch-Of c (carrying i it) taken h = deliver_step-Of c (carrying i it) taken h
  dispatch-Of c (parking i it) taken h = deliver_step-Of c (parking i it) taken h
  dispatch-Of c (sleeping i it) taken h = deliver_step-Of c (sleeping i it) taken h
  dispatch-Of c (failing i it) taken h = deliver_step-Of c (failing i it) taken h

  track-Of : (r : CarrierConn × Option ℕ) → Of r.0 → Of (track r)
  unfolding track
  track-Of (c, none) h = h
  track-Of (c, some i) h = h

  read-Of : (c : CarrierConn) (f : Frame) (o : Option ReadError) → Of c → Of (enqueue c f o)
  unfolding enqueue
  read-Of c f none h = h
  read-Of c f (some e) h = h

  start_dispatch-Of : (c : CarrierConn) (d : Dispatcher) → Of c → Of (start_dispatch c d)
  unfolding start_dispatch
  start_dispatch-Of c d h = ground arith

  end_dispatch-Of :
      (c : CarrierConn) (d : Dispatcher) (fs : List Frame) (e : Option ReadError)
      → Of c
      → Of (end_dispatch c d fs e)
  unfolding end_dispatch
  end_dispatch-Of c d fs e h = ground arith

  -- Every event but the end of Close, which is left to the property.
  pub next-Of :
      (c : CarrierConn) (e : Event) → (e ≡ close_end → Of (close_streams c)) → Of c → Of (next c e)
  unfolding next
  next-Of c (read_frame f) shut h =
      unfold read in
      option_intro Of c.read_err
        (λ more.
          if_intro Of (ltb (length c.frames) frames_capacity)
            (λ room. read-Of c f (check_frame (is_known (lookup f.stream_id c.streams)) f) h)
            (λ full. h))
        (λ e ended. h)
  next-Of c read_failure shut h =
      unfold read_fails in option_intro Of c.read_err (λ more. h) (λ e ended. h)
  next-Of c (dispatch_step taken) shut h = dispatch-Of c c.dispatcher taken h
  next-Of c dispatch_start shut h = start_dispatch-Of c c.dispatcher h
  next-Of c dispatch_end shut h = end_dispatch-Of c c.dispatcher c.frames c.read_err h
  next-Of c (work_step i outcome taken) shut h =
      kept.changes c i (work c.callbacks c.closing outcome taken)
        (work_change c.callbacks c.closing outcome taken) h
  next-Of c (consume_step i) shut h = kept.changes c i consume consume_change h
  next-Of c (register_call id) shut h =
      unfold register in if_intro Of c.closing (λ t. h) (λ t. create-Of c id h)
  next-Of c (deregister_call id) shut h = unfold deregister in h
  next-Of c (terminate_call id) shut h =
      unfold terminate in
      if_intro Of c.closing (λ t. h)
        (λ t. track-Of (create_stream_locked c id false) (create-Of c id h))
  next-Of c (terminate_end n taken) shut h =
      unfold finish_terminate in
      option_intro Of (get_elem? c.in_flight n) (λ t. h)
        (λ i t.
          kept.changes c i (terminate_stream c.callbacks c.closing true taken)
            (end_change c.callbacks c.closing true taken) h)
  next-Of c (set_limits l) shut h = set_stream_limits-Of c l h
  next-Of c close_begin shut h = h
  next-Of c (close_mailbox_step i) shut h =
      unfold close_mailbox in
      if_intro Of c.closing
        (λ t. kept.changes c i (on_queue close_queue) (queue_change close_queue) h) (λ t. h)
  next-Of c close_wait shut h =
      unfold wait_streams in if_intro Of (may_pass_wait c) (λ t. h) (λ t. h)
  next-Of c close_end shut h = shut refl
