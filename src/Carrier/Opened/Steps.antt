-- ===== src/Carrier/Opened/Steps.antt =====
-- pkg/mux/carrier.go: the steps of a carrier, one by one, and the calls of OnNewStream.
use iran_germany_split_tunne.Common.{
  ℕ, ◌+◌, ◌≡◌, ◌≢◌, refl, ap, Bool, true, false, not, ◌&&◌, ◌==◌, if◌then◌else◌, if_intro,
  option_intro, Option, none, some, List, [], ◌∷◌, ◌++◌, length, get_elem?, arith,
}
use iran_germany_split_tunne.Common.Assoc.{lookup, lookup-insert, lookup-delete, nat_eq}
use iran_germany_split_tunne.Frame.{
  Frame, Result, ok, err, frame_reset, frame_bootstrap_ack, frame_credit,
}
use iran_germany_split_tunne.Frame.Credit.{CreditPayload, validate_credit_payload}
use iran_germany_split_tunne.Mailbox.{Op, push, carry, park, close_queue}
use iran_germany_split_tunne.Carrier.{
  StreamLimits, StreamRec, Dispatcher, unstarted, idle, returned, announcing, pushing, carrying,
  parking, sleeping, failing, CarrierConn, Change, Callbacks, Notice, new_stream, applied, credited,
  control, update, when, terminate_stream, new_stream_rec, opened, create_stream_locked, frame_ping,
  frame_pong,
}
use iran_germany_split_tunne.Carrier.Limits.{set_stream_limits, sanitize_limits}
use iran_germany_split_tunne.Carrier.ReadLoop.{read, enqueue, read_fails}
use iran_germany_split_tunne.Carrier.Dispatch.{
  on_queue, try, fail, fail_undeliverable_data, try_wake, deliver_step, route_known, route_new,
  announce, begin_delivery, announce_and_begin, route, on_credit_frame, dispatch_frame,
  dispatch_next, dispatch, reset_notices, ack_notices, is_stream_frame,
}
use iran_germany_split_tunne.Carrier.Run.{
  Outcome, work, work_from, hand_over, stall, consume, register, deregister, track, terminate,
  finish_terminate, end_dispatch, start_dispatch, wait_streams, dispatch_start, close_wait,
  close_streams, shut_channels, may_close_channels, close_mailbox, Event, read_frame, read_failure,
  dispatch_step, dispatch_end, work_step, consume_step, register_call, deregister_call,
  terminate_call, close_mailbox_step, terminate_end, set_limits, close_begin, close_end, next,
}
use iran_germany_split_tunne.Carrier.Opened.{
  Bounded, Pays, may_open, openings, openings-append, due, due_at, due-set, due-append, due-resync,
  due-close_channels,
}

module _ (id : ℕ) where
  pub terminate_stream-Pays :
      (cb : Callbacks) (closing signal taken : Bool)
      → Pays id (terminate_stream cb closing signal taken)
  unfolding Pays due_at terminate_stream openings
  terminate_stream-Pays cb closing signal taken s k = ground arith

  pub fail-Pays : (cb : Callbacks) (closing taken : Bool) → Pays id (fail cb closing taken)
  unfolding Pays due_at fail terminate_stream openings
  fail-Pays cb closing taken s k = ground arith

  pub announce-Pays : (typ : ℕ) → Pays id (announce typ)
  unfolding Pays due_at announce openings
  announce-Pays typ s k = ground arith

  pub on_queue-Pays : (op : Op) → Pays id (on_queue op)
  unfolding Pays due_at on_queue openings
  on_queue-Pays op s k = omega arith

  pub consume-Pays : Pays id consume
  unfolding Pays due_at consume openings
  consume-Pays s k = omega arith

  pub work-Pays :
      (cb : Callbacks) (closing : Bool) (outcome : Outcome) (taken : Bool)
      → Pays id (work cb closing outcome taken)
  unfolding Pays due_at work work_from hand_over stall terminate_stream openings
  work-Pays cb closing outcome taken s k = ground arith

  Bounded-refl : (c : CarrierConn) → Bounded id c c
  unfolding Bounded
  Bounded-refl c = omega arith

  opening_lem : (j typ : ℕ) → openings id (new_stream j typ ∷ []) ≡ (if j == id then 1 else 0)
  unfolding openings
  opening_lem j typ = omega arith

  -- What is opened is taken off what was due.
  pub update-settled :
      (c : CarrierConn) (i : ℕ) (f : Change)
      → Pays id f
      → openings id (update c i f).log + due id (update c i f).all_streams
        ≡ openings id c.log + due id c.all_streams
  unfolding Pays
  update-settled c i f pays = omega (
    arith,
    openings-append id c.log (applied c.all_streams c.counters i f here).2,
    settled here refl,
  )
    where
      here : Option StreamRec
      here = get_elem? c.all_streams i

      settled :
          (o : Option StreamRec)
          → get_elem? c.all_streams i ≡ o
          → openings id (applied c.all_streams c.counters i f o).2
              + due id (applied c.all_streams c.counters i f o).0
            ≡ due id c.all_streams
      settled none e = unfold openings in omega arith
      settled (some s) e =
          omega (arith, pays s c.counters, due-set id c.all_streams i (f s c.counters).0 e)

  update-Bounded : (c : CarrierConn) (i : ℕ) (f : Change) → Pays id f → Bounded id c (update c i f)
  unfolding Bounded may_open
  update-Bounded c i f pays = omega (arith, update-settled c i f pays)

  pub due-created :
      (ss : List StreamRec) (l : StreamLimits) (j : ℕ) (callback : Bool)
      → due id (ss ++ (new_stream_rec l j callback ∷ []))
        ≡ due id ss + (if callback then (if j == id then 1 else 0) else 0)
  unfolding new_stream_rec due due_at
  due-created ss l j callback = omega (arith, due-append id ss (new_stream_rec l j callback ∷ []))

  route_new-Bounded :
      (c : CarrierConn) (f : Frame)
      → c.closing ≡ false
      → lookup f.stream_id c.streams ≡ none
      → Bounded id c (route_new c f)
  unfolding route_new route_known opened Bounded may_open
  route_new-Bounded c f going unknown = ground (
    arith,
    due-created c.all_streams c.limits f.stream_id true,
    lookup-insert f.stream_id id (length c.all_streams) c.streams,
  )

  route-Bounded : (c : CarrierConn) (f : Frame) → Bounded id c (route c f)
  unfolding route
  route-Bounded c f =
      option_intro (Bounded id c) (lookup f.stream_id c.streams)
        (λ unknown.
          if_intro (Bounded id c) (c.callbacks.on_new_stream && not c.closing)
            (λ new. route_new-Bounded c f (ground arith) unknown) (λ dropped. Bounded-refl c))
        (λ i known. unfold route_known Bounded may_open in omega arith)

  notify-Bounded :
      (c : CarrierConn) (ns : List Notice)
      → openings id ns ≡ 0
      → Bounded id c (record c { log = c.log ++ ns })
  unfolding Bounded may_open
  notify-Bounded c ns h = omega (arith, openings-append id c.log ns)

  reset-silent : (b : Bool) (j : ℕ) (r : Result (ℕ × ℕ)) → openings id (reset_notices b j r) ≡ 0
  unfolding reset_notices openings
  reset-silent b j (ok (reason, gen)) = ground arith
  reset-silent b j (err e) = refl

  ack-silent : (b : Bool) (j : ℕ) (r : Result ℕ) → openings id (ack_notices b j r) ≡ 0
  unfolding ack_notices openings
  ack-silent b j (ok status) = ground arith
  ack-silent b j (err e) = refl

  credit-silent : (b : Bool) (j : ℕ) (p : CreditPayload) → openings id (when b (credited j p)) ≡ 0
  unfolding openings
  credit-silent b j p = ground arith

  pong-silent : (b : Bool) → openings id (when b (control 0 frame_pong)) ≡ 0
  unfolding openings
  pong-silent b = ground arith

  on_credit_frame-Bounded :
      (c : CarrierConn) (j : ℕ) (p : CreditPayload) (taken : Bool)
      → Bounded id c (on_credit_frame c j p taken)
  unfolding on_credit_frame
  on_credit_frame-Bounded c j p taken =
      option_intro (Bounded id c) (validate_credit_payload p)
        (λ fine. notify-Bounded c _ (credit-silent c.callbacks.on_stream_credit j p))
        (λ rule bad.
          option_intro (Bounded id c) (lookup j c.streams) (λ unknown. Bounded-refl c)
            (λ i known.
              update-Bounded c i (terminate_stream c.callbacks c.closing false taken)
                (terminate_stream-Pays c.callbacks c.closing false taken)))

  dispatch_frame-Bounded :
      (c : CarrierConn) (f : Frame) (taken : Bool) → Bounded id c (dispatch_frame c f taken)
  unfolding dispatch_frame
  dispatch_frame-Bounded c f taken =
      if_intro (Bounded id c) (is_stream_frame f.typ) (λ h. route-Bounded c f)
        (λ h.
          if_intro (Bounded id c) (f.typ == frame_reset)
            (λ h. notify-Bounded c _ (reset-silent c.callbacks.on_stream_reset f.stream_id _))
            (λ h.
              if_intro (Bounded id c) (f.typ == frame_bootstrap_ack)
                (λ h.
                  notify-Bounded c _ (ack-silent c.callbacks.on_stream_bootstrap_ack f.stream_id _))
                (λ h.
                  if_intro (Bounded id c) (f.typ == frame_ping)
                    (λ h. notify-Bounded c _ (pong-silent (not c.closing)))
                    (λ h.
                      if_intro (Bounded id c) (f.typ == frame_pong)
                        (λ h. unfold Bounded may_open in omega arith)
                        (λ h.
                          if_intro (Bounded id c) (f.typ == frame_credit)
                            (λ h. on_credit_frame-Bounded c f.stream_id _ taken)
                            (λ h. Bounded-refl c))))))

  dispatch_next-Bounded :
      (c : CarrierConn) (fs : List Frame) (taken : Bool) → Bounded id c (dispatch_next c fs taken)
  unfolding dispatch_next Bounded may_open
  dispatch_next-Bounded c [] taken = omega arith
  dispatch_next-Bounded c (f ∷ rest) taken =
      dispatch_frame-Bounded (record c { frames = rest }) f taken

  deliver_step-Bounded :
      (c : CarrierConn) (d : Dispatcher) (taken : Bool) → Bounded id c (deliver_step c d taken)
  unfolding deliver_step announce_and_begin begin_delivery try fail_undeliverable_data try_wake
      Bounded may_open
  deliver_step-Bounded c unstarted taken = omega arith
  deliver_step-Bounded c (announcing i f) taken =
      update-Bounded c i (announce f.typ) (announce-Pays f.typ)
  deliver_step-Bounded c idle taken = omega arith
  deliver_step-Bounded c returned taken = omega arith
  deliver_step-Bounded c (pushing i it) taken =
      update-Bounded c i (on_queue (push it)) (on_queue-Pays (push it))
  deliver_step-Bounded c (carrying i it) taken =
      update-Bounded c i (on_queue (carry it)) (on_queue-Pays (carry it))
  deliver_step-Bounded c (parking i it) taken =
      update-Bounded c i (on_queue (park it)) (on_queue-Pays (park it))
  deliver_step-Bounded c (sleeping i it) taken = ground arith
  deliver_step-Bounded c (failing i it) taken =
      update-Bounded c i (fail c.callbacks c.closing taken) (fail-Pays c.callbacks c.closing taken)

  dispatch-Bounded :
      (c : CarrierConn) (d : Dispatcher) (taken : Bool) → Bounded id c (dispatch c d taken)
  unfolding dispatch
  dispatch-Bounded c idle taken = dispatch_next-Bounded c c.frames taken
  dispatch-Bounded c unstarted taken = deliver_step-Bounded c unstarted taken
  dispatch-Bounded c (announcing i f) taken = deliver_step-Bounded c (announcing i f) taken
  dispatch-Bounded c returned taken = deliver_step-Bounded c returned taken
  dispatch-Bounded c (pushing i it) taken = deliver_step-Bounded c (pushing i it) taken
  dispatch-Bounded c (carrying i it) taken = deliver_step-Bounded c (carrying i it) taken
  dispatch-Bounded c (parking i it) taken = deliver_step-Bounded c (parking i it) taken
  dispatch-Bounded c (sleeping i it) taken = deliver_step-Bounded c (sleeping i it) taken
  dispatch-Bounded c (failing i it) taken = deliver_step-Bounded c (failing i it) taken

  create-Bounded : (c : CarrierConn) (j : ℕ) → Bounded id c (create_stream_locked c j false).0
  unfolding create_stream_locked opened Bounded may_open
  create-Bounded c j = ground (
    arith,
    lookup-insert j id (length c.all_streams) c.streams,
    due-created c.all_streams c.limits j false,
  )

  track-Bounded :
      (c : CarrierConn) (r : CarrierConn × Option ℕ) → Bounded id c r.0 → Bounded id c (track r)
  unfolding track Bounded may_open
  track-Bounded c (d, none) h = h
  track-Bounded c (d, some i) h = h

  shut-Bounded : (c : CarrierConn) → Bounded id c (close_streams c)
  unfolding close_streams shut_channels may_close_channels Bounded may_open
  shut-Bounded c = ground (arith, due-close_channels id c.all_streams)

  deregister-Bounded : (c : CarrierConn) (j : ℕ) → j ≢ id → Bounded id c (deregister c j)
  unfolding deregister Bounded may_open
  deregister-Bounded c j h = ground (arith, lookup-delete j id c.streams)

  -- Every step but the deregistration of the stream.
  pub next-Bounded :
      (c : CarrierConn) (e : Event) → e ≢ deregister_call id → Bounded id c (next c e)
  unfolding next
  next-Bounded c (read_frame f) h = unfold read enqueue Bounded may_open in ground arith
  next-Bounded c read_failure h = unfold read_fails Bounded may_open in ground arith
  next-Bounded c (dispatch_step taken) h = dispatch-Bounded c c.dispatcher taken
  next-Bounded c dispatch_start h = unfold start_dispatch Bounded may_open in ground arith
  next-Bounded c dispatch_end h = unfold end_dispatch Bounded may_open in ground arith
  next-Bounded c (work_step i outcome taken) h =
      update-Bounded c i (work c.callbacks c.closing outcome taken)
        (work-Pays c.callbacks c.closing outcome taken)
  next-Bounded c (consume_step i) h = update-Bounded c i consume consume-Pays
  next-Bounded c (register_call j) h =
      unfold register in
      if_intro (Bounded id c) c.closing (λ t. Bounded-refl c) (λ t. create-Bounded c j)
  next-Bounded c (deregister_call j) h = deregister-Bounded c j (λ e. h (ap deregister_call e))
  next-Bounded c (terminate_call j) h =
      unfold terminate in
      if_intro (Bounded id c) c.closing (λ t. Bounded-refl c)
        (λ t. track-Bounded c _ (create-Bounded c j))
  next-Bounded c (terminate_end n taken) h =
      unfold finish_terminate in
      option_intro (Bounded id c) (get_elem? c.in_flight n) (λ t. Bounded-refl c)
        (λ i t.
          unfold Bounded may_open in
          update-Bounded c i (terminate_stream c.callbacks c.closing true taken)
            (terminate_stream-Pays c.callbacks c.closing true taken))
  next-Bounded c (set_limits l) h =
      unfold set_stream_limits Bounded may_open in
      ground (arith, due-resync id (sanitize_limits l).0 c.all_streams)
  next-Bounded c close_begin h = unfold Bounded may_open in ground arith
  next-Bounded c (close_mailbox_step i) h =
      unfold close_mailbox in
      if_intro (Bounded id c) c.closing
        (λ t. update-Bounded c i (on_queue close_queue) (on_queue-Pays close_queue))
        (λ t. Bounded-refl c)
  next-Bounded c close_wait h = unfold wait_streams Bounded may_open in ground arith
  next-Bounded c close_end h = shut-Bounded c
