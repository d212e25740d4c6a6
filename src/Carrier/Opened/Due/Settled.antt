-- ===== src/Carrier/Opened/Due/Settled.antt =====
-- pkg/mux/carrier.go, Dispatch: a call of OnNewStream is due only while the dispatcher comes to it.
use iran_germany_split_tunne.Common.{
  ℕ, zero, suc, ◌≤◌, ◌≡◌, ◌∙◌, refl, ap, subst, Bool, true, false, ◌==◌, if_intro, option_intro,
  Option, none, some, List, [], ◌∷◌, ◌++◌, inl, inr, length, ltb, get_elem?, Option-cases, arith,
}
use iran_germany_split_tunne.Common.Assoc.{lookup, nat_eq}
use iran_germany_split_tunne.Frame.{Frame}
use iran_germany_split_tunne.Mailbox.{close_queue}
use iran_germany_split_tunne.Carrier.{
  StreamLimits, StreamRec, Dispatcher, unstarted, idle, returned, announcing, CarrierConn,
  ReadError, Change, Callbacks, update, terminate_stream, new_stream_rec, opened,
  create_stream_locked,
}
use iran_germany_split_tunne.Carrier.Limits.{set_stream_limits, sanitize_limits, resync_all, resync}
use iran_germany_split_tunne.Carrier.ReadLoop.{
  check_frame, is_known, frames_capacity, read, enqueue, read_fails,
}
use iran_germany_split_tunne.Carrier.Dispatch.{on_queue}
use iran_germany_split_tunne.Carrier.Run.{
  work, consume, register, deregister, track, terminate, finish_terminate, end_dispatch,
  start_dispatch, may_pass_wait, wait_streams, close_streams, shut_channels, may_close_channels,
  close_channels, close_mailbox, Event, read_frame, read_failure, dispatch_step, dispatch_start,
  dispatch_end, work_step, consume_step, register_call, deregister_call, terminate_call,
  close_mailbox_step, terminate_end, set_limits, close_begin, close_wait, close_end, next, run,
  new_carrier_conn,
}
use iran_germany_split_tunne.Carrier.Blocked.{get_elem?-append}
use iran_germany_split_tunne.Carrier.Opened.{Pays, due, due_at, due-resync, due-close_channels}
use iran_germany_split_tunne.Carrier.Opened.Steps.{
  consume-Pays, due-created, on_queue-Pays, terminate_stream-Pays, work-Pays,
}
use iran_germany_split_tunne.Carrier.Opened.Due.{due_of, pending, IsDue, updated-IsDue}
use iran_germany_split_tunne.Carrier.Opened.Due.Dispatched.{
  Settled, none_due, nothing, dispatch-Settled,
}

module _ (id : ℕ) where
  -- A list of records in which every old one is still due as it was.
  moved :
      (ss ts : List StreamRec) (d : Dispatcher)
      → due id ts ≡ due id ss
      → ((i : ℕ) (s : StreamRec)
          → get_elem? ss i ≡ some s
          → due_at id s ≤ due_of id (get_elem? ts i))
      → IsDue id d ss
      → IsDue id d ts
  unfolding IsDue pending
  moved ss ts (announcing i f) same each h = elim (Option-cases (get_elem? ss i)) [
    | inl absent ↦
        let before : due_of id (get_elem? ss i) ≡ 0 = ap (due_of id) absent in
        omega (arith, h, same)
    | inr (s, found) ↦
        let before : due_of id (get_elem? ss i) ≡ due_at id s = ap (due_of id) found in
        omega (arith, h, same, each i s found)
  ]
  moved ss ts d same each h = omega (arith, h, same)

  grown-IsDue :
      (c : CarrierConn) (l : StreamLimits) (j : ℕ) (d : Dispatcher)
      → IsDue id d c.all_streams
      → IsDue id d (c.all_streams ++ (new_stream_rec l j false ∷ []))
  grown-IsDue c l j d h =
      let n : StreamRec = new_stream_rec l j false in
      moved c.all_streams (c.all_streams ++ (n ∷ [])) d
        (due-created id c.all_streams l j false ∙ omega arith)
        (λ i s found.
          let there = ap (due_of id) (get_elem?-append c.all_streams (n ∷ []) i found) in
          unfold due_of in omega (arith, there))
        h

  resynced-due :
      (l : StreamLimits) (ss : List StreamRec) (i : ℕ) (s : StreamRec)
      → get_elem? ss i ≡ some s
      → due_at id s ≤ due_of id (get_elem? (resync_all l ss) i)
  unfolding resync_all resync due_of due_at
  resynced-due l [] i s e = cc
  resynced-due l (t ∷ ss) zero s e =
      let same : t ≡ s = cc in
      let bits : due_at id t ≡ due_at id s = ap (due_at id) same in omega (arith, bits)
  resynced-due l (t ∷ ss) (suc i) s e = resynced-due l ss i s e

  shut-due :
      (ss : List StreamRec) (i : ℕ) (s : StreamRec)
      → get_elem? ss i ≡ some s
      → due_at id s ≤ due_of id (get_elem? (close_channels ss) i)
  unfolding close_channels due_of due_at
  shut-due [] i s e = cc
  shut-due (t ∷ ss) zero s e =
      let same : t ≡ s = cc in
      let bits : due_at id t ≡ due_at id s = ap (due_at id) same in omega (arith, bits)
  shut-due (t ∷ ss) (suc i) s e = shut-due ss i s e

  create-Settled :
      (c : CarrierConn) (j : ℕ) → Settled id c → Settled id (create_stream_locked c j false).0
  unfolding create_stream_locked opened
  create-Settled c j h =
      if_intro (λ (r : CarrierConn × Option ℕ). Settled id r.0) (j == 0) (λ z. h)
        (λ nz.
          option_intro (λ (r : CarrierConn × Option ℕ). Settled id r.0) (lookup j c.streams)
            (λ unknown. unfold Settled in grown-IsDue c c.limits j c.dispatcher h) (λ i known. h))

  track-Settled : (r : CarrierConn × Option ℕ) → Settled id r.0 → Settled id (track r)
  unfolding track Settled
  track-Settled (c, none) h = h
  track-Settled (c, some i) h = h

  start-Settled :
      (c : CarrierConn) (d : Dispatcher)
      → c.dispatcher ≡ d
      → Settled id c
      → Settled id (start_dispatch c d)
  unfolding start_dispatch IsDue Settled pending
  start-Settled c unstarted e h =
      none_due id (record c { dispatcher = idle })
        (nothing id c (subst (λ d. IsDue id d c.all_streams) e h))
  start-Settled c d e h = h

  end-Settled :
      (c : CarrierConn) (d : Dispatcher) (fs : List Frame) (o : Option ReadError)
      → c.dispatcher ≡ d
      → Settled id c
      → Settled id (end_dispatch c d fs o)
  unfolding end_dispatch IsDue Settled pending
  end-Settled c idle [] (some x) e h =
      none_due id (record c { dispatcher = returned })
        (nothing id c (subst (λ d. IsDue id d c.all_streams) e h))
  end-Settled c d fs o e h = h

  change-Settled :
      (c : CarrierConn) (i : ℕ) (f : Change) → Pays id f → Settled id c → Settled id (update c i f)
  unfolding Settled
  change-Settled c i f pays h = updated-IsDue id c c.dispatcher i f pays h

  read-Settled :
      (c : CarrierConn) (f : Frame) (o : Option ReadError)
      → Settled id c
      → Settled id (enqueue c f o)
  unfolding enqueue Settled
  read-Settled c f none h = h
  read-Settled c f (some e) h = h

  next-Settled : (c : CarrierConn) (e : Event) → Settled id c → Settled id (next c e)
  unfolding next Settled
  next-Settled c (read_frame f) h =
      unfold read in
      option_intro (Settled id) c.read_err
        (λ more.
          if_intro (Settled id) (ltb (length c.frames) frames_capacity)
            (λ room. read-Settled c f (check_frame (is_known (lookup f.stream_id c.streams)) f) h)
            (λ full. h))
        (λ e ended. h)
  next-Settled c read_failure h =
      unfold read_fails in option_intro (Settled id) c.read_err (λ more. h) (λ e ended. h)
  next-Settled c (dispatch_step taken) h = dispatch-Settled id c c.dispatcher taken h
  next-Settled c dispatch_start h = start-Settled c c.dispatcher refl h
  next-Settled c dispatch_end h = end-Settled c c.dispatcher c.frames c.read_err refl h
  next-Settled c (work_step i outcome taken) h =
      change-Settled c i (work c.callbacks c.closing outcome taken)
        (work-Pays id c.callbacks c.closing outcome taken) h
  next-Settled c (consume_step i) h = change-Settled c i consume (consume-Pays id) h
  next-Settled c (register_call j) h =
      unfold register in if_intro (Settled id) c.closing (λ t. h) (λ t. create-Settled c j h)
  next-Settled c (deregister_call j) h = unfold deregister in h
  next-Settled c (terminate_call j) h =
      unfold terminate in
      if_intro (Settled id) c.closing (λ t. h) (λ t. track-Settled _ (create-Settled c j h))
  next-Settled c (terminate_end n taken) h =
      unfold finish_terminate in
      option_intro (Settled id) (get_elem? c.in_flight n) (λ t. h)
        (λ i t.
          change-Settled c i (terminate_stream c.callbacks c.closing true taken)
            (terminate_stream-Pays id c.callbacks c.closing true taken) h)
  next-Settled c (set_limits l) h =
      unfold set_stream_limits in
      if_intro (λ (r : CarrierConn × Bool). Settled id r.0) (sanitize_limits l).1
        (λ fine.
          let m : StreamLimits = (sanitize_limits l).0 in
          unfold Settled in
          moved c.all_streams (resync_all m c.all_streams) c.dispatcher
            (due-resync id m c.all_streams) (resynced-due m c.all_streams) h)
        (λ bad. h)
  next-Settled c close_begin h = h
  next-Settled c (close_mailbox_step i) h =
      unfold close_mailbox in
      if_intro (Settled id) c.closing
        (λ t. change-Settled c i (on_queue close_queue) (on_queue-Pays id close_queue) h) (λ t. h)
  next-Settled c close_wait h =
      unfold wait_streams in if_intro (Settled id) (may_pass_wait c) (λ t. h) (λ t. h)
  next-Settled c close_end h =
      unfold close_streams shut_channels in
      if_intro (Settled id) (may_close_channels c)
        (λ t.
          unfold Settled in
          moved c.all_streams (close_channels c.all_streams) c.dispatcher
            (due-close_channels id c.all_streams) (shut-due c.all_streams) h)
        (λ t. h)

  run-Settled : (c : CarrierConn) (es : List Event) → Settled id c → Settled id (run c es)
  unfolding run
  run-Settled c [] h = h
  run-Settled c (e ∷ es) h = run-Settled (next c e) es (next-Settled c e h)

-- In every state that a carrier reaches, no call of OnNewStream for a stream is due but the one that
-- the dispatcher comes to.
pub due-pending :
    (cb : Callbacks) (es : List Event) (id : ℕ)
    → let c = run (new_carrier_conn cb) es in
      due id c.all_streams ≤ pending id c.dispatcher c.all_streams
unfolding new_carrier_conn
due-pending cb es id =
    let start : due id (new_carrier_conn cb).all_streams ≡ 0 = unfold due in refl in
    unfold Settled IsDue in
    run-Settled id (new_carrier_conn cb) es (none_due id (new_carrier_conn cb) start)
