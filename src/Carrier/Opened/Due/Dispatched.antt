-- ===== src/Carrier/Opened/Due/Dispatched.antt =====
-- pkg/mux/carrier.go: what the steps of the dispatcher leave due.
use iran_germany_split_tunne.Common.{
  ℕ, ◌+◌, ◌≤◌, ◌≡◌, ◌∙◌, ap, Bool, true, false, not, ◌&&◌, ◌==◌, if_intro, option_intro, List, [],
  ◌∷◌, ◌++◌, get_elem?, arith,
}
use iran_germany_split_tunne.Common.Assoc.{lookup, nat_eq}
use iran_germany_split_tunne.Frame.{Frame, frame_reset, frame_bootstrap_ack, frame_credit}
use iran_germany_split_tunne.Frame.Credit.{CreditPayload, validate_credit_payload}
use iran_germany_split_tunne.Mailbox.{Op, push, carry, park}
use iran_germany_split_tunne.Carrier.{
  StreamRec, Dispatcher, unstarted, idle, returned, announcing, pushing, carrying, parking,
  sleeping, failing, CarrierConn, Change, update, terminate_stream, new_stream_rec, opened,
  frame_ping, frame_pong,
}
use iran_germany_split_tunne.Carrier.Dispatch.{
  on_queue, try, fail, fail_undeliverable_data, try_wake, deliver_step, route_known, route_new,
  begin_delivery, announce_and_begin, route, on_credit_frame, dispatch_frame, dispatch_next,
  dispatch, is_stream_frame,
}
use iran_germany_split_tunne.Carrier.Every.{get_elem?-append_last}
use iran_germany_split_tunne.Carrier.Opened.{Pays, due, due-append, due_at}
use iran_germany_split_tunne.Carrier.Opened.Steps.{fail-Pays, on_queue-Pays, terminate_stream-Pays}
use iran_germany_split_tunne.Carrier.Opened.Due.{due_of, pending, IsDue, updated_le, announced}

module _ (id : ℕ) where
  -- What is due in a state of the carrier.
  unfoldable pub Settled : CarrierConn → Type 0
  Settled c = IsDue id c.dispatcher c.all_streams

  pub none_due : (c : CarrierConn) → due id c.all_streams ≡ 0 → Settled c
  unfolding Settled IsDue
  none_due c h = omega arith

  kept_none :
      (c : CarrierConn) (j : ℕ) (f : Change)
      → Pays id f
      → due id c.all_streams ≡ 0
      → due id (update c j f).all_streams ≡ 0
  kept_none c j f pays h = omega (arith, updated_le id c j f pays)

  route_new-Settled :
      (c : CarrierConn) (f : Frame) → due id c.all_streams ≡ 0 → Settled (route_new c f)
  unfolding route_new route_known opened
  route_new-Settled c f h =
      if_intro Settled (f.stream_id == 0) (λ z. none_due (record c { crashed = true }) h)
        (λ nz.
          let n : StreamRec = new_stream_rec c.limits f.stream_id true in
          let at_last = ap (due_of id) (get_elem?-append_last c.all_streams n) in
          let bit : due id (c.all_streams ++ (n ∷ [])) ≡ due id c.all_streams + due_at id n =
            due-append id c.all_streams (n ∷ []) ∙ unfold due in omega arith in
          unfold Settled IsDue pending due_of in omega (arith, at_last, bit))

  route-Settled : (c : CarrierConn) (f : Frame) → due id c.all_streams ≡ 0 → Settled (route c f)
  unfolding route route_known
  route-Settled c f h =
      option_intro Settled (lookup f.stream_id c.streams)
        (λ unknown.
          if_intro Settled (c.callbacks.on_new_stream && not c.closing)
            (λ new. route_new-Settled c f h) (λ dropped. none_due c h))
        (λ i known. none_due (record c { dispatcher = announcing i f }) h)

  on_credit_frame-Settled :
      (c : CarrierConn) (j : ℕ) (p : CreditPayload) (taken : Bool)
      → due id c.all_streams ≡ 0
      → Settled (on_credit_frame c j p taken)
  unfolding on_credit_frame
  on_credit_frame-Settled c j p taken h =
      option_intro Settled (validate_credit_payload p) (λ fine. none_due _ h)
        (λ rule bad.
          option_intro Settled (lookup j c.streams) (λ unknown. none_due c h)
            (λ i known. none_due (update c i (terminate_stream c.callbacks c.closing false taken)) (
              kept_none c i (terminate_stream c.callbacks c.closing false taken)
                (terminate_stream-Pays id c.callbacks c.closing false taken) h)))

  dispatch_frame-Settled :
      (c : CarrierConn) (f : Frame) (taken : Bool)
      → due id c.all_streams ≡ 0
      → Settled (dispatch_frame c f taken)
  unfolding dispatch_frame
  dispatch_frame-Settled c f taken h =
      if_intro Settled (is_stream_frame f.typ) (λ t. route-Settled c f h)
        (λ t.
          if_intro Settled (f.typ == frame_reset) (λ t. none_due _ h)
            (λ t.
              if_intro Settled (f.typ == frame_bootstrap_ack) (λ t. none_due _ h)
                (λ t.
                  if_intro Settled (f.typ == frame_ping) (λ t. none_due _ h)
                    (λ t.
                      if_intro Settled (f.typ == frame_pong) (λ t. none_due _ h)
                        (λ t.
                          if_intro Settled (f.typ == frame_credit)
                            (λ t. on_credit_frame-Settled c f.stream_id _ taken h)
                            (λ t. none_due c h))))))

  dispatch_next-Settled :
      (c : CarrierConn) (fs : List Frame) (taken : Bool)
      → due id c.all_streams ≡ 0
      → Settled (dispatch_next c fs taken)
  unfolding dispatch_next
  dispatch_next-Settled c [] taken h = none_due c h
  dispatch_next-Settled c (f ∷ rest) taken h =
      dispatch_frame-Settled (record c { frames = rest }) f taken h

  try-Settled :
      (c : CarrierConn) (i : ℕ) (op : Op) (d : Dispatcher)
      → due id c.all_streams ≡ 0
      → Settled (record (update c i (on_queue op)) { dispatcher = d })
  try-Settled c i op d h =
      none_due (record (update c i (on_queue op)) { dispatcher = d })
        (kept_none c i (on_queue op) (on_queue-Pays id op) h)

  pub nothing : (c : CarrierConn) → due id c.all_streams ≤ 0 → due id c.all_streams ≡ 0
  nothing c h = omega arith

  pub dispatch-Settled :
      (c : CarrierConn) (d : Dispatcher) (taken : Bool)
      → IsDue id d c.all_streams
      → Settled (dispatch c d taken)
  unfolding dispatch deliver_step announce_and_begin begin_delivery try fail_undeliverable_data
      try_wake IsDue pending
  dispatch-Settled c idle taken h = dispatch_next-Settled c c.frames taken (nothing c h)
  dispatch-Settled c unstarted taken h = none_due c (nothing c h)
  dispatch-Settled c returned taken h = none_due c (nothing c h)
  dispatch-Settled c (announcing i f) taken h = none_due _ (announced id c i f.typ f h)
  dispatch-Settled c (pushing i it) taken h = try-Settled c i (push it) _ (nothing c h)
  dispatch-Settled c (carrying i it) taken h = try-Settled c i (carry it) _ (nothing c h)
  dispatch-Settled c (parking i it) taken h = try-Settled c i (park it) _ (nothing c h)
  dispatch-Settled c (sleeping i it) taken h =
      option_intro Settled (get_elem? c.all_streams i) (λ e. none_due c (nothing c h))
        (λ s e.
          if_intro Settled (s.q.n_free_waiters == 0) (λ woken. none_due _ (nothing c h))
            (λ waits. none_due c (nothing c h)))
  dispatch-Settled c (failing i it) taken h = none_due _ (
      kept_none c i (fail c.callbacks c.closing taken) (fail-Pays id c.callbacks c.closing taken)
        (nothing c h))
