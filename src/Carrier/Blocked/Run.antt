-- ===== src/Carrier/Blocked/Run.antt =====
-- pkg/mux/carrier.go: the steps that a carrier takes while its dispatcher is parked.
use iran_germany_split_tunne.Common.{
  ℕ, ◌≡◌, ◌≢◌, ◌∙◌, refl, sym, ap, subst, Bool, true, false, ◌==◌, if◌then◌else◌, if_intro,
  option_intro, Option, none, some, List, [], ◌∷◌, ◌++◌, length, ltb, get_elem?, All, arith,
}
use iran_germany_split_tunne.Common.Assoc.{lookup, nat_eq}
use iran_germany_split_tunne.Frame.{Frame}
use iran_germany_split_tunne.Mailbox.{Item, Counters}
use iran_germany_split_tunne.Carrier.{
  StreamLimits, StreamRec, parking, sleeping, CarrierConn, ReadError, read_failed, Change, update,
  terminate_stream, opened, create_stream_locked,
}
use iran_germany_split_tunne.Carrier.Limits.{resync, sanitize_limits, set_stream_limits}
use iran_germany_split_tunne.Carrier.ReadLoop.{
  check_frame, is_known, frames_capacity, read, enqueue, read_fails,
}
use iran_germany_split_tunne.Carrier.Dispatch.{try_wake, deliver_step, dispatch}
use iran_germany_split_tunne.Carrier.Every.{All-append}
use iran_germany_split_tunne.Carrier.Run.{
  work, consume, register, deregister, track, terminate, finish_terminate, end_dispatch,
  start_dispatch, may_pass_wait, wait_streams, dispatch_start, close_wait, close_streams,
  may_close_channels, close_mailbox, Event, read_frame, read_failure, dispatch_step, dispatch_end,
  work_step, consume_step, register_call, deregister_call, terminate_call, close_mailbox_step,
  terminate_end, set_limits, close_begin, close_end, next, run,
}
use iran_germany_split_tunne.Carrier.Blocked.{
  IsDrained, IsStuck, Spares, consume-IsDrained, end_ne, false_ne_true, get_elem?-append, index-lt,
  kept_entry, ne_at, old_entry, parked_ne, remove_at-All, resync_all-at, resync-IsDrained,
  updated-IsDrained, work-IsDrained,
}

module _ (c : CarrierConn) (i id : ℕ) (it : Item) (stuck : IsStuck c i id it) where
  same-IsStuck : IsStuck c i id it
  same-IsStuck = stuck

  changed :
      (n : ℕ) (f : Change)
      → (n ≡ i → (s : StreamRec) (k : Counters) → IsDrained s → IsDrained (f s k).0)
      → IsStuck (update c n f) i id it
  changed n f keep = record {
    asleep = stuck.asleep;
    going = stuck.going;
    drained = updated-IsDrained c i n f keep stuck.drained;
    only = stuck.only;
    unflown = stuck.unflown;
  }

  -- The dispatcher's own steps.
  dispatch-IsStuck : (taken : Bool) → IsStuck (dispatch c c.dispatcher taken) i id it
  unfolding dispatch deliver_step try_wake
  dispatch-IsStuck taken =
      let (s, here, d) = stuck.drained in
      subst (λ d. IsStuck (dispatch c d taken) i id it) (sym stuck.asleep)
        (subst
          (λ o.
            IsStuck
              (elim o [
                | none ↦ c
                | some s ↦
                    if s.q.n_free_waiters == 0 then record c { dispatcher = parking i it } else c
              ])
              i id it)
          (sym here)
          (if_intro (λ c'. IsStuck c' i id it) (s.q.n_free_waiters == 0)
            (λ woken. absurd (parked_ne s d woken)) (λ waits. stuck)))

  opened-IsStuck : (j : ℕ) → IsStuck (opened c j false) i id it
  unfolding opened
  opened-IsStuck j =
      let (s, here, d) = stuck.drained in
      record {
        asleep = stuck.asleep;
        going = stuck.going;
        drained = (s, get_elem?-append c.all_streams _ i here, d);
        only = λ k e. stuck.only k (old_entry c j k i (index-lt c.all_streams i here) e);
        unflown = stuck.unflown;
      }

  create-IsStuck : (j : ℕ) → IsStuck (create_stream_locked c j false).0 i id it
  unfolding create_stream_locked
  create-IsStuck j =
      if_intro (λ (r : CarrierConn × Option ℕ). IsStuck r.0 i id it) (j == 0) (λ z. stuck)
        (λ nz.
          option_intro (λ (r : CarrierConn × Option ℕ). IsStuck r.0 i id it) (lookup j c.streams)
            (λ unknown. opened-IsStuck j) (λ n known. stuck))

  fly :
      (c' : CarrierConn) (n : ℕ)
      → IsStuck c' i id it
      → n ≢ i
      → IsStuck (record c' { in_flight = c'.in_flight ++ (n ∷ []) }) i id it
  fly c' n h ne = record {
    asleep = h.asleep;
    going = h.going;
    drained = h.drained;
    only = h.only;
    unflown = All-append _ c'.in_flight (n ∷ []) h.unflown (ne, tt);
  }

  terminate-IsStuck : (j : ℕ) → j ≢ id → IsStuck (track (create_stream_locked c j false)) i id it
  unfolding create_stream_locked track
  terminate-IsStuck j other =
      if_intro (λ (r : CarrierConn × Option ℕ). IsStuck (track r) i id it) (j == 0) (λ z. stuck)
        (λ nz.
          option_intro (λ (r : CarrierConn × Option ℕ). IsStuck (track r) i id it)
            (lookup j c.streams)
            (λ unknown.
              fly (opened c j false) (length c.all_streams) (opened-IsStuck j)
                (λ e. end_ne c i stuck.drained e))
            (λ n known. fly c n stuck (λ e. other (stuck.only j (known ∙ ap some e)))))

  finish-IsStuck : (n : ℕ) (taken : Bool) → IsStuck (finish_terminate c n taken) i id it
  unfolding finish_terminate
  finish-IsStuck n taken =
      option_intro (λ c'. IsStuck c' i id it) (get_elem? c.in_flight n) (λ e. stuck)
        (λ j e.
          let h =
            changed j (terminate_stream c.callbacks c.closing true taken)
              (λ same. absurd (ne_at c.in_flight i n stuck.unflown e same)) in
          record {
            asleep = h.asleep;
            going = h.going;
            drained = h.drained;
            only = h.only;
            unflown = remove_at-All n i c.in_flight stuck.unflown;
          })

  read-IsStuck : (f : Frame) (o : Option ReadError) → IsStuck (enqueue c f o) i id it
  unfolding enqueue
  read-IsStuck f none = record {
    asleep = stuck.asleep;
    going = stuck.going;
    drained = stuck.drained;
    only = stuck.only;
    unflown = stuck.unflown;
  }
  read-IsStuck f (some e) = record {
    asleep = stuck.asleep;
    going = stuck.going;
    drained = stuck.drained;
    only = stuck.only;
    unflown = stuck.unflown;
  }

  failed-IsStuck : (e : ReadError) → IsStuck (record c { read_err = some e }) i id it
  failed-IsStuck e = record {
    asleep = stuck.asleep;
    going = stuck.going;
    drained = stuck.drained;
    only = stuck.only;
    unflown = stuck.unflown;
  }

  end-IsStuck : IsStuck (end_dispatch c c.dispatcher c.frames c.read_err) i id it
  unfolding end_dispatch
  end-IsStuck =
      subst (λ d. IsStuck (end_dispatch c d c.frames c.read_err) i id it) (sym stuck.asleep) stuck

  deregister-IsStuck : (j : ℕ) → IsStuck (deregister c j) i id it
  unfolding deregister
  deregister-IsStuck j = record {
    asleep = stuck.asleep;
    going = stuck.going;
    drained = stuck.drained;
    only = λ k e. stuck.only k (kept_entry c j k i e);
    unflown = stuck.unflown;
  }

  limits-IsStuck : (l : StreamLimits) → IsStuck (set_stream_limits c l).0 i id it
  unfolding set_stream_limits
  limits-IsStuck l =
      let (s, here, d) = stuck.drained in
      if_intro (λ (r : CarrierConn × Bool). IsStuck r.0 i id it) (sanitize_limits l).1
        (λ fine. record {
          asleep = stuck.asleep;
          going = stuck.going;
          drained = (
            resync (sanitize_limits l).0 s,
            resync_all-at (sanitize_limits l).0 c.all_streams i here,
            resync-IsDrained (sanitize_limits l).0 s d,
          );
          only = stuck.only;
          unflown = stuck.unflown;
        })
        (λ bad. stuck)

  not_closing : c.closing ≢ true
  not_closing h = false_ne_true (sym stuck.going ∙ h)

  not_closable : may_close_channels c ≢ true
  unfolding may_close_channels
  not_closable h = ground (arith, stuck.going)

  not_waiting : may_pass_wait c ≢ true
  unfolding may_pass_wait
  not_waiting h = ground (arith, stuck.going)

  next-IsStuck : (e : Event) → Spares id e → IsStuck (next c e) i id it
  unfolding next
  next-IsStuck (read_frame f) h =
      unfold read in
      option_intro (λ c'. IsStuck c' i id it) c.read_err
        (λ more.
          if_intro (λ c'. IsStuck c' i id it) (ltb (length c.frames) frames_capacity)
            (λ room. read-IsStuck f (check_frame (is_known (lookup f.stream_id c.streams)) f))
            (λ full. stuck))
        (λ e ended. stuck)
  next-IsStuck read_failure h =
      unfold read_fails in
      option_intro (λ c'. IsStuck c' i id it) c.read_err (λ more. failed-IsStuck read_failed)
        (λ e ended. stuck)
  next-IsStuck (dispatch_step taken) h = dispatch-IsStuck taken
  next-IsStuck dispatch_start h =
      unfold start_dispatch in
      subst (λ d. IsStuck (start_dispatch c d) i id it) (sym stuck.asleep) stuck
  next-IsStuck dispatch_end h = end-IsStuck
  next-IsStuck (work_step n outcome taken) h =
      changed n (work c.callbacks c.closing outcome taken)
        (λ e s k d. work-IsDrained c.callbacks c.closing outcome taken s k d)
  next-IsStuck (consume_step n) h = changed n consume (λ e s k d. consume-IsDrained s k d)
  next-IsStuck (register_call j) h =
      unfold register in
      if_intro (λ c'. IsStuck c' i id it) c.closing (λ t. stuck) (λ t. create-IsStuck j)
  next-IsStuck (deregister_call j) h = deregister-IsStuck j
  next-IsStuck (terminate_call j) h =
      unfold terminate in
      if_intro (λ c'. IsStuck c' i id it) c.closing (λ t. stuck)
        (λ t. terminate-IsStuck j (λ e. h.no_terminate (ap terminate_call e)))
  next-IsStuck (terminate_end n taken) h = finish-IsStuck n taken
  next-IsStuck (set_limits l) h = limits-IsStuck l
  next-IsStuck close_begin h = absurd (h.no_close refl)
  next-IsStuck (close_mailbox_step n) h =
      unfold close_mailbox in
      if_intro (λ c'. IsStuck c' i id it) c.closing (λ t. absurd (not_closing t)) (λ t. stuck)
  next-IsStuck close_wait h =
      unfold wait_streams in
      if_intro (λ c'. IsStuck c' i id it) (may_pass_wait c) (λ t. absurd (not_waiting t))
        (λ t. stuck)
  next-IsStuck close_end h =
      unfold close_streams in
      if_intro (λ c'. IsStuck c' i id it) (may_close_channels c) (λ t. absurd (not_closable t))
        (λ t. stuck)

-- A dispatcher that is parked on a stream whose worker has gone serves no stream of the carrier any
-- more: whatever the peer, the consumers and the other calls do, it stays parked until that stream
-- is terminated by a call of Terminate or the carrier is closed. Deregistering the stream does not help.
pub dispatcher_stays_parked :
    (c : CarrierConn) (i id : ℕ) (it : Item) (es : List Event)
    → IsStuck c i id it
    → All (Spares id) es
    → (run c es).dispatcher ≡ sleeping i it
unfolding run
dispatcher_stays_parked c i id it [] stuck h = stuck.asleep
dispatcher_stays_parked c i id it (e ∷ es) stuck (h, hs) =
    dispatcher_stays_parked (next c e) i id it es (next-IsStuck c i id it stuck e h) hs
