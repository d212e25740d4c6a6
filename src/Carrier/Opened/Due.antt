-- ===== src/Carrier/Opened/Due.antt =====
-- pkg/mux/carrier.go, Dispatch: a change of a record, and the call of OnNewStream that is due for it.
pub mod Dispatched
pub mod Settled
use iran_germany_split_tunne.Common.{
  ℕ, zero, suc, ◌+◌, ◌≤◌, ◌≡◌, ◌≢◌, ◌∙◌, refl, sym, ap, subst, Bool, true, false, not, ◌&&◌, ◌==◌,
  if_intro, option_intro, Option, none, some, List, [], ◌∷◌, ◌++◌, inl, inr, length, ltb, get_elem?,
  ==_iff, Bool-cases, Option-cases, arith,
}
use iran_germany_split_tunne.Common.Assoc.{lookup, nat_eq}
use iran_germany_split_tunne.Frame.{Frame, frame_reset, frame_bootstrap_ack, frame_credit}
use iran_germany_split_tunne.Frame.Credit.{CreditPayload, validate_credit_payload}
use iran_germany_split_tunne.Mailbox.{Op, push, carry, park, close_queue}
use iran_germany_split_tunne.Carrier.{
  StreamLimits, StreamRec, Dispatcher, unstarted, idle, returned, announcing, pushing, carrying,
  parking, sleeping, failing, CarrierConn, ReadError, Change, Callbacks, update, terminate_stream,
  new_stream_rec, opened, create_stream_locked, frame_ping, frame_pong,
}
use iran_germany_split_tunne.Carrier.Limits.{set_stream_limits, sanitize_limits, resync_all, resync}
use iran_germany_split_tunne.Carrier.ReadLoop.{
  check_frame, is_known, frames_capacity, read, enqueue, read_fails,
}
use iran_germany_split_tunne.Carrier.Dispatch.{
  on_queue, try, fail, fail_undeliverable_data, try_wake, deliver_step, route_known, route_new,
  announce, begin_delivery, announce_and_begin, route, on_credit_frame, dispatch_frame,
  dispatch_next, dispatch, is_stream_frame,
}
use iran_germany_split_tunne.Carrier.Run.{
  work, consume, register, deregister, track, terminate, finish_terminate, end_dispatch,
  start_dispatch, may_pass_wait, wait_streams, close_streams, shut_channels, may_close_channels,
  close_channels, close_mailbox, Event, read_frame, read_failure, dispatch_step, dispatch_start,
  dispatch_end, work_step, consume_step, register_call, deregister_call, terminate_call,
  close_mailbox_step, terminate_end, set_limits, close_begin, close_wait, close_end, next, run,
  new_carrier_conn,
}
use iran_germany_split_tunne.Carrier.Every.{get_elem?-append_last}
use iran_germany_split_tunne.Carrier.Blocked.{updated_other, get_elem?-append}
use iran_germany_split_tunne.Carrier.Fate.{updated_at}
use iran_germany_split_tunne.Carrier.Opened.{
  Pays, due, due-append, due_at, due-set, due-resync, due-close_channels,
}
use iran_germany_split_tunne.Carrier.Opened.Steps.{
  consume-Pays, due-created, fail-Pays, on_queue-Pays, terminate_stream-Pays, work-Pays,
}

unfoldable pub due_of : ℕ → Option StreamRec → ℕ
unfolding due_at
due_of id none = 0
due_of id (some s) = due_at id s

-- The call of OnNewStream that the dispatcher comes to next, if it is one for the stream.
unfoldable pub pending : ℕ → Dispatcher → List StreamRec → ℕ
unfolding due_of
pending id (announcing i f) ss = due_of id (get_elem? ss i)
pending id d ss = 0

module _ (id : ℕ) where
  -- Nothing else is due.
  unfoldable pub IsDue : Dispatcher → List StreamRec → Type 0
  IsDue d ss = due id ss ≤ pending id d ss

  pub updated_le :
      (c : CarrierConn) (j : ℕ) (f : Change)
      → Pays id f
      → due id (update c j f).all_streams ≤ due id c.all_streams
  unfolding Pays
  updated_le c j f pays = elim (Option-cases (get_elem? c.all_streams j)) [
    | inl absent ↦ rw absent (omega arith)
    | inr (s, found) ↦
        rw found
          (omega (arith, pays s c.counters, due-set id c.all_streams j (f s c.counters).0 found))
  ]

  updated_absent :
      (c : CarrierConn) (j : ℕ) (f : Change)
      → get_elem? c.all_streams j ≡ none
      → (update c j f).all_streams ≡ c.all_streams
  updated_absent c j f absent = rw absent refl

  due-update :
      (c : CarrierConn) (j : ℕ) (f : Change) (s : StreamRec)
      → get_elem? c.all_streams j ≡ some s
      → due_at id (f s c.counters).0 + due id c.all_streams
        ≡ due_at id s + due id (update c j f).all_streams
  due-update c j f s found = rw found (due-set id c.all_streams j (f s c.counters).0 found)

  here-announcing :
      (c : CarrierConn) (i : ℕ) (g : Frame) (f : Change)
      → IsDue (announcing i g) c.all_streams
      → IsDue (announcing i g) (update c i f).all_streams
  unfolding IsDue pending due_of
  here-announcing c i g f h = elim (Option-cases (get_elem? c.all_streams i)) [
    | inl absent ↦ subst (IsDue (announcing i g)) (sym (updated_absent c i f absent)) h
    | inr (s, found) ↦
        let before = ap (due_of id) found in
        let after = ap (due_of id) (updated_at c i f s found) in
        omega (arith, due-update c i f s found, before, after, h)
  ]

  updated-announcing :
      (c : CarrierConn) (j i : ℕ) (g : Frame) (f : Change)
      → Pays id f
      → IsDue (announcing i g) c.all_streams
      → IsDue (announcing i g) (update c j f).all_streams
  unfolding IsDue pending
  updated-announcing c j i g f pays h = elim (Bool-cases (j == i)) [
    | inr other ↦
        let ne : j ≢ i = λ e. ground arith in
        let same = ap (due_of id) (updated_other c j i f ne) in
        omega (arith, updated_le c j f pays, h, same)
    | inl here ↦
        subst (λ j. IsDue (announcing i g) (update c j f).all_streams) (sym ((==_iff j i).0 here))
          (here-announcing c i g f h)
  ]

  -- A change of a record, by whoever makes it.
  pub updated-IsDue :
      (c : CarrierConn) (d : Dispatcher) (j : ℕ) (f : Change)
      → Pays id f
      → IsDue d c.all_streams
      → IsDue d (update c j f).all_streams
  unfolding IsDue pending
  updated-IsDue c (announcing i g) j f pays h = updated-announcing c j i g f pays h
  updated-IsDue c d j f pays h = omega (arith, updated_le c j f pays, h)

  -- The dispatcher makes the call that was due.
  pub announced :
      (c : CarrierConn) (i typ : ℕ) (g : Frame)
      → IsDue (announcing i g) c.all_streams
      → due id (update c i (announce typ)).all_streams ≡ 0
  unfolding IsDue pending due_of
  announced c i typ g h = elim (Option-cases (get_elem? c.all_streams i)) [
    | inl absent ↦
        let none_due = ap (due_of id) absent in
        ap (due id) (updated_absent c i (announce typ) absent) ∙ omega (arith, none_due, h)
    | inr (s, found) ↦
        let before = ap (due_of id) found in
        let quiet : due_at id (announce typ s c.counters).0 ≡ 0 =
          unfold announce due_at in ground arith in
        omega (arith, due-update c i (announce typ) s found, before, quiet, h)
  ]
