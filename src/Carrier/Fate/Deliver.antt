-- ===== src/Carrier/Fate/Deliver.antt =====
-- pkg/mux/carrier.go: the steps of a delivery, and where each leaves the item.
use iran_germany_split_tunne.Common.{
  ℕ, ◌≡◌, refl, sym, subst, ◌⊎◌, inl, inr, Bool, true, ◌||◌, ◌==◌, if_intro, option_intro, some,
  List, [], ◌∷◌, ◌++◌, get_elem?, All, All-get, arith,
}
use iran_germany_split_tunne.Mailbox.{
  Item, Counters, Reply, accepted, refused, cancelled, parked, RejectReason, Op, push, carry, park,
  step,
}
use iran_germany_split_tunne.Mailbox.Fifo.{contents}
use iran_germany_split_tunne.Carrier.{
  StreamRec, Dispatcher, CarrierConn, Callbacks, terminate_stream, hand_end, hand,
}
use iran_germany_split_tunne.Carrier.Dispatch.{
  on_queue, after_push, after_carry, after_park, is_stream_bound, try, fail,
  fail_undeliverable_data, try_wake, deliver_step, dispatch,
}
use iran_germany_split_tunne.Carrier.Run.{Event, dispatch_step, next, run, new_carrier_conn}
use iran_germany_split_tunne.Carrier.Fate.{
  Fate, Holds, IsStopped, abandoned, asleep, at_carry, at_failure, at_park, at_push, carry-Answer,
  carry_appends, either, kept, over, park_answer, park_appends, push-Answer, push_appends, queued,
  run-IsStopped, updated_at,
}

hand_end_terminated :
    (closing taken : Bool) (s : StreamRec) → (hand_end closing taken s).terminated ≡ s.terminated
unfolding hand_end hand
hand_end_terminated closing taken s = ground arith

fail_terminates :
    (cb : Callbacks) (closing taken : Bool) (s : StreamRec) (k : Counters)
    → IsStopped s
    → (fail cb closing taken s k).0.terminated ≡ true
unfolding fail terminate_stream hand_end hand
fail_terminates cb closing taken s k h = ground (arith, h.marked)

module _ (c : CarrierConn) (i : ℕ) (it : Item) (s : StreamRec)
    (here : get_elem? c.all_streams i ≡ some s) where
  tried_dispatcher :
      (op : Op) (after : StreamRec → Reply → Dispatcher)
      → (try c i op after).dispatcher ≡ after s (step s.q c.counters op).2
  unfolding try
  tried_dispatcher op after = ground arith

  tried_record :
      (op : Op) (after : StreamRec → Reply → Dispatcher)
      → get_elem? (try c i op after).all_streams i
        ≡ some (record s { q = (step s.q c.counters op).0 })
  unfolding try on_queue
  tried_record op after = updated_at c i (on_queue op) s here

  -- Where the dispatcher goes after a refusal, the item is held or its stream is over.
  Goes : Dispatcher → Type 0
  Goes d = Holds d i it ⊎ ((s.terminated ≡ true) ⊎ (c.closing ≡ true))

  settle :
      (op : Op) (after : StreamRec → Reply → Dispatcher)
      → ((step s.q c.counters op).2 ≡ accepted
          → contents (step s.q c.counters op).0 ≡ contents s.q ++ (it ∷ []))
      → ((step s.q c.counters op).2 ≡ accepted) ⊎ Goes (after s (step s.q c.counters op).2)
      → Fate c (try c i op after) i it
  unfolding Goes
  settle op after appends (inl ok) = queued s _ here (tried_record op after) (appends ok)
  settle op after appends (inr (inl holds)) =
      kept (subst (λ d. Holds d i it) (sym (tried_dispatcher op after)) holds)
  settle op after appends (inr (inr (inl t))) = over _ (tried_record op after) t
  settle op after appends (inr (inr (inr t))) = abandoned t

  push-Goes : (reason : RejectReason) → Goes (after_push i it s (refused reason))
  unfolding Goes after_push
  push-Goes reason =
      if_intro Goes s.terminated (λ t. inr (inl t))
        (λ live.
          if_intro Goes (it.is_close || is_stream_bound reason) (λ h. inl (at_carry i it))
            (λ h. inl (at_failure i it)))

  carry-Goes : (reason : RejectReason) → Goes (after_carry i it s (refused reason))
  unfolding Goes after_carry
  carry-Goes reason = if_intro Goes s.terminated (λ t. inr (inl t)) (λ live. inl (at_park i it))

  cancelled-Goes : Goes (after_park c.closing i it s cancelled)
  unfolding Goes after_park
  cancelled-Goes =
      if_intro Goes (s.terminated || c.closing) (λ t. inr (either s.terminated c.closing t))
        (λ live. inl (at_failure i it))

  parked-Goes : Goes (after_park c.closing i it s parked)
  unfolding Goes after_park
  parked-Goes = inl (asleep i it)

  deliver_fate :
      (d : Dispatcher) (taken : Bool)
      → IsStopped s
      → Holds d i it
      → c.dispatcher ≡ d
      → Fate c (deliver_step c d taken) i it
  unfolding deliver_step
  deliver_fate _ taken stopped (at_push _ _) e =
      settle (push it) (after_push i it) (push_appends s.q c.counters it)
        (elim (push-Answer s.q c.counters it) [
          | inl ok ↦ inl ok
          | inr (reason, r) ↦
              inr (subst (λ a. Goes (after_push i it s a)) (sym r) (push-Goes reason))
        ])
  deliver_fate _ taken stopped (at_carry _ _) e =
      settle (carry it) (after_carry i it) (carry_appends s.q c.counters it)
        (elim (carry-Answer s.q c.counters it) [
          | inl ok ↦ inl ok
          | inr (reason, r) ↦
              inr (subst (λ a. Goes (after_carry i it s a)) (sym r) (carry-Goes reason))
        ])
  deliver_fate _ taken stopped (at_park _ _) e =
      settle (park it) (after_park c.closing i it) (park_appends s.q c.counters it)
        (elim (park_answer s.q c.counters it) [
          | inl ok ↦ inl ok
          | inr (inl r) ↦
              inr (subst (λ a. Goes (after_park c.closing i it s a)) (sym r) parked-Goes)
          | inr (inr r) ↦
              inr (subst (λ a. Goes (after_park c.closing i it s a)) (sym r) cancelled-Goes)
        ])
  deliver_fate _ taken stopped (asleep _ _) e =
      unfold try_wake in
      option_intro (λ c'. Fate c c' i it) (get_elem? c.all_streams i)
        (λ gone. kept (subst (λ d. Holds d i it) (sym e) (asleep i it)))
        (λ t found.
          if_intro (λ c'. Fate c c' i it) (t.q.n_free_waiters == 0) (λ woken. kept (at_park i it))
            (λ waits. kept (subst (λ d. Holds d i it) (sym e) (asleep i it))))
  deliver_fate _ taken stopped (at_failure _ _) e =
      unfold fail_undeliverable_data in
      over _ (updated_at c i (fail c.callbacks c.closing taken) s here)
        (fail_terminates c.callbacks c.closing taken s c.counters stopped)

dispatch_deliver :
    (c : CarrierConn) (d : Dispatcher) (taken : Bool) {i : ℕ} {it : Item}
    → Holds d i it
    → dispatch c d taken ≡ deliver_step c d taken
unfolding dispatch
dispatch_deliver c _ taken (at_push i it) = refl
dispatch_deliver c _ taken (at_carry i it) = refl
dispatch_deliver c _ taken (at_park i it) = refl
dispatch_deliver c _ taken (asleep i it) = refl
dispatch_deliver c _ taken (at_failure i it) = refl

new-IsStopped :
    (cb : Callbacks) (es : List Event) → All IsStopped (run (new_carrier_conn cb) es).all_streams
unfolding new_carrier_conn
new-IsStopped cb es = run-IsStopped _ es tt

-- In every state that a carrier reaches, a step of the dispatcher drops no item that it has taken on
-- for a stream: afterwards it still holds the item, or the item is the last of the stream's mailbox,
-- behind all that the mailbox held, or the stream is terminated, or the carrier is closing.
pub delivers_or_fails :
    (cb : Callbacks) (es : List Event) (taken : Bool) (i : ℕ) (it : Item) (s : StreamRec)
    → Holds (run (new_carrier_conn cb) es).dispatcher i it
    → get_elem? (run (new_carrier_conn cb) es).all_streams i ≡ some s
    → Fate
        (run (new_carrier_conn cb) es)
        (next (run (new_carrier_conn cb) es) (dispatch_step taken))
        i
        it
unfolding next
delivers_or_fails cb es taken i it s holds here =
    let c : CarrierConn = run (new_carrier_conn cb) es in
    subst (λ c'. Fate c c' i it) (sym (dispatch_deliver c c.dispatcher taken holds))
      (deliver_fate c i it s here c.dispatcher taken
        (All-get IsStopped c.all_streams i (new-IsStopped cb es) here) holds refl)
