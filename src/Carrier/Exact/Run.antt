-- ===== src/Carrier/Exact/Run.antt =====
-- pkg/mux/carrier.go: the counters of a carrier over its runs.
use iran_germany_split_tunne.Common.{
  ℕ, ◌≡◌, ◌∙◌, refl, sym, ap, subst, if_intro, List, [], ◌∷◌, ◌++◌, All, arith,
}
use iran_germany_split_tunne.Common.Assoc.{nat_eq}
use iran_germany_split_tunne.Common.Int.{ℤ, pos, pos_part}
use iran_germany_split_tunne.Mailbox.{StreamQueue, Counters, new_stream_queue}
use iran_germany_split_tunne.Mailbox.Invariant.{IsValid, new_stream_queue-IsValid}
use iran_germany_split_tunne.Mailbox.Aggregate.{IsExact, bytes_in, items_in, total}
use iran_germany_split_tunne.Carrier.{
  StreamLimits, StreamRec, CarrierConn, Callbacks, new_stream_rec, new_mailbox,
}
use iran_germany_split_tunne.Carrier.Limits.{resync, resync_all}
use iran_germany_split_tunne.Carrier.Every.Steps.{next-Of}
use iran_germany_split_tunne.Carrier.Every.{IsKept, All-append}
use iran_germany_split_tunne.Carrier.Run.{
  close_channels, close_streams, shut_channels, may_close_channels, Event, next, run,
  new_carrier_conn,
}
use iran_germany_split_tunne.Carrier.Exact.{
  change-IsOperation, mailboxes, queues, update-IsExact, view,
}

Total : List StreamRec → Counters → Type 0
Total all k = IsExact (view (queues all) k)

queues-append : (xs ys : List StreamRec) → queues (xs ++ ys) ≡ queues xs ++ queues ys
queues-append [] ys = refl
queues-append (x ∷ xs) ys = ap (◌∷◌ x.q) (queues-append xs ys)

total-append_zero :
    (f : StreamQueue → ℕ) (qs : List StreamQueue) (q : StreamQueue)
    → f q ≡ 0
    → total f (qs ++ (q ∷ [])) ≡ total f qs
unfolding total
total-append_zero f [] q h = omega arith
total-append_zero f (p ∷ qs) q h = omega (arith, total-append_zero f qs q h)

-- A new mailbox holds nothing.
add_empty :
    (qs : List StreamQueue) (k : Counters) (q : StreamQueue)
    → IsValid q
    → bytes_in q ≡ 0
    → items_in q ≡ 0
    → IsExact (view qs k)
    → IsExact (view (qs ++ (q ∷ [])) k)
add_empty qs k q v b n x = record {
  queues_valid = All-append IsValid qs (q ∷ []) x.queues_valid (v, tt);
  bytes = x.bytes ∙ ap pos (sym (total-append_zero bytes_in qs q b));
  items = x.items ∙ ap pos (sym (total-append_zero items_in qs q n));
}

-- The settings of a mailbox do not matter.
configured-IsValid :
    (q : StreamQueue) (limit : ℤ) (cap : ℕ)
    → IsValid q
    → IsValid (record q { budget_limit = limit; overflow_cap = cap })
configured-IsValid q limit cap v = record {
  bytes_exact = v.bytes_exact;
  overflow_exact = v.overflow_exact;
  closed_empty = v.closed_empty;
  consumer_idle = v.consumer_idle;
  pusher_parked = v.pusher_parked;
}

new_mailbox-IsValid :
    (l : StreamLimits)
    → IsValid (new_mailbox l) × (bytes_in (new_mailbox l) ≡ 0) × (items_in (new_mailbox l) ≡ 0)
unfolding new_mailbox new_stream_queue
new_mailbox-IsValid l = (
  configured-IsValid _ _ _
      (new_stream_queue-IsValid (pos_part l.max_frames_per_stream) (pos_part l.max_bytes_per_stream)
        l.max_bytes_total).0,
  refl,
  refl,
)

new-Total :
    (all : List StreamRec) (k : Counters) (s : StreamRec) (l : StreamLimits)
    → s.q ≡ new_mailbox l
    → Total all k
    → Total (all ++ (s ∷ [])) k
unfolding Total
new-Total all k s l e x =
    let (v, b, n) = new_mailbox-IsValid l in
    subst (λ qs. IsExact (view qs k)) (sym (queues-append all (s ∷ [])))
      (add_empty (queues all) k s.q (subst IsValid (sym e) v) (ap bytes_in e ∙ b)
        (ap items_in e ∙ n) x)

resync-IsValid :
    (l : StreamLimits) (all : List StreamRec)
    → All IsValid (queues all)
    → All IsValid (queues (resync_all l all))
unfolding resync_all resync
resync-IsValid l [] h = tt
resync-IsValid l (s ∷ ss) (h, hs) = (
  configured-IsValid s.q l.max_bytes_total (pos_part l.max_bytes_per_stream) h,
  resync-IsValid l ss hs,
)

resync-total :
    (f : StreamQueue → ℕ)
    → ((q : StreamQueue) (limit : ℤ) (cap : ℕ)
        → f (record q { budget_limit = limit; overflow_cap = cap }) ≡ f q)
    → (l : StreamLimits) (all : List StreamRec)
    → total f (queues (resync_all l all)) ≡ total f (queues all)
unfolding resync_all resync total
resync-total f same l [] = refl
resync-total f same l (s ∷ ss) =
    omega (
      arith,
      same s.q l.max_bytes_total (pos_part l.max_bytes_per_stream),
      resync-total f same l ss,
    )

Total-kept : IsKept Total
unfolding Total new_stream_rec
Total-kept = record {
  changes = λ c i f h x. update-IsExact c i f (change-IsOperation f h) x;
  created = λ all k l id callback x.
      unfold Total in new-Total all k (new_stream_rec l id callback) l refl x;
  resyncs = λ all k l x. record {
    queues_valid = resync-IsValid l all x.queues_valid;
    bytes = x.bytes ∙ ap pos (sym (resync-total bytes_in (λ q limit cap. refl) l all));
    items = x.items ∙ ap pos (sym (resync-total items_in (λ q limit cap. refl) l all));
  };
}

closed_channels-queues : (ss : List StreamRec) → queues (close_channels ss) ≡ queues ss
unfolding close_channels
closed_channels-queues [] = refl
closed_channels-queues (s ∷ ss) = ap (◌∷◌ s.q) (closed_channels-queues ss)

close_streams-Total :
    (c : CarrierConn)
    → Total c.all_streams c.counters
    → Total (close_streams c).all_streams (close_streams c).counters
unfolding close_streams shut_channels Total
close_streams-Total c x =
    if_intro (λ (r : CarrierConn). IsExact (mailboxes r)) (may_close_channels c)
      (λ h.
        subst (λ qs. IsExact (view qs c.counters)) (sym (closed_channels-queues c.all_streams)) x)
      (λ h. x)

run-Total :
    (c : CarrierConn) (es : List Event)
    → Total c.all_streams c.counters
    → Total (run c es).all_streams (run c es).counters
unfolding run
run-Total c [] x = x
run-Total c (e ∷ es) x =
    run-Total (next c e) es (next-Of Total Total-kept c e (λ last. close_streams-Total c x) x)

-- In every state that a carrier reaches, whatever its goroutines do and in whatever order, its byte
-- and item counters are exactly what the mailboxes of all the streams it ever had hold, those of
-- deregistered and terminated streams included.
pub counters-IsExact :
    (cb : Callbacks) (es : List Event) → IsExact (mailboxes (run (new_carrier_conn cb) es))
unfolding Total new_carrier_conn total
counters-IsExact cb es =
    unfold Total in run-Total _ es (record { queues_valid = tt; bytes = refl; items = refl })
