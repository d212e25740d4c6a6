-- ===== src/Carrier/Blocked.antt =====
-- pkg/mux/carrier.go, deliver and streamWorker: the dispatcher waits for room in the mailbox of a
-- stream whose worker has gone.
pub mod Run
use iran_germany_split_tunne.Common.{
  ℕ, zero, suc, ◌<◌, ◌≡◌, ◌≢◌, ◌∙◌, refl, sym, ap, subst, ◌⊎◌, inl, inr, Bool, true, false, not,
  ◌&&◌, ◌==◌, if◌then◌else◌, if_intro, option_intro, Option, none, some, List, [], ◌∷◌, ◌++◌,
  length, ltb, get_elem?, set, get_elem?-set_ne, All, Bool-cases, Option-cases, ==_iff, arith,
}
use iran_germany_split_tunne.Common.Assoc.{
  lookup, insert, delete, lookup-insert, lookup-delete, nat_eq,
}
use iran_germany_split_tunne.Frame.{Frame}
use iran_germany_split_tunne.Mailbox.{Item, StreamQueue, Counters}
use iran_germany_split_tunne.Carrier.{
  StreamLimits, StreamRec, exited, Dispatcher, parking, sleeping, CarrierConn, ReadError,
  read_failed, Change, Callbacks, update, applied, terminate_stream, new_stream_rec, opened,
  create_stream_locked,
}
use iran_germany_split_tunne.Carrier.Limits.{resync, resync_all, sanitize_limits, set_stream_limits}
use iran_germany_split_tunne.Carrier.ReadLoop.{
  check_frame, is_known, frames_capacity, read, enqueue, read_fails,
}
use iran_germany_split_tunne.Carrier.Dispatch.{try_wake, deliver_step, dispatch}
use iran_germany_split_tunne.Carrier.Every.{All-append}
use iran_germany_split_tunne.Carrier.Fate.{updated_at}
use iran_germany_split_tunne.Carrier.Run.{
  Outcome, work, work_from, consume, register, deregister, track, terminate, finish_terminate,
  remove_at, end_dispatch, close_streams, may_close_channels, close_mailbox, Event, read_frame,
  read_failure, dispatch_step, dispatch_end, work_step, consume_step, register_call,
  deregister_call, terminate_call, close_mailbox_step, terminate_end, set_limits, close_begin,
  close_end, next, run,
}

-- A record without a worker, with a parked pusher.
pub record IsDrained (s : StreamRec) : Type 0 where
  pub gone : s.worker ≡ exited
  pub parked : 0 < s.q.n_free_waiters

-- The dispatcher waits for the record at a place that only `id` may stand for, on a carrier that is
-- not closing and has no Terminate for it under way.
pub record IsStuck (c : CarrierConn) (i id : ℕ) (it : Item) : Type 0 where
  pub asleep : c.dispatcher ≡ sleeping i it
  pub going : c.closing ≡ false
  pub drained : (s : StreamRec) × (get_elem? c.all_streams i ≡ some s) × IsDrained s
  pub only : (j : ℕ) → lookup j c.streams ≡ some i → j ≡ id
  pub unflown : All (λ j. j ≢ i) c.in_flight

-- What would end the wait: the stream's Terminate, or Close.
pub record Spares (id : ℕ) (e : Event) : Type 0 where
  pub no_terminate : e ≢ terminate_call id
  pub no_close : e ≢ close_begin

pub get_elem?-append {ℓ} :
    {A : Type ℓ} (xs ys : List A) (i : ℕ) {x : A}
    → get_elem? xs i ≡ some x
    → get_elem? (xs ++ ys) i ≡ some x
get_elem?-append [] ys i e = cc
get_elem?-append (x ∷ xs) ys zero e = e
get_elem?-append (x ∷ xs) ys (suc i) e = get_elem?-append xs ys i e

index-lt {ℓ} : {A : Type ℓ} (xs : List A) (i : ℕ) {x : A} → get_elem? xs i ≡ some x → i < length xs
index-lt [] i e = cc
index-lt (x ∷ xs) zero e = omega arith
index-lt (x ∷ xs) (suc i) e = omega (arith, index-lt xs i e)

some_eq : {a b : ℕ} → some a ≡ some b → a ≡ b
some_eq e = cc

ne_at : (is : List ℕ) (i n : ℕ) {j : ℕ} → All (λ j. j ≢ i) is → get_elem? is n ≡ some j → j ≢ i
ne_at [] i n h e = cc
ne_at (j ∷ js) i zero (h, hs) e = λ p. h (some_eq e ∙ p)
ne_at (j ∷ js) i (suc n) (h, hs) e = ne_at js i n hs e

remove_at-All : (n i : ℕ) (is : List ℕ) → All (λ j. j ≢ i) is → All (λ j. j ≢ i) (remove_at n is)
unfolding remove_at
remove_at-All zero i [] h = tt
remove_at-All (suc n) i [] h = tt
remove_at-All zero i (j ∷ js) (h, hs) = hs
remove_at-All (suc n) i (j ∷ js) (h, hs) = (h, remove_at-All n i js hs)

resync_all-at :
    (l : StreamLimits) (ss : List StreamRec) (i : ℕ) {s : StreamRec}
    → get_elem? ss i ≡ some s
    → get_elem? (resync_all l ss) i ≡ some (resync l s)
unfolding resync_all
resync_all-at l [] i e = cc
resync_all-at l (t ∷ ss) zero e = cc
resync_all-at l (t ∷ ss) (suc i) e = resync_all-at l ss i e

pub updated_other :
    (c : CarrierConn) (n i : ℕ) (f : Change)
    → n ≢ i
    → get_elem? (update c n f).all_streams i ≡ get_elem? c.all_streams i
updated_other c n i f ne = go (get_elem? c.all_streams n)
  where
    go :
        (o : Option StreamRec)
        → get_elem? (applied c.all_streams c.counters n f o).0 i ≡ get_elem? c.all_streams i
    go none = refl
    go (some s) = get_elem?-set_ne c.all_streams n i (f s c.counters).0 ne

-- A change at another place, or one that leaves a drained record drained.
updated-IsDrained :
    (c : CarrierConn) (i n : ℕ) (f : Change)
    → (n ≡ i → (s : StreamRec) (k : Counters) → IsDrained s → IsDrained (f s k).0)
    → (s : StreamRec) × (get_elem? c.all_streams i ≡ some s) × IsDrained s
    → (s : StreamRec) × (get_elem? (update c n f).all_streams i ≡ some s) × IsDrained s
updated-IsDrained c i n f keep (s, here, d) = elim (Bool-cases (n == i)) [
  | inl same ↦
      let e : n ≡ i = (==_iff n i).0 same in
      subst (λ n. (s : StreamRec) × (get_elem? (update c n f).all_streams i ≡ some s) × IsDrained s)
        (sym e) ((f s c.counters).0, updated_at c i f s here, keep e s c.counters d)
  | inr other ↦ (s, updated_other c n i f (λ e. ground arith) ∙ here, d)
]

parked_ne : (s : StreamRec) → IsDrained s → (s.q.n_free_waiters == 0) ≢ true
parked_ne s d h = ground (arith, d.parked)

end_ne :
    (c : CarrierConn) (i : ℕ)
    → (s : StreamRec) × (get_elem? c.all_streams i ≡ some s) × IsDrained s
    → length c.all_streams ≢ i
end_ne c i (s, here, d) e = absurd (omega (arith, index-lt c.all_streams i here))

old_entry :
    (c : CarrierConn) (j k i : ℕ)
    → i < length c.all_streams
    → lookup k (insert j (length c.all_streams) c.streams) ≡ some i
    → lookup k c.streams ≡ some i
old_entry c j k i lt e = ground (arith, lookup-insert j k (length c.all_streams) c.streams)

kept_entry :
    (c : CarrierConn) (j k i : ℕ)
    → lookup k (delete j c.streams) ≡ some i
    → lookup k c.streams ≡ some i
kept_entry c j k i e = ground (arith, lookup-delete j k c.streams)

resync-IsDrained : (l : StreamLimits) (s : StreamRec) → IsDrained s → IsDrained (resync l s)
unfolding resync
resync-IsDrained l s d = record { gone = d.gone; parked = d.parked }

work-IsDrained :
    (cb : Callbacks) (closing : Bool) (outcome : Outcome) (taken : Bool) (s : StreamRec)
    (k : Counters)
    → IsDrained s
    → IsDrained (work cb closing outcome taken s k).0
unfolding work work_from
work-IsDrained cb closing outcome taken s k d =
    subst (λ w. IsDrained (work_from cb closing outcome taken w s k).0) (sym d.gone) d

consume-IsDrained : (s : StreamRec) (k : Counters) → IsDrained s → IsDrained (consume s k).0
unfolding consume
consume-IsDrained s k d = record { gone = d.gone; parked = d.parked }

false_ne_true : false ≢ true
false_ne_true p = cc
