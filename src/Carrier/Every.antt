-- ===== src/Carrier/Every.antt =====
-- pkg/mux/carrier.go: what holds of every stream record is kept by every step of a carrier, if each
-- change of one record keeps it.
pub mod Steps
use iran_germany_split_tunne.Common.{
  ℕ, ◌≡◌, refl, ap, subst, sym, Bool, true, false, not, ◌&&◌, ◌||◌, Option, none, some, List, [],
  ◌∷◌, ◌++◌, ◌==◌, if◌then◌else◌, if_intro, option_intro, ◌⊎◌, inl, inr, get_elem?, set, length,
  ltb, All, All-get, All-set, List-cases, Bool-cases, Option-cases, arith,
}
use iran_germany_split_tunne.Common.Assoc.{lookup, nat_eq}
use iran_germany_split_tunne.Frame.{Frame}
use iran_germany_split_tunne.Frame.Credit.{
  CreditPayload, decode_credit_payload, validate_credit_payload,
}
use iran_germany_split_tunne.Mailbox.{Item, Counters, Op, push, carry, park, close_queue}
use iran_germany_split_tunne.Carrier.{
  StreamLimits, StreamRec, Worker, ready, waiting, holding, exited, Dispatcher, idle, returned,
  pushing, carrying, parking, sleeping, failing, CarrierConn, ReadError, Change, Callbacks, update,
  applied, terminate_stream, new_stream_rec, create_stream_locked, opened, hand_end, hand,
}
use iran_germany_split_tunne.Carrier.Limits.{resync, resync_all, set_stream_limits, sanitize_limits}
use iran_germany_split_tunne.Carrier.ReadLoop.{
  check_frame, is_known, frames_capacity, read, enqueue, read_fails,
}
use iran_germany_split_tunne.Carrier.Dispatch.{
  on_queue, try, fail, fail_undeliverable_data, try_wake, deliver_step, route_known, route_new,
  announce, begin_delivery, route, on_credit_frame, dispatch_frame, dispatch_next, dispatch,
  decoded,
}
use iran_germany_split_tunne.Carrier.Run.{
  Outcome, handed, aborted, stalled, work, work_from, hand_over, consume, register, deregister,
  track, terminate, finish_terminate, end_dispatch, all_exited, close_channels, close_streams,
  close_mailbox, Event, read_frame, read_failure, dispatch_step, dispatch_end, work_step,
  consume_step, register_call, deregister_call, terminate_call, close_mailbox_step, terminate_end,
  set_limits, close_begin, close_end, next, run, new_carrier_conn,
}

-- A change that keeps a property of every record.
pub update-All :
    (P : StreamRec → Type 0) (c : CarrierConn) (i : ℕ) (f : Change)
    → ((s : StreamRec) (k : Counters) → P s → P (f s k).0)
    → All P c.all_streams
    → All P (update c i f).all_streams
update-All P c i f keep all = elim (Option-cases (get_elem? c.all_streams i)) [
  | inl absent ↦ rw absent all
  | inr (s, found) ↦ rw found (
      All-set P c.all_streams i (f s c.counters).0 all
        (keep s c.counters (All-get P c.all_streams i all found)))
]

pub All-append {ℓ κ} :
    {A : Type ℓ} (P : A → Type κ) (xs ys : List A) → All P xs → All P ys → All P (xs ++ ys)
All-append P [] ys h k = k
All-append P (x ∷ xs) ys (h, hs) k = (h, All-append P xs ys hs k)

abbrev pub Keeps : (StreamRec → Type 0) → Change → Type 0
Keeps P f = (s : StreamRec) (k : Counters) → P s → P (f s k).0

-- The changes of a record that the steps of a carrier make.
pub data IsChange : Change → Type 0 where
  queue_change : (op : Op) → IsChange (on_queue op)
  end_change :
      (cb : Callbacks) (closing signal taken : Bool)
      → IsChange (terminate_stream cb closing signal taken)
  fail_change : (cb : Callbacks) (closing taken : Bool) → IsChange (fail cb closing taken)
  announce_change : (typ : ℕ) → IsChange (announce typ)
  work_change :
      (cb : Callbacks) (closing : Bool) (outcome : Outcome) (taken : Bool)
      → IsChange (work cb closing outcome taken)
  consume_change : IsChange consume

-- What every change of a record and every new record keep of the records and the counters.
pub record IsKept (R : List StreamRec → Counters → Type 0) : Type 0 where
  pub changes :
      (c : CarrierConn) (i : ℕ) (f : Change)
      → IsChange f
      → R c.all_streams c.counters
      → R (update c i f).all_streams (update c i f).counters
  pub created :
      (all : List StreamRec) (k : Counters) (l : StreamLimits) (id : ℕ) (callback : Bool)
      → R all k
      → R (all ++ (new_stream_rec l id callback ∷ [])) k
  pub resyncs :
      (all : List StreamRec) (k : Counters) (l : StreamLimits) → R all k → R (resync_all l all) k

-- The same for a property of one record.
pub record IsKeptByEach (P : StreamRec → Type 0) : Type 0 where
  pub changes : (f : Change) → IsChange f → Keeps P f
  pub created : (l : StreamLimits) (id : ℕ) (callback : Bool) → P (new_stream_rec l id callback)
  pub resyncs : (l : StreamLimits) (s : StreamRec) → P s → P (resync l s)

abbrev pub Each : (StreamRec → Type 0) → List StreamRec → Counters → Type 0
Each P all k = All P all

resync_all-All :
    (P : StreamRec → Type 0) (kept : IsKeptByEach P) (l : StreamLimits) (ss : List StreamRec)
    → All P ss
    → All P (resync_all l ss)
unfolding resync_all
resync_all-All P kept l [] all = tt
resync_all-All P kept l (s ∷ ss) (h, hs) = (kept.resyncs l s h, resync_all-All P kept l ss hs)

pub Each-IsKept : (P : StreamRec → Type 0) → IsKeptByEach P → IsKept (Each P)
Each-IsKept P kept = record {
  changes = λ c i f is_change all. update-All P c i f (kept.changes f is_change) all;
  created = λ ss k l id callback all. All-append P ss _ all (kept.created l id callback, tt);
  resyncs = λ ss k l all. resync_all-All P kept l ss all;
}

pub get_elem?-append_last {ℓ} :
    {A : Type ℓ} (xs : List A) (x : A) → get_elem? (xs ++ (x ∷ [])) (length xs) ≡ some x
get_elem?-append_last [] x = refl
get_elem?-append_last (y ∷ ys) x = get_elem?-append_last ys x

pub set-append_last {ℓ} :
    {A : Type ℓ} (xs : List A) (x v : A) → set (xs ++ (x ∷ [])) (length xs) v ≡ xs ++ (v ∷ [])
set-append_last [] x v = refl
set-append_last (y ∷ ys) x v = ap (◌∷◌ y) (set-append_last ys x v)
