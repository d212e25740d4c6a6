-- ===== src/Mailbox.antt =====
-- pkg/mux/queue.go: the bounded mailbox between the dispatcher and a stream's consumer.
-- Every operation holds the queue's mutex from end to end, so it is one step on the queue and on the
-- carrier's two counters; the loops of PushPark and Pop are a step for each round between two parks.
-- The telemetry (`q.stats`) is left out, and both counter pointers are set, as a carrier sets them.
pub mod Invariant
pub mod Fifo
pub mod Aggregate
pub mod Budget
pub mod Tests
use iran_germany_split_tunne.Common.{
  ℕ, suc, ◌+◌, ◌-◌, ◌*◌, ◌%◌, ◌^◌, ◌≡◌, Bool, true, false, ◌||◌, Option, none, some, List, [], ◌∷◌,
  ◌++◌, ltb, leb, if◌then◌else◌, length,
}
use iran_germany_split_tunne.Common.Int.{ℤ, pos, ◌+ℤ◌, ◌-ℤ◌, ltb_ℤ}

pub record Item : Type 0 where
  pub payload : List ℕ
  pub is_close : Bool

-- `wake` and `free` tell whether a channel is installed. An `overflow_cap` of 0 stands for every
-- cap that is not positive.
pub record StreamQueue : Type 0 where
  pub max_frames : ℕ
  pub max_bytes : ℕ
  pub items : List Item
  pub n_bytes : ℕ
  pub overflow : List Item
  pub overflow_bytes : ℕ
  pub overflow_cap : ℕ
  pub overflow_frame_cap : ℕ
  pub closed : Bool
  pub wake : Bool
  pub n_waiters : ℕ
  pub free : Bool
  pub n_free_waiters : ℕ
  pub budget_limit : ℤ

-- The carrier's `queuedBytes` and `queuedItems`, which all its mailboxes share.
pub record Counters : Type 0 where
  pub queued_bytes : ℤ
  pub queued_items : ℤ

pub data RejectReason : Type 0 where
  reject_stream_frames reject_stream_bytes reject_aggregate reject_closed : RejectReason

abbrev pub size : Item → ℕ
size it = length it.payload

-- `maxFrames * 16` on an int64 that may wrap: below `maxFrames` if it does.
frame_cap : ℕ → ℕ
frame_cap max_frames =
    let product = max_frames * 16 % 2 ^ 64 in
    if leb (2 ^ 63) product || ltb product max_frames then max_frames else product

unfoldable pub new_stream_queue : ℕ → ℕ → ℤ → StreamQueue
unfolding frame_cap
new_stream_queue max_frames max_bytes budget_limit = record {
  max_frames = max_frames;
  max_bytes = max_bytes;
  items = [];
  n_bytes = 0;
  overflow = [];
  overflow_bytes = 0;
  overflow_cap = max_bytes;
  overflow_frame_cap = frame_cap max_frames;
  closed = false;
  wake = false;
  n_waiters = 0;
  free = false;
  n_free_waiters = 0;
  budget_limit = budget_limit;
}

-- `adjustAggregateLocked`, for an item that comes and for bytes and items that go.
add_aggregate : Counters → Item → Counters
add_aggregate c it = record {
  queued_bytes = c.queued_bytes +ℤ pos (size it);
  queued_items = c.queued_items +ℤ pos 1;
}

sub_aggregate : Counters → ℕ → ℕ → Counters
sub_aggregate c bytes items = record {
  queued_bytes = c.queued_bytes -ℤ pos bytes;
  queued_items = c.queued_items -ℤ pos items;
}

-- Would the item take the carrier over its aggregate limit?
pub over_budget : StreamQueue → Counters → Item → Bool
over_budget q c it = ltb_ℤ q.budget_limit (c.queued_bytes +ℤ pos (size it))

unfoldable pub full_locked : StreamQueue → Item → Bool
full_locked q it =
    ltb 0 (length q.overflow)
    || (leb q.max_frames (length q.items) || ltb q.max_bytes (q.n_bytes + size it))

reject_reason_locked : StreamQueue → Item → RejectReason
reject_reason_locked q it =
    if q.closed
    then reject_closed
    else if ltb 0 (length q.overflow)
    then reject_stream_frames
    else if leb q.max_frames (length q.items)
    then reject_stream_frames
    else if ltb q.max_bytes (q.n_bytes + size it)
    then reject_stream_bytes
    else reject_aggregate

wake_locked : StreamQueue → StreamQueue
wake_locked q = if ltb 0 q.n_waiters then record q { wake = false; n_waiters = 0 } else q

signal_free_locked : StreamQueue → StreamQueue
signal_free_locked q =
    if ltb 0 q.n_free_waiters then record q { free = false; n_free_waiters = 0 } else q

push_item : StreamQueue → Item → StreamQueue
unfolding wake_locked
push_item q it =
    wake_locked (record q { items = q.items ++ (it ∷ []); n_bytes = q.n_bytes + size it })

carry_item : StreamQueue → Item → StreamQueue
unfolding wake_locked
carry_item q it =
    wake_locked
      (record q { overflow = q.overflow ++ (it ∷ []); overflow_bytes = q.overflow_bytes + size it })

-- What a call tells its caller. `parked` ends a round: the caller waits for the channel.
pub data Reply : Type 0 where
  accepted : Reply
  refused : RejectReason → Reply
  cancelled : Reply
  parked : Reply
  popped : Item → Reply
  ended : Reply
  discarded : ℕ → Reply
  finished : Reply

abbrev pub Step : Type 0
Step = StreamQueue × Counters × Reply

pub try_push_reason : StreamQueue → Counters → Item → Step
unfolding full_locked over_budget reject_reason_locked push_item add_aggregate
try_push_reason q c it =
    if q.closed || full_locked q it
    then (q, c, refused (reject_reason_locked q it))
    else if over_budget q c it
    then (q, c, refused reject_aggregate)
    else (push_item q it, add_aggregate c it, accepted)

-- Does the carry region take the item, as far as its own bounds go?
pub carry_fits : StreamQueue → Item → Bool
carry_fits q it =
    if leb q.overflow_cap 0
    then false
    else if leb q.overflow_frame_cap (length q.overflow)
    then false
    else leb (q.overflow_bytes + size it) q.overflow_cap

pub try_carry : StreamQueue → Counters → Item → Step
unfolding carry_fits over_budget carry_item add_aggregate
try_carry q c it =
    if q.closed
    then (q, c, refused reject_closed)
    else if carry_fits q it
    then (if over_budget q c it
        then (q, c, refused reject_aggregate)
        else (carry_item q it, add_aggregate c it, accepted))
    else (q, c, refused reject_aggregate)

-- The end of a round of PushPark: the carry region if it fits, else the park.
park_or_carry : StreamQueue → Counters → Item → Step
unfolding carry_fits over_budget carry_item add_aggregate
park_or_carry q c it =
    let park : Step =
      (record q { free = true; n_free_waiters = q.n_free_waiters + 1 }, c, parked) in
    if carry_fits q it
    then (if over_budget q c it then park else (carry_item q it, add_aggregate c it, accepted))
    else park

pub push_park_round : StreamQueue → Counters → Item → Step
unfolding full_locked over_budget push_item add_aggregate park_or_carry
push_park_round q c it =
    if q.closed
    then (q, c, cancelled)
    else if full_locked q it
    then park_or_carry q c it
    else if over_budget q c it
    then park_or_carry q c it
    else (push_item q it, add_aggregate c it, accepted)

pub pop_round : StreamQueue → Counters → Step
unfolding signal_free_locked sub_aggregate
pop_round q c = elim q.items [
  | it ∷ rest ↦ (
    signal_free_locked (record q { items = rest; n_bytes = q.n_bytes - size it }),
    sub_aggregate c (size it) 1,
    popped it,
  )
  | [] ↦ elim q.overflow [
    | it ∷ rest ↦ (
      signal_free_locked
          (record q { overflow = rest; overflow_bytes = q.overflow_bytes - size it }),
      sub_aggregate c (size it) 1,
      popped it,
    )
    | [] ↦
        if q.closed
        then (q, c, ended)
        else (record q { wake = true; n_waiters = q.n_waiters + 1 }, c, parked)
  ]
]

pub close : StreamQueue → Counters → Step
unfolding wake_locked signal_free_locked sub_aggregate
close q c = if q.closed then (q, c, discarded 0) else (
  signal_free_locked (
      wake_locked
        (record q { closed = true; items = []; n_bytes = 0; overflow = []; overflow_bytes = 0 })),
  sub_aggregate c (q.n_bytes + q.overflow_bytes) (length q.items + length q.overflow),
  discarded (q.n_bytes + q.overflow_bytes),
)

pub data Op : Type 0 where
  push carry park : Item → Op
  pop close_queue : Op
  set_budget_limit : ℤ → Op
  set_overflow_cap : ℕ → Op

unfoldable pub step : StreamQueue → Counters → Op → Step
unfolding try_push_reason try_carry push_park_round pop_round close
step q c (push it) = try_push_reason q c it
step q c (carry it) = try_carry q c it
step q c (park it) = push_park_round q c it
step q c pop = pop_round q c
step q c close_queue = close q c
step q c (set_budget_limit n) = (record q { budget_limit = n }, c, finished)
step q c (set_overflow_cap n) = (record q { overflow_cap = n }, c, finished)
