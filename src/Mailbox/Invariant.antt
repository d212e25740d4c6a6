-- ===== src/Mailbox/Invariant.antt =====
-- What holds of a mailbox (pkg/mux/queue.go) between two operations.
use iran_germany_split_tunne.Common.{
  ℕ, ◌+◌, ◌*◌, ◌^◌, ◌≤◌, ◌<◌, ◌≡◌, refl, true, false, List, [], ◌∷◌, ◌++◌, length, length-append,
  arith,
}
use iran_germany_split_tunne.Common.Int.{ℤ}
use iran_germany_split_tunne.Mailbox.{
  Item, StreamQueue, Counters, Op, push, carry, park, pop, close_queue, set_budget_limit,
  set_overflow_cap, size, step, new_stream_queue,
}

unfoldable pub sum_sizes : List Item → ℕ
sum_sizes [] = 0
sum_sizes (it ∷ its) = size it + sum_sizes its

pub sum_sizes-append : (xs ys : List Item) → sum_sizes (xs ++ ys) ≡ sum_sizes xs + sum_sizes ys
unfolding sum_sizes
sum_sizes-append [] ys = omega arith
sum_sizes-append (x ∷ xs) ys = omega (arith, sum_sizes-append xs ys)

-- The byte counts are exact; a closed mailbox is empty; a consumer is parked only on an empty open
-- mailbox, on a channel that is there to be closed, and so is a parked pusher.
pub record IsValid (q : StreamQueue) : Type 0 where
  pub bytes_exact : q.n_bytes ≡ sum_sizes q.items
  pub overflow_exact : q.overflow_bytes ≡ sum_sizes q.overflow
  pub closed_empty : q.closed ≡ true → (q.items ≡ []) × (q.overflow ≡ [])
  pub consumer_idle :
      0 < q.n_waiters → (q.items ≡ []) × (q.overflow ≡ []) × (q.closed ≡ false) × (q.wake ≡ true)
  pub pusher_parked : 0 < q.n_free_waiters → (q.closed ≡ false) × (q.free ≡ true)

push-IsValid :
    (q : StreamQueue) (c : Counters) (it : Item) → IsValid q → IsValid (step q c (push it)).0
unfolding step sum_sizes
push-IsValid q c it v = ground (arith, sum_sizes-append q.items (it ∷ []))

carry-IsValid :
    (q : StreamQueue) (c : Counters) (it : Item) → IsValid q → IsValid (step q c (carry it)).0
unfolding step sum_sizes
carry-IsValid q c it v = ground (arith, sum_sizes-append q.overflow (it ∷ []))

park-IsValid :
    (q : StreamQueue) (c : Counters) (it : Item) → IsValid q → IsValid (step q c (park it)).0
unfolding step sum_sizes
park-IsValid q c it v =
    ground (arith, sum_sizes-append q.items (it ∷ []), sum_sizes-append q.overflow (it ∷ []))

pop-IsValid : (q : StreamQueue) (c : Counters) → IsValid q → IsValid (step q c pop).0
unfolding step sum_sizes
pop-IsValid q c v = ground arith

close-IsValid : (q : StreamQueue) (c : Counters) → IsValid q → IsValid (step q c close_queue).0
unfolding step sum_sizes
close-IsValid q c v = ground arith

-- Every operation keeps the mailbox valid: exact byte counts, nothing left in a closed mailbox, and
-- no consumer asleep while an item waits for it.
pub step-IsValid : (q : StreamQueue) (c : Counters) (op : Op) → IsValid q → IsValid (step q c op).0
step-IsValid q c (push it) v = push-IsValid q c it v
step-IsValid q c (carry it) v = carry-IsValid q c it v
step-IsValid q c (park it) v = park-IsValid q c it v
step-IsValid q c pop v = pop-IsValid q c v
step-IsValid q c close_queue v = close-IsValid q c v
step-IsValid q c (set_budget_limit n) v = unfold step in ground arith
step-IsValid q c (set_overflow_cap n) v = unfold step in ground arith

-- The memory bound: both regions stay within their frames and their bytes.
pub record IsBounded (q : StreamQueue) : Type 0 where
  pub frames : length q.items ≤ q.max_frames
  pub bytes : q.n_bytes ≤ q.max_bytes
  pub overflow_frames : length q.overflow ≤ q.overflow_frame_cap
  pub carried_bytes : q.overflow_bytes ≤ q.overflow_cap

-- Every operation but a change of the carry cap keeps both regions within the bounds that the
-- mailbox has; a new cap does so too unless it is below the bytes that are carried already.
pub step-IsBounded :
    (q : StreamQueue) (c : Counters) (op : Op)
    → ((n : ℕ) → op ≡ set_overflow_cap n → q.overflow_bytes ≤ n)
    → IsBounded q
    → IsBounded (step q c op).0
unfolding step
step-IsBounded q c (push it) h b = ground (arith, length-append q.items (it ∷ []))
step-IsBounded q c (carry it) h b = ground (arith, length-append q.overflow (it ∷ []))
step-IsBounded q c (park it) h b =
    ground (arith, length-append q.items (it ∷ []), length-append q.overflow (it ∷ []))
step-IsBounded q c pop h b = ground arith
step-IsBounded q c close_queue h b = ground arith
step-IsBounded q c (set_budget_limit n) h b = ground arith
step-IsBounded q c (set_overflow_cap n) h b = ground (arith, h n refl)

pub new_stream_queue-IsValid :
    (max_frames max_bytes : ℕ) (limit : ℤ)
    → IsValid (new_stream_queue max_frames max_bytes limit)
      × IsBounded (new_stream_queue max_frames max_bytes limit)
unfolding new_stream_queue sum_sizes
new_stream_queue-IsValid max_frames max_bytes limit = ground arith

-- The carry region's frame cap is sixteen times the primary's, unless that product is too large for
-- an int; then it is the primary's own.
pub overflow_frame_cap_lem :
    (max_frames max_bytes : ℕ) (limit : ℤ)
    → let cap = (new_stream_queue max_frames max_bytes limit).overflow_frame_cap in
      (max_frames * 16 < 2 ^ 63 → cap ≡ max_frames * 16) × (max_frames < 2 ^ 63 → max_frames ≤ cap)
unfolding new_stream_queue
overflow_frame_cap_lem max_frames max_bytes limit = ground arith
