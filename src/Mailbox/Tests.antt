-- ===== src/Mailbox/Tests.antt =====
-- The mailbox (pkg/mux/queue.go) on concrete inputs.
use iran_germany_split_tunne.Common.{
  ℕ, ◌≡◌, refl, List, [], ◌∷◌, ◌++◌, true, false, get_elem?, some, arith,
}
use iran_germany_split_tunne.Common.Int.{pos, ◌+ℤ◌, ◌-ℤ◌, ◌≤ℤ◌}
use iran_germany_split_tunne.Mailbox.{
  Item, StreamQueue, Counters, Op, push, carry, park, pop, close_queue, accepted, new_stream_queue,
  step, push_park_round,
}
use iran_germany_split_tunne.Mailbox.Invariant.{
  IsValid, IsBounded, step-IsValid, step-IsBounded, new_stream_queue-IsValid,
}
use iran_germany_split_tunne.Mailbox.Fifo.{contents, run, run_fifo}
use iran_germany_split_tunne.Mailbox.Aggregate.{
  Carrier, IsExact, run_at, run_at-IsExact, total, step_at, step_found,
}
use iran_germany_split_tunne.Mailbox.Budget.{IsWithin, run_at-IsWithin}

-- Two frames at most and four bytes; the carry region takes four bytes more.
abbrev small : StreamQueue
unfolding new_stream_queue
small = new_stream_queue 2 4 (pos 10)

abbrev zero_counters : Counters
zero_counters = record { queued_bytes = pos 0; queued_items = pos 0 }

abbrev data_item : ℕ → Item
data_item b = record { payload = b ∷ b ∷ []; is_close = false }

abbrev close_item : Item
close_item = record { payload = []; is_close = true }

small-IsValid : IsValid small
unfolding new_stream_queue
small-IsValid = (new_stream_queue-IsValid 2 4 (pos 10)).0

small-IsBounded : IsBounded small
unfolding new_stream_queue
small-IsBounded = (new_stream_queue-IsValid 2 4 (pos 10)).1

step-IsValid_example : IsValid (step small zero_counters (push (data_item 7))).0
step-IsValid_example = step-IsValid small zero_counters (push (data_item 7)) small-IsValid

step-IsBounded_example : IsBounded (step small zero_counters (park (data_item 7))).0
step-IsBounded_example =
    step-IsBounded small zero_counters (park (data_item 7)) (λ n e. cc) small-IsBounded

-- Two pushes fill the primary, the third item is carried, and the close behind it too.
abbrev some_ops : List Op
some_ops =
    push (data_item 1)
    ∷ push (data_item 2)
    ∷ push (data_item 3)
    ∷ carry (data_item 3)
    ∷ carry close_item
    ∷ pop
    ∷ pop
    ∷ pop
    ∷ []

run_fifo_example :
    (rest : List Item) × (contents small ++ (run small zero_counters some_ops).takes
      ≡ (run small zero_counters some_ops).hands ++ rest)
    × ((run small zero_counters some_ops).queue.closed ≡ false
        → rest ≡ contents (run small zero_counters some_ops).queue)
run_fifo_example = run_fifo small zero_counters some_ops small-IsValid

-- What the history really does: three items come out in order, and the close stays.
run_hands : (run small zero_counters some_ops).hands ≡ data_item 1 ∷ data_item 2 ∷ data_item 3 ∷ []
unfolding run new_stream_queue step ◌+ℤ◌ ◌-ℤ◌
run_hands = refl

run_left : contents (run small zero_counters some_ops).queue ≡ close_item ∷ []
unfolding run new_stream_queue step ◌+ℤ◌ ◌-ℤ◌
run_left = refl

-- Two mailboxes on one carrier.
abbrev pair : Carrier
pair = record { queues = small ∷ small ∷ []; counters = zero_counters }

pair-IsExact : IsExact pair
unfolding total new_stream_queue
pair-IsExact = record {
  queues_valid = (small-IsValid, (small-IsValid, tt));
  bytes = refl;
  items = refl;
}

pair-IsWithin : IsWithin (pos 10) pair
unfolding new_stream_queue
pair-IsWithin = record { limits = (refl, (refl, tt)); bytes = omega arith }

abbrev schedule : List (ℕ × Op)
schedule = (0, push (data_item 1)) ∷ (1, push (data_item 2)) ∷ (0, pop) ∷ (1, close_queue) ∷ []

run_at-IsExact_example : IsExact (run_at pair schedule)
run_at-IsExact_example = run_at-IsExact pair schedule pair-IsExact

run_at-IsWithin_example : IsWithin (pos 10) (run_at pair schedule)
run_at-IsWithin_example =
    run_at-IsWithin (pos 10) pair schedule
      ((λ n e. cc), ((λ n e. cc), ((λ n e. cc), ((λ n e. cc), tt)))) pair-IsWithin

-- Mailbox 1 holds most of the budget. Mailbox 0 has no room for the large item, so its pusher parks;
-- its consumer takes the one item there is and wakes the pusher, which parks again for the budget.
abbrev tight : StreamQueue
unfolding new_stream_queue
tight = new_stream_queue 4 4 (pos 9)

abbrev tight_pair : Carrier
tight_pair = record { queues = tight ∷ tight ∷ []; counters = zero_counters }

abbrev large_item : Item
large_item = record { payload = 1 ∷ 2 ∷ 3 ∷ 4 ∷ []; is_close = false }

abbrev until_parked : List (ℕ × Op)
until_parked =
    (0, push (data_item 1))
    ∷ (1, push (data_item 2))
    ∷ (1, push (data_item 3))
    ∷ (1, carry (data_item 4))
    ∷ (0, park large_item)
    ∷ (0, pop)
    ∷ (0, park large_item)
    ∷ (0, pop)
    ∷ []

abbrev stranded : StreamQueue
stranded = record tight { wake = true; n_waiters = 1; free = true; n_free_waiters = 1 }

stranded_reached : get_elem? (run_at tight_pair until_parked).queues 0 ≡ some stranded
unfolding run_at step_at step_found new_stream_queue step ◌+ℤ◌ ◌-ℤ◌
stranded_reached = refl

abbrev drain : List (ℕ × Op)
drain = (1, pop) ∷ (1, pop) ∷ (1, pop) ∷ []

drained : (run_at (run_at tight_pair until_parked) drain).counters.queued_bytes ≡ pos 0
unfolding run_at step_at step_found new_stream_queue step ◌+ℤ◌ ◌-ℤ◌
drained = refl

-- With no other byte on the carrier the item is within the limit.
room_again : (run_at (run_at tight_pair until_parked) drain).counters.queued_bytes +ℤ pos 4 ≤ℤ pos 9
unfolding ◌+ℤ◌
room_again = rw drained (omega arith)

-- The pusher parked for the budget, and its item would be taken now; its mailbox did not change.
still_parked :
    (get_elem? (run_at (run_at tight_pair until_parked) drain).queues 0 ≡ some stranded)
    × ((push_park_round stranded
          (run_at (run_at tight_pair until_parked) drain).counters
          large_item).2
        ≡ accepted)
unfolding run_at step_at step_found new_stream_queue step push_park_round ◌+ℤ◌ ◌-ℤ◌
still_parked = (refl, refl)
