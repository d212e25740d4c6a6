-- ===== src/Mailbox/Aggregate.antt =====
-- The mailboxes of one carrier (pkg/mux/queue.go, `budget` and `queuedItems`): all charge the same
-- two counters, in any interleaving of their operations.
use iran_germany_split_tunne.Common.{
  ℕ, zero, suc, ◌+◌, ◌-◌, ◌≡◌, refl, ap, ◌∙◌, inl, inr, Option, none, some, List, [], ◌∷◌, ◌++◌,
  length, length-append, get_elem?, set, All, All-get, All-set, List-cases, arith,
}
use iran_germany_split_tunne.Common.Int.{ℤ, pos, ◌+ℤ◌, ◌-ℤ◌, int_laws}
use iran_germany_split_tunne.Mailbox.{
  Item, StreamQueue, Counters, Step, Op, push, carry, park, pop, close_queue, set_budget_limit,
  set_overflow_cap, size, step,
}
use iran_germany_split_tunne.Mailbox.Invariant.{IsValid, step-IsValid, sum_sizes}

abbrev pub bytes_in : StreamQueue → ℕ
bytes_in q = q.n_bytes + q.overflow_bytes

abbrev pub items_in : StreamQueue → ℕ
items_in q = length q.items + length q.overflow

-- What a step adds to the counters is what it adds to the mailbox.
abbrev Balanced : StreamQueue → Counters → Step → Type 0
Balanced q c (q', c', r) =
    (c'.queued_bytes +ℤ pos (bytes_in q) ≡ c.queued_bytes +ℤ pos (bytes_in q'))
    × (c'.queued_items +ℤ pos (items_in q) ≡ c.queued_items +ℤ pos (items_in q'))

add_then : (z : ℤ) (s b b' : ℕ) → b' ≡ b + s → z +ℤ pos s +ℤ pos b ≡ z +ℤ pos b'
add_then z s b b' h = omega int_laws

sub_then : (z : ℤ) (s b b' : ℕ) → b ≡ b' + s → z -ℤ pos s +ℤ pos b ≡ z +ℤ pos b'
sub_then z s b b' h = omega int_laws

module _ (q : StreamQueue) (c : Counters) (it : Item) where
  added_bytes :
      c.queued_bytes +ℤ pos (size it) +ℤ pos (bytes_in q)
      ≡ c.queued_bytes +ℤ pos (q.n_bytes + size it + q.overflow_bytes)
  added_bytes = add_then c.queued_bytes (size it) (bytes_in q) _ (omega arith)

  carried_bytes :
      c.queued_bytes +ℤ pos (size it) +ℤ pos (bytes_in q)
      ≡ c.queued_bytes +ℤ pos (q.n_bytes + (q.overflow_bytes + size it))
  carried_bytes = add_then c.queued_bytes (size it) (bytes_in q) _ (omega arith)

  added_items :
      c.queued_items +ℤ pos 1 +ℤ pos (items_in q)
      ≡ c.queued_items +ℤ pos (length (q.items ++ (it ∷ [])) + length q.overflow)
  added_items =
      add_then c.queued_items 1 (items_in q) _ (omega (arith, length-append q.items (it ∷ [])))

  carried_items :
      c.queued_items +ℤ pos 1 +ℤ pos (items_in q)
      ≡ c.queued_items +ℤ pos (length q.items + length (q.overflow ++ (it ∷ [])))
  carried_items =
      add_then c.queued_items 1 (items_in q) _ (omega (arith, length-append q.overflow (it ∷ [])))

  push-Balanced : Balanced q c (step q c (push it))
  unfolding step
  push-Balanced = ground (arith, added_bytes, added_items)

  carry-Balanced : Balanced q c (step q c (carry it))
  unfolding step
  carry-Balanced = ground (arith, carried_bytes, carried_items)

  park-Balanced : Balanced q c (step q c (park it))
  unfolding step
  park-Balanced = ground (arith, added_bytes, added_items, carried_bytes, carried_items)

popped_primary :
    (q : StreamQueue) (it : Item) (rest : List Item)
    → q.items ≡ it ∷ rest
    → IsValid q
    → (bytes_in q ≡ q.n_bytes - size it + q.overflow_bytes + size it)
      × (items_in q ≡ length rest + length q.overflow + 1)
unfolding sum_sizes
popped_primary q it rest e v = omega (arith, ap sum_sizes e, ap length e)

popped_carry :
    (q : StreamQueue) (it : Item) (rest : List Item)
    → q.overflow ≡ it ∷ rest
    → IsValid q
    → (bytes_in q ≡ q.n_bytes + (q.overflow_bytes - size it) + size it)
      × (items_in q ≡ length q.items + length rest + 1)
unfolding sum_sizes
popped_carry q it rest e v = omega (arith, ap sum_sizes e, ap length e)

pop-Balanced : (q : StreamQueue) (c : Counters) → IsValid q → Balanced q c (step q c pop)
unfolding step
pop-Balanced q c v = elim (List-cases q.items) [
  | inr (it, rest, e) ↦ ground (
    arith,
    popped_primary q it rest e v,
    sub_then c.queued_bytes (size it) (bytes_in q) (q.n_bytes - size it + q.overflow_bytes),
    sub_then c.queued_items 1 (items_in q) (length rest + length q.overflow),
  )
  | inl none_left ↦ elim (List-cases q.overflow) [
    | inr (it, rest, e) ↦ ground (
      arith,
      popped_carry q it rest e v,
      sub_then c.queued_bytes (size it) (bytes_in q) (q.n_bytes + (q.overflow_bytes - size it)),
      sub_then c.queued_items 1 (items_in q) (length q.items + length rest),
    )
    | inl e ↦ ground arith
  ]
]

close-Balanced : (q : StreamQueue) (c : Counters) → Balanced q c (step q c close_queue)
unfolding step
close-Balanced q c = ground (
  arith,
  sub_then c.queued_bytes (bytes_in q) (bytes_in q) 0,
  sub_then c.queued_items (items_in q) (items_in q) 0,
)

step-Balanced : (q : StreamQueue) (c : Counters) (op : Op) → IsValid q → Balanced q c (step q c op)
step-Balanced q c (push it) v = push-Balanced q c it
step-Balanced q c (carry it) v = carry-Balanced q c it
step-Balanced q c (park it) v = park-Balanced q c it
step-Balanced q c pop v = pop-Balanced q c v
step-Balanced q c close_queue v = close-Balanced q c
step-Balanced q c (set_budget_limit n) v = unfold step in (refl, refl)
step-Balanced q c (set_overflow_cap n) v = unfold step in (refl, refl)

-- The mailboxes of a carrier with its counters, and a step of the mailbox at place `i`.
pub record Carrier : Type 0 where
  pub queues : List StreamQueue
  pub counters : Counters

unfoldable pub step_found : Carrier → ℕ → Op → Option StreamQueue → Carrier
step_found m i op none = m
step_found m i op (some q) =
    let (q', c', r) = step q m.counters op in record { queues = set m.queues i q'; counters = c' }

unfoldable pub step_at : Carrier → ℕ → Op → Carrier
unfolding step_found
step_at m i op = step_found m i op (get_elem? m.queues i)

unfoldable pub run_at : Carrier → List (ℕ × Op) → Carrier
run_at m [] = m
run_at m ((i, op) ∷ ops) = run_at (step_at m i op) ops

unfoldable pub total : (StreamQueue → ℕ) → List StreamQueue → ℕ
total f [] = 0
total f (q ∷ qs) = f q + total f qs

total-set :
    (f : StreamQueue → ℕ) (qs : List StreamQueue) (i : ℕ) (q q' : StreamQueue)
    → get_elem? qs i ≡ some q
    → total f (set qs i q') + f q ≡ total f qs + f q'
unfolding total
total-set f [] i q q' e = cc
total-set f (p ∷ ps) zero q q' e = let same : f p ≡ f q = cc in omega arith
total-set f (p ∷ ps) (suc i) q q' e = omega (arith, total-set f ps i q q' e)

-- The shared counters are exactly what the mailboxes hold.
pub record IsExact (m : Carrier) : Type 0 where
  pub queues_valid : All IsValid m.queues
  pub bytes : m.counters.queued_bytes ≡ pos (total bytes_in m.queues)
  pub items : m.counters.queued_items ≡ pos (total items_in m.queues)

-- Sums of integers, from the natural numbers that they come from.
rebalance : (c' : ℤ) (t t' b b' : ℕ) → c' +ℤ pos b ≡ pos t +ℤ pos b' → t' + b ≡ t + b' → c' ≡ pos t'
unfolding ◌+ℤ◌
rebalance c' t t' b b' e h = ground arith

pub step_found-IsExact :
    (m : Carrier) (i : ℕ) (op : Op) (o : Option StreamQueue)
    → get_elem? m.queues i ≡ o
    → IsExact m
    → IsExact (step_found m i op o)
unfolding step_found
step_found-IsExact m i op none e x = x
step_found-IsExact m i op (some q) e x =
    let v : IsValid q = All-get IsValid m.queues i x.queues_valid e in
    let (q', c', r) = step q m.counters op in
    let (b, n) = step-Balanced q m.counters op v in
    record {
      queues_valid = All-set IsValid m.queues i q' x.queues_valid (step-IsValid q m.counters op v);
      bytes =
          rebalance c'.queued_bytes (total bytes_in m.queues) (total bytes_in (set m.queues i q'))
            (bytes_in q) (bytes_in q') (b ∙ ap (λ z. z +ℤ pos (bytes_in q')) x.bytes)
            (total-set bytes_in m.queues i q q' e);
      items =
          rebalance c'.queued_items (total items_in m.queues) (total items_in (set m.queues i q'))
            (items_in q) (items_in q') (n ∙ ap (λ z. z +ℤ pos (items_in q')) x.items)
            (total-set items_in m.queues i q q' e);
    }

-- Under any interleaving of the mailboxes' operations the carrier's byte and item counters are
-- exactly what all its mailboxes hold, so they never drift and never fall below zero.
pub run_at-IsExact : (m : Carrier) (ops : List (ℕ × Op)) → IsExact m → IsExact (run_at m ops)
unfolding run_at step_at
run_at-IsExact m [] x = x
run_at-IsExact m ((i, op) ∷ ops) x =
    run_at-IsExact (step_at m i op) ops (step_found-IsExact m i op (get_elem? m.queues i) refl x)
