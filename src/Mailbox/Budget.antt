-- ===== src/Mailbox/Budget.antt =====
-- The carrier-wide byte limit (pkg/mux/queue.go, `budgetLimitLocked`).
use iran_germany_split_tunne.Common.{
  ℕ, ◌+◌, ◌≡◌, refl, ◌≢◌, inl, inr, Option, none, some, List, [], ◌∷◌, get_elem?, All, All-get,
  All-set, List-cases, arith,
}
use iran_germany_split_tunne.Common.Int.{ℤ, pos, ◌≤ℤ◌, +ℤ_parts, -ℤ_parts}
use iran_germany_split_tunne.Mailbox.{
  StreamQueue, Counters, Op, push, carry, park, pop, close_queue, set_budget_limit,
  set_overflow_cap, size, step,
}
use iran_germany_split_tunne.Mailbox.Aggregate.{Carrier, step_found, step_at, run_at}

abbrev HasLimit : ℤ → StreamQueue → Type 0
HasLimit limit q = q.budget_limit ≡ limit

-- All mailboxes have the same limit, and the carrier holds no more bytes than that.
pub record IsWithin (limit : ℤ) (m : Carrier) : Type 0 where
  pub limits : All (HasLimit limit) m.queues
  pub bytes : m.counters.queued_bytes ≤ℤ limit

abbrev pub KeepsLimit : Op → Type 0
KeepsLimit op = (n : ℤ) → op ≢ set_budget_limit n

step-within :
    (limit : ℤ) (q : StreamQueue) (c : Counters) (op : Op)
    → KeepsLimit op
    → HasLimit limit q
    → c.queued_bytes ≤ℤ limit
    → let (q', c', r) = step q c op in HasLimit limit q' × (c'.queued_bytes ≤ℤ limit)
unfolding step
step-within limit q c (push it) k h b = ground (arith, +ℤ_parts c.queued_bytes (pos (size it)))
step-within limit q c (carry it) k h b = ground (arith, +ℤ_parts c.queued_bytes (pos (size it)))
step-within limit q c (park it) k h b = ground (arith, +ℤ_parts c.queued_bytes (pos (size it)))
step-within limit q c pop k h b = elim (List-cases q.items) [
  | inr (it, rest, e) ↦ ground (arith, -ℤ_parts c.queued_bytes (pos (size it)))
  | inl e ↦ elim (List-cases q.overflow) [
    | inr (it, rest, e') ↦ ground (arith, -ℤ_parts c.queued_bytes (pos (size it)))
    | inl e' ↦ ground arith
  ]
]
step-within limit q c close_queue k h b =
    ground (arith, -ℤ_parts c.queued_bytes (pos (q.n_bytes + q.overflow_bytes)))
step-within limit q c (set_budget_limit n) k h b = absurd (k n refl)
step-within limit q c (set_overflow_cap n) k h b = (h, b)

step_found-IsWithin :
    (limit : ℤ) (m : Carrier) (i : ℕ) (op : Op) (o : Option StreamQueue)
    → KeepsLimit op
    → get_elem? m.queues i ≡ o
    → IsWithin limit m
    → IsWithin limit (step_found m i op o)
unfolding step_found
step_found-IsWithin limit m i op none k e w = w
step_found-IsWithin limit m i op (some q) k e w =
    let h : HasLimit limit q = All-get (HasLimit limit) m.queues i w.limits e in
    let (q', c', r) = step q m.counters op in
    let (h', b) = step-within limit q m.counters op k h w.bytes in
    record { limits = All-set (HasLimit limit) m.queues i q' w.limits h'; bytes = b }

-- As long as the limit is not changed, no interleaving of the mailboxes' operations takes the bytes
-- of the whole carrier over it.
pub run_at-IsWithin :
    (limit : ℤ) (m : Carrier) (ops : List (ℕ × Op))
    → All (λ (p : ℕ × Op). KeepsLimit p.1) ops
    → IsWithin limit m
    → IsWithin limit (run_at m ops)
unfolding run_at step_at
run_at-IsWithin limit m [] k w = w
run_at-IsWithin limit m ((i, op) ∷ ops) (k, ks) w =
    run_at-IsWithin limit (step_at m i op) ops ks
      (step_found-IsWithin limit m i op (get_elem? m.queues i) k refl w)
