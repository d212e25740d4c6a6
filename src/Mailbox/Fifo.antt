-- ===== src/Mailbox/Fifo.antt =====
-- Order in a mailbox (pkg/mux/queue.go): primary and carry region together are one FIFO queue.
use iran_germany_split_tunne.Common.{
  ◌≡◌, refl, sym, ap, ◌∙◌, inl, inr, true, false, List, [], ◌∷◌, ◌++◌, append_assoc, append-nil,
  Bool-cases, empty_of_length, arith,
}
use iran_germany_split_tunne.Mailbox.{
  Item, StreamQueue, Counters, Op, push, carry, park, pop, close_queue, set_budget_limit,
  set_overflow_cap, Reply, accepted, popped, step,
}
use iran_germany_split_tunne.Mailbox.Invariant.{IsValid, step-IsValid}

-- What the consumer has still to see, oldest first.
abbrev pub contents : StreamQueue → List Item
contents q = q.items ++ q.overflow

-- The item that a step took in, and the item that it handed out.
unfoldable pub taken : Op → Reply → List Item
taken (push it) accepted = it ∷ []
taken (carry it) accepted = it ∷ []
taken (park it) accepted = it ∷ []
taken op r = []

unfoldable pub handed : Reply → List Item
handed (popped it) = it ∷ []
handed r = []

-- A step of an open mailbox that stays open puts what it takes at the end, and hands out the front.
step_fifo :
    (q : StreamQueue) (c : Counters) (op : Op)
    → let (q', c', r) = step q c op in
      q'.closed ≡ false → contents q ++ taken op r ≡ handed r ++ contents q'
unfolding step taken handed
step_fifo q c (push it) h = ground (
  arith,
  empty_of_length q.overflow,
  append-nil q.items,
  append-nil (q.items ++ (it ∷ [])),
  append-nil (q.items ++ q.overflow),
)
step_fifo q c (carry it) h =
    ground (arith, append_assoc q.items q.overflow (it ∷ []), append-nil (q.items ++ q.overflow))
step_fifo q c (park it) h = ground (
  arith,
  empty_of_length q.overflow,
  append-nil q.items,
  append-nil (q.items ++ (it ∷ [])),
  append_assoc q.items q.overflow (it ∷ []),
  append-nil (q.items ++ q.overflow),
)
step_fifo q c pop h = ground (arith, append-nil (q.items ++ q.overflow))
step_fifo q c close_queue h = ground (arith, append-nil (q.items ++ q.overflow))
step_fifo q c (set_budget_limit n) h = append-nil (contents q)
step_fifo q c (set_overflow_cap n) h = append-nil (contents q)

-- A closed mailbox takes nothing, hands out nothing and stays closed.
closed_inert :
    (q : StreamQueue) (c : Counters) (op : Op)
    → IsValid q
    → q.closed ≡ true
    → let (q', c', r) = step q c op in (q'.closed ≡ true) × (taken op r ≡ []) × (handed r ≡ [])
unfolding step taken handed
closed_inert q c (push it) v h = ground arith
closed_inert q c (carry it) v h = ground arith
closed_inert q c (park it) v h = ground arith
closed_inert q c pop v h = ground (arith, v.closed_empty h)
closed_inert q c close_queue v h = ground arith
closed_inert q c (set_budget_limit n) v h = ground arith
closed_inert q c (set_overflow_cap n) v h = ground arith

-- A step that closes the mailbox hands out nothing and takes nothing.
closing_inert :
    (q : StreamQueue) (c : Counters) (op : Op)
    → q.closed ≡ false
    → let (q', c', r) = step q c op in q'.closed ≡ true → (taken op r ≡ []) × (handed r ≡ [])
unfolding step taken handed
closing_inert q c (push it) o h = ground arith
closing_inert q c (carry it) o h = ground arith
closing_inert q c (park it) o h = ground arith
closing_inert q c pop o h = ground arith
closing_inert q c close_queue o h = ground arith
closing_inert q c (set_budget_limit n) o h = ground arith
closing_inert q c (set_overflow_cap n) o h = ground arith

-- A history of operations: the last queue, and the items taken and handed out on the way.
pub record History : Type 0 where
  pub queue : StreamQueue
  pub counters : Counters
  pub takes : List Item
  pub hands : List Item

unfoldable pub run : StreamQueue → Counters → List Op → History
unfolding taken handed
run q c [] = record { queue = q; counters = c; takes = []; hands = [] }
run q c (op ∷ ops) =
    let (q', c', r) = step q c op in
    let h = run q' c' ops in record h { takes = taken op r ++ h.takes; hands = handed r ++ h.hands }

run_closed :
    (q : StreamQueue) (c : Counters) (ops : List Op)
    → IsValid q
    → q.closed ≡ true
    → ((run q c ops).takes ≡ []) × ((run q c ops).hands ≡ []) × ((run q c ops).queue.closed ≡ true)
unfolding run
run_closed q c [] v h = (refl, refl, h)
run_closed q c (op ∷ ops) v h =
    let (shut, t, u) = closed_inert q c op v h in
    let (q', c', r) = step q c op in
    let (ts, us, last) = run_closed q' c' ops (step-IsValid q c op v) shut in
    (rw (t, ts) refl, rw (u, us) refl, last)

-- One step before a history, in an open mailbox.
prepend_fifo :
    (now took gave next takes hands lost : List Item)
    → now ++ took ≡ gave ++ next
    → next ++ takes ≡ hands ++ lost
    → now ++ (took ++ takes) ≡ (gave ++ hands) ++ lost
prepend_fifo now took gave next takes hands lost e h =
    sym (append_assoc now took takes)
    ∙ ap (λ xs. xs ++ takes) e
    ∙ append_assoc gave next takes
    ∙ ap (◌++◌ gave) h
    ∙ sym (append_assoc gave hands lost)

-- The mailbox is one FIFO queue over any sequence of operations, also where items were carried: the
-- items handed out are, in order, the front of what it held and then took in. The rest of that list
-- is what the mailbox still holds, as long as it was not closed.
pub run_fifo :
    (q : StreamQueue) (c : Counters) (ops : List Op)
    → IsValid q
    → (rest : List Item) × (contents q ++ (run q c ops).takes ≡ (run q c ops).hands ++ rest)
      × ((run q c ops).queue.closed ≡ false → rest ≡ contents (run q c ops).queue)
unfolding run
run_fifo q c [] v = (contents q, append-nil (contents q), λ h. refl)
run_fifo q c (op ∷ ops) v = elim (Bool-cases q.closed) [
  | inl shut ↦
      let (ts, us, last) = run_closed q c (op ∷ ops) v shut in
      (contents q, rw (ts, us) (append-nil (contents q)), λ h. cc (last))
  | inr here ↦
      let (q', c', r) = step q c op in
      let v' = step-IsValid q c op v in
      elim (Bool-cases q'.closed) [
        | inl shut ↦
            let (t, u) = closing_inert q c op here shut in
            let (ts, us, last) = run_closed q' c' ops v' shut in
            (contents q, rw (t, u, ts, us) (append-nil (contents q)), λ h. cc (last))
        | inr still ↦
            let (rest, e, same) = run_fifo q' c' ops v' in
            (
              rest,
              prepend_fifo (contents q) (taken op r) (handed r) (contents q') (run q' c' ops).takes
                  (run q' c' ops).hands rest (step_fifo q c op still) e,
              same,
            )
      ]
]
