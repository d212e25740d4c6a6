-- ===== src/Governor/Touch.antt =====
-- pkg/node/target_dial_governor.go: touchMRU keeps the map and the recency order in step.
use iran_germany_split_tunne.Common.{
  ◌+◌, ◌≤◌, ◌<◌, ◌≡◌, ap, ◌⊎◌, inl, inr, true, none, some, List, [], ◌∷◌, ◌++◌, length,
  length-append, leb, if◌then◌else◌, Option-cases, Bool-cases, List-cases, arith,
}
use iran_germany_split_tunne.Common.Assoc.{
  string_eq, lookup, insert, delete, lookup-insert, lookup-delete, Unique, insert-Unique,
  delete-Unique, value_at,
}
use iran_germany_split_tunne.Governor.{
  Governor, GovernorEntry, touch_mru, make_room, store, remove_first, contains, new_entry,
}
use Prim.Native.String.{String}
use iran_germany_split_tunne.Governor.Recency.{
  length-insert, length-delete, once, occurs, occurs-append, occurs-remove_first,
  length-remove_first,
}

-- The map holds each target once, `order` lists exactly these targets, and there is room for them.
pub record IsSized (g : Governor) : Type 0 where
  pub unique : Unique g.entries
  pub listed : (t : String) → occurs t g.order ≡ value_at once (lookup t g.entries)
  pub same_length : length g.order ≡ length g.entries
  pub bounded : length g.entries ≤ g.max_targets
  pub room : 1 ≤ g.max_targets

-- An entry of a listed target is replaced.
pub store-IsSized :
    (g : Governor) (t : String) (e d : GovernorEntry)
    → lookup t g.entries ≡ some d
    → IsSized g
    → IsSized (store g t e)
unfolding store
store-IsSized g t e d h s = record {
  unique = insert-Unique t e g.entries s.unique;
  listed = λ u. ground (arith, s.listed u, lookup-insert t u e g.entries, string_eq.beq_iff t u);
  same_length = ground (arith, s.same_length, length-insert t e g.entries);
  bounded = ground (arith, s.bounded, length-insert t e g.entries);
  room = s.room;
}

abbrev pub without : Governor → String → List String → Governor
without g evict rest = record g { order = rest; entries = delete evict g.entries }

pub occurs_head : (t : String) (order : List String) → 1 ≤ occurs t (t ∷ order)
unfolding occurs
occurs_head t order = ground (arith, string_eq.beq_iff t t)

pub oldest_listed :
    (g : Governor) (evict : String) (rest : List String)
    → g.order ≡ evict ∷ rest
    → IsSized g
    → value_at once (lookup evict g.entries) ≡ 1
unfolding occurs
oldest_listed g evict rest e s = ground (arith, s.listed evict, e, occurs_head evict rest)

pub length_rest :
    (g : Governor) (evict : String) (rest : List String)
    → g.order ≡ evict ∷ rest
    → IsSized g
    → (length rest ≡ length (delete evict g.entries)) × (length rest + 1 ≡ length g.entries)
length_rest g evict rest e s = ground (
  arith,
  s.same_length,
  ap length e,
  oldest_listed g evict rest e s,
  length-delete evict g.entries s.unique,
)

pub without-IsSized :
    (g : Governor) (evict : String) (rest : List String)
    → g.order ≡ evict ∷ rest
    → IsSized g
    → IsSized (without g evict rest) × (length (delete evict g.entries) < g.max_targets)
unfolding occurs
without-IsSized g evict rest e s = (
  record {
    unique = delete-Unique evict g.entries s.unique;
    listed = λ u.
        ground (arith, s.listed u, e, lookup-delete evict u g.entries, string_eq.beq_iff evict u);
    same_length = (length_rest g evict rest e s).0;
    bounded = omega (arith, length_rest g evict rest e s, s.bounded);
    room = s.room;
  },
  omega (arith, length_rest g evict rest e s, s.bounded),
)

pub make_room_cases :
    (g : Governor)
    → IsSized g
    → ((make_room g ≡ g) × (length g.entries < g.max_targets))
      ⊎ ((evict : String) × (rest : List String) × (g.order ≡ evict ∷ rest)
          × (make_room g ≡ without g evict rest))
unfolding make_room
make_room_cases g s = elim (List-cases g.order) [
  | inl e ↦ inl (ground (arith, e, s.same_length, ap length e, s.room))
  | inr (evict, rest, e) ↦ elim (Bool-cases (leb g.max_targets (length g.entries))) [
    | inl full ↦ inr (evict, rest, e, ground arith)
    | inr h ↦ inl (ground arith)
  ]
]

pub make_room-IsSized :
    (g : Governor)
    → IsSized g
    → IsSized (make_room g) × (length (make_room g).entries < (make_room g).max_targets)
make_room-IsSized g s = elim (make_room_cases g s) [
  | inl (e, h) ↦ rw e (s, h)
  | inr (evict, rest, e, h) ↦ rw h (without-IsSized g evict rest e s)
]

pub make_room_absent :
    (g : Governor) (t : String)
    → IsSized g
    → lookup t g.entries ≡ none
    → lookup t (make_room g).entries ≡ none
make_room_absent g t s h = elim (make_room_cases g s) [
  | inl (e, _) ↦ rw e h
  | inr (evict, rest, e, m) ↦ rw m (ground (arith, h, lookup-delete evict t g.entries))
]

abbrev pub added : Governor → String → Governor
added g t = record g { entries = insert t new_entry g.entries; order = g.order ++ (t ∷ []) }

pub added-IsSized :
    (g : Governor) (t : String)
    → lookup t g.entries ≡ none
    → length g.entries < g.max_targets
    → IsSized g
    → IsSized (added g t)
unfolding occurs
added-IsSized g t h less s = record {
  unique = insert-Unique t new_entry g.entries s.unique;
  listed = λ u. ground (
    arith,
    s.listed u,
    occurs-append u g.order (t ∷ []),
    lookup-insert t u new_entry g.entries,
    string_eq.beq_iff t u,
  );
  same_length =
      ground
        (arith, s.same_length, length-append g.order (t ∷ []), length-insert t new_entry g.entries);
  bounded = ground (arith, length-insert t new_entry g.entries);
  room = s.room;
}

abbrev pub moved : Governor → String → Governor
moved g t = record g { order = remove_first t g.order ++ (t ∷ []) }

pub moved-IsSized :
    (g : Governor) (t : String) → contains t g.order ≡ true → IsSized g → IsSized (moved g t)
unfolding occurs
moved-IsSized g t h s = record {
  unique = s.unique;
  listed = λ u. ground (
    arith,
    s.listed u,
    occurs-append u (remove_first t g.order) (t ∷ []),
    occurs-remove_first t u g.order h,
  );
  same_length = ground (
    arith,
    s.same_length,
    length-append (remove_first t g.order) (t ∷ []),
    length-remove_first t g.order h,
  );
  bounded = s.bounded;
  room = s.room;
}

pub touch_mru_absent :
    (g : Governor) (t : String)
    → lookup t g.entries ≡ none
    → touch_mru g t ≡ (added (make_room g) t, new_entry)
unfolding touch_mru
touch_mru_absent g t h = ground (arith, h)

pub touch_mru_known :
    (g : Governor) (t : String) (e : GovernorEntry)
    → lookup t g.entries ≡ some e
    → touch_mru g t ≡ (if contains t g.order then moved g t else g, e)
unfolding touch_mru
touch_mru_known g t e h = ground (arith, h)

pub touch_mru-IsSized :
    (g : Governor) (t : String)
    → IsSized g
    → IsSized (touch_mru g t).0 × (lookup t (touch_mru g t).0.entries ≡ some (touch_mru g t).1)
touch_mru-IsSized g t s = elim (Option-cases (lookup t g.entries)) [
  | inl h ↦ rw (touch_mru_absent g t h) (
    added-IsSized (make_room g) t (make_room_absent g t s h) (make_room-IsSized g s).1
        (make_room-IsSized g s).0,
    ground (arith, lookup-insert t t new_entry (make_room g).entries, string_eq.beq_iff t t),
  )
  | inr (e, h) ↦ rw (touch_mru_known g t e h) (elim (Bool-cases (contains t g.order)) [
    | inl c ↦ rw c (moved-IsSized g t c s, h)
    | inr c ↦ rw c (s, h)
  ])
]
