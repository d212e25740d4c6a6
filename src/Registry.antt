-- ===== src/Registry.antt =====
-- pkg/node/carrier_registry.go: the carriers of one direction, in a fixed order of priority.
-- A handle is the number of its pointer, that of its carrier and its generation; which carriers are
-- ready is a function, since the registry asks each of them. An entry set to nil is an entry deleted,
-- and the direction, a label, is left out.
pub mod Selection
pub mod Tests
use iran_germany_split_tunne.Common.{
  ℕ, ◌+◌, Bool, true, false, not, ◌&&◌, ◌==◌, if◌then◌else◌, Option, none, some, List, [], ◌∷◌,
  ◌++◌,
}
use Prim.Native.String.{String}
use text.Mathlib.Text.{◌==◌ as str_eq}
use iran_germany_split_tunne.Common.Assoc.{Eq, lookup, insert, delete, string_eq}

pub record CarrierHandle : Type 0 where
  pub ref : ℕ
  pub carrier : ℕ
  pub gen : ℕ

pub record CarrierRegistry : Type 0 where
  pub order : List String
  pub handles : List (String × CarrierHandle)

abbrev pub new_multi_carrier_registry : List String → CarrierRegistry
new_multi_carrier_registry ids = record { order = ids; handles = [] }

-- `allowed` holds the ids of `order`.
unfoldable pub holds_id : String → List String → Bool
holds_id id [] = false
holds_id id (j ∷ js) = if str_eq j id then true else holds_id id js

unfoldable pub is_known : CarrierRegistry → String → Bool
unfolding holds_id
is_known r id = holds_id id r.order

unfoldable pub ready_handle : (ℕ → Bool) → CarrierRegistry → String → Option CarrierHandle
unfolding lookup
ready_handle ready r id = elim (lookup id r.handles) [
  | none ↦ none
  | some h ↦ if ready h.carrier then some h else none
]

unfoldable pub primary_from : (ℕ → Bool) → CarrierRegistry → List String → Option CarrierHandle
unfolding ready_handle
primary_from ready r [] = none
primary_from ready r (id ∷ ids) =
    let rest = primary_from ready r ids in
    elim (ready_handle ready r id) [ none ↦ rest | some h ↦ some h ]

unfoldable pub primary : (ℕ → Bool) → CarrierRegistry → Option CarrierHandle
unfolding primary_from
primary ready r = primary_from ready r r.order

unfoldable pub ready_from : (ℕ → Bool) → CarrierRegistry → List String → List CarrierHandle
unfolding ready_handle
ready_from ready r [] = []
ready_from ready r (id ∷ ids) =
    let rest = ready_from ready r ids in
    elim (ready_handle ready r id) [ none ↦ rest | some h ↦ h ∷ rest ]

abbrev pub without : String → List String → List String
without exclude [] = []
without exclude (id ∷ ids) =
    let rest = without exclude ids in if str_eq id exclude then rest else id ∷ rest

unfoldable pub ready_except : (ℕ → Bool) → CarrierRegistry → String → List CarrierHandle
unfolding ready_from
ready_except ready r exclude = ready_from ready r (without exclude r.order)

abbrev pub is_some {ℓ} : {A : Type ℓ} → Option A → Bool
is_some none = false
is_some (some a) = true

unfoldable pub any_ready : (ℕ → Bool) → CarrierRegistry → List String → Bool
unfolding ready_handle
any_ready ready r [] = false
any_ready ready r (id ∷ ids) =
    if is_some (ready_handle ready r id) then true else any_ready ready r ids

unfoldable pub is_ready : (ℕ → Bool) → CarrierRegistry → Bool
unfolding any_ready
is_ready ready r = any_ready ready r r.order

unfoldable pub ready_ids_from : (ℕ → Bool) → CarrierRegistry → List String → List String
unfolding ready_handle
ready_ids_from ready r [] = []
ready_ids_from ready r (id ∷ ids) =
    let rest = ready_ids_from ready r ids in
    if is_some (ready_handle ready r id) then id ∷ rest else rest

unfoldable pub ready_ids : (ℕ → Bool) → CarrierRegistry → List String
unfolding ready_ids_from
ready_ids ready r = ready_ids_from ready r r.order

abbrev pub handles_from : CarrierRegistry → List String → List (Option CarrierHandle)
handles_from r [] = []
handles_from r (id ∷ ids) = lookup id r.handles ∷ handles_from r ids

abbrev pub installed : List (Option CarrierHandle) → ℕ
installed [] = 0
installed (none ∷ hs) = installed hs
installed (some h ∷ hs) = 1 + installed hs

unfoldable pub count : CarrierRegistry → ℕ
unfolding lookup
count r = installed (handles_from r r.order)

unfoldable pub generation : CarrierRegistry → String → ℕ
unfolding lookup
generation r id = elim (lookup id r.handles) [ none ↦ 0 | some h ↦ h.gen ]

-- The new registry and the handle replaced, or an error.
pub data Added : Type 0 where
  replaced : CarrierRegistry → Option CarrierHandle → Added
  nil_handle unknown_carrier_id : Added

unfoldable pub add : CarrierRegistry → String → Option CarrierHandle → Added
unfolding is_known lookup insert
add r id none = nil_handle
add r id (some h) =
    if is_known r id
    then replaced (record r { handles = insert id h r.handles }) (lookup id r.handles)
    else unknown_carrier_id

unfoldable pub clear : CarrierRegistry → String → CarrierRegistry
unfolding delete
clear r id = record r { handles = delete id r.handles }

unfoldable pub clear_if : CarrierRegistry → String → CarrierHandle → CarrierRegistry
unfolding lookup clear
clear_if r id h = elim (lookup id r.handles) [
  | none ↦ r
  | some k ↦ if k.ref == h.ref then clear r id else r
]

-- The registry, and the carriers that are closed once the lock is released.
unfoldable pub close_from : CarrierRegistry → List String → CarrierRegistry × List ℕ
unfolding lookup clear
close_from r [] = (r, [])
close_from r (id ∷ ids) =
    let skipped = close_from r ids in
    let cleared = close_from (clear r id) ids in
    elim (lookup id r.handles) [ none ↦ skipped | some h ↦ (cleared.0, h.carrier ∷ cleared.1) ]

unfoldable pub close_all : CarrierRegistry → CarrierRegistry × List ℕ
unfolding close_from
close_all r = close_from r r.order

pub data Op : Type 0 where
  add_handle : String → Option CarrierHandle → Op
  clear_handle : String → CarrierHandle → Op
  clear_id : String → Op
  close_every : Op

-- An error leaves the registry as it was.
abbrev pub after_add : CarrierRegistry → Added → CarrierRegistry
after_add r (replaced r' old) = r'
after_add r nil_handle = r
after_add r unknown_carrier_id = r

unfoldable pub step : CarrierRegistry → Op → CarrierRegistry
unfolding add clear clear_if close_all
step r (add_handle id h) = after_add r (add r id h)
step r (clear_handle id h) = clear_if r id h
step r (clear_id id) = clear r id
step r close_every = (close_all r).0

abbrev pub run : CarrierRegistry → List Op → CarrierRegistry
run r [] = r
run r (op ∷ ops) = run (step r op) ops
