-- ===== src/Registry/Selection.antt =====
-- pkg/node/carrier_registry.go: which handle a stream is installed on, and which handles stay.
use iran_germany_split_tunne.Common.{
  ℕ, ◌≡◌, ◌⊎◌, inl, inr, refl, ap, subst, Bool, true, false, ◌==◌, Option, none, some, List, [],
  ◌∷◌, ◌++◌, All, Option-cases, if_intro, option_intro, arith,
}
use Prim.Native.String.{String}
use text.Mathlib.Text.{◌==◌ as str_eq}
use text.Mathlib.TextEquality.{eq_iff}
use iran_germany_split_tunne.Common.Assoc.{lookup, string_eq, lookup-insert, lookup-delete}
use iran_germany_split_tunne.Registry.{
  CarrierHandle, CarrierRegistry, is_known, Added, after_add, ready_handle, primary_from, primary,
  add, clear, clear_if, Op, add_handle, clear_handle, clear_id, step, run,
}

-- The handle is that of the first id of the order whose carrier is ready.
pub record IsPrimary (ready : ℕ → Bool) (r : CarrierRegistry) (order : List String)
    (h : CarrierHandle) : Type 0 where
  pub earlier : List String
  pub id : String
  pub later : List String
  pub place : order ≡ earlier ++ (id ∷ later)
  pub none_earlier : All (λ e. ready_handle ready r e ≡ none) earlier
  pub installed : lookup id r.handles ≡ some h
  pub is_ready : ready h.carrier ≡ true

pub ready_handle-Installed :
    (ready : ℕ → Bool) (r : CarrierRegistry) (id : String) (h : CarrierHandle)
    → ready_handle ready r id ≡ some h
    → (lookup id r.handles ≡ some h) × (ready h.carrier ≡ true)
unfolding ready_handle
ready_handle-Installed ready r id h e = elim (Option-cases (lookup id r.handles)) [
  | inl absent ↦ absurd (ground arith)
  | inr (k, found) ↦
      let same : k ≡ h = ground arith in
      let on : ready k.carrier ≡ true = ground arith in
      (
        subst (λ x. lookup id r.handles ≡ some x) same found,
        subst (λ x. ready x.carrier ≡ true) same on,
      )
]

Chosen : (ℕ → Bool) → CarrierRegistry → List String → Type 0
Chosen ready r order =
    ((h : CarrierHandle) × (primary_from ready r order ≡ some h) × IsPrimary ready r order h)
    ⊎ ((primary_from ready r order ≡ none) × All (λ id. ready_handle ready r id ≡ none) order)

chosen : (ready : ℕ → Bool) (r : CarrierRegistry) (order : List String) → Chosen ready r order
unfolding Chosen primary_from
chosen ready r [] = inr (refl, tt)
chosen ready r (id ∷ ids) = elim (Option-cases (ready_handle ready r id)) [
  | inr (h, e) ↦
      let (found, on) = ready_handle-Installed ready r id h e in
      inl (
        h,
        rw (primary_from, e) refl,
        record {
          earlier = [];
          id = id;
          later = ids;
          place = refl;
          none_earlier = tt;
          installed = found;
          is_ready = on;
        },
      )
  | inl off ↦ elim (chosen ready r ids) [
    | inl (h, e, first) ↦ inl (
      h,
      rw (primary_from, off) e,
      record {
        earlier = id ∷ first.earlier;
        id = first.id;
        later = first.later;
        place = ap (◌∷◌ id) first.place;
        none_earlier = (off, first.none_earlier);
        installed = first.installed;
        is_ready = first.is_ready;
      },
    )
    | inr (e, all_off) ↦ inr (rw (primary_from, off) e, (off, all_off))
  ]
]

-- Primary gives the handle of the first id in the order of priority whose carrier is installed and
-- ready, and none exactly where no id has such a carrier.
pub primary-IsPrimary :
    (ready : ℕ → Bool) (r : CarrierRegistry)
    → ((h : CarrierHandle) × (primary ready r ≡ some h) × IsPrimary ready r r.order h)
      ⊎ ((primary ready r ≡ none) × All (λ id. ready_handle ready r id ≡ none) r.order)
unfolding primary Chosen
primary-IsPrimary ready r = chosen ready r r.order

-- The call leaves the handle of the id in place: it is about another id, or a teardown of another
-- handle.
pub data Spares (id : String) (h : CarrierHandle) : Op → Type 0 where
  other_add :
      (j : String) (k : Option CarrierHandle) → str_eq j id ≡ false → Spares id h (add_handle j k)
  other_id : (j : String) → str_eq j id ≡ false → Spares id h (clear_id j)
  other_handle :
      (j : String) (k : CarrierHandle) → (h.ref == k.ref) ≡ false → Spares id h (clear_handle j k)

spared :
    (r : CarrierRegistry) (id : String) (h : CarrierHandle) (op : Op)
    → lookup id r.handles ≡ some h
    → Spares id h op
    → lookup id (step r op).handles ≡ some h
unfolding step add clear clear_if
spared r id h _ e (other_add j none differs) = e
spared r id h _ e (other_add j (some k) differs) =
    if_intro (λ (o : Added). lookup id (after_add r o).handles ≡ some h) (is_known r j)
      (λ known. ground (arith, lookup-insert j id k r.handles)) (λ unknown. e)
spared r id h _ e (other_id j differs) = ground (arith, lookup-delete j id r.handles)
spared r id h _ e (other_handle j k differs) =
    option_intro (λ (after : CarrierRegistry). lookup id after.handles ≡ some h)
      (lookup j r.handles) (λ absent. e)
      (λ g found.
        if_intro (λ (after : CarrierRegistry). lookup id after.handles ≡ some h) (g.ref == k.ref)
          (λ taken. ground (arith, lookup-delete j id r.handles, eq_iff j id)) (λ other. e))

-- A handle that is installed stays installed through any calls that install no handle for its id,
-- clear another id or tear down other handles, those that it replaced among them.
pub handle_stays :
    (r : CarrierRegistry) (id : String) (h : CarrierHandle) (ops : List Op)
    → lookup id r.handles ≡ some h
    → All (Spares id h) ops
    → lookup id (run r ops).handles ≡ some h
handle_stays r id h [] e spare = e
handle_stays r id h (op ∷ ops) e (spare, spares) =
    handle_stays (step r op) id h ops (spared r id h op e spare) spares
