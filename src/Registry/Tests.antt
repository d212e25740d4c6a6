-- ===== src/Registry/Tests.antt =====
-- A registry of two Reality carriers at work.
use iran_germany_split_tunne.Common.{ℕ, ◌≡◌, ◌⊎◌, refl, true, ◌==◌, none, some, List, [], ◌∷◌, All}
use iran_germany_split_tunne.Common.Assoc.{lookup, string_eq}
use iran_germany_split_tunne.Registry.{
  CarrierHandle, CarrierRegistry, new_multi_carrier_registry, ready_handle, primary, add_handle,
  clear_handle, clear_id, close_all, Op, step, run, ready_except, generation, ready_ids, count,
}
use iran_germany_split_tunne.Registry.Selection.{
  IsPrimary, primary-IsPrimary, other_add, other_id, other_handle, handle_stays,
}

abbrev handle : ℕ → CarrierHandle
handle n = record { ref = n; carrier = n; gen = n }

abbrev two : CarrierRegistry
two = new_multi_carrier_registry ("down-reality-a" ∷ "down-reality-b" ∷ [])

abbrev both : CarrierRegistry
both = record two { handles = ("down-reality-a", handle 1) ∷ ("down-reality-b", handle 2) ∷ [] }

both_installed :
    run two (
      add_handle "down-reality-a" (some (handle 1))
      ∷ add_handle "down-reality-b" (some (handle 2))
      ∷ [])
    ≡ both
unfolding step
both_installed = refl

-- The second carrier is taken while the first is not ready.
fallback : primary (λ n. n == 2) both ≡ some (handle 2)
unfolding primary
fallback = refl

except_first : ready_except (λ n. true) both "down-reality-a" ≡ handle 2 ∷ []
unfolding ready_except
except_first = refl

second_generation : generation both "down-reality-b" ≡ 2
unfolding generation
second_generation = refl

ready_now : ready_ids (λ n. n == 2) both ≡ "down-reality-b" ∷ []
unfolding ready_ids
ready_now = refl

one_left : count (run both (clear_id "down-reality-a" ∷ [])) ≡ 1
unfolding count step
one_left = refl

closed_once : close_all both ≡ (two, 1 ∷ 2 ∷ [])
unfolding close_all
closed_once = refl

primary-IsPrimary_example :
    ((h : CarrierHandle) × (primary (λ n. n == 2) both ≡ some h)
      × IsPrimary (λ n. n == 2) both ("down-reality-a" ∷ "down-reality-b" ∷ []) h)
    ⊎ ((primary (λ n. n == 2) both ≡ none)
        × All
            (λ id. ready_handle (λ n. n == 2) both id ≡ none)
            ("down-reality-a" ∷ "down-reality-b" ∷ []))
primary-IsPrimary_example = primary-IsPrimary (λ n. n == 2) both

abbrev late_teardown : List Op
late_teardown =
    clear_handle "down-reality-b" (handle 1)
    ∷ add_handle "down-reality-a" (some (handle 3))
    ∷ clear_id "down-reality-a"
    ∷ []

second_is_in : lookup "down-reality-b" both.handles ≡ some (handle 2)
unfolding lookup
second_is_in = refl

handle_stays_example : lookup "down-reality-b" (run both late_teardown).handles ≡ some (handle 2)
handle_stays_example = handle_stays both "down-reality-b" (handle 2) late_teardown second_is_in (
  other_handle "down-reality-b" (handle 1) refl,
  (other_add "down-reality-a" (some (handle 3)) refl, (other_id "down-reality-a" refl, tt)),
)
