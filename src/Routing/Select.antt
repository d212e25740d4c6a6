-- ===== src/Routing/Select.antt =====
-- pkg/routing/matcher.go, Evaluate: the first enabled rule that matches decides.
use iran_germany_split_tunne.Common.{
  ◌≡◌, ◌↔◌, refl, sym, ap, subst, ◌⊎◌, inl, inr, true, false, List, [], ◌∷◌, ◌++◌, All, Bool-cases,
}
use Prim.Native.String.{String}
use iran_germany_split_tunne.Routing.{
  Net, OutboundKind, Rule, RuleSet, Destination, match_rule, kind_of, evaluate_from, evaluate,
}

-- The rule matches, and none before it does.
pub record IsFirst (net : Net) (rules : List Rule) (dst : Destination) (r : Rule) : Type 0 where
  pub earlier : List Rule
  pub later : List Rule
  pub place : rules ≡ earlier ++ (r ∷ later)
  pub none_earlier : All (λ e. match_rule net e dst ≡ false) earlier
  pub matches : match_rule net r dst ≡ true

-- What decides a destination: the first rule that matches, or the default if none does.
pub data Decides (net : Net) (rs : RuleSet) (dst : Destination)
    : OutboundKind × String → Type 0 where
  by_rule : (r : Rule) → IsFirst net rs.rules dst r → Decides net rs dst (kind_of r.action, r.id)
  by_default :
      All (λ r. match_rule net r dst ≡ false) rs.rules
      → Decides net rs dst (kind_of rs.default_action, "")

Outcome : (net : Net) → List Rule → String → Destination → Type 0
Outcome net rules default_action dst =
    ((r : Rule) × IsFirst net rules dst r
      × (evaluate_from net rules default_action dst ≡ (kind_of r.action, r.id)))
    ⊎ (All (λ r. match_rule net r dst ≡ false) rules
        × (evaluate_from net rules default_action dst ≡ (kind_of default_action, "")))

evaluate_from_cases :
    (net : Net) (rules : List Rule) (default_action : String) (dst : Destination)
    → Outcome net rules default_action dst
unfolding Outcome evaluate_from
evaluate_from_cases net [] default_action dst = inr (tt, refl)
evaluate_from_cases net (r ∷ rs) default_action dst = elim (Bool-cases (match_rule net r dst)) [
  | inl yes_match ↦ inl (
    r,
    record { earlier = []; later = rs; place = refl; none_earlier = tt; matches = yes_match },
    rw yes_match refl,
  )
  | inr no_match ↦ elim (evaluate_from_cases net rs default_action dst) [
    | inl (t, first, e) ↦ inl (
      t,
      record {
        earlier = r ∷ first.earlier;
        later = first.later;
        place = ap (◌∷◌ r) first.place;
        none_earlier = (no_match, first.none_earlier);
        matches = first.matches;
      },
      rw no_match e,
    )
    | inr (unmatched, e) ↦ inr ((no_match, unmatched), rw no_match e)
  ]
]

first_decides :
    (net : Net) (earlier later : List Rule) (r : Rule) (default_action : String) (dst : Destination)
    → All (λ e. match_rule net e dst ≡ false) earlier
    → match_rule net r dst ≡ true
    → evaluate_from net (earlier ++ (r ∷ later)) default_action dst ≡ (kind_of r.action, r.id)
unfolding evaluate_from
first_decides net [] later r default_action dst h m = rw m refl
first_decides net (e ∷ es) later r default_action dst (h, hs) m =
    rw h (first_decides net es later r default_action dst hs m)

default_decides :
    (net : Net) (rules : List Rule) (default_action : String) (dst : Destination)
    → All (λ r. match_rule net r dst ≡ false) rules
    → evaluate_from net rules default_action dst ≡ (kind_of default_action, "")
unfolding evaluate_from
default_decides net [] default_action dst h = refl
default_decides net (r ∷ rs) default_action dst (h, hs) =
    rw h (default_decides net rs default_action dst hs)

pub decided :
    (net : Net) (rs : RuleSet) (dst : Destination) → Decides net rs dst (evaluate net rs dst)
unfolding evaluate Outcome
decided net rs dst = elim (evaluate_from_cases net rs.rules rs.default_action dst) [
  | inl (r, first, e) ↦ subst (Decides net rs dst) (sym e) (by_rule r first)
  | inr (unmatched, e) ↦ subst (Decides net rs dst) (sym e) (by_default unmatched)
]

decides :
    (net : Net) (rs : RuleSet) (dst : Destination) (o : OutboundKind × String)
    → Decides net rs dst o
    → evaluate net rs dst ≡ o
unfolding evaluate
decides net rs dst _ (by_rule r first) =
    subst (λ rules. evaluate_from net rules rs.default_action dst ≡ (kind_of r.action, r.id))
      (sym first.place)
      (first_decides net first.earlier first.later r rs.default_action dst first.none_earlier
        first.matches)
decides net rs dst _ (by_default unmatched) =
    default_decides net rs.rules rs.default_action dst unmatched

-- Evaluate gives an outbound and a rule's id exactly if they are those of the first rule of the set
-- that matches the destination or, if no rule matches, the default outbound and no id.
pub evaluate-Decides :
    (net : Net) (rs : RuleSet) (dst : Destination) (o : OutboundKind × String)
    → (evaluate net rs dst ≡ o) ↔ Decides net rs dst o
evaluate-Decides net rs dst o =
    (λ e. subst (Decides net rs dst) e (decided net rs dst), decides net rs dst o)
