-- ===== src/Routing/Sanitized.antt =====
-- pkg/routing/rule.go: what a rule set that Sanitize lets pass is like.
use iran_germany_split_tunne.Common.{
  ℕ, suc, ◌≤◌, ◌≡◌, ◌≢◌, ◌∙◌, refl, sym, ap, subst, ◌⊎◌, inl, inr, Bool, true, false, not, ◌&&◌,
  ltb, List, [], ◌∷◌, length, All, Bool-cases, arith,
}
use Prim.Native.String.{String}
use text.Mathlib.Text.{◌==◌ as str_eq}
use iran_germany_split_tunne.Routing.{
  Net, Rule, RuleSet, block, parse_outbound_kind, kind_of, is_some,
}
use iran_germany_split_tunne.Routing.Rules.{
  Result, RuleError, ok, err, validate_rule, validate_rules, sanitize, has_match, has_seen,
  default_of, max_rules, with_domain,
}

-- A rule that passed.
pub record IsFit (r : Rule) : Type 0 where
  pub action_known : is_some (parse_outbound_kind r.action) ≡ true
  pub fallback_known :
      (str_eq r.fallback "" ≡ true)
      ⊎ ((str_eq r.fallback "direct" ≡ true) × (str_eq r.action "warp" ≡ true))
  pub has_criterion : has_match r.criteria ≡ true

with_domain_same :
    (r : Rule)
    → ((with_domain r).id ≡ r.id)
      × ((with_domain r).action ≡ r.action)
      × ((with_domain r).fallback ≡ r.fallback)
      × ((with_domain r).criteria ≡ r.criteria)
unfolding with_domain
with_domain_same r = ground arith

validate_rule-fields :
    (net : Net) (r r' : Rule)
    → validate_rule net r ≡ ok r'
    → (r'.id ≡ r.id)
      × (r'.action ≡ r.action)
      × (r'.fallback ≡ r.fallback)
      × (r'.criteria ≡ r.criteria)
unfolding validate_rule
validate_rule-fields net r r' h = ground (arith, with_domain_same r)

fallback_cases :
    (e d w : Bool)
    → (not e && not d) ≡ false
    → (not e && not w) ≡ false
    → (e ≡ true) ⊎ ((d ≡ true) × (w ≡ true))
fallback_cases true d w h k = inl refl
fallback_cases false true true h k = inr (refl, refl)
fallback_cases false true false h k = cc
fallback_cases false false w h k = cc

validate_rule-tests :
    (net : Net) (r r' : Rule)
    → validate_rule net r ≡ ok r'
    → (is_some (parse_outbound_kind r.action) ≡ true)
      × (has_match r.criteria ≡ true)
      × ((not (str_eq r.fallback "") && not (str_eq r.fallback "direct")) ≡ false)
      × ((not (str_eq r.fallback "") && not (str_eq r.action "warp")) ≡ false)
unfolding validate_rule
validate_rule-tests net r r' h = (ground arith, ground arith, ground arith, ground arith)

validate_rule-IsFit : (net : Net) (r r' : Rule) → validate_rule net r ≡ ok r' → IsFit r'
validate_rule-IsFit net r r' h =
    let (known, matches, fallback, stray) = validate_rule-tests net r r' h in
    let (same_id, same_action, same_fallback, same_criteria) = validate_rule-fields net r r' h in
    record {
      action_known = ap (λ a. is_some (parse_outbound_kind a)) same_action ∙ known;
      fallback_known =
          fallback_cases (str_eq r'.fallback "") (str_eq r'.fallback "direct")
            (str_eq r'.action "warp")
            (ap (λ f. not (str_eq f "") && not (str_eq f "direct")) same_fallback ∙ fallback)
            (rw (same_fallback, same_action) stray);
      has_criterion = ap has_match same_criteria ∙ matches;
    }

abbrev pub Named : Rule → Type 0
Named r = str_eq r.id "" ≡ false

-- No two rules have one id.
abbrev pub Distinct : List Rule → Type 0
Distinct [] = Unit {0}
Distinct (r ∷ rs) = All (λ t. str_eq r.id t.id ≡ false) rs × Distinct rs

-- The rules of a set that was taken, from the one at hand on.
record Taken (seen : List String) (rules : List Rule) (n : ℕ) : Type 0 where
  fit : All IsFit rules
  named : All Named rules
  unseen : All (λ r. has_seen r.id seen ≡ false) rules
  distinct : Distinct rules
  count : length rules ≡ n

Result-cases {ℓ} :
    {A : Type ℓ} (r : Result A) → ((a : A) × (r ≡ ok a)) ⊎ ((e : RuleError) × (r ≡ err e))
Result-cases (ok a) = inl (a, refl)
Result-cases (err e) = inr (e, refl)

stop : false ≡ true → ⊥
stop h = cc

validate_rules-cons :
    (net : Net) (seen : List String) (r : Rule) (rs out : List Rule)
    → validate_rules net seen (r ∷ rs) ≡ ok out
    → (r' : Rule) × (rs' : List Rule) × (out ≡ r' ∷ rs')
      × (validate_rule net r ≡ ok r')
      × (validate_rules net (r.id ∷ seen) rs ≡ ok rs')
      × (str_eq r.id "" ≡ false)
      × (has_seen r.id seen ≡ false)
unfolding validate_rules
validate_rules-cons net seen r rs out h = elim (Bool-cases (str_eq r.id "")) [
  | inl e ↦ absurd (stop (ground arith))
  | inr named ↦ elim (Bool-cases (has_seen r.id seen)) [
    | inl e ↦ absurd (stop (ground arith))
    | inr fresh ↦ elim (Result-cases (validate_rule net r)) [
      | inr (e, f) ↦ absurd (stop (ground arith))
      | inl (r', f) ↦ elim (Result-cases (validate_rules net (r.id ∷ seen) rs)) [
        | inr (e, g) ↦ absurd (stop (ground arith))
        | inl (rs', g) ↦ (r', rs', ground arith, f, g, named, fresh)
      ]
    ]
  ]
]

unseen_split :
    (id : String) (seen : List String) (rs : List Rule)
    → All (λ t. has_seen t.id (id ∷ seen) ≡ false) rs
    → All (λ t. str_eq id t.id ≡ false) rs × All (λ t. has_seen t.id seen ≡ false) rs
unfolding has_seen
unseen_split id seen [] h = (tt, tt)
unseen_split id seen (t ∷ ts) (h, hs) =
    let (different, older) = unseen_split id seen ts hs in
    ((ground arith, different), (ground arith, older))

Taken-cons :
    (seen : List String) (r r' : Rule) (rs : List Rule) (n : ℕ)
    → r'.id ≡ r.id
    → IsFit r'
    → str_eq r.id "" ≡ false
    → has_seen r.id seen ≡ false
    → Taken (r.id ∷ seen) rs n
    → Taken seen (r' ∷ rs) (suc n)
Taken-cons seen r r' rs n same fit named fresh t =
    let (different, older) = unseen_split r.id seen rs t.unseen in
    record {
      fit = (fit, t.fit);
      named = (rw same named, t.named);
      unseen = (rw same fresh, older);
      distinct =
          (subst (λ id. All (λ u. str_eq id u.id ≡ false) rs) (sym same) different, t.distinct);
      count = ap suc t.count;
    }

nothing_taken :
    (net : Net) (seen : List String) (out : List Rule)
    → validate_rules net seen [] ≡ ok out
    → [] ≡ out
unfolding validate_rules
nothing_taken net seen out h = cc

validate_rules-Taken :
    (net : Net) (seen : List String) (rules out : List Rule)
    → validate_rules net seen rules ≡ ok out
    → Taken seen out (length rules)
validate_rules-Taken net seen [] out h =
    subst (λ rs. Taken seen rs 0) (nothing_taken net seen out h)
      (record { fit = tt; named = tt; unseen = tt; distinct = tt; count = refl })
validate_rules-Taken net seen (r ∷ rs) out h =
    let (r', rs', e, f, g, named, fresh) = validate_rules-cons net seen r rs out h in
    subst (λ rules. Taken seen rules (suc (length rs))) (sym e)
      (Taken-cons seen r r' rs' (length rs) (validate_rule-fields net r r' f).0
        (validate_rule-IsFit net r r' f) named fresh
        (validate_rules-Taken net (r.id ∷ seen) rs rs' g))

-- A rule set that may be used.
pub record IsSound (rs : RuleSet) : Type 0 where
  pub default_known : is_some (parse_outbound_kind rs.default_action) ≡ true
  pub no_block_default : kind_of rs.default_action ≢ block
  pub rules_fit : All IsFit rs.rules
  pub ids_given : All Named rs.rules
  pub ids_distinct : Distinct rs.rules
  pub few : length rs.rules ≤ max_rules

sanitize-parts :
    (net : Net) (rs rs' : RuleSet)
    → sanitize net rs ≡ ok rs'
    → (is_some (parse_outbound_kind (default_of rs.default_action)) ≡ true)
      × (str_eq (default_of rs.default_action) "block" ≡ false)
      × (ltb max_rules (length rs.rules) ≡ false)
      × (validate_rules net [] rs.rules ≡ ok rs'.rules)
      × (rs'.default_action ≡ default_of rs.default_action)
unfolding sanitize
sanitize-parts net rs rs' h = elim (Result-cases (validate_rules net [] rs.rules)) [
  | inl (rules, e) ↦ (ground arith, ground arith, ground arith, ground arith, ground arith)
  | inr (x, e) ↦ absurd (stop (ground arith))
]

not_block : (s : String) → str_eq s "block" ≡ false → kind_of s ≢ block
unfolding kind_of parse_outbound_kind
not_block s h e = ground arith

-- A rule set that Sanitize lets pass is sound: the default outbound is known and never block, every
-- rule has a known action, at least one criterion, and a fallback only to direct and only for warp,
-- all ids are given and no two are the same, and there are at most MaxRules rules.
pub sanitize-IsSound : (net : Net) (rs rs' : RuleSet) → sanitize net rs ≡ ok rs' → IsSound rs'
sanitize-IsSound net rs rs' h =
    let (known, no_block, few, rules, same) = sanitize-parts net rs rs' h in
    let t : Taken [] rs'.rules (length rs.rules) =
      validate_rules-Taken net [] rs.rules rs'.rules rules in
    record {
      default_known = ap (λ a. is_some (parse_outbound_kind a)) same ∙ known;
      no_block_default = not_block rs'.default_action (ap (λ a. str_eq a "block") same ∙ no_block);
      rules_fit = t.fit;
      ids_given = t.named;
      ids_distinct = t.distinct;
      few = ground (arith, t.count);
    }
