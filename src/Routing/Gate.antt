-- ===== src/Routing/Gate.antt =====
-- pkg/routing/engine.go, the WARP health gate: when a stream that the rules send through WARP may
-- leave directly, and what a dial of the proxy leaves behind.
use iran_germany_split_tunne.Common.{
  ◌≡◌, ◌∙◌, refl, sym, ap, subst, ◌⊎◌, inl, inr, Bool, true, false, none, some, List, [], ◌∷◌, ◌++◌,
  All, arith,
}
use Prim.Native.String.{String}
use text.Mathlib.Text.{◌==◌ as str_eq}
use text.Mathlib.TextEquality.{eq_iff}
use iran_germany_split_tunne.Routing.{
  Net, OutboundKind, direct, warp, block, Rule, RuleSet, Destination, evaluate, rule_by_id,
  find_rule, kind_of,
}
use iran_germany_split_tunne.Routing.Select.{IsFirst, Decides, by_rule, by_default, decided}
use iran_germany_split_tunne.Routing.Sanitized.{IsSound, Named, Distinct, sanitize-IsSound}
use iran_germany_split_tunne.Routing.Rules
use iran_germany_split_tunne.Routing.Rules.{sanitize}
use iran_germany_split_tunne.Routing.Engine.{
  Proxy, unreachable, refused, malformed, WarpResult, tunnel, failed, dial_warp, direct_dialled,
  falls_back, dial_outbound, dial,
}

-- With distinct ids, the rule that decided is the one that its id gives.
all_at {ℓ} : (P : Rule → Type ℓ) (xs ys : List Rule) (r : Rule) → All P (xs ++ (r ∷ ys)) → P r
all_at P [] ys r (h, hs) = h
all_at P (x ∷ xs) ys r (h, hs) = all_at P xs ys r hs

none_falls : falls_back none ≡ true → ⊥
none_falls h = cc

found_first :
    (earlier later : List Rule) (r : Rule)
    → Distinct (earlier ++ (r ∷ later))
    → find_rule r.id (earlier ++ (r ∷ later)) ≡ some r
unfolding find_rule
found_first [] later r d = ground (arith, eq_iff r.id r.id)
found_first (e ∷ es) later r (different, d) =
    rw (all_at (λ t. str_eq e.id t.id ≡ false) es later r different) (found_first es later r d)

rule_of_first :
    (net : Net) (rs : RuleSet) (dst : Destination) (r : Rule)
    → IsSound rs
    → IsFirst net rs.rules dst r
    → rule_by_id rs r.id ≡ some r
unfolding rule_by_id
rule_of_first net rs dst r sound first =
    rw (all_at Named first.earlier first.later r (subst (All Named) first.place sound.ids_given)) (
      subst (λ rules. find_rule r.id rules ≡ some r) (sym first.place)
        (found_first first.earlier first.later r (subst Distinct first.place sound.ids_distinct)))

-- The direct dial was taken by right: the rules choose it, or the first rule that matches sends the
-- stream through WARP with a fallback to direct and the proxy was not reached.
pub data MayGoDirect (net : Net) (rs : RuleSet) (proto : Bool) (p : Proxy) (dst : Destination)
    : Type 0 where
  chosen : (evaluate net rs dst).0 ≡ direct → MayGoDirect net rs proto p dst
  fallback :
      (r : Rule) (closed : Bool)
      → IsFirst net rs.rules dst r
      → kind_of r.action ≡ warp
      → str_eq r.fallback "direct" ≡ true
      → dial_warp proto p ≡ failed unreachable closed
      → MayGoDirect net rs proto p dst

outbound_direct :
    (rs : RuleSet) (w : WarpResult) (k : OutboundKind) (id : String)
    → dial_outbound rs w k id ≡ direct_dialled
    → (k ≡ direct)
      ⊎ ((closed : Bool) × (k ≡ warp)
          × (w ≡ failed unreachable closed)
          × (falls_back (rule_by_id rs id) ≡ true))
unfolding dial_outbound
outbound_direct rs w direct id h = inl refl
outbound_direct rs w block id h = cc
outbound_direct rs tunnel warp id h = cc
outbound_direct rs (failed (refused rep) closed) warp id h = cc
outbound_direct rs (failed malformed closed) warp id h = cc
outbound_direct rs (failed unreachable closed) warp id h = inr (closed, refl, refl, ground arith)

no_default_rule : (rs : RuleSet) → rule_by_id rs "" ≡ none
unfolding rule_by_id
no_default_rule rs = refl

settle_direct :
    (net : Net) (rs : RuleSet) (proto : Bool) (p : Proxy) (dst : Destination)
    (o : OutboundKind × String)
    → IsSound rs
    → evaluate net rs dst ≡ o
    → Decides net rs dst o
    → dial_outbound rs (dial_warp proto p) o.0 o.1 ≡ direct_dialled
    → MayGoDirect net rs proto p dst
settle_direct net rs proto p dst _ sound e (by_rule r first) h =
    elim (outbound_direct rs (dial_warp proto p) (kind_of r.action) r.id h) [
      | inl k ↦ chosen (ap (λ (o : OutboundKind × String). o.0) e ∙ k)
      | inr (closed, k, w, f) ↦
          fallback r closed first k
            (subst (λ o. falls_back o ≡ true) (rule_of_first net rs dst r sound first) f) w
    ]
settle_direct net rs proto p dst _ sound e (by_default unmatched) h =
    elim (outbound_direct rs (dial_warp proto p) (kind_of rs.default_action) "" h) [
      | inl k ↦ chosen (ap (λ (o : OutboundKind × String). o.0) e ∙ k)
      | inr (closed, k, w, f) ↦
          absurd (none_falls (subst (λ o. falls_back o ≡ true) (no_default_rule rs) f))
    ]

-- With a sanitized rule set a stream is dialled directly only if the rules choose the direct outbound
-- for its destination, or the first rule that matches it is a warp rule with fallback to direct and
-- the WARP proxy could not be reached. A refusal by the proxy, a malformed reply and the default
-- outbound never leak a stream onto the direct path.
pub dial_no_leak :
    (net : Net) (raw rs : RuleSet) (proto : Bool) (p : Proxy) (dst : Destination)
    → sanitize net raw ≡ Rules.ok rs
    → dial net rs proto p (some dst) ≡ direct_dialled
    → MayGoDirect net rs proto p dst
unfolding dial
dial_no_leak net raw rs proto p dst clean h =
    settle_direct net rs proto p dst (evaluate net rs dst) (sanitize-IsSound net raw rs clean) refl
      (decided net rs dst) h
