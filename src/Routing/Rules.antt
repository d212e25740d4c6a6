-- ===== src/Routing/Rules.antt =====
-- pkg/routing/rule.go: the validation of a rule set, which fills in what the rules match by.
use iran_germany_split_tunne.Common.{
  ℕ, Bool, true, false, not, ◌&&◌, ◌||◌, ltb, leb, ◌==◌, if◌then◌else◌, none, some, List, [], ◌∷◌,
  length,
}
use iran_germany_split_tunne.Common.Int.{ℤ, pos, negsuc, ltb_ℤ}
use Prim.Native.String.{String}
use text.Mathlib.Text.{◌==◌ as str_eq}
use iran_germany_split_tunne.Routing.{
  Net, Rule, RuleSet, Match, is_empty, is_some, to_lower, parse_outbound_kind,
}

pub data RuleError : Type 0 where
  unsupported_version bad_default block_default too_many_rules : RuleError
  id_required duplicate_id action_required unknown_action bad_fallback stray_fallback : RuleError
  no_criterion bad_domain bad_cidr bad_port_min bad_port_max empty_port_range : RuleError

-- `strings.Split(core, ".")`: the labels, of which there is at least one.
unfoldable pub add_to_first : ℕ → List (List ℕ) → List (List ℕ)
add_to_first b [] = (b ∷ []) ∷ []
add_to_first b (l ∷ ls) = (b ∷ l) ∷ ls

unfoldable pub split_dots : List ℕ → List (List ℕ)
unfolding add_to_first
split_dots [] = [] ∷ []
split_dots (b ∷ bs) =
    let rest = split_dots bs in if b == b'.' then [] ∷ rest else add_to_first b rest

is_alphanumeric : ℕ → Bool
is_alphanumeric b = (leb b'a' b && leb b b'z') || (leb b'0' b && leb b b'9')

-- The bytes of a label; `first` tells that the byte is the first.
unfoldable pub valid_from : Bool → List ℕ → Bool
unfolding is_alphanumeric
valid_from first [] = true
valid_from first (b ∷ bs) =
    if b == b'-'
    then not (first || is_empty bs) && valid_from false bs
    else is_alphanumeric b && valid_from false bs

unfoldable pub valid_label : List ℕ → Bool
unfolding valid_from
valid_label l = not (is_empty l) && (leb (length l) 63 && valid_from true l)

unfoldable pub all_valid : List (List ℕ) → Bool
unfolding valid_label
all_valid [] = true
all_valid (l ∷ ls) = valid_label l && all_valid ls

abbrev pub core_of : List ℕ → List ℕ
core_of [] = []
core_of (b ∷ bs) = if b == b'.' then bs else b ∷ bs

abbrev pub is_suffix_form : List ℕ → Bool
is_suffix_form [] = false
is_suffix_form (b ∷ bs) = b == b'.'

unfoldable pub validate_domain : List ℕ → Bool
unfolding split_dots all_valid
validate_domain d =
    not (is_empty (core_of d))
    && (leb (length (core_of d)) 253 && all_valid (split_dots (core_of d)))

unfoldable pub out_of_range : ℤ → Bool
out_of_range z = ltb_ℤ z (pos 0) || ltb_ℤ (pos 65535) z

unfoldable pub has_match : Match → Bool
has_match m = not (is_empty m.domain) || (not (is_empty m.keyword) || not (is_empty m.ip_cidr))

unfoldable pub with_domain : Rule → Rule
with_domain r =
    if is_empty r.criteria.domain
    then r
    else let dom = to_lower r.criteria.domain in
      record r {
        m_dom = core_of dom;
        m_dom_suffix = if is_suffix_form dom then true else r.m_dom_suffix;
      }

abbrev pub default_of : String → String
default_of s = if str_eq s "" then "direct" else s

unfoldable pub has_seen : String → List String → Bool
has_seen id [] = false
has_seen id (j ∷ js) = str_eq j id || has_seen id js

is_one : ℤ → Bool
is_one (pos n) = n == 1
is_one (negsuc n) = false

abbrev pub max_rules : ℕ
max_rules = 500

pub data Result {ℓ} (A : Type ℓ) : Type ℓ where
  err : RuleError → Result A
  ok : A → Result A

-- `if b { return err }`.
abbrev pub refuse : Bool → RuleError → Result (Unit {0})
refuse b e = if b then err e else ok tt

abbrev pub ◌>>◌ {ℓ κ} : {C : Type κ} {A : Type ℓ} → Result C → Result A → Result A
err e >> next = err e
ok done >> next = next

abbrev pub ◌>>=◌ {ℓ κ} : {C : Type κ} {A : Type ℓ} → Result C → (C → Result A) → Result A
err e >>= next = err e
ok c >>= next = next c

infixl 5 ◌>>◌ ◌>>=◌
module _ (net : Net) where
  unfoldable pub with_cidr : Rule → Result Rule
  with_cidr r =
      if is_empty r.criteria.ip_cidr then ok r else elim (net.parse_cidr r.criteria.ip_cidr) [
        | none ↦ err bad_cidr
        | some cidr ↦ ok (record r { m_cidr = some cidr })
      ]

  unfoldable pub validate_rule : Rule → Result Rule
  unfolding with_domain with_cidr has_match out_of_range validate_domain
  validate_rule r = do
    refuse (str_eq r.action "") action_required
    refuse (not (is_some (parse_outbound_kind r.action))) unknown_action
    refuse (not (str_eq r.fallback "") && not (str_eq r.fallback "direct")) bad_fallback
    refuse (not (str_eq r.fallback "") && not (str_eq r.action "warp")) stray_fallback
    refuse (not (has_match r.criteria)) no_criterion
    refuse (not (is_empty r.criteria.domain) && not (validate_domain r.criteria.domain)) bad_domain
    let filled = record (with_domain r) { m_kw = to_lower r.criteria.keyword }
    done ← with_cidr filled
    refuse (out_of_range r.criteria.port_min) bad_port_min
    refuse (out_of_range r.criteria.port_max) bad_port_max
    refuse
        (ltb_ℤ (pos 0) r.criteria.port_min
          && (ltb_ℤ (pos 0) r.criteria.port_max && ltb_ℤ r.criteria.port_max r.criteria.port_min))
        empty_port_range
    ok done

  -- `seen`, and the rules from the one at hand on.
  unfoldable pub validate_rules : List String → List Rule → Result (List Rule)
  unfolding validate_rule has_seen
  validate_rules seen [] = ok []
  validate_rules seen (r ∷ rs) = do
    refuse (str_eq r.id "") id_required
    refuse (has_seen r.id seen) duplicate_id
    r' ← validate_rule r
    rs' ← validate_rules (r.id ∷ seen) rs
    ok (r' ∷ rs')

  unfoldable pub sanitize : RuleSet → Result RuleSet
  unfolding validate_rules is_one
  sanitize rs = do
    refuse (not (is_one rs.version)) unsupported_version
    refuse (not (is_some (parse_outbound_kind (default_of rs.default_action)))) bad_default
    refuse (str_eq (default_of rs.default_action) "block") block_default
    refuse (ltb max_rules (length rs.rules)) too_many_rules
    rules ← validate_rules [] rs.rules
    ok (record rs { default_action = default_of rs.default_action; rules = rules })
