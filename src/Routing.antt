-- ===== src/Routing.antt =====
-- pkg/routing: the rules that choose the outbound of a destination, and how they are matched.
-- Hosts and patterns are their bytes; `to_lower` is that of ASCII. What package net makes of a text
-- (ParseIP, ParseCIDR and IPNet.Contains) is a parameter, since the rules only hand it on.
pub mod Select
pub mod Rules
pub mod Sanitized
pub mod Engine
pub mod Gate
pub mod Failure
pub mod Tests
pub mod Domains
use iran_germany_split_tunne.Common.{
  ℕ, zero, suc, ◌+◌, ◌-◌, ◌≤◌, ◌<◌, ◌≡◌, refl, Bool, true, false, not, ◌&&◌, ◌||◌, ltb, leb, ◌==◌,
  if◌then◌else◌, Option, none, some, List, [], ◌∷◌, ◌++◌, length, take, drop, arith,
}
use iran_germany_split_tunne.Common.Slices.{same_bytes}
use iran_germany_split_tunne.Common.Int.{ℤ, pos, ltb_ℤ}
use Prim.Native.String.{String}
use text.Mathlib.Text.{◌==◌ as str_eq}

-- `ip` and `mask` are the bytes of a net.IPNet.
pub record IpNet : Type 0 where
  pub ip : List ℕ
  pub mask : List ℕ

pub record Net : Type 0 where
  pub parse_ip : List ℕ → Option (List ℕ)
  pub parse_cidr : List ℕ → Option IpNet
  pub contains_ip : IpNet → List ℕ → Bool

pub data OutboundKind : Type 0 where
  direct warp block : OutboundKind

-- `none` is the error for an unknown action.
unfoldable pub parse_outbound_kind : String → Option OutboundKind
parse_outbound_kind s =
    if str_eq s "direct"
    then some direct
    else if str_eq s "warp"
    then some warp
    else if str_eq s "block"
    then some block
    else none

pub record Match : Type 0 where
  pub domain : List ℕ
  pub keyword : List ℕ
  pub ip_cidr : List ℕ
  pub port_min : ℤ
  pub port_max : ℤ

pub record Rule : Type 0 where
  pub id : String
  pub enabled : Bool
  pub criteria : Match
  pub action : String
  pub fallback : String
  pub m_cidr : Option IpNet
  pub m_kw : List ℕ
  pub m_dom : List ℕ
  pub m_dom_suffix : Bool

pub record RuleSet : Type 0 where
  pub version : ℤ
  pub default_action : String
  pub rules : List Rule

pub record Destination : Type 0 where
  pub host : List ℕ
  pub port : ℤ

abbrev pub is_empty : List ℕ → Bool
is_empty [] = true
is_empty (b ∷ bs) = false

lower : ℕ → ℕ
lower b = if leb b'A' b && leb b b'Z' then b + 32 else b

unfoldable pub to_lower : List ℕ → List ℕ
unfolding lower
to_lower [] = []
to_lower (b ∷ bs) = lower b ∷ to_lower bs

unfoldable pub has_prefix : List ℕ → List ℕ → Bool
has_prefix bs [] = true
has_prefix [] (p ∷ ps) = false
has_prefix (b ∷ bs) (p ∷ ps) = (b == p) && has_prefix bs ps

-- `strings.Contains` and `strings.HasSuffix`.
unfoldable pub contains_bytes : List ℕ → List ℕ → Bool
unfolding has_prefix
contains_bytes [] s = has_prefix [] s
contains_bytes (b ∷ bs) s = has_prefix (b ∷ bs) s || contains_bytes bs s

unfoldable pub has_suffix : List ℕ → List ℕ → Bool
unfolding same_bytes
has_suffix s suffix =
    leb (length suffix) (length s) && same_bytes (drop (length s - length suffix) s) suffix

is_zero : ℤ → Bool
is_zero z = if ltb_ℤ (pos 0) z then false else if ltb_ℤ z (pos 0) then false else true

unfoldable pub port_in_range : Match → ℤ → Bool
unfolding is_zero
port_in_range m port =
    let lo = if is_zero m.port_min then pos 1 else m.port_min in
    let hi = if is_zero m.port_max then pos 65535 else m.port_max in
    not (ltb_ℤ port lo) && not (ltb_ℤ hi port)

abbrev pub is_some {ℓ} : {A : Type ℓ} → Option A → Bool
is_some none = false
is_some (some a) = true

-- The action of a rule set that was sanitized; another gives the zero value.
unfoldable pub kind_of : String → OutboundKind
unfolding parse_outbound_kind
kind_of s = elim (parse_outbound_kind s) [ none ↦ direct | some kind ↦ kind ]

module _ (net : Net) where
  unfoldable pub match_domain : Rule → List ℕ → Bool
  unfolding to_lower same_bytes has_suffix
  match_domain r host =
      let h = to_lower host in
      if is_some (net.parse_ip h)
      then false
      else if r.m_dom_suffix
      then same_bytes h r.m_dom || has_suffix h (b'.' ∷ r.m_dom)
      else same_bytes h r.m_dom

  unfoldable pub match_keyword : Rule → List ℕ → Bool
  unfolding to_lower contains_bytes
  match_keyword r host = contains_bytes (to_lower host) r.m_kw

  -- Only called for a rule with a parsed CIDR.
  unfoldable pub match_cidr : IpNet → List ℕ → Bool
  match_cidr cidr host = elim (net.parse_ip host) [
    | none ↦ false
    | some ip ↦ net.contains_ip cidr ip
  ]

  cidr_matches : Option IpNet → List ℕ → Bool
  unfolding match_cidr
  cidr_matches none host = false
  cidr_matches (some cidr) host = match_cidr cidr host

  unfoldable pub match_rule : Rule → Destination → Bool
  unfolding port_in_range match_domain match_keyword cidr_matches
  match_rule r dst =
      if not r.enabled
      then false
      else if not (port_in_range r.criteria dst.port)
      then false
      else if not (is_empty r.criteria.domain) && match_domain r dst.host
      then true
      else if not (is_empty r.m_kw) && match_keyword r dst.host
      then true
      else cidr_matches r.m_cidr dst.host

  unfoldable pub evaluate_from : List Rule → String → Destination → OutboundKind × String
  unfolding match_rule kind_of
  evaluate_from [] default_action dst = (kind_of default_action, "")
  evaluate_from (r ∷ rs) default_action dst =
      if match_rule r dst then (kind_of r.action, r.id) else evaluate_from rs default_action dst

  unfoldable pub evaluate : RuleSet → Destination → OutboundKind × String
  unfolding evaluate_from
  evaluate rs dst = evaluate_from rs.rules rs.default_action dst

unfoldable pub find_rule : String → List Rule → Option Rule
find_rule id [] = none
find_rule id (r ∷ rs) = if str_eq r.id id then some r else find_rule id rs

unfoldable pub rule_by_id : RuleSet → String → Option Rule
unfolding find_rule
rule_by_id rs id = if str_eq id "" then none else find_rule id rs.rules
