-- ===== src/Routing/Tests.antt =====
-- The routing rules (pkg/routing) on concrete inputs.
use iran_germany_split_tunne.Common.{
  ℕ, ◌≡◌, ◌↔◌, refl, true, false, if◌then◌else◌, none, some, List, [], ◌∷◌,
}
use iran_germany_split_tunne.Common.Int.{pos}
use Prim.Native.Char.{code}
use Prim.Native.String.{String}
use iran_germany_split_tunne.Common.Slices.{same_bytes}
use iran_germany_split_tunne.Routing.{
  Net, Rule, RuleSet, Destination, warp, evaluate, to_lower, match_domain, parse_outbound_kind,
}
use iran_germany_split_tunne.Frame.{read_full}
use iran_germany_split_tunne.Routing.Select.{Decides, evaluate-Decides}
use iran_germany_split_tunne.Routing.Rules
use iran_germany_split_tunne.Routing.Rules.{sanitize}
use iran_germany_split_tunne.Routing.Sanitized.{IsSound, sanitize-IsSound}
use iran_germany_split_tunne.Routing.Domains.{Covers, match_domain-Covers}
use iran_germany_split_tunne.Routing.Engine.{
  Proxy, refused, failed, dial_warp, direct_dialled, dial,
}
use iran_germany_split_tunne.Routing.Gate.{MayGoDirect, dial_no_leak}
use iran_germany_split_tunne.Routing.Failure.{IsOutcome, dial_warp-IsOutcome}

abbrev bytes_of : String → List ℕ
bytes_of String.[] = []
bytes_of (String.◌∷◌ c s) = code c ∷ bytes_of s

-- One address is known.
abbrev small_net : Net
unfolding same_bytes
small_net = record {
  parse_ip = λ h. if same_bytes h (bytes_of "10.0.0.1") then some (10 ∷ 0 ∷ 0 ∷ 1 ∷ []) else none;
  parse_cidr = λ s. none;
  contains_ip = λ cidr ip. false;
}

abbrev plain_rule : String → String → String → String → Rule
plain_rule id domain action fallback = record {
  id = id;
  enabled = true;
  criteria = record {
    domain = bytes_of domain;
    keyword = [];
    ip_cidr = [];
    port_min = pos 0;
    port_max = pos 443;
  };
  action = action;
  fallback = fallback;
  m_cidr = none;
  m_kw = [];
  m_dom = [];
  m_dom_suffix = false;
}

abbrev raw_set : RuleSet
raw_set = record {
  version = pos 1;
  default_action = "";
  rules =
      plain_rule "a" "blocked.org" "block" "" ∷ plain_rule "b" ".example.com" "warp" "direct" ∷ [];
}

abbrev clean_set : RuleSet
clean_set = record {
  version = pos 1;
  default_action = "direct";
  rules =
      record (plain_rule "a" "blocked.org" "block" "") { m_dom = bytes_of "blocked.org" }
      ∷ record (plain_rule "b" ".example.com" "warp" "direct") {
        m_dom = bytes_of "example.com";
        m_dom_suffix = true;
      }
      ∷ [];
}

raw_set_clean : sanitize small_net raw_set ≡ Rules.ok clean_set
unfolding sanitize to_lower parse_outbound_kind
raw_set_clean = refl

sanitize-IsSound_example : IsSound clean_set
sanitize-IsSound_example = sanitize-IsSound small_net raw_set clean_set raw_set_clean

abbrev below_example : Destination
below_example = record { host = bytes_of "WWW.example.com"; port = pos 80 }

evaluate-Decides_example :
    (evaluate small_net clean_set below_example ≡ (warp, "b"))
    ↔ Decides small_net clean_set below_example (warp, "b")
evaluate-Decides_example = evaluate-Decides small_net clean_set below_example (warp, "b")

abbrev no_proxy : Proxy
no_proxy = record { accepts = false; greeting_sent = false; request_sent = false; replies = [] }

falls_to_direct : dial small_net clean_set true no_proxy (some below_example) ≡ direct_dialled
unfolding dial
falls_to_direct = refl

dial_no_leak_example : MayGoDirect small_net clean_set true no_proxy below_example
dial_no_leak_example =
    dial_no_leak small_net raw_set clean_set true no_proxy below_example raw_set_clean
      falls_to_direct

-- The proxy answers the CONNECT with host unreachable.
abbrev refusing : Proxy
refusing = record {
  accepts = true;
  greeting_sent = true;
  request_sent = true;
  replies = 5 ∷ 0 ∷ 5 ∷ 4 ∷ 0 ∷ 1 ∷ [];
}

-- The proxy that refuses the target with the reply byte 4.
refusing_fails : dial_warp true refusing ≡ failed (refused 4) true
unfolding dial_warp read_full
refusing_fails = refl

dial_warp-IsOutcome_example :
    (dial_warp true refusing ≡ failed (refused 4) true)
    ↔ IsOutcome refusing (failed (refused 4) true)
dial_warp-IsOutcome_example = dial_warp-IsOutcome refusing (failed (refused 4) true)

abbrev suffix_rule : Rule
suffix_rule = record (plain_rule "b" ".example.com" "warp" "direct") {
  m_dom = bytes_of "example.com";
  m_dom_suffix = true;
}

match_domain-Covers_example :
    (match_domain small_net suffix_rule (bytes_of "a.example.com") ≡ true) ↔ (
      (small_net.parse_ip (to_lower (bytes_of "a.example.com")) ≡ none)
      × Covers suffix_rule.m_dom suffix_rule.m_dom_suffix (to_lower (bytes_of "a.example.com")))
match_domain-Covers_example = match_domain-Covers small_net suffix_rule (bytes_of "a.example.com")
