-- ===== src/Routing/Domains.antt =====
-- pkg/routing/matcher.go, matchDomain and matchKeyword against what their comments say of them.
use iran_germany_split_tunne.Common.{
  ℕ, ◌-◌, ◌≡◌, ◌↔◌, ◌∙◌, refl, sym, ap, subst, inl, inr, Bool, true, false, ◌||◌, if◌then◌else◌,
  none, List, ◌∷◌, ◌++◌, length, take, drop, take-append-drop, drop-append, length-append,
  Bool-cases, Option-cases, arith,
}
use iran_germany_split_tunne.Common.Slices.{same_bytes, same_bytes_eq, same_bytes_self}
use iran_germany_split_tunne.Routing.{Net, Rule, has_suffix, to_lower, match_domain}

suffix_of : (s t : List ℕ) → has_suffix s t ≡ true → (pre : List ℕ) × (s ≡ pre ++ t)
unfolding has_suffix
suffix_of s t h = (
  take (length s - length t) s,
  sym (take-append-drop (length s - length t) s)
      ∙ ap (λ r. take (length s - length t) s ++ r)
          (same_bytes_eq (drop (length s - length t) s) t (ground arith)),
)

dropped_front : (pre t : List ℕ) → drop (length (pre ++ t) - length t) (pre ++ t) ≡ t
dropped_front pre t =
    let n : length (pre ++ t) - length t ≡ length pre = omega (arith, length-append pre t) in
    rw n (drop-append pre t)

has-suffix_append : (pre t : List ℕ) → has_suffix (pre ++ t) t ≡ true
unfolding has_suffix
has-suffix_append pre t =
    ground (arith, length-append pre t, dropped_front pre t, same_bytes_self t)

-- What the two forms of a domain pattern match: the name itself and, in the suffix form, every name
-- below it.
pub data Covers (core : List ℕ) (suffix_form : Bool) (h : List ℕ) : Type 0 where
  itself : h ≡ core → Covers core suffix_form h
  below : (pre : List ℕ) → suffix_form ≡ true → h ≡ pre ++ (b'.' ∷ core) → Covers core suffix_form h

stop : false ≡ true → ⊥
stop h = cc

match_name : (core : List ℕ) (suffix_form : Bool) (h : List ℕ) → Bool
match_name core suffix_form h =
    if suffix_form then same_bytes h core || has_suffix h (b'.' ∷ core) else same_bytes h core

covers :
    (core : List ℕ) (suffix_form : Bool) (h : List ℕ)
    → match_name core suffix_form h ≡ true
    → Covers core suffix_form h
unfolding match_name
covers core false h e = itself (same_bytes_eq h core e)
covers core true h e = elim (Bool-cases (same_bytes h core)) [
  | inl same ↦ itself (same_bytes_eq h core same)
  | inr other ↦ let (pre, p) = suffix_of h (b'.' ∷ core) (ground arith) in below pre refl p
]

covered :
    (core : List ℕ) (suffix_form : Bool) (h : List ℕ)
    → Covers core suffix_form h
    → match_name core suffix_form h ≡ true
unfolding match_name
covered core suffix_form h (itself e) =
    subst (λ h. match_name core suffix_form h ≡ true) (sym e) (ground (arith, same_bytes_self core))
covered core suffix_form h (below pre form e) =
    subst (λ h. match_name core suffix_form h ≡ true) (sym e)
      (ground (arith, has-suffix_append pre (b'.' ∷ core)))

-- For a host that is no IP address, a domain criterion matches exactly the host that the pattern
-- names, in any case, and in the suffix form also every host below it: a name, a dot and the
-- pattern's core. It never matches an IP address.
pub match_domain-Covers :
    (net : Net) (r : Rule) (host : List ℕ)
    → (match_domain net r host ≡ true)
      ↔ ((net.parse_ip (to_lower host) ≡ none) × Covers r.m_dom r.m_dom_suffix (to_lower host))
unfolding match_domain match_name
match_domain-Covers net r host = elim (Option-cases (net.parse_ip (to_lower host))) [
  | inl name ↦ (
    λ h. (name, covers r.m_dom r.m_dom_suffix (to_lower host) (ground arith)),
    λ (n, c). ground (arith, covered r.m_dom r.m_dom_suffix (to_lower host) c),
  )
  | inr (ip, e) ↦ (λ h. absurd (stop (ground arith)), λ (n, c). absurd (stop (ground arith)))
]
