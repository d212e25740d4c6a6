-- ===== src/Governor/Probe.antt =====
-- pkg/node/target_dial_governor.go: an open breaker admits one half-open probe.
use iran_germany_split_tunne.Common.{
  ℕ, ◌+◌, ◌≤◌, ◌≡◌, refl, sym, ap, subst, ◌∙◌, ◌⊎◌, inl, inr, Bool, true, false, not, ◌&&◌, ◌||◌,
  Option, none, some, List, [], ◌∷◌, length, All, leb, if◌then◌else◌, Option-cases, Bool-cases,
  List-cases, arith,
}
use iran_germany_split_tunne.Common.Assoc.{string_eq, lookup, lookup-insert, lookup-delete}
use iran_germany_split_tunne.Backoff.{DialBackoff, dial_next_delay}
use iran_germany_split_tunne.Governor.{
  Governor, GovernorEntry, Call, allow_call, wait_call, failure_call, success_call, call, touch_mru,
  make_room, new_entry, store, allow, gate, within, probed, retried, recovered, take_retry, wait,
  count_failure, arm_retry, record_failure, record_success,
}
use iran_germany_split_tunne.Governor.Touch.{touch_mru_absent, added}
use iran_germany_split_tunne.Governor.Size.{allow_tracked, allow_untracked}
use Prim.Native.String.{String}

-- Does the call record an outcome of a dial of `t`?
unfoldable pub records : String → Call → Bool
records t (allow_call now u) = false
records t (wait_call r u) = false
records t (failure_call now u) = string_eq.beq u t
records t (success_call u) = string_eq.beq u t

-- Does the call admit the probe of `t`?
pub is_probe : String → Governor → Call → Bool
is_probe t g (allow_call now u) = string_eq.beq u t && (allow now g u).1.1
is_probe t g (wait_call r u) = false
is_probe t g (failure_call now u) = false
is_probe t g (success_call u) = false

pub probes : String → Governor → List Call → ℕ
unfolding is_probe
probes t g [] = 0
probes t g (c ∷ cs) = (if is_probe t g c then 1 else 0) + probes t (call g c) cs

-- No probe of a target with this entry is due.
quiet : Option GovernorEntry → Bool
quiet none = true
quiet (some e) = not e.is_open || e.half_probed

unfoldable pub state : String → Governor → Option GovernorEntry
state t g = lookup t g.entries

room_kept :
    (t : String) (g : Governor)
    → (state t (make_room g) ≡ state t g) ⊎ (state t (make_room g) ≡ none)
unfolding state make_room
room_kept t g = elim (List-cases g.order) [
  | inl e ↦ inl (ground (arith, e))
  | inr (evict, rest, e) ↦ elim (Bool-cases (leb g.max_targets (length g.entries))) [
    | inl full ↦ elim (Bool-cases (string_eq.beq evict t)) [
      | inl same ↦ inr (ground (arith, e, full, same, lookup-delete evict t g.entries))
      | inr ne ↦ inl (ground (arith, e, full, ne, lookup-delete evict t g.entries))
    ]
    | inr h ↦ inl (ground (arith, e, h))
  ]
]

pub touched_known :
    (t u : String) (g : Governor) (e : GovernorEntry)
    → lookup u g.entries ≡ some e
    → state t (touch_mru g u).0 ≡ state t g
unfolding state touch_mru
touched_known t u g e h = ground (arith, h)

stored_other :
    (t u : String) (g : Governor) (e : GovernorEntry)
    → string_eq.beq u t ≡ false
    → state t (store g u e) ≡ state t g
unfolding state store
stored_other t u g e ne = ground (arith, ne, lookup-insert u t e g.entries)

pub stored_same :
    (t u : String) (g : Governor) (e : GovernorEntry)
    → string_eq.beq u t ≡ true
    → state t (store g u e) ≡ some e
unfolding state store
stored_same t u g e eq = ground (arith, eq, lookup-insert u t e g.entries)

added_other :
    (t u : String) (g : Governor) → string_eq.beq u t ≡ false → state t (added g u) ≡ state t g
unfolding state
added_other t u g ne = ground (arith, ne, lookup-insert u t new_entry g.entries)

-- Another target's entry stays as it is, or is evicted.
touched_other :
    (t u : String) (g : Governor)
    → string_eq.beq u t ≡ false
    → (state t (touch_mru g u).0 ≡ state t g) ⊎ (state t (touch_mru g u).0 ≡ none)
touched_other t u g ne = elim (Option-cases (lookup u g.entries)) [
  | inr (e, h) ↦ inl (touched_known t u g e h)
  | inl h ↦ rw (touch_mru_absent g u h) (rw (added_other t u (make_room g) ne) (room_kept t g))
]

gate_refuses :
    (now : ℕ) (g : Governor) (u : String) (e : GovernorEntry)
    → (e.is_open && (not (within now e.opened_at g.cooldown) && not e.half_probed)) ≡ false
    → ((gate now g u e).0 ≡ g) × ((gate now g u e).1.1 ≡ false)
unfolding gate
gate_refuses now g u e h = (ground (arith, h), ground (arith, h))

gate_probes :
    (now : ℕ) (g : Governor) (u : String) (e : GovernorEntry)
    → (e.is_open && (not (within now e.opened_at g.cooldown) && not e.half_probed)) ≡ true
    → (gate now g u e ≡ (store g u (probed e), (true, true))) × (quiet (some e) ≡ false)
unfolding gate quiet
gate_probes now g u e h = (ground (arith, h), ground (arith, h))

gate_effect :
    (t u : String) (now : ℕ) (g' g : Governor) (e : GovernorEntry)
    → state t g' ≡ state t g
    → lookup u g.entries ≡ some e
    → ((state t (gate now g' u e).0 ≡ state t g)
        × ((string_eq.beq u t && (gate now g' u e).1.1) ≡ false))
      ⊎ ((d : GovernorEntry) × (state t g ≡ some d)
          × (quiet (some d) ≡ false)
          × (state t (gate now g' u e).0 ≡ some (probed d)))
gate_effect t u now g' g e same h =
    elim (Bool-cases
      (e.is_open && (not (within now e.opened_at g'.cooldown) && not e.half_probed))) [
        | inr idle ↦ inl (
          rw ((gate_refuses now g' u e idle).0) same,
          ground (arith, (gate_refuses now g' u e idle).1),
        )
        | inl due ↦ elim (Bool-cases (string_eq.beq u t)) [
          | inl eq ↦ inr (
            e,
            subst (λ v. state v g ≡ some e) ((string_eq.beq_iff u t).0 eq) (unfold state in h),
            (gate_probes now g' u e due).1,
            rw ((gate_probes now g' u e due).0) (stored_same t u g' (probed e) eq),
          )
          | inr ne ↦ inl (
            rw ((gate_probes now g' u e due).0) (stored_other t u g' (probed e) ne ∙ same),
            ground (arith, ne),
          )
        ]
      ]

-- What Allow does to the entry of `t`: nothing, unless it admits the probe of `t`.
allow_effect :
    (t u : String) (now : ℕ) (g : Governor)
    → ((state t (allow now g u).0 ≡ state t g) × (is_probe t g (allow_call now u) ≡ false))
      ⊎ ((e : GovernorEntry) × (state t g ≡ some e)
          × (quiet (some e) ≡ false)
          × (state t (allow now g u).0 ≡ some (probed e)))
unfolding is_probe quiet
allow_effect t u now g = elim (Bool-cases g.breaker_enabled) [
  | inr off ↦ inl (unfold allow in ground (arith, off))
  | inl on ↦ elim (Option-cases (lookup u g.entries)) [
    | inl h ↦ inl (rw (allow_untracked now g u h) (ground arith))
    | inr (e, h) ↦
        rw (allow_tracked now g u e on h)
          (gate_effect t u now (touch_mru g u).0 g e (touched_known t u g e h) h)
  ]
]

pub wait_takes :
    (r : ℕ) (g : Governor) (u : String) (e : GovernorEntry) (b : DialBackoff)
    → lookup u g.entries ≡ some e
    → (g.backoff_enabled && e.pending_ret) ≡ true
    → e.bo ≡ some b
    → (d : ℕ) × (wait r g u ≡ (store g u (retried r b e), some d))
unfolding wait take_retry
wait_takes r g u e b h on n = ((dial_next_delay b r).1, ground (arith, h, on, n))

stored_quiet :
    (t u : String) (g : Governor) (e d : GovernorEntry)
    → lookup u g.entries ≡ some e
    → quiet (some d) ≡ quiet (some e)
    → quiet (state t (store g u d)) ≡ quiet (state t g)
unfolding state
stored_quiet t u g e d h q = elim (Bool-cases (string_eq.beq u t)) [
  | inr ne ↦ ap quiet (stored_other t u g d ne)
  | inl eq ↦ rw (stored_same t u g d eq) (
      q
      ∙ ap quiet (sym (subst (λ v. lookup v g.entries ≡ some e) ((string_eq.beq_iff u t).0 eq) h)))
]

quiet-wait :
    (t u : String) (r : ℕ) (g : Governor) → quiet (state t (wait r g u).0) ≡ quiet (state t g)
unfolding wait take_retry
quiet-wait t u r g = elim (Option-cases (lookup u g.entries)) [
  | inl h ↦ ground (arith, h)
  | inr (e, h) ↦ elim (Bool-cases (g.backoff_enabled && e.pending_ret)) [
    | inr off ↦ ground (arith, h, off)
    | inl on ↦ elim (Option-cases e.bo) [
      | inl n ↦ ground (arith, h, on, n)
      | inr (b, n) ↦
          rw ((wait_takes r g u e b h on n).1)
            (stored_quiet t u g e (retried r b e) h (unfold quiet in refl))
    ]
  ]
]

-- What a call that records nothing of `t` does to its quiet.
Quieting : String → Governor → Call → Type 0
Quieting t g c =
    (quiet (state t g) ≡ true → (quiet (state t (call g c)) ≡ true) × (is_probe t g c ≡ false))
    × (is_probe t g c ≡ true → quiet (state t (call g c)) ≡ true)

call-Quieting : (t : String) (g : Governor) (c : Call) → records t c ≡ false → Quieting t g c
unfolding Quieting call records is_probe quiet record_failure record_success
call-Quieting t g (allow_call now u) h = ground (arith, allow_effect t u now g)
call-Quieting t g (wait_call r u) h = ground (arith, quiet-wait t u r g)
call-Quieting t g (failure_call now u) h = ground (
  arith,
  touched_other t u g h,
  stored_other t u (touch_mru g u).0 (arm_retry g (count_failure now g (touch_mru g u).1)) h,
)
call-Quieting t g (success_call u) h = elim (Option-cases (lookup u g.entries)) [
  | inl n ↦ ground (arith, n)
  | inr (e, n) ↦ ground (arith, n, stored_other t u g (recovered g.backoff_enabled e) h)
]

probes-quiet :
    (t : String) (g : Governor) (cs : List Call)
    → All (λ c. records t c ≡ false) cs
    → quiet (state t g) ≡ true
    → probes t g cs ≡ 0
unfolding probes Quieting
probes-quiet t g [] rs q = refl
probes-quiet t g (c ∷ cs) (r, rs) q =
    ground (arith, call-Quieting t g c r, probes-quiet t (call g c) cs rs)

-- Between two recorded outcomes of a target's dials, Allow admits at most one probe of it, in every
-- order of calls of whatever goroutines, and if the target is evicted meanwhile too.
pub probes_at_most_one :
    (t : String) (g : Governor) (cs : List Call)
    → All (λ c. records t c ≡ false) cs
    → probes t g cs ≤ 1
unfolding probes Quieting
probes_at_most_one t g [] rs = omega arith
probes_at_most_one t g (c ∷ cs) (r, rs) = ground (
  arith,
  call-Quieting t g c r,
  probes-quiet t (call g c) cs rs,
  probes_at_most_one t (call g c) cs rs,
)
