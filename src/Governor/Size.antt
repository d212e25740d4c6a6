-- ===== src/Governor/Size.antt =====
-- pkg/node/target_dial_governor.go: the bound on the tracked targets, under every order of calls.
use iran_germany_split_tunne.Common.{
  ℕ, ◌≡◌, ap, ◌⊎◌, inl, inr, true, false, not, ◌&&◌, none, some, List, [], ◌∷◌, Option-cases,
  Bool-cases, arith,
}
use iran_germany_split_tunne.Common.Assoc.{string_eq, lookup}
use iran_germany_split_tunne.Governor.{
  Governor, GovernorEntry, Call, allow_call, wait_call, failure_call, success_call, call, calls,
  touch_mru, store, gate, probed, retried, recovered, within, allow, wait, record_success,
  record_failure,
}
use Prim.Native.String.{String}
use iran_germany_split_tunne.Governor.Touch.{IsSized, store-IsSized, touch_mru-IsSized}

touched_store-IsSized :
    (g : Governor) (t : String) (e : GovernorEntry)
    → IsSized g
    → IsSized (store (touch_mru g t).0 t e)
touched_store-IsSized g t e s =
    store-IsSized (touch_mru g t).0 t e (touch_mru g t).1 (touch_mru-IsSized g t s).1
      (touch_mru-IsSized g t s).0

gate_cases :
    (now : ℕ) (g : Governor) (t : String) (e : GovernorEntry)
    → ((gate now g t e).0 ≡ g) ⊎ ((d : GovernorEntry) × ((gate now g t e).0 ≡ store g t d))
unfolding gate
gate_cases now g t e =
    elim (Bool-cases
      (e.is_open && (not (within now e.opened_at g.cooldown) && not e.half_probed))) [
        | inl h ↦ inr (probed e, ground (arith, h))
        | inr h ↦ inl (ground (arith, h))
      ]

pub allow_tracked :
    (now : ℕ) (g : Governor) (t : String) (e : GovernorEntry)
    → g.breaker_enabled ≡ true
    → lookup t g.entries ≡ some e
    → allow now g t ≡ gate now (touch_mru g t).0 t e
unfolding allow
allow_tracked now g t e on h = ground (arith, on, h)

pub allow_untracked :
    (now : ℕ) (g : Governor) (t : String)
    → lookup t g.entries ≡ none
    → allow now g t ≡ (g, (true, false))
unfolding allow
allow_untracked now g t h = ground (arith, h)

allow_cases :
    (now : ℕ) (g : Governor) (t : String)
    → ((allow now g t).0 ≡ g)
      ⊎ ((allow now g t).0 ≡ (touch_mru g t).0)
      ⊎ ((e : GovernorEntry) × ((allow now g t).0 ≡ store (touch_mru g t).0 t e))
allow_cases now g t = elim (Bool-cases g.breaker_enabled) [
  | inr off ↦ inl (unfold allow in ground (arith, off))
  | inl on ↦ elim (Option-cases (lookup t g.entries)) [
    | inl h ↦ inl (ap (λ r. r.0) (allow_untracked now g t h))
    | inr (e, h) ↦ inr (rw (allow_tracked now g t e on h) (gate_cases now (touch_mru g t).0 t e))
  ]
]

allow-IsSized : (now : ℕ) (g : Governor) (t : String) → IsSized g → IsSized (allow now g t).0
allow-IsSized now g t s = elim (allow_cases now g t) [
  | inl e ↦ rw e s
  | inr (inl e) ↦ rw e (touch_mru-IsSized g t s).0
  | inr (inr (d, e)) ↦ rw e (touched_store-IsSized g t d s)
]

StoredCases : Governor → Governor → String → Type 0
StoredCases g g' t =
    (g' ≡ g)
    ⊎ ((d : GovernorEntry) × (e : GovernorEntry) × (lookup t g.entries ≡ some d)
        × (g' ≡ store g t e))

stored-IsSized : (g g' : Governor) (t : String) → StoredCases g g' t → IsSized g → IsSized g'
unfolding StoredCases
stored-IsSized g g' t (inl e) s = rw e s
stored-IsSized g g' t (inr (d, e, h, q)) s = rw q (store-IsSized g t e d h s)

wait_cases : (r : ℕ) (g : Governor) (t : String) → StoredCases g (wait r g t).0 t
unfolding wait StoredCases
wait_cases r g t = elim (Option-cases (lookup t g.entries)) [
  | inl h ↦ inl (ground (arith, h))
  | inr (e, h) ↦ elim (Bool-cases (g.backoff_enabled && e.pending_ret)) [
    | inr off ↦ inl (ground (arith, h, off))
    | inl on ↦ elim (Option-cases e.bo) [
      | inl n ↦ inl (ground (arith, h, on, n))
      | inr (b, n) ↦ inr (e, retried r b e, h, ground (arith, h, on, n))
    ]
  ]
]

record_success_cases : (g : Governor) (t : String) → StoredCases g (record_success g t) t
unfolding record_success StoredCases
record_success_cases g t = elim (Option-cases (lookup t g.entries)) [
  | inl h ↦ inl (ground (arith, h))
  | inr (e, h) ↦ inr (e, recovered g.backoff_enabled e, h, ground (arith, h))
]

pub call-IsSized : (g : Governor) (c : Call) → IsSized g → IsSized (call g c)
unfolding call record_failure
call-IsSized g (allow_call now t) s = allow-IsSized now g t s
call-IsSized g (wait_call r t) s = stored-IsSized g _ t (wait_cases r g t) s
call-IsSized g (failure_call now t) s = touched_store-IsSized g t _ s
call-IsSized g (success_call t) s = stored-IsSized g _ t (record_success_cases g t) s

-- From a governor of which this holds, whatever goroutines call in whatever order, it tracks at most
-- `max_targets` targets, each once, and its recency order lists exactly these targets.
pub calls-IsSized : (g : Governor) (cs : List Call) → IsSized g → IsSized (calls g cs)
unfolding calls
calls-IsSized g [] s = s
calls-IsSized g (c ∷ cs) s = calls-IsSized (call g c) cs (call-IsSized g c s)
