-- ===== src/Governor/Abandoned.antt =====
-- pkg/node/target_dial_governor.go: a half-open probe whose context ends while Dial waits for the
-- backoff.
use iran_germany_split_tunne.Common.{
  ℕ, ◌+◌, ◌≤◌, ◌≡◌, refl, ◌∙◌, true, false, some, List, [], ◌∷◌, All, arith,
}
use iran_germany_split_tunne.Common.Assoc.{string_eq, lookup}
use iran_germany_split_tunne.Backoff.{DialBackoff}
use iran_germany_split_tunne.Governor.{
  Governor, GovernorEntry, touch_mru, make_room, store, gate, probed, retried,
}
use iran_germany_split_tunne.Governor.Dial.{
  Weather, DialResult, breaker_open, context_done, dial, governed_dial,
}
use iran_germany_split_tunne.Governor.Size.{allow_tracked}
use iran_germany_split_tunne.Governor.Probe.{state, stored_same, touched_known, wait_takes}
use Prim.Native.String.{String}

-- The breaker of `t` is open and its probe is taken.
record IsLocked (t : String) (g : Governor) : Type 0 where
  pub entry : GovernorEntry
  pub enabled : g.breaker_enabled ≡ true
  pub found : lookup t g.entries ≡ some entry
  pub opened : entry.is_open ≡ true
  pub taken : entry.half_probed ≡ true

gate_locked :
    (now : ℕ) (g : Governor) (t : String) (e : GovernorEntry)
    → e.is_open ≡ true
    → e.half_probed ≡ true
    → gate now g t e ≡ (g, (false, false))
unfolding gate
gate_locked now g t e o p = ground (arith, o, p)

touched_config :
    (g : Governor) (t : String)
    → ((touch_mru g t).0.breaker_enabled ≡ g.breaker_enabled)
      × ((touch_mru g t).0.backoff_enabled ≡ g.backoff_enabled)
      × ((touch_mru g t).0.cooldown ≡ g.cooldown)
unfolding touch_mru make_room
touched_config g t = (ground arith, ground arith, ground arith)

touched-IsLocked : (t : String) (g : Governor) → IsLocked t g → IsLocked t (touch_mru g t).0
touched-IsLocked t g l = record {
  entry = l.entry;
  enabled = (touched_config g t).0 ∙ l.enabled;
  found = unfold state in touched_known t t g l.entry l.found ∙ l.found;
  opened = l.opened;
  taken = l.taken;
}

locked_dial :
    (w : Weather) (raw : DialResult) (g : Governor) (t : String)
    → w.raw ≡ some raw
    → IsLocked t g
    → dial w g t ≡ ((touch_mru g t).0, breaker_open)
unfolding dial governed_dial
locked_dial w raw g t r l =
    let a =
      allow_tracked w.start g t l.entry l.enabled l.found
      ∙ gate_locked w.start (touch_mru g t).0 t l.entry l.opened l.taken in
    ground (arith, r, a, l.enabled)

pub dials : List Weather → Governor → String → List DialResult
dials [] g t = []
dials (w ∷ ws) g t = (dial w g t).1 ∷ dials ws (dial w g t).0 t

locked_dials :
    (ws : List Weather) (g : Governor) (t : String)
    → All (λ w. (raw : DialResult) × (w.raw ≡ some raw)) ws
    → IsLocked t g
    → All (λ r. r ≡ breaker_open) (dials ws g t)
unfolding dials
locked_dials [] g t rs l = tt
locked_dials (w ∷ ws) g t ((raw, r), rs) l =
    rw (locked_dial w raw g t r l)
      (refl, locked_dials ws (touch_mru g t).0 t rs (touched-IsLocked t g l))

-- The probe of `t` is due, with a retry armed.
pub record IsDue (t : String) (now : ℕ) (e : GovernorEntry) (g : Governor) : Type 0 where
  pub breaker : g.breaker_enabled ≡ true
  pub backoff : g.backoff_enabled ≡ true
  pub found : lookup t g.entries ≡ some e
  pub opened : e.is_open ≡ true
  pub untaken : e.half_probed ≡ false
  pub cooled : e.opened_at + g.cooldown ≤ now
  pub armed : e.pending_ret ≡ true

gate_due :
    (now : ℕ) (g : Governor) (t : String) (e : GovernorEntry)
    → e.is_open ≡ true
    → e.half_probed ≡ false
    → e.opened_at + g.cooldown ≤ now
    → gate now g t e ≡ (store g t (probed e), (true, true))
unfolding gate
gate_due now g t e o p c = ground (arith, o, p)

stored_found :
    (t : String) (g : Governor) (e : GovernorEntry) → lookup t (store g t e).entries ≡ some e
stored_found t g e = unfold state in stored_same t t g e ((string_eq.beq_iff t t).1 refl)

stored_config :
    (t : String) (g : Governor) (e : GovernorEntry)
    → ((store g t e).breaker_enabled ≡ g.breaker_enabled)
      × ((store g t e).backoff_enabled ≡ g.backoff_enabled)
unfolding store
stored_config t g e = (refl, refl)

-- What the abandoned probe leaves behind.
abbrev left_behind : ℕ → Governor → String → GovernorEntry → DialBackoff → Governor
left_behind r g t e b = store (store (touch_mru g t).0 t (probed e)) t (retried r b (probed e))

abandoned_dial :
    (w : Weather) (raw : DialResult) (g : Governor) (t : String) (e : GovernorEntry)
    (b : DialBackoff)
    → IsDue t w.start e g
    → e.bo ≡ some b
    → w.raw ≡ some raw
    → w.cancelled ≡ true
    → dial w g t ≡ (left_behind w.random g t e b, context_done)
unfolding dial governed_dial
abandoned_dial w raw g t e b d n r c =
    let touched = (touch_mru g t).0 in
    let a =
      allow_tracked w.start g t e d.breaker d.found
      ∙ gate_due w.start touched t e d.opened d.untaken
          (omega (arith, (touched_config g t).2, d.cooled)) in
    let (delay, q) =
      wait_takes w.random (store touched t (probed e)) t (probed e) b
        (stored_found t touched (probed e))
        (ground (arith, d.armed, d.backoff, touched_config g t, stored_config t touched (probed e)))
        n in
    ground (arith, r, a, q, c, d.breaker)

left_behind-IsLocked :
    (r now : ℕ) (g : Governor) (t : String) (e : GovernorEntry) (b : DialBackoff)
    → IsDue t now e g
    → IsLocked t (left_behind r g t e b)
unfolding retried
left_behind-IsLocked r now g t e b d = record {
  entry = retried r b (probed e);
  enabled =
      (stored_config t (store (touch_mru g t).0 t (probed e)) (retried r b (probed e))).0
      ∙ (stored_config t (touch_mru g t).0 (probed e)).0
      ∙ (touched_config g t).0
      ∙ d.breaker;
  found = stored_found t _ (retried r b (probed e));
  opened = d.opened;
  taken = refl;
}

-- When the context of the dial that has the probe ends while it waits for the armed backoff, the dial
-- records nothing, and every later dial of the target, whenever it starts and whatever it would meet,
-- is refused because the breaker is open, as long as only dials of this target run and none has a nil
-- dialer.
pub abandoned_probe_locks :
    (w : Weather) (raw : DialResult) (ws : List Weather) (g : Governor) (t : String)
    (e : GovernorEntry) (b : DialBackoff)
    → IsDue t w.start e g
    → e.bo ≡ some b
    → w.raw ≡ some raw
    → w.cancelled ≡ true
    → All (λ v. (r : DialResult) × (v.raw ≡ some r)) ws
    → ((dial w g t).1 ≡ context_done) × All (λ r. r ≡ breaker_open) (dials ws (dial w g t).0 t)
abandoned_probe_locks w raw ws g t e b d n r c rs = rw (abandoned_dial w raw g t e b d n r c) (
  refl,
  locked_dials ws (left_behind w.random g t e b) t rs
      (left_behind-IsLocked w.random w.start g t e b d),
)
