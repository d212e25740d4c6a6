-- ===== src/Governor/Breaker.antt =====
-- pkg/node/target_dial_governor.go: when the breaker of a target opens.
use iran_germany_split_tunne.Common.{
  ℕ, ◌+◌, ◌≤◌, ◌<◌, ◌≡◌, ◌≢◌, refl, sym, ap, ◌∙◌, true, false, none, some, List, [], ◌∷◌, length,
  All, leb, arith,
}
use iran_germany_split_tunne.Common.Assoc.{string_eq, lookup, lookup-insert}
use iran_germany_split_tunne.Governor.{
  Governor, GovernorEntry, touch_mru, make_room, new_entry, store, count_failure, arm_retry,
  record_failure,
}
use iran_germany_split_tunne.Governor.Touch.{touch_mru_absent, touch_mru_known}
use Prim.Native.String.{String}

pub failures : Governor → String → List ℕ → Governor
failures g t [] = g
failures g t (now ∷ ts) = failures (record_failure now g t) t ts

-- The breaker is on, with these settings.
pub record HasBreaker (threshold window : ℕ) (g : Governor) : Type 0 where
  pub enabled : g.breaker_enabled ≡ true
  pub its_window : g.window ≡ window
  pub its_threshold : g.threshold ≡ threshold

record_failure-HasBreaker :
    (threshold window now : ℕ) (g : Governor) (t : String)
    → HasBreaker threshold window g
    → HasBreaker threshold window (record_failure now g t)
unfolding record_failure store touch_mru make_room
record_failure-HasBreaker threshold window now g t b = record {
  enabled = ground (arith, b.enabled);
  its_window = ground (arith, b.its_window);
  its_threshold = ground (arith, b.its_threshold);
}

record_failure_entry :
    (now : ℕ) (g : Governor) (t : String)
    → lookup t (record_failure now g t).entries
      ≡ some (arm_retry g (count_failure now g (touch_mru g t).1))
unfolding record_failure store
record_failure_entry now g t = ground (
  arith,
  lookup-insert t t (arm_retry g (count_failure now g (touch_mru g t).1)) (touch_mru g t).0.entries,
  string_eq.beq_iff t t,
)

touched_entry :
    (g : Governor) (t : String) (e : GovernorEntry)
    → lookup t g.entries ≡ some e
    → (touch_mru g t).1 ≡ e
touched_entry g t e h = rw (touch_mru_known g t e h) refl

fresh_entry :
    (g : Governor) (t : String) → lookup t g.entries ≡ none → (touch_mru g t).1 ≡ new_entry
fresh_entry g t h = rw (touch_mru_absent g t h) refl

-- The entry after `n` failures in the window that starts at `start`.
record Counted (threshold start n : ℕ) (e : GovernorEntry) : Type 0 where
  pub opens : e.is_open ≡ leb threshold n
  pub counts : e.is_open ≡ false → (e.failures ≡ n) × (e.window_start ≡ start)

count_failure-Counted :
    (threshold window now start n : ℕ) (g : Governor) (e : GovernorEntry)
    → HasBreaker threshold window g
    → start ≢ 0
    → now < start + window
    → Counted threshold start n e
    → Counted threshold start (n + 1) (arm_retry g (count_failure now g e))
unfolding count_failure arm_retry
count_failure-Counted threshold window now start n g e b nz h c = record {
  opens = ground (arith, c.opens, c.counts, b.enabled, b.its_window, b.its_threshold);
  counts = λ h'. ground (arith, c.opens, c.counts, b.enabled, b.its_window, b.its_threshold, h');
}

first_failure-Counted :
    (threshold window start : ℕ) (g : Governor)
    → HasBreaker threshold window g
    → 1 ≤ window
    → Counted threshold start 1 (arm_retry g (count_failure start g new_entry))
unfolding count_failure arm_retry
first_failure-Counted threshold window start g b w = record {
  opens = ground (arith, b.enabled, b.its_window, b.its_threshold);
  counts = λ h. ground (arith, b.enabled, b.its_window, b.its_threshold, h);
}

module _ (threshold window start : ℕ) (t : String) (nz : start ≢ 0) where
  failures-Counted :
      (g : Governor) (e : GovernorEntry) (n : ℕ) (ts : List ℕ)
      → HasBreaker threshold window g
      → All (λ now. now < start + window) ts
      → lookup t g.entries ≡ some e
      → Counted threshold start n e
      → (d : GovernorEntry) × (lookup t (failures g t ts).entries ≡ some d)
        × (d.is_open ≡ leb threshold (n + length ts))
  unfolding failures
  failures-Counted g e n [] b late h c = (e, h, ground (arith, c.opens))
  failures-Counted g e n (now ∷ ts) b (soon, late) h c =
      let d = arm_retry g (count_failure now g e) in
      let (f, found, opens) =
        failures-Counted (record_failure now g t) d (n + 1) ts
          (record_failure-HasBreaker threshold window now g t b) late
          (rw (sym (touched_entry g t e h)) (record_failure_entry now g t))
          (count_failure-Counted threshold window now start n g e b nz soon c) in
      (f, found, opens ∙ ap (leb threshold) (omega arith))

-- With the breaker on and a window that is not empty: from a target that is not tracked, failures at a
-- time `start` after the zero time and at `ts`, all less than the window after the first, leave its
-- breaker open just if there are at least as many as the threshold.
pub failures_open :
    (threshold window start : ℕ) (g : Governor) (t : String) (ts : List ℕ)
    → HasBreaker threshold window g
    → start ≢ 0
    → 1 ≤ window
    → All (λ now. now < start + window) ts
    → lookup t g.entries ≡ none
    → (e : GovernorEntry) × (lookup t (failures g t (start ∷ ts)).entries ≡ some e)
      × (e.is_open ≡ leb threshold (1 + length ts))
unfolding failures
failures_open threshold window start g t ts b nz w late h =
    failures-Counted threshold window start t nz (record_failure start g t)
      (arm_retry g (count_failure start g new_entry)) 1 ts
      (record_failure-HasBreaker threshold window start g t b) late
      (rw (sym (fresh_entry g t h)) (record_failure_entry start g t))
      (first_failure-Counted threshold window start g b w)

-- Each time is at least a window after the one before it.
unfoldable pub Spread : ℕ → ℕ → List ℕ → Type 0
Spread window prev [] = Unit
Spread window prev (now ∷ ts) = (prev + window ≤ now) × Spread window now ts

-- The entry after a failure at `at` that began a window.
record Alone (at : ℕ) (e : GovernorEntry) : Type 0 where
  pub shut : e.is_open ≡ false
  pub one : e.failures ≡ 1
  pub began : e.window_start ≡ at

count_failure-Alone :
    (threshold window prev now : ℕ) (g : Governor) (e : GovernorEntry)
    → HasBreaker threshold window g
    → 2 ≤ threshold
    → prev ≢ 0
    → prev + window ≤ now
    → Alone prev e
    → Alone now (arm_retry g (count_failure now g e))
unfolding count_failure arm_retry
count_failure-Alone threshold window prev now g e b th nz late a = record {
  shut = ground (arith, a.shut, a.one, a.began, b.enabled, b.its_window, b.its_threshold);
  one = ground (arith, a.shut, a.one, a.began, b.enabled, b.its_window, b.its_threshold);
  began = ground (arith, a.shut, a.one, a.began, b.enabled, b.its_window, b.its_threshold);
}

first_failure-Alone :
    (threshold window start : ℕ) (g : Governor)
    → HasBreaker threshold window g
    → 2 ≤ threshold
    → Alone start (arm_retry g (count_failure start g new_entry))
unfolding count_failure arm_retry
first_failure-Alone threshold window start g b th = record {
  shut = ground (arith, b.enabled, b.its_window, b.its_threshold);
  one = ground (arith, b.enabled, b.its_window, b.its_threshold);
  began = ground (arith, b.enabled, b.its_window, b.its_threshold);
}

module _ (threshold window : ℕ) (t : String) (th : 2 ≤ threshold) where
  failures-Alone :
      (g : Governor) (e : GovernorEntry) (prev : ℕ) (ts : List ℕ)
      → HasBreaker threshold window g
      → prev ≢ 0
      → Spread window prev ts
      → lookup t g.entries ≡ some e
      → Alone prev e
      → (d : GovernorEntry) × (lookup t (failures g t ts).entries ≡ some d) × (d.is_open ≡ false)
  unfolding failures Spread
  failures-Alone g e prev [] b nz spread h a = (e, h, a.shut)
  failures-Alone g e prev (now ∷ ts) b nz (late, spread) h a =
      failures-Alone (record_failure now g t) (arm_retry g (count_failure now g e)) now ts
        (record_failure-HasBreaker threshold window now g t b) (λ z. nz (omega (arith, z, late)))
        spread (rw (sym (touched_entry g t e h)) (record_failure_entry now g t))
        (count_failure-Alone threshold window prev now g e b th nz late a)

-- With the breaker on and a threshold of two or more, failures of a target that was not tracked, the
-- first after the zero time and each other one a window or more after the one before it, leave its
-- breaker shut, however many they are.
pub Spread-failures_shut :
    (threshold window start : ℕ) (g : Governor) (t : String) (ts : List ℕ)
    → HasBreaker threshold window g
    → 2 ≤ threshold
    → start ≢ 0
    → Spread window start ts
    → lookup t g.entries ≡ none
    → (e : GovernorEntry) × (lookup t (failures g t (start ∷ ts)).entries ≡ some e)
      × (e.is_open ≡ false)
unfolding failures
Spread-failures_shut threshold window start g t ts b th nz spread h =
    failures-Alone threshold window t th (record_failure start g t)
      (arm_retry g (count_failure start g new_entry)) start ts
      (record_failure-HasBreaker threshold window start g t b) nz spread
      (rw (sym (fresh_entry g t h)) (record_failure_entry start g t))
      (first_failure-Alone threshold window start g b th)
