-- ===== src/Session/Hooks.antt =====
-- pkg/session/session.go: teardown hooks run exactly once.
use iran_germany_split_tunne.Common.{
  ℕ, ◌+◌, ◌≤◌, ◌≡◌, refl, Bool, true, false, Option, List, [], ◌∷◌, ◌++◌, ◌==◌, if◌then◌else◌,
  arith,
}
use iran_germany_split_tunne.Session.{
  State, pending, active, closing, closed, dir_up, dir_down, Teardown, not_started, started,
  released, hooks_ran, finished, Session, new_session, is_ending, Op, activate_op, set_bootstrap_op,
  wait_bootstrap_op, teardown_op, resolve_op, on_close_op, adopt_op, mark_op, close_op, activate,
  set_bootstrap_channel, resolve_bootstrap, wait_bootstrap, register_on_close, mark_dir_closed,
  adopt_conn, close, teardown_step, step, steps,
}

unfoldable pub count : ℕ → List ℕ → ℕ
count h [] = 0
count h (x ∷ xs) = (if x == h then 1 else 0) + count h xs

count-append : (h : ℕ) (xs ys : List ℕ) → count h (xs ++ ys) ≡ count h xs + count h ys
unfolding count
count-append h [] ys = omega arith
count-append h (x ∷ xs) ys = omega (arith, count-append h xs ys)

-- The times that the calls register the hook.
unfoldable pub registrations : ℕ → List Op → ℕ
registrations h [] = 0
registrations h (on_close_op k ∷ os) = (if k == h then 1 else 0) + registrations h os
registrations h (activate_op ∷ os) = registrations h os
registrations h (set_bootstrap_op ∷ os) = registrations h os
registrations h (wait_bootstrap_op ∷ os) = registrations h os
registrations h (teardown_op ∷ os) = registrations h os
registrations h (resolve_op v ∷ os) = registrations h os
registrations h (adopt_op c ∷ os) = registrations h os
registrations h (mark_op d r ∷ os) = registrations h os
registrations h (close_op r ∷ os) = registrations h os

abbrev pub begun : Teardown → Bool
begun not_started = false
begun started = true
begun released = true
begun hooks_ran = true
begun finished = true

abbrev pub hooks_due : Teardown → Bool
hooks_due not_started = true
hooks_due started = true
hooks_due released = true
hooks_due hooks_ran = false
hooks_due finished = false

abbrev pub is_closed : State → Bool
is_closed pending = false
is_closed active = false
is_closed closing = false
is_closed closed = true

abbrev pub is_finished : Teardown → Bool
is_finished not_started = false
is_finished started = false
is_finished released = false
is_finished hooks_ran = false
is_finished finished = true

-- The state follows the teardown.
unfoldable pub IsConsistent : Session → Type 0
IsConsistent s =
    (is_ending s.state ≡ begun s.teardown)
    × (is_closed s.state ≡ is_finished s.teardown)
    × (s.done ≡ is_finished s.teardown)

pub step-IsConsistent : (s : Session) (o : Op) → IsConsistent s → IsConsistent (step s o)
unfolding step activate set_bootstrap_channel resolve_bootstrap wait_bootstrap register_on_close
    mark_dir_closed adopt_conn close teardown_step IsConsistent
step-IsConsistent s activate_op (e, c, d) = ground (arith, e, c, d)
step-IsConsistent s set_bootstrap_op (e, c, d) = ground (arith, e, c, d)
step-IsConsistent s wait_bootstrap_op (e, c, d) = (e, c, d)
step-IsConsistent s teardown_op (e, c, d) = ground (arith, e, c, d)
step-IsConsistent s (resolve_op v) (e, c, d) = (e, c, d)
step-IsConsistent s (on_close_op h) (e, c, d) = ground (arith, e, c, d)
step-IsConsistent s (adopt_op h) (e, c, d) = ground (arith, e, c, d)
step-IsConsistent s (mark_op dir_up r) (e, c, d) = ground (arith, e, c, d)
step-IsConsistent s (mark_op dir_down r) (e, c, d) = ground (arith, e, c, d)
step-IsConsistent s (close_op r) (e, c, d) = ground (arith, e, c, d)

-- What a hook counts for: its runs, and its registrations that teardown has still to run.
pub counted : ℕ → Session → ℕ
counted h s = count h s.hooks_run + (if hooks_due s.teardown then count h s.on_close else 0)

registered : ℕ → Op → ℕ
registered h o = registrations h (o ∷ [])

step-counted :
    (h : ℕ) (s : Session) (o : Op)
    → IsConsistent s
    → counted h (step s o) ≡ counted h s + registered h o
unfolding step activate set_bootstrap_channel resolve_bootstrap wait_bootstrap register_on_close
    mark_dir_closed adopt_conn close teardown_step IsConsistent counted registered registrations
    count
step-counted h s activate_op (e, c, d) = ground (arith, e, c, d)
step-counted h s set_bootstrap_op (e, c, d) = ground (arith, e, c, d)
step-counted h s wait_bootstrap_op (e, c, d) = omega arith
step-counted h s teardown_op (e, c, d) =
    ground (arith, e, c, d, count-append h s.hooks_run s.on_close)
step-counted h s (resolve_op v) (e, c, d) = omega arith
step-counted h s (on_close_op k) (e, c, d) =
    ground (arith, e, c, d, count-append h s.hooks_run (k ∷ []), count-append h s.on_close (k ∷ []))
step-counted h s (adopt_op k) (e, c, d) = ground (arith, e, c, d)
step-counted h s (mark_op dir_up r) (e, c, d) = ground (arith, e, c, d)
step-counted h s (mark_op dir_down r) (e, c, d) = ground (arith, e, c, d)
step-counted h s (close_op r) (e, c, d) = ground (arith, e, c, d)

registrations_split :
    (h : ℕ) (o : Op) (os : List Op) → registrations h (o ∷ os) ≡ registered h o + registrations h os
unfolding registrations registered
registrations_split h (on_close_op k) os = omega arith
registrations_split h activate_op os = omega arith
registrations_split h set_bootstrap_op os = omega arith
registrations_split h wait_bootstrap_op os = omega arith
registrations_split h teardown_op os = omega arith
registrations_split h (resolve_op v) os = omega arith
registrations_split h (adopt_op c) os = omega arith
registrations_split h (mark_op d r) os = omega arith
registrations_split h (close_op r) os = omega arith

pub steps-IsConsistent : (s : Session) (os : List Op) → IsConsistent s → IsConsistent (steps s os)
unfolding steps
steps-IsConsistent s [] c = c
steps-IsConsistent s (o ∷ os) c = steps-IsConsistent (step s o) os (step-IsConsistent s o c)

steps-counted :
    (h : ℕ) (s : Session) (os : List Op)
    → IsConsistent s
    → counted h (steps s os) ≡ counted h s + registrations h os
unfolding steps registrations
steps-counted h s [] c = omega arith
steps-counted h s (o ∷ os) c = omega (
  arith,
  steps-counted h (step s o) os (step-IsConsistent s o c),
  step-counted h s o c,
  registrations_split h o os,
)

pub new_session-IsConsistent : (client target : Option ℕ) → IsConsistent (new_session client target)
unfolding new_session IsConsistent
new_session-IsConsistent client target = (refl, refl, refl)

new_counted : (h : ℕ) (client target : Option ℕ) → counted h (new_session client target) ≡ 0
unfolding new_session counted count
new_counted h client target = refl

finished_counted :
    (h : ℕ) (s : Session) → IsConsistent s → s.state ≡ closed → counted h s ≡ count h s.hooks_run
unfolding counted IsConsistent
finished_counted h s (e, c, d) q = ground (arith, e, c, d, q)

total_counted :
    (h : ℕ) (client target : Option ℕ) (os : List Op)
    → counted h (steps (new_session client target) os) ≡ registrations h os
total_counted h client target os = omega (
  arith,
  steps-counted h (new_session client target) os (new_session-IsConsistent client target),
  new_counted h client target,
)

-- In every run of a new session a hook has never run more often than it was registered.
pub hooks_at_most_once :
    (client target : Option ℕ) (os : List Op) (h : ℕ)
    → count h (steps (new_session client target) os).hooks_run ≤ registrations h os
unfolding counted
hooks_at_most_once client target os h = omega (arith, total_counted h client target os)

-- In every run of a new session, whichever goroutines close it and however their calls fall between
-- the parts of teardown, a hook has run exactly as often as it was registered once the session is
-- closed.
pub hooks_once :
    (client target : Option ℕ) (os : List Op) (h : ℕ)
    → (steps (new_session client target) os).state ≡ closed
    → count h (steps (new_session client target) os).hooks_run ≡ registrations h os
hooks_once client target os h q = omega (
  arith,
  total_counted h client target os,
  finished_counted h (steps (new_session client target) os)
      (steps-IsConsistent (new_session client target) os (new_session-IsConsistent client target))
      q,
)
