-- ===== src/Session/Lifecycle.antt =====
-- pkg/session/session.go: teardown comes to its end, closes what the session owns, and keeps the first
-- reason.
use iran_germany_split_tunne.Common.{
  ℕ, ◌+◌, ◌-◌, ◌≤◌, ◌≡◌, refl, ap, sym, ◌∙◌, Bool, true, false, Option, List, [], ◌∷◌,
  if◌then◌else◌, arith,
}
use iran_germany_split_tunne.Common.Assoc.{string_eq}
use iran_germany_split_tunne.Session.{
  closed, dir_up, dir_down, Teardown, not_started, started, released, hooks_ran, finished, Session,
  new_session, is_ending, Op, activate_op, set_bootstrap_op, wait_bootstrap_op, teardown_op,
  resolve_op, on_close_op, adopt_op, mark_op, close_op, activate, set_bootstrap_channel,
  resolve_bootstrap, wait_bootstrap, register_on_close, mark_dir_closed, adopt_conn, close,
  close_conn, first_reason, teardown_step, step, steps,
}
use iran_germany_split_tunne.Session.Hooks.{
  IsConsistent, steps-IsConsistent, new_session-IsConsistent, begun, is_finished,
}

-- The parts of teardown that are still to run.
abbrev pub remaining : Teardown → ℕ
remaining not_started = 4
remaining started = 3
remaining released = 2
remaining hooks_ran = 1
remaining finished = 0

unfoldable pub teardowns : List Op → ℕ
teardowns [] = 0
teardowns (teardown_op ∷ os) = 1 + teardowns os
teardowns (on_close_op k ∷ os) = teardowns os
teardowns (activate_op ∷ os) = teardowns os
teardowns (set_bootstrap_op ∷ os) = teardowns os
teardowns (wait_bootstrap_op ∷ os) = teardowns os
teardowns (resolve_op v ∷ os) = teardowns os
teardowns (adopt_op c ∷ os) = teardowns os
teardowns (mark_op d r ∷ os) = teardowns os
teardowns (close_op r ∷ os) = teardowns os

-- What an ending session keeps of itself, whatever is called.
ending_step :
    (s : Session) (o : Op) (os : List Op)
    → begun s.teardown ≡ true
    → is_ending s.state ≡ true
    → (begun (step s o).teardown ≡ true)
      × (is_ending (step s o).state ≡ true)
      × (remaining (step s o).teardown - teardowns os ≡ remaining s.teardown - teardowns (o ∷ os))
unfolding step activate set_bootstrap_channel resolve_bootstrap wait_bootstrap register_on_close
    mark_dir_closed adopt_conn close teardown_step teardowns
ending_step s activate_op os b e = ground (arith, b, e)
ending_step s set_bootstrap_op os b e = ground (arith, b, e)
ending_step s wait_bootstrap_op os b e = ground (arith, b, e)
ending_step s teardown_op os b e = ground (arith, b, e)
ending_step s (resolve_op v) os b e = ground (arith, b, e)
ending_step s (on_close_op k) os b e = ground (arith, b, e)
ending_step s (adopt_op k) os b e = ground (arith, b, e)
ending_step s (mark_op d r) os b e = ground (arith, b, e)
ending_step s (close_op r) os b e = ground (arith, b, e)

ending_steps :
    (s : Session) (os : List Op)
    → begun s.teardown ≡ true
    → is_ending s.state ≡ true
    → remaining (steps s os).teardown ≡ remaining s.teardown - teardowns os
unfolding steps teardowns
ending_steps s [] b e = omega arith
ending_steps s (o ∷ os) b e =
    let (b', e', r) = ending_step s o os b e in ending_steps (step s o) os b' e' ∙ r

begun-remaining : (t : Teardown) → begun t ≡ true → remaining t ≤ 3
begun-remaining t h = ground (arith, h)

finished_of_remaining : (t : Teardown) → remaining t ≡ 0 → is_finished t ≡ true
finished_of_remaining t h = ground (arith, h)

closed_of :
    (s : Session)
    → IsConsistent s
    → is_finished s.teardown ≡ true
    → (s.state ≡ closed) × (s.done ≡ true)
unfolding IsConsistent
closed_of s (e, c, d) f = ground (arith, e, c, d, f)

-- Once a session in a run has begun to close, it is closed and done as soon as its teardown has made
-- three steps, whatever is called in between.
pub teardown_completes :
    (client target : Option ℕ) (before os : List Op)
    → is_ending (steps (new_session client target) before).state ≡ true
    → 3 ≤ teardowns os
    → ((steps (steps (new_session client target) before) os).state ≡ closed)
      × ((steps (steps (new_session client target) before) os).done ≡ true)
unfolding IsConsistent
teardown_completes client target before os e enough =
    let s = steps (new_session client target) before in
    let c =
      steps-IsConsistent (new_session client target) before
        (new_session-IsConsistent client target) in
    let b : begun s.teardown ≡ true = sym c.0 ∙ e in
    closed_of (steps s os) (steps-IsConsistent s os c) (
      finished_of_remaining (steps s os).teardown
        (ending_steps s os b e ∙ omega (arith, begun-remaining s.teardown b, enough)))

abbrev pub conns_due : Teardown → Bool
conns_due not_started = true
conns_due started = true
conns_due released = false
conns_due hooks_ran = false
conns_due finished = false

-- The connections closed so far are none, or what the session owns.
IsOwned : Session → Type 0
IsOwned s =
    (is_ending s.state ≡ begun s.teardown)
    × (s.conns_closed ≡ (
        if conns_due s.teardown
        then []
        else close_conn s.target_conn (close_conn s.client_conn [])))

step-IsOwned : (s : Session) (o : Op) → IsOwned s → IsOwned (step s o)
unfolding step activate set_bootstrap_channel resolve_bootstrap wait_bootstrap register_on_close
    mark_dir_closed adopt_conn close teardown_step IsOwned
step-IsOwned s activate_op (b, c) = ground (arith, b, c)
step-IsOwned s set_bootstrap_op (b, c) = ground (arith, b, c)
step-IsOwned s wait_bootstrap_op (b, c) = (b, c)
step-IsOwned s teardown_op (b, c) = ground (arith, b, c)
step-IsOwned s (resolve_op v) (b, c) = (b, c)
step-IsOwned s (on_close_op k) (b, c) = ground (arith, b, c)
step-IsOwned s (adopt_op k) (b, c) = ground (arith, b, c)
step-IsOwned s (mark_op dir_up r) (b, c) = ground (arith, b, c)
step-IsOwned s (mark_op dir_down r) (b, c) = ground (arith, b, c)
step-IsOwned s (close_op r) (b, c) = ground (arith, b, c)

steps-IsOwned : (s : Session) (os : List Op) → IsOwned s → IsOwned (steps s os)
unfolding steps
steps-IsOwned s [] h = h
steps-IsOwned s (o ∷ os) h = steps-IsOwned (step s o) os (step-IsOwned s o h)

new_session-IsOwned : (client target : Option ℕ) → IsOwned (new_session client target)
unfolding new_session IsOwned
new_session-IsOwned client target = (refl, refl)

closed_owned :
    (s : Session)
    → IsConsistent s
    → IsOwned s
    → s.state ≡ closed
    → s.conns_closed ≡ close_conn s.target_conn (close_conn s.client_conn [])
unfolding IsOwned IsConsistent
closed_owned s (e, c, d) (b, o) q = ground (arith, e, c, d, b, o, q)

-- In every run of a new session, a closed session has closed the client and the target connection that
-- it owns, an adopted one too, each once and in this order, and no other connection.
pub closes_owned :
    (client target : Option ℕ) (os : List Op)
    → (steps (new_session client target) os).state ≡ closed
    → (steps (new_session client target) os).conns_closed
      ≡ close_conn
          (steps (new_session client target) os).target_conn
          (close_conn (steps (new_session client target) os).client_conn [])
closes_owned client target os q =
    closed_owned (steps (new_session client target) os)
      (steps-IsConsistent (new_session client target) os (new_session-IsConsistent client target))
      (steps-IsOwned (new_session client target) os (new_session-IsOwned client target)) q

step_reason :
    (s : Session) (o : Op) → string_eq.beq s.reason "" ≡ false → (step s o).reason ≡ s.reason
unfolding step activate set_bootstrap_channel resolve_bootstrap wait_bootstrap register_on_close
    mark_dir_closed adopt_conn close teardown_step first_reason
step_reason s activate_op h = ground (arith, h)
step_reason s set_bootstrap_op h = ground (arith, h)
step_reason s wait_bootstrap_op h = refl
step_reason s teardown_op h = ground (arith, h)
step_reason s (resolve_op v) h = refl
step_reason s (on_close_op k) h = ground (arith, h)
step_reason s (adopt_op k) h = ground (arith, h)
step_reason s (mark_op dir_up r) h = ground (arith, h)
step_reason s (mark_op dir_down r) h = ground (arith, h)
step_reason s (close_op r) h = ground (arith, h)

-- The first reason that is not empty stays the session's reason, whichever closes and half-closes
-- follow.
pub reason_kept :
    (s : Session) (os : List Op)
    → string_eq.beq s.reason "" ≡ false
    → (steps s os).reason ≡ s.reason
unfolding steps
reason_kept s [] h = refl
reason_kept s (o ∷ os) h =
    let e = step_reason s o h in reason_kept (step s o) os (ap (λ r. string_eq.beq r "") e ∙ h) ∙ e
