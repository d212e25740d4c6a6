-- ===== src/Session/Tests.antt =====
-- The session's lifecycle (pkg/session/session.go) on concrete inputs.
use iran_germany_split_tunne.Common.{◌≡◌, refl, true, none, some, List, [], ◌∷◌, ◌++◌, arith}
use iran_germany_split_tunne.Session.{
  Session, closed, dir_up, dir_down, new_session, Op, activate_op, set_bootstrap_op, teardown_op,
  resolve_op, on_close_op, adopt_op, mark_op, close_op, activate, set_bootstrap_channel,
  resolve_bootstrap, wait_bootstrap, register_on_close, mark_dir_closed, adopt_conn, close,
  close_conn, teardown_step, step, steps,
}
use iran_germany_split_tunne.Session.Hooks.{count, registrations, hooks_once}
use iran_germany_split_tunne.Session.Lifecycle.{teardowns, teardown_completes, closes_owned}

-- The client's connection 7 is adopted late, both directions end, and a second close comes with a
-- hook between the parts of teardown.
abbrev opening : List Op
opening =
    activate_op
    ∷ on_close_op 1
    ∷ set_bootstrap_op
    ∷ resolve_op 0
    ∷ adopt_op 7
    ∷ mark_op dir_up "client EOF"
    ∷ mark_op dir_down "target EOF"
    ∷ []

abbrev ending : List Op
ending = teardown_op ∷ close_op "late" ∷ on_close_op 2 ∷ teardown_op ∷ teardown_op ∷ []

abbrev whole : List Op
whole = opening ++ ending

hooks_once_example :
    count 2 (steps (new_session none (some 9)) whole).hooks_run ≡ registrations 2 whole
unfolding new_session steps step activate set_bootstrap_channel resolve_bootstrap wait_bootstrap
    register_on_close mark_dir_closed adopt_conn close teardown_step
hooks_once_example = hooks_once none (some 9) whole 2 refl

closes_owned_example :
    (steps (new_session none (some 9)) whole).conns_closed
    ≡ close_conn
        (steps (new_session none (some 9)) whole).target_conn
        (close_conn (steps (new_session none (some 9)) whole).client_conn [])
unfolding new_session steps step activate set_bootstrap_channel resolve_bootstrap wait_bootstrap
    register_on_close mark_dir_closed adopt_conn close teardown_step
closes_owned_example = closes_owned none (some 9) whole refl

teardown_completes_example :
    ((steps (steps (new_session none (some 9)) opening) ending).state ≡ closed)
    × ((steps (steps (new_session none (some 9)) opening) ending).done ≡ true)
unfolding new_session steps step activate set_bootstrap_channel resolve_bootstrap wait_bootstrap
    register_on_close mark_dir_closed adopt_conn close teardown_step teardowns
teardown_completes_example = teardown_completes none (some 9) opening ending refl (omega arith)

abbrev failed : Session
failed = record (new_session none none) { reason = "dial failed" }
