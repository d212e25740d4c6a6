-- ===== src/Session.antt =====
-- pkg/session/session.go: the lifecycle of a session.
-- What a method does under the session's mutex is one step. Close and the MarkDirClosed that completes
-- a session go on with teardown outside the mutex: its parts up to the hooks, the hooks, and its end
-- are steps of their own, between which other goroutines may call. The attachment that MarkDirClosed
-- closes after it has released the mutex is closed in the same step. Connections and hooks are numbers;
-- the two logs tell which were closed and run. An attachment is here the flag that it was closed.
pub mod Hooks
pub mod Lifecycle
pub mod Tests
use iran_germany_split_tunne.Common.{
  ℕ, suc, Bool, true, false, not, ◌&&◌, ◌||◌, Option, none, some, List, [], ◌∷◌, ◌++◌,
  if◌then◌else◌,
}
use iran_germany_split_tunne.Common.Assoc.{string_eq}
use Prim.Native.String.{String}

pub data State : Type 0 where
  pending active closing closed : State

pub data Direction : Type 0 where
  dir_up dir_down : Direction

-- How far teardown is, for the goroutine that does it.
pub data Teardown : Type 0 where
  not_started started released hooks_ran finished : Teardown

-- `bootstrap` is the channel, if there is one, with the value in its buffer.
pub record Session : Type 0 where
  pub state : State
  pub up_closed : Bool
  pub down_closed : Bool
  pub reason : String
  pub cancelled : Bool
  pub client_conn : Option ℕ
  pub target_conn : Option ℕ
  pub up_att_closed : Bool
  pub down_att_closed : Bool
  pub on_close : List ℕ
  pub bootstrap : Option (Option ℕ)
  pub client_conn_closed : Bool
  pub done : Bool
  pub teardown : Teardown
  pub conns_closed : List ℕ
  pub hooks_run : List ℕ

abbrev is_some : Option ℕ → Bool
is_some none = false
is_some (some c) = true

unfoldable pub new_session : Option ℕ → Option ℕ → Session
new_session client_conn target_conn = record {
  state = pending;
  up_closed = false;
  down_closed = false;
  reason = "";
  cancelled = false;
  client_conn = client_conn;
  target_conn = target_conn;
  up_att_closed = false;
  down_att_closed = false;
  on_close = [];
  bootstrap = none;
  client_conn_closed = is_some client_conn;
  done = false;
  teardown = not_started;
  conns_closed = [];
  hooks_run = [];
}

-- The states in which the session's methods refuse.
abbrev pub is_ending : State → Bool
is_ending pending = false
is_ending active = false
is_ending closing = true
is_ending closed = true

unfoldable pub activate : Session → Session × Bool
activate s = elim s.state [ pending ↦ (record s { state = active }, true) | _ ↦ (s, false) ]

abbrev pub Channel : Type 0
Channel = Option (Option ℕ)

install : Channel → Channel
install none = some none
install (some buffer) = some buffer

unfoldable pub set_bootstrap_channel : Session → Session × Bool
unfolding install
set_bootstrap_channel s =
    if is_ending s.state then (s, false) else (record s { bootstrap = install s.bootstrap }, true)

-- A send that is dropped when the buffer is full.
unfoldable pub commit : ℕ → Channel → Channel
commit status none = none
commit status (some none) = some (some status)
commit status (some (some v)) = some (some v)

abbrev pub is_empty : Channel → Bool
is_empty none = false
is_empty (some none) = true
is_empty (some (some v)) = false

unfoldable pub resolve_bootstrap : ℕ → Session → Session × Bool
unfolding commit
resolve_bootstrap status s =
    (record s { bootstrap = commit status s.bootstrap }, is_empty s.bootstrap)

abbrev pub buffered : Channel → Option ℕ
buffered none = none
buffered (some buffer) = buffer

emptied : Channel → Channel
emptied none = none
emptied (some buffer) = some none

-- WaitBootstrap takes the committed value out of the channel; without one it waits for its context.
unfoldable pub wait_bootstrap : Session → Session × Option ℕ
unfolding emptied
wait_bootstrap s = (record s { bootstrap = emptied s.bootstrap }, buffered s.bootstrap)

unfoldable pub register_on_close : ℕ → Session → Session
register_on_close hook s =
    if is_ending s.state
    then record s { hooks_run = s.hooks_run ++ (hook ∷ []) }
    else record s { on_close = s.on_close ++ (hook ∷ []) }

pub first_reason : String → String → String
first_reason old new = if string_eq.beq old "" then new else old

unfoldable pub mark_dir_closed : Direction → String → Session → Session × Bool
unfolding first_reason
mark_dir_closed dir reason s = elim s.state [
  | active ↦ elim dir [
    | dir_up ↦ if s.up_closed then (s, false) else (
      record s {
        up_closed = true;
        up_att_closed = true;
        reason = first_reason s.reason reason;
        state = if s.down_closed then closing else active;
        teardown = if s.down_closed then started else s.teardown;
      },
      s.down_closed,
    )
    | dir_down ↦ if s.down_closed then (s, false) else (
      record s {
        down_closed = true;
        down_att_closed = true;
        reason = first_reason s.reason reason;
        state = if s.up_closed then closing else active;
        teardown = if s.up_closed then started else s.teardown;
      },
      s.up_closed,
    )
  ]
  | _ ↦ (s, false)
]

unfoldable pub adopt_conn : ℕ → Session → Session × Bool
adopt_conn c s =
    if is_ending s.state
    then (s, false)
    else (record s { client_conn = some c; client_conn_closed = true }, true)

unfoldable pub close : String → Session → Session
unfolding first_reason
close reason s =
    if is_ending s.state
    then s
    else record s { state = closing; teardown = started; reason = first_reason s.reason reason }

pub close_conn : Option ℕ → List ℕ → List ℕ
close_conn none log = log
close_conn (some c) log = log ++ (c ∷ [])

abbrev pub bootstrap_ended_without_result : ℕ
bootstrap_ended_without_result = 255

-- The parts of teardown; the goroutine that closed the session runs them in this order.
unfoldable pub teardown_step : Session → Session
unfolding commit close_conn
teardown_step s = elim s.teardown [
  | started ↦ record s {
    bootstrap = commit bootstrap_ended_without_result s.bootstrap;
    cancelled = true;
    client_conn_closed = true;
    conns_closed = close_conn s.target_conn (close_conn s.client_conn s.conns_closed);
    up_att_closed = true;
    down_att_closed = true;
    teardown = released;
  }
  | released ↦ record s { hooks_run = s.hooks_run ++ s.on_close; teardown = hooks_ran }
  | hooks_ran ↦ record s { state = closed; done = true; teardown = finished }
  | _ ↦ s
]

pub data Op : Type 0 where
  activate_op set_bootstrap_op wait_bootstrap_op teardown_op : Op
  resolve_op on_close_op adopt_op : ℕ → Op
  mark_op : Direction → String → Op
  close_op : String → Op

unfoldable pub step : Session → Op → Session
unfolding activate set_bootstrap_channel resolve_bootstrap wait_bootstrap register_on_close
    mark_dir_closed adopt_conn close teardown_step
step s activate_op = (activate s).0
step s set_bootstrap_op = (set_bootstrap_channel s).0
step s wait_bootstrap_op = (wait_bootstrap s).0
step s teardown_op = teardown_step s
step s (resolve_op status) = (resolve_bootstrap status s).0
step s (on_close_op hook) = register_on_close hook s
step s (adopt_op c) = (adopt_conn c s).0
step s (mark_op dir reason) = (mark_dir_closed dir reason s).0
step s (close_op reason) = close reason s

unfoldable pub steps : Session → List Op → Session
unfolding step
steps s [] = s
steps s (o ∷ os) = steps (step s o) os
