-- ===== src/Attachment.antt =====
-- pkg/session/attachment.go: the binding of one direction of a session to a carrier generation.
-- A method holds the attachment's mutex from end to end, so it is one step. The grace timer's
-- callback runs in a goroutine of its own: the world below has the timers that may still expire, and
-- the callbacks that expired timers have started and that have not taken the mutex yet. Channels and
-- timers are numbers given out in order.
pub mod Rebind
pub mod States
pub mod Grace
pub mod Signal
pub mod Tests
use iran_germany_split_tunne.Common.{
  ℕ, ◌+◌, Bool, true, false, not, ◌&&◌, Option, none, some, List, [], ◌∷◌, ◌++◌, ◌==◌,
  if◌then◌else◌,
}

pub data AttachmentState : Type 0 where
  unavailable rebinding attached closed : AttachmentState

-- `channels` counts the channels that the attachment has made.
pub record Attachment : Type 0 where
  pub state : AttachmentState
  pub gen : ℕ
  pub timer : Option ℕ
  pub ready : ℕ
  pub ready_closed : Bool
  pub last_rebind_gen : ℕ
  pub channels : ℕ

-- `fired` counts the calls of onTimeout, `woken` has the closed channels.
pub record World : Type 0 where
  pub att : Attachment
  pub armed : List ℕ
  pub started : List ℕ
  pub timers : ℕ
  pub fired : ℕ
  pub woken : List ℕ

unfoldable pub new_attachment : World
new_attachment = record {
  att = record {
    state = unavailable;
    gen = 0;
    timer = none;
    ready = 0;
    ready_closed = false;
    last_rebind_gen = 0;
    channels = 1;
  };
  armed = [];
  started = [];
  timers = 0;
  fired = 0;
  woken = [];
}

abbrev pub is_attached : AttachmentState → Bool
is_attached attached = true
is_attached unavailable = false
is_attached rebinding = false
is_attached closed = false

abbrev pub is_waiting : AttachmentState → Bool
is_waiting unavailable = true
is_waiting rebinding = true
is_waiting attached = false
is_waiting closed = false

unfoldable pub remove : ℕ → List ℕ → List ℕ
remove x [] = []
remove x (y ∷ ys) = let rest = remove x ys in if y == x then rest else y ∷ rest

-- `a.timer.Stop()` keeps a timer from expiring, if it has not yet.
unfoldable pub stop_timer : World → World
unfolding remove
stop_timer w = elim w.att.timer [
  | none ↦ w
  | some t ↦ record w { armed = remove t w.armed; att = record w.att { timer = none } }
]

unfoldable pub start_timer_locked : World → World
start_timer_locked w = elim w.att.timer [
  | some t ↦ w
  | none ↦ record w {
    armed = w.armed ++ (w.timers ∷ []);
    timers = w.timers + 1;
    att = record w.att { timer = some w.timers };
  }
]

-- A new open channel.
abbrev pub fresh_ready : Attachment → Attachment
fresh_ready a = record a { ready = a.channels; channels = a.channels + 1; ready_closed = false }

unfoldable pub close_ready : World → World
close_ready w =
    if w.att.ready_closed
    then w
    else record w { woken = w.att.ready ∷ w.woken; att = record w.att { ready_closed = true } }

unfoldable pub attach : ℕ → World → World × Bool
unfolding stop_timer close_ready
attach gen w =
    if is_waiting w.att.state
    then (
      close_ready (stop_timer (record w { att = record w.att { state = attached; gen = gen } })),
      true,
    )
    else (w, false)

unfoldable pub detach : ℕ → World → World × Bool
unfolding start_timer_locked
detach gen w =
    if is_attached w.att.state && (w.att.gen == gen)
    then (
      start_timer_locked
          (record w { att = fresh_ready (record w.att { state = unavailable; gen = 0 }) }),
      true,
    )
    else (w, false)

unfoldable pub begin_rebind : World → World × Bool
begin_rebind w = elim w.att.state [
  | unavailable ↦ (record w { att = record w.att { state = rebinding } }, true)
  | _ ↦ (w, false)
]

unfoldable pub fail_rebind : World → World × Bool
fail_rebind w = elim w.att.state [
  | rebinding ↦ (record w { att = record w.att { state = unavailable } }, true)
  | _ ↦ (w, false)
]

unfoldable pub close : World → World
unfolding stop_timer
close w = elim w.att.state [
  | closed ↦ w
  | _ ↦
      let stopped = stop_timer (record w { att = record w.att { state = closed; gen = 0 } }) in
      record stopped { att = fresh_ready stopped.att }
]

set_last_rebind_gen : ℕ → World → World
set_last_rebind_gen gen w = record w { att = record w.att { last_rebind_gen = gen } }

-- The oldest armed timer expires: its callback is started.
unfoldable pub expire : World → World
expire w = elim w.armed [
  | [] ↦ w
  | t ∷ rest ↦ record w { armed = rest; started = w.started ++ (t ∷ []) }
]

-- The callback of startTimerLocked that was started first takes the mutex and runs.
unfoldable pub callback : World → World
callback w = elim w.started [
  | [] ↦ w
  | t ∷ rest ↦ elim w.att.state [
    | closed ↦ record w { started = rest }
    | _ ↦ record w { started = rest; fired = w.fired + 1; att = record w.att { timer = none } }
  ]
]

pub data Op : Type 0 where
  attach_op detach_op : ℕ → Op
  begin_op fail_op close_op : Op
  set_last_op : ℕ → Op
  expire_op callback_op : Op

unfoldable pub step : World → Op → World
unfolding attach detach begin_rebind fail_rebind close set_last_rebind_gen expire callback
step w (attach_op g) = (attach g w).0
step w (detach_op g) = (detach g w).0
step w begin_op = (begin_rebind w).0
step w fail_op = (fail_rebind w).0
step w close_op = close w
step w (set_last_op g) = set_last_rebind_gen g w
step w expire_op = expire w
step w callback_op = callback w

unfoldable pub steps : World → List Op → World
unfolding step
steps w [] = w
steps w (o ∷ os) = steps (step w o) os
