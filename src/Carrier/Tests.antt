-- ===== src/Carrier/Tests.antt =====
-- The carrier (pkg/mux/carrier.go) on concrete inputs.
use iran_germany_split_tunne.Common.{
  ℕ, zero, suc, ◌+◌, Bool, ◌≡◌, ◌≢◌, ◌≤◌, refl, true, false, none, some, List, [], ◌∷◌, ◌++◌, subst,
  sym, replicate, get_elem?, All, arith,
}
use iran_germany_split_tunne.Common.Assoc.{lookup, insert, delete, nat_eq}
use iran_germany_split_tunne.Common.Int.{pos, negsuc, ◌+ℤ◌, ◌-ℤ◌}
use iran_germany_split_tunne.Frame.{Frame, frame_data}
use iran_germany_split_tunne.Mailbox.{Item, step, new_stream_queue}
use iran_germany_split_tunne.Mailbox.Aggregate.{IsExact}
use iran_germany_split_tunne.Carrier.{
  Callbacks, StreamRec, exited, CarrierConn, StreamLimits, channels_closed, pushing, sleeping,
  new_mailbox, new_stream_rec, frame_header, frame_close, frame_ping,
}
use iran_germany_split_tunne.Carrier.Limits.{default_stream_limits}
use iran_germany_split_tunne.Carrier.Run.{
  Event, read_frame, read_failure, dispatch_step, dispatch_end, dispatch_start, close_wait,
  register_call, work_step, consume_step, deregister_call, terminate_call, close_mailbox_step,
  terminate_end, set_limits, close_begin, close_end, handed, next, run, new_carrier_conn,
}
use iran_germany_split_tunne.Carrier.Safe.Run.{Calm, starts_in_time, never_sends_on_closed}
use iran_germany_split_tunne.Carrier.Opened.{openings}
use iran_germany_split_tunne.Carrier.Opened.Due.{pending}
use iran_germany_split_tunne.Carrier.Opened.Final.{terminate_is_final}
use iran_germany_split_tunne.Carrier.Exact.{mailboxes}
use iran_germany_split_tunne.Carrier.Exact.Run.{counters-IsExact}
use iran_germany_split_tunne.Carrier.Fate.{Fate, Holds, at_push}
use iran_germany_split_tunne.Carrier.Fate.Deliver.{delivers_or_fails}
use iran_germany_split_tunne.Carrier.Blocked.Run.{dispatcher_stays_parked}
use iran_germany_split_tunne.Carrier.Blocked.{IsStuck, Spares}

abbrev all_set : Callbacks
all_set = record {
  on_new_stream = true;
  on_stream_terminated = true;
  on_stream_reset = true;
  on_stream_bootstrap_ack = true;
  on_stream_data_undeliverable = true;
  on_stream_credit = true;
}

abbrev header_5 : Event
header_5 = read_frame (record { stream_id = 5; typ = frame_header; len = 1; payload = 9 ∷ [] })

abbrev data_5 : Event
data_5 = read_frame (record { stream_id = 5; typ = frame_data; len = 1; payload = 1 ∷ [] })

abbrev close_5 : Event
close_5 = read_frame (record { stream_id = 5; typ = frame_close; len = 0; payload = [] })

-- A frame with the steps that deliver it, or that leave the dispatcher parked.
abbrev delivered : Event → List Event
delivered f =
    f
    ∷ dispatch_step true
    ∷ dispatch_step true
    ∷ dispatch_step true
    ∷ dispatch_step true
    ∷ dispatch_step true
    ∷ []

abbrev worked : List Event
worked = work_step 0 handed true ∷ work_step 0 handed true ∷ consume_step 0 ∷ []

abbrev some_events : List Event
some_events =
    dispatch_start ∷ delivered header_5
    ++ (worked ++ (terminate_call 5 ∷ terminate_end 0 true ∷ delivered data_5))

abbrev closing_events : List Event
closing_events =
    some_events
    ++ (close_begin
        ∷ read_failure
        ∷ dispatch_end
        ∷ close_mailbox_step 0
        ∷ work_step 0 handed true
        ∷ work_step 0 handed true
        ∷ close_wait
        ∷ close_end
        ∷ [])

-- The channels are closed in the end.
shuts_down : (run (new_carrier_conn all_set) closing_events).stage ≡ channels_closed
unfolding run new_carrier_conn lookup insert delete new_stream_queue step new_mailbox new_stream_rec
    ◌+ℤ◌ ◌-ℤ◌
shuts_down = refl

in_time : starts_in_time (new_carrier_conn all_set) closing_events ≡ true
unfolding starts_in_time next new_carrier_conn lookup insert delete new_stream_queue step
    new_mailbox new_stream_rec ◌+ℤ◌ ◌-ℤ◌
in_time = refl

-- Close passes its wait before Dispatch starts, which then looks the stream up while the channels are
-- still open, and fails the undeliverable item when they are closed.
abbrev late_start : List Event
late_start =
    register_call 5
    ∷ data_5
    ∷ close_begin
    ∷ close_mailbox_step 0
    ∷ work_step 0 handed true
    ∷ close_wait
    ∷ dispatch_start
    ∷ dispatch_step true
    ∷ close_end
    ∷ dispatch_step true
    ∷ dispatch_step true
    ∷ dispatch_step true
    ∷ []

panics_of : List StreamRec → List Bool
panics_of [] = []
panics_of (s ∷ ss) = s.panicked ∷ panics_of ss

late_start_panics : panics_of (run (new_carrier_conn all_set) late_start).all_streams ≡ true ∷ []
unfolding panics_of run new_carrier_conn lookup insert delete new_stream_queue step new_mailbox
    new_stream_rec ◌+ℤ◌ ◌-ℤ◌
late_start_panics = refl

never_sends_on_closed_example : All Calm (run (new_carrier_conn all_set) closing_events).all_streams
never_sends_on_closed_example = never_sends_on_closed all_set closing_events in_time

counters-IsExact_example : IsExact (mailboxes (run (new_carrier_conn all_set) some_events))
counters-IsExact_example = counters-IsExact all_set some_events

no_deregister : All (λ e. e ≢ deregister_call 5) some_events
no_deregister = ground arith

-- The dispatcher has looked the stream up, and comes to its OnNewStream next.
abbrev looked_up : List Event
looked_up = dispatch_start ∷ header_5 ∷ dispatch_step true ∷ []

comes_to_it :
    pending 5
      (run (new_carrier_conn all_set) looked_up).dispatcher
      (run (new_carrier_conn all_set) looked_up).all_streams
    ≡ 1
unfolding pending run new_carrier_conn lookup insert delete new_stream_queue step new_mailbox
    new_stream_rec ◌+ℤ◌ ◌-ℤ◌
comes_to_it = refl

terminate_is_final_example :
    openings 5
      (run
        (next (run (new_carrier_conn all_set) looked_up) (terminate_call 5))
        (delivered data_5)).log
    ≤ openings 5 (run (new_carrier_conn all_set) looked_up).log
      + pending 5
          (run (new_carrier_conn all_set) looked_up).dispatcher
          (run (new_carrier_conn all_set) looked_up).all_streams
terminate_is_final_example =
    terminate_is_final all_set looked_up (delivered data_5) 5 (λ p. cc) (ground arith)

abbrev taken_on : List Event
taken_on = dispatch_start ∷ header_5 ∷ dispatch_step true ∷ dispatch_step true ∷ []

abbrev first_item : Item
first_item = record { payload = 9 ∷ []; is_close = false }

holds_first : (run (new_carrier_conn all_set) taken_on).dispatcher ≡ pushing 0 first_item
unfolding run new_carrier_conn lookup insert delete new_stream_queue step new_mailbox new_stream_rec
    ◌+ℤ◌ ◌-ℤ◌
holds_first = refl

abbrev first_rec : StreamRec
unfolding new_stream_rec new_mailbox new_stream_queue
first_rec = new_stream_rec default_stream_limits 5 false

first_at : get_elem? (run (new_carrier_conn all_set) taken_on).all_streams 0 ≡ some first_rec
unfolding run new_carrier_conn lookup insert delete new_stream_queue step new_mailbox new_stream_rec
    ◌+ℤ◌ ◌-ℤ◌
first_at = refl

delivers_or_fails_example :
    Fate
      (run (new_carrier_conn all_set) taken_on)
      (next (run (new_carrier_conn all_set) taken_on) (dispatch_step true))
      0
      first_item
delivers_or_fails_example =
    delivers_or_fails all_set taken_on true 0 first_item first_rec
      (subst (λ d. Holds d 0 first_item) (sym holds_first) (at_push 0 first_item)) first_at

-- A mailbox of one frame, whose carry region holds sixteen.
abbrev narrow : StreamLimits
narrow = record default_stream_limits { max_frames_per_stream = pos 1 }

abbrev repeat : ℕ → List Event → List Event
repeat zero es = []
repeat (suc n) es = es ++ repeat n es

-- The stream's worker ends with the FrameClose, and eighteen data frames follow it.
abbrev parked_events : List Event
parked_events =
    dispatch_start
    ∷ set_limits narrow
    ∷ (delivered header_5
        ++ (worked ++ (delivered close_5 ++ (worked ++ repeat 18 (delivered data_5)))))

abbrev data_item : Item
data_item = record { payload = 1 ∷ []; is_close = false }

abbrev parked_rec : StreamRec
parked_rec = record {
  id = 5;
  q = record {
    max_frames = 1;
    max_bytes = 720896;
    items = data_item ∷ [];
    n_bytes = 1;
    overflow = replicate 16 data_item;
    overflow_bytes = 16;
    overflow_cap = 720896;
    overflow_frame_cap = 16;
    closed = false;
    wake = false;
    n_waiters = 0;
    free = true;
    n_free_waiters = 1;
    budget_limit = pos 16777216;
  };
  ch = none;
  ch_closed = false;
  panicked = false;
  terminated = false;
  callback = false;
  stop_once = false;
  worker = exited;
}

abbrev parked_carrier : CarrierConn
parked_carrier = run (new_carrier_conn all_set) parked_events

parked_asleep : parked_carrier.dispatcher ≡ sleeping 0 data_item
unfolding run new_carrier_conn lookup insert delete new_stream_queue step new_mailbox new_stream_rec
    ◌+ℤ◌ ◌-ℤ◌
parked_asleep = refl

parked_at : get_elem? parked_carrier.all_streams 0 ≡ some parked_rec
unfolding run new_carrier_conn lookup insert delete new_stream_queue step new_mailbox new_stream_rec
    ◌+ℤ◌ ◌-ℤ◌
parked_at = refl

parked_streams : parked_carrier.streams ≡ (5, 0) ∷ []
unfolding run new_carrier_conn lookup insert delete new_stream_queue step new_mailbox new_stream_rec
    ◌+ℤ◌ ◌-ℤ◌
parked_streams = refl

parked_flags : (parked_carrier.closing ≡ false) × (parked_carrier.in_flight ≡ [])
unfolding run new_carrier_conn lookup insert delete new_stream_queue step new_mailbox new_stream_rec
    ◌+ℤ◌ ◌-ℤ◌
parked_flags = (refl, refl)

only_5 : (j : ℕ) → lookup {V = ℕ} j ((5, 0) ∷ []) ≡ some 0 → j ≡ 5
unfolding lookup
only_5 j h = ground arith

parked-IsStuck : IsStuck parked_carrier 0 5 data_item
parked-IsStuck = record {
  asleep = parked_asleep;
  going = parked_flags.0;
  drained = (parked_rec, parked_at, record { gone = refl; parked = omega arith });
  only = λ j h. only_5 j (subst (λ m. lookup j m ≡ some 0) parked_streams h);
  unflown = subst (λ is. All (λ j. j ≢ 0) is) (sym parked_flags.1) tt;
}

abbrev later : List Event
later = data_5 ∷ dispatch_step true ∷ consume_step 0 ∷ deregister_call 5 ∷ dispatch_step true ∷ []

spared : All (Spares 5) later
spared = (spare_data, (spare_dispatch, (spare_consume, (spare_deregister, (spare_dispatch, tt)))))
  where
    spare_data : Spares 5 data_5
    spare_data = record { no_terminate = λ p. cc; no_close = λ p. cc }

    spare_dispatch : Spares 5 (dispatch_step true)
    spare_dispatch = record { no_terminate = λ p. cc; no_close = λ p. cc }

    spare_consume : Spares 5 (consume_step 0)
    spare_consume = record { no_terminate = λ p. cc; no_close = λ p. cc }

    spare_deregister : Spares 5 (deregister_call 5)
    spare_deregister = record { no_terminate = λ p. cc; no_close = λ p. cc }

dispatcher_stays_parked_example : (run parked_carrier later).dispatcher ≡ sleeping 0 data_item
dispatcher_stays_parked_example =
    dispatcher_stays_parked parked_carrier 0 5 data_item later parked-IsStuck spared

abbrev asked : StreamLimits
asked = record {
  max_frames_per_stream = pos 40;
  max_bytes_per_stream = negsuc 0;
  max_bytes_total = pos 1000000;
  overflow_wait = pos 0;
  consumer_stall = pos 7;
}

abbrev ping : Frame
ping = record { stream_id = 0; typ = frame_ping; len = 0; payload = [] }
