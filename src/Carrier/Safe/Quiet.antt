-- ===== src/Carrier/Safe/Quiet.antt =====
-- pkg/mux/carrier.go: the steps of a closing carrier whose workers and dispatcher are gone.
use iran_germany_split_tunne.Common.{
  ℕ, ◌≡◌, ◌≢◌, refl, subst, ◌∙◌, if_intro, option_intro, ltb, length, sym, Bool, true, false,
  Option, none, some, List, [], ◌∷◌, All, arith,
}
use iran_germany_split_tunne.Common.Assoc.{lookup, nat_eq}
use iran_germany_split_tunne.Frame.{Frame}
use iran_germany_split_tunne.Mailbox.{Op, Counters, close_queue}
use iran_germany_split_tunne.Carrier.{
  StreamLimits, StreamRec, exited, returned, CarrierConn, ReadError, Change, Notice, Callbacks,
  update,
}
use iran_germany_split_tunne.Carrier.Limits.{resync, resync_all, sanitize_limits, set_stream_limits}
use iran_germany_split_tunne.Carrier.ReadLoop.{
  check_frame, is_known, frames_capacity, read, enqueue, read_fails,
}
use iran_germany_split_tunne.Carrier.Dispatch.{on_queue, deliver_step, dispatch}
use iran_germany_split_tunne.Carrier.Every.{Keeps, update-All}
use iran_germany_split_tunne.Carrier.Run.{
  Outcome, work, work_from, consume, register, deregister, terminate, finish_terminate,
  end_dispatch, is_before_wait, may_pass_wait, wait_streams, start_dispatch, dispatch_start,
  close_wait, close_streams, close_mailbox, Event, read_frame, read_failure, dispatch_step,
  dispatch_end, work_step, consume_step, register_call, deregister_call, terminate_call,
  close_mailbox_step, terminate_end, set_limits, close_begin, close_end, next,
}
use iran_germany_split_tunne.Carrier.Safe.{IsGone, IsSafe, IsShut}

true_ne_false : true ≢ false
true_ne_false p = cc

-- What the steps keep of the records when the workers and the dispatcher are gone.
pub record IsQuiet (Q : StreamRec → Type 0) : Type 0 where
  pub gone : (s : StreamRec) → Q s → s.worker ≡ exited
  pub queued : (op : Op) → Keeps Q (on_queue op)
  pub consumed : Keeps Q consume
  pub resynced : (l : StreamLimits) (s : StreamRec) → Q s → Q (resync l s)

pub IsGone-IsQuiet : IsQuiet IsGone
unfolding on_queue consume resync
IsGone-IsQuiet = record {
  gone = λ s h. h.gone;
  queued = λ op s k h. record { calm = h.calm; open_ch = h.open_ch; gone = h.gone };
  consumed = λ s k h. record { calm = h.calm; open_ch = h.open_ch; gone = h.gone };
  resynced = λ l s h. record { calm = h.calm; open_ch = h.open_ch; gone = h.gone };
}

pub IsShut-IsQuiet : IsQuiet IsShut
unfolding on_queue consume resync
IsShut-IsQuiet = record {
  gone = λ s h. h.gone;
  queued = λ op s k h. record { calm = h.calm; gone = h.gone };
  consumed = λ s k h. record { calm = h.calm; gone = h.gone };
  resynced = λ l s h. record { calm = h.calm; gone = h.gone };
}

resync_all-Quiet :
    (Q : StreamRec → Type 0) (quiet : IsQuiet Q) (l : StreamLimits) (ss : List StreamRec)
    → All Q ss
    → All Q (resync_all l ss)
unfolding resync_all
resync_all-Quiet Q quiet l [] all = tt
resync_all-Quiet Q quiet l (s ∷ ss) (h, hs) =
    (quiet.resynced l s h, resync_all-Quiet Q quiet l ss hs)

work-Quiet :
    (Q : StreamRec → Type 0) (quiet : IsQuiet Q) (cb : Callbacks) (closing : Bool)
    (outcome : Outcome) (taken : Bool)
    → Keeps Q (work cb closing outcome taken)
unfolding work work_from
work-Quiet Q quiet cb closing outcome taken s k h =
    subst (λ w. Q (work_from cb closing outcome taken w s k).0) (sym (quiet.gone s h)) h

-- The same dispatcher, stage and calls of Terminate.
pub record SameClose (c c' : CarrierConn) : Type 0 where
  pub closing : c'.closing ≡ true
  pub dispatcher : c'.dispatcher ≡ c.dispatcher
  pub stage : c'.stage ≡ c.stage
  pub in_flight : c'.in_flight ≡ c.in_flight

module _ (c : CarrierConn) (closing : c.closing ≡ true) (back : c.dispatcher ≡ returned)
    (Q : StreamRec → Type 0) (quiet : IsQuiet Q)
    (lift : (c' : CarrierConn) → SameClose c c' → All Q c'.all_streams → IsSafe c')
    (all : All Q c.all_streams)
    (ended : (n : ℕ) (taken : Bool) → IsSafe (finish_terminate c n taken))
    (shut : IsSafe (close_streams c)) (past : is_before_wait c.stage ≡ false) where
  like : SameClose c c
  like = record { closing = closing; dispatcher = refl; stage = refl; in_flight = refl }

  same-IsSafe : IsSafe c
  same-IsSafe = lift c like all

  changed :
      (all' : List StreamRec) (k : Counters) (ns : List Notice)
      → All Q all'
      → IsSafe (record c { all_streams = all'; counters = k; log = ns })
  changed all' k ns h =
      lift _ (record { closing = closing; dispatcher = refl; stage = refl; in_flight = refl }) h

  updated : (i : ℕ) (f : Change) → Keeps Q f → IsSafe (update c i f)
  updated i f keep = changed _ _ _ (update-All Q c i f keep all)

  read-IsSafe : (f : Frame) (o : Option ReadError) → IsSafe (enqueue c f o)
  unfolding enqueue
  read-IsSafe f none =
      lift _ (record { closing = closing; dispatcher = refl; stage = refl; in_flight = refl }) all
  read-IsSafe f (some e) =
      lift _ (record { closing = closing; dispatcher = refl; stage = refl; in_flight = refl }) all

  limits-IsSafe : (l : StreamLimits) → IsSafe (set_stream_limits c l).0
  unfolding set_stream_limits
  limits-IsSafe l =
      if_intro (λ (r : CarrierConn × Bool). IsSafe r.0) (sanitize_limits l).1
        (λ h.
          lift _ (record { closing = closing; dispatcher = refl; stage = refl; in_flight = refl })
            (resync_all-Quiet Q quiet (sanitize_limits l).0 c.all_streams all))
        (λ h. same-IsSafe)

  still_closing : c.closing ≢ false
  still_closing h = true_ne_false (sym closing ∙ h)

  waits_once : may_pass_wait c ≢ true
  unfolding may_pass_wait
  waits_once h = ground (arith, past)

  pub next-quiet : (e : Event) → IsSafe (next c e)
  unfolding next
  next-quiet (read_frame f) =
      unfold read in
      option_intro IsSafe c.read_err
        (λ h.
          if_intro IsSafe (ltb (length c.frames) frames_capacity)
            (λ l. read-IsSafe f (check_frame (is_known (lookup f.stream_id c.streams)) f))
            (λ l. same-IsSafe))
        (λ e h. same-IsSafe)
  next-quiet read_failure =
      unfold read_fails in
      option_intro IsSafe c.read_err
        (λ h.
          lift _ (record { closing = closing; dispatcher = refl; stage = refl; in_flight = refl })
            all)
        (λ e h. same-IsSafe)
  next-quiet (dispatch_step taken) =
      subst (λ d. IsSafe (dispatch c d taken)) (sym back)
        (unfold dispatch deliver_step in same-IsSafe)
  next-quiet dispatch_start =
      subst (λ d. IsSafe (start_dispatch c d)) (sym back) (unfold start_dispatch in same-IsSafe)
  next-quiet dispatch_end =
      subst (λ d. IsSafe (end_dispatch c d c.frames c.read_err)) (sym back)
        (unfold end_dispatch in same-IsSafe)
  next-quiet (work_step i outcome taken) =
      updated i (work c.callbacks c.closing outcome taken)
        (work-Quiet Q quiet c.callbacks c.closing outcome taken)
  next-quiet (consume_step i) = updated i consume quiet.consumed
  next-quiet (register_call id) =
      unfold register in
      if_intro IsSafe c.closing (λ h. same-IsSafe) (λ h. absurd (still_closing h))
  next-quiet (deregister_call id) =
      unfold deregister in
      lift _ (record { closing = closing; dispatcher = refl; stage = refl; in_flight = refl }) all
  next-quiet (terminate_call id) =
      unfold terminate in
      if_intro IsSafe c.closing (λ h. same-IsSafe) (λ h. absurd (still_closing h))
  next-quiet (terminate_end n taken) = ended n taken
  next-quiet (set_limits l) = limits-IsSafe l
  next-quiet close_begin =
      lift _ (record { closing = refl; dispatcher = refl; stage = refl; in_flight = refl }) all
  next-quiet (close_mailbox_step i) =
      unfold close_mailbox in
      if_intro IsSafe c.closing (λ h. updated i (on_queue close_queue) (quiet.queued close_queue))
        (λ h. same-IsSafe)
  next-quiet close_wait =
      unfold wait_streams in
      if_intro IsSafe (may_pass_wait c) (λ h. absurd (waits_once h)) (λ h. same-IsSafe)
  next-quiet close_end = shut
