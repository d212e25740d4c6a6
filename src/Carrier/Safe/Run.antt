-- ===== src/Carrier/Safe/Run.antt =====
-- pkg/mux/carrier.go: the runs of a carrier, before and after Close has closed the channels.
use iran_germany_split_tunne.Common.{
  ℕ, ◌≡◌, ◌≢◌, refl, ap, subst, ◌∙◌, if_intro, option_intro, sym, Bool, true, false, not, ◌&&◌,
  none, some, List, [], ◌∷◌, ◌⊎◌, inl, inr, get_elem?, All, arith,
}
use iran_germany_split_tunne.Common.Assoc.{nat_eq}
use iran_germany_split_tunne.Carrier.{
  StreamRec, Worker, exited, Dispatcher, returned, CloseStage, before_wait, after_wait,
  channels_closed, CarrierConn, Callbacks, terminate_stream, hand_end, hand,
}
use iran_germany_split_tunne.Carrier.Every.Steps.{next-Of}
use iran_germany_split_tunne.Carrier.Every.{Keeps, Each, Each-IsKept, update-All}
use iran_germany_split_tunne.Carrier.Run.{
  finish_terminate, all_exited, close_channels, may_close_channels, is_exited, is_unstarted,
  is_done, is_before_wait, is_after_wait, is_close_wait, may_pass_wait, wait_streams, shut_channels,
  close_wait, is_nil, close_streams, Event, close_end, next, run, new_carrier_conn,
}
use iran_germany_split_tunne.Carrier.Safe.{
  IsOpen, IsOpen-kept, IsGone, IsSafe, IsShut, closed, running, waited,
}
use iran_germany_split_tunne.Carrier.Safe.Shut.{next_stage}
use iran_germany_split_tunne.Carrier.Safe.Quiet.{IsGone-IsQuiet, IsShut-IsQuiet, next-quiet}

some_ne_none : (n : ℕ) → some n ≢ none
some_ne_none n p = cc

-- The two steps of Close that bring it on, and the others.
last_cases :
    (e : Event) → (e ≡ close_wait) ⊎ ((e ≡ close_end) ⊎ ((e ≢ close_wait) × (e ≢ close_end)))
last_cases close_wait = inl refl
last_cases close_end = inr (inl refl)
last_cases e = inr (inr (λ p. cc, λ p. cc))

exited_of : (w : Worker) → is_exited w ≡ true → w ≡ exited
exited_of w h = ground arith

all_exited-IsGone : (ss : List StreamRec) → all_exited ss ≡ true → All IsOpen ss → All IsGone ss
unfolding all_exited
all_exited-IsGone [] h all = tt
all_exited-IsGone (s ∷ ss) h (o, os) = (
  record { calm = o.calm; open_ch = o.open_ch; gone = exited_of s.worker (ground arith) },
  all_exited-IsGone ss (ground arith) os,
)

close_channels-IsShut : (ss : List StreamRec) → All IsGone ss → All IsShut (close_channels ss)
unfolding close_channels
close_channels-IsShut [] all = tt
close_channels-IsShut (s ∷ ss) (g, gs) =
    (record { calm = g.calm; gone = g.gone }, close_channels-IsShut ss gs)

-- Dispatch has started if Close comes to its wait with this step.
abbrev pub started_by : CarrierConn → Event → Bool
started_by c e = not (is_close_wait e && is_unstarted c.dispatcher)

wait-facts :
    (closing : Bool) (stage : CloseStage) (ss : List StreamRec) (d : Dispatcher)
    → (closing && (is_before_wait stage && (all_exited ss && is_done d))) ≡ true
    → not (is_unstarted d) ≡ true
    → (closing ≡ true) × (all_exited ss ≡ true) × (d ≡ returned)
wait-facts closing stage ss d h started = ground arith

not_yet :
    (closing : Bool) (st : CloseStage) (is : List ℕ)
    → st ≡ before_wait
    → (closing && (is_after_wait st && is_nil is)) ≢ true
not_yet closing st is e h = ground arith

wait_streams-IsSafe :
    (c : CarrierConn)
    → c.stage ≡ before_wait
    → not (is_unstarted c.dispatcher) ≡ true
    → All IsOpen c.all_streams
    → IsSafe (wait_streams c)
unfolding wait_streams may_pass_wait
wait_streams-IsSafe c h started all =
    if_intro IsSafe (may_pass_wait c)
      (λ go.
        let (closing, gone, back) =
          wait-facts c.closing c.stage c.all_streams c.dispatcher go started in
        waited closing back refl (all_exited-IsGone c.all_streams gone all))
      (λ stay. running h all)

next-running :
    (c : CarrierConn) (e : Event)
    → c.stage ≡ before_wait
    → started_by c e ≡ true
    → All IsOpen c.all_streams
    → IsSafe (next c e)
next-running c e h started all = elim (last_cases e) [
  | inl wait ↦
      let started' : not (is_unstarted c.dispatcher) ≡ true =
        subst (λ e. started_by c e ≡ true) wait started in
      subst (λ e. IsSafe (next c e)) (sym wait)
        (unfold next in wait_streams-IsSafe c h started' all)
  | inr (inl last) ↦
      subst (λ e. IsSafe (next c e)) (sym last)
        (unfold next close_streams may_close_channels in
          if_intro IsSafe (may_close_channels c)
            (λ go. absurd (not_yet c.closing c.stage c.in_flight h go)) (λ stay. running h all))
  | inr (inr (no_wait, more)) ↦
      running (next_stage c e no_wait more ∙ h) (
        next-Of (Each IsOpen) (Each-IsKept IsOpen IsOpen-kept) c e (λ last. absurd (more last)) all)
]

end-IsGone :
    (cb : Callbacks) (closing signal taken : Bool)
    → Keeps IsGone (terminate_stream cb closing signal taken)
unfolding terminate_stream hand_end hand
end-IsGone cb closing signal taken s k h = ground arith

nil_facts :
    (closing : Bool) (st : CloseStage) (is : List ℕ)
    → (closing && (is_after_wait st && is_nil is)) ≡ true
    → is ≡ []
nil_facts closing st is h = ground arith

over :
    (closing : Bool) (st : CloseStage) (is : List ℕ)
    → st ≡ channels_closed
    → (closing && (is_after_wait st && is_nil is)) ≢ true
over closing st is e h = ground arith

next-waited :
    (c : CarrierConn) (e : Event)
    → c.closing ≡ true
    → c.dispatcher ≡ returned
    → c.stage ≡ after_wait
    → All IsGone c.all_streams
    → IsSafe (next c e)
next-waited c e closing back st all =
    next-quiet c closing back IsGone IsGone-IsQuiet
      (λ c' same h. waited same.closing (same.dispatcher ∙ back) (same.stage ∙ st) h) all
      (λ n taken.
        unfold finish_terminate in
        option_intro IsSafe (get_elem? c.in_flight n) (λ h. waited closing back st all)
          (λ i h. waited closing back st (
            update-All IsGone c i (terminate_stream c.callbacks c.closing true taken)
              (end-IsGone c.callbacks c.closing true taken) all)))
      (unfold close_streams shut_channels may_close_channels in
        if_intro IsSafe (may_close_channels c)
          (λ go.
            closed closing back (nil_facts c.closing c.stage c.in_flight go) refl
              (close_channels-IsShut c.all_streams all))
          (λ stay. waited closing back st all))
      (ap is_before_wait st) e

next-closed :
    (c : CarrierConn) (e : Event)
    → c.closing ≡ true
    → c.dispatcher ≡ returned
    → c.in_flight ≡ []
    → c.stage ≡ channels_closed
    → All IsShut c.all_streams
    → IsSafe (next c e)
next-closed c e closing back none_left st all =
    next-quiet c closing back IsShut IsShut-IsQuiet
      (λ c' same h.
        closed same.closing (same.dispatcher ∙ back) (same.in_flight ∙ none_left) (same.stage ∙ st)
          h)
      all
      (λ n taken.
        unfold finish_terminate in
        option_intro IsSafe (get_elem? c.in_flight n) (λ h. closed closing back none_left st all)
          (λ i h.
            absurd
              (some_ne_none i (sym h ∙ subst (λ is. get_elem? is n ≡ none) (sym none_left) refl))))
      (unfold close_streams may_close_channels in
        if_intro IsSafe (may_close_channels c)
          (λ go. absurd (over c.closing c.stage c.in_flight st go))
          (λ stay. closed closing back none_left st all))
      (ap is_before_wait st) e

next-IsSafe : (c : CarrierConn) (e : Event) → started_by c e ≡ true → IsSafe c → IsSafe (next c e)
next-IsSafe c e started (running h all) = next-running c e h started all
next-IsSafe c e started (waited closing back st all) = next-waited c e closing back st all
next-IsSafe c e started (closed closing back none_left st all) =
    next-closed c e closing back none_left st all

-- Whenever Close comes to its wait for the dispatcher, Dispatch has started.
unfoldable pub starts_in_time : CarrierConn → List Event → Bool
starts_in_time c [] = true
starts_in_time c (e ∷ es) = started_by c e && starts_in_time (next c e) es

run-IsSafe :
    (c : CarrierConn) (es : List Event) → starts_in_time c es ≡ true → IsSafe c → IsSafe (run c es)
unfolding run starts_in_time
run-IsSafe c [] started h = h
run-IsSafe c (e ∷ es) started h =
    run-IsSafe (next c e) es (ground arith) (next-IsSafe c e (ground arith) h)

All-map {ℓ κ ι} :
    {A : Type ℓ} {P : A → Type κ} {Q : A → Type ι} (f : (x : A) → P x → Q x) (xs : List A)
    → All P xs
    → All Q xs
All-map f [] h = tt
All-map f (x ∷ xs) (h, hs) = (f x h, All-map f xs hs)

pub Calm : StreamRec → Type 0
Calm s = s.panicked ≡ false

All-Calm : (c : CarrierConn) → IsSafe c → All Calm c.all_streams
unfolding Calm
All-Calm c (running h all) = All-map (λ s o. o.calm) c.all_streams all
All-Calm c (waited closing back st all) = All-map (λ s o. o.calm) c.all_streams all
All-Calm c (closed closing back none_left st all) = All-map (λ s o. o.calm) c.all_streams all

-- If Dispatch has started whenever Close comes to its wait for the dispatcher, then nobody ever sends
-- on a handoff channel that Close has closed, whatever the goroutines of the carrier do and in
-- whatever order.
pub never_sends_on_closed :
    (cb : Callbacks) (es : List Event)
    → starts_in_time (new_carrier_conn cb) es ≡ true
    → All Calm (run (new_carrier_conn cb) es).all_streams
unfolding new_carrier_conn
never_sends_on_closed cb es started = All-Calm _ (run-IsSafe _ es started (running refl tt))
