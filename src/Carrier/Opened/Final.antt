-- ===== src/Carrier/Opened/Final.antt =====
-- pkg/mux/carrier.go: OnNewStream over the runs of a carrier.
use iran_germany_split_tunne.Common.{
  ℕ, ◌+◌, ◌≤◌, ◌≡◌, ◌≢◌, refl, true, false, Option, none, some, List, [], ◌∷◌, length, All, ==_self,
  arith,
}
use iran_germany_split_tunne.Common.Assoc.{lookup, lookup-insert, nat_eq}
use iran_germany_split_tunne.Carrier.{CarrierConn, Callbacks, opened, create_stream_locked}
use iran_germany_split_tunne.Carrier.ReadLoop.{is_known}
use iran_germany_split_tunne.Carrier.Run.{
  track, terminate, Event, deregister_call, terminate_call, next, run, new_carrier_conn,
}
use iran_germany_split_tunne.Carrier.Opened.Steps.{next-Bounded, due-created}
use iran_germany_split_tunne.Carrier.Opened.Due.{pending}
use iran_germany_split_tunne.Carrier.Opened.Due.Settled.{due-pending}
use iran_germany_split_tunne.Carrier.Opened.{Bounded, may_open, openings, due}

run-Bounded :
    (id : ℕ) (c : CarrierConn) (es : List Event)
    → All (λ e. e ≢ deregister_call id) es
    → Bounded id c (run c es)
unfolding run Bounded
run-Bounded id c [] h = omega arith
run-Bounded id c (e ∷ es) (h, hs) =
    omega (arith, next-Bounded id c e h, run-Bounded id (next c e) es hs)

may_open-le : (c : CarrierConn) (id : ℕ) → may_open c id ≤ 1
unfolding may_open
may_open-le c id = ground arith

new-openings :
    (cb : Callbacks) (id : ℕ)
    → (openings id (new_carrier_conn cb).log ≡ 0) × (due id (new_carrier_conn cb).all_streams ≡ 0)
unfolding new_carrier_conn openings due
new-openings cb id = (refl, refl)

-- As long as a stream is not deregistered, OnNewStream is called for it at most once on a carrier,
-- whatever frames arrive for it and whatever the other goroutines do.
pub opens_once :
    (cb : Callbacks) (es : List Event) (id : ℕ)
    → All (λ e. e ≢ deregister_call id) es
    → openings id (run (new_carrier_conn cb) es).log ≤ 1
unfolding Bounded
opens_once cb es id h = omega (
  arith,
  run-Bounded id (new_carrier_conn cb) es h,
  may_open-le (new_carrier_conn cb) id,
  new-openings cb id,
)

track-streams : (r : CarrierConn × Option ℕ) → (track r).streams ≡ r.0.streams
unfolding track
track-streams (c, none) = refl
track-streams (c, some i) = refl

track-log :
    (r : CarrierConn × Option ℕ) → ((track r).log ≡ r.0.log) × ((track r).closing ≡ r.0.closing)
unfolding track
track-log (c, none) = (refl, refl)
track-log (c, some i) = (refl, refl)

created_known :
    (c : CarrierConn) (id : ℕ)
    → id ≢ 0
    → is_known (lookup id (create_stream_locked c id false).0.streams) ≡ true
unfolding create_stream_locked opened
created_known c id h =
    ground (arith, lookup-insert id id (length c.all_streams) c.streams, ==_self id)

create-log : (c : CarrierConn) (id : ℕ) → (create_stream_locked c id false).0.log ≡ c.log
unfolding create_stream_locked opened
create-log c id = ground arith

-- A Terminate leaves no way to open its stream, on a closing carrier too.
terminate-may_open : (c : CarrierConn) (id : ℕ) → id ≢ 0 → may_open (terminate c id) id ≡ 0
unfolding terminate may_open
terminate-may_open c id h =
    ground (arith, created_known c id h, track-streams (create_stream_locked c id false))

created-due :
    (c : CarrierConn) (id : ℕ)
    → due id (create_stream_locked c id false).0.all_streams ≡ due id c.all_streams
unfolding create_stream_locked opened
created-due c id = ground (arith, due-created id c.all_streams c.limits id false)

track-all : (r : CarrierConn × Option ℕ) → (track r).all_streams ≡ r.0.all_streams
unfolding track
track-all (c, none) = refl
track-all (c, some i) = refl

terminate-log :
    (c : CarrierConn) (id : ℕ)
    → (openings id (terminate c id).log ≡ openings id c.log)
      × (due id (terminate c id).all_streams ≡ due id c.all_streams)
unfolding terminate
terminate-log c id = ground (
  arith,
  create-log c id,
  created-due c id,
  track-log (create_stream_locked c id false),
  track-all (create_stream_locked c id false),
)

-- In every state that a carrier reaches: once Terminate was called for a stream, registered or not,
-- no frame opens the stream again until it is deregistered. OnNewStream is called for it from then on
-- at most once, and only if Dispatch had already looked the stream up, and its call for that very
-- record was the dispatcher's next step.
pub terminate_is_final :
    (cb : Callbacks) (es fs : List Event) (id : ℕ)
    → id ≢ 0
    → All (λ e. e ≢ deregister_call id) fs
    → openings id (run (next (run (new_carrier_conn cb) es) (terminate_call id)) fs).log
      ≤ openings id (run (new_carrier_conn cb) es).log
        + pending id
            (run (new_carrier_conn cb) es).dispatcher
            (run (new_carrier_conn cb) es).all_streams
unfolding next Bounded
terminate_is_final cb es fs id nz h =
    let c : CarrierConn = run (new_carrier_conn cb) es in
    omega (
      arith,
      run-Bounded id (terminate c id) fs h,
      terminate-may_open c id nz,
      terminate-log c id,
      due-pending cb es id,
    )
