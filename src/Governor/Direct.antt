-- ===== src/Governor/Direct.antt =====
-- pkg/node/target_dial_governor.go: dials of targets that the governor does not track.
use iran_germany_split_tunne.Common.{
  ℕ, ◌≡◌, refl, inl, inr, true, not, ◌&&◌, none, some, ◌==◌, Bool-cases, arith,
}
use iran_germany_split_tunne.Common.Assoc.{string_eq, lookup}
use iran_germany_split_tunne.Governor.{Governor, wait}
use iran_germany_split_tunne.Governor.Dial.{
  Weather, First, DialResult, dial, dial_bounded, governed_dial, conclude,
}
use iran_germany_split_tunne.Governor.Size.{allow_untracked}
use Prim.Native.String.{String}

wait_untracked :
    (r : ℕ) (g : Governor) (t : String) → lookup t g.entries ≡ none → wait r g t ≡ (g, none)
unfolding wait
wait_untracked r g t h = ground (arith, h)

governed_untracked :
    (w : Weather) (raw : DialResult) (g : Governor) (t : String)
    → lookup t g.entries ≡ none
    → governed_dial w g t raw ≡ conclude w g t raw
unfolding governed_dial
governed_untracked w raw g t h =
    ground (arith, allow_untracked w.start g t h, wait_untracked w.random g t h)

unbounded :
    (timeout : ℕ) (first : First) (raw : DialResult)
    → (timeout == 0) ≡ true
    → dial_bounded timeout first raw ≡ raw
unfolding dial_bounded
unbounded timeout first raw h = ground (arith, h)

conclude_untracked :
    (w : Weather) (raw : DialResult) (g : Governor) (t : String)
    → lookup t g.entries ≡ none
    → (conclude w g t raw).1 ≡ dial_bounded g.bound w.first raw
unfolding conclude
conclude_untracked w raw g t h = refl

-- A dial, with a dialer that is not nil, of a target that the governor does not track is never refused
-- by the breaker: it ends as the bounded raw dial does.
pub untracked_dial :
    (w : Weather) (raw : DialResult) (g : Governor) (t : String)
    → lookup t g.entries ≡ none
    → w.raw ≡ some raw
    → (dial w g t).1 ≡ dial_bounded g.bound w.first raw
unfolding dial
untracked_dial w raw g t h r =
    elim (Bool-cases (g.bound == 0 && (not g.breaker_enabled && not g.backoff_enabled))) [
      | inl off ↦ ground (arith, r, off, unbounded g.bound w.first raw)
      | inr on ↦
          ground (arith, r, on, governed_untracked w raw g t h, conclude_untracked w raw g t h)
    ]
