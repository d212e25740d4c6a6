-- ===== src/Carrier/Limits.antt =====
-- pkg/mux/carrier.go: `StreamLimits` with its defaults, SanitizeLimits and SetStreamLimits.
use iran_germany_split_tunne.Common.{
  ℕ, ◌*◌, ◌^◌, ◌<◌, ◌≡◌, Bool, true, false, List, [], ◌∷◌, if◌then◌else◌, arith,
}
use iran_germany_split_tunne.Common.Int.{ℤ, pos, negsuc, pos_part, ltb_ℤ, ◌≤ℤ◌}
use iran_germany_split_tunne.Carrier.{StreamLimits, StreamRec, CarrierConn}

abbrev pub max_frames : ℤ
max_frames = pos 16

abbrev pub default_stream_limits : StreamLimits
default_stream_limits = record {
  max_frames_per_stream = max_frames;
  max_bytes_per_stream = pos (704 * 2 ^ 10);
  max_bytes_total = pos (16 * 2 ^ 20);
  overflow_wait = pos (100 * 1000000);
  consumer_stall = pos (30 * 1000000000);
}

-- `if z <= 0 { z = d }`.
positive_or : ℤ → ℤ → ℤ
positive_or z d = if ltb_ℤ (pos 0) z then z else d

-- The frame bound has an upper end too.
frames_or_default : ℤ → ℤ
frames_or_default z =
    if ltb_ℤ (pos 0) z
    then (if ltb_ℤ max_frames z then default_stream_limits.max_frames_per_stream else z)
    else default_stream_limits.max_frames_per_stream

-- The limits, and whether they come without the error.
unfoldable pub sanitize_limits : StreamLimits → StreamLimits × Bool
unfolding positive_or frames_or_default
sanitize_limits l =
    let s : StreamLimits = record {
      max_frames_per_stream = frames_or_default l.max_frames_per_stream;
      max_bytes_per_stream =
          positive_or l.max_bytes_per_stream default_stream_limits.max_bytes_per_stream;
      max_bytes_total = positive_or l.max_bytes_total default_stream_limits.max_bytes_total;
      overflow_wait = positive_or l.overflow_wait default_stream_limits.overflow_wait;
      consumer_stall = positive_or l.consumer_stall default_stream_limits.consumer_stall;
    } in
    (s, if ltb_ℤ s.max_bytes_total s.max_bytes_per_stream then false else true)

-- The two settings of a mailbox that follow the carrier's limits.
unfoldable pub resync : StreamLimits → StreamRec → StreamRec
resync l s = record s {
  q = record s.q {
    budget_limit = l.max_bytes_total;
    overflow_cap = pos_part l.max_bytes_per_stream;
  };
}

unfoldable pub resync_all : StreamLimits → List StreamRec → List StreamRec
unfolding resync
resync_all l [] = []
resync_all l (s ∷ ss) = resync l s ∷ resync_all l ss

unfoldable pub set_stream_limits : CarrierConn → StreamLimits → CarrierConn × Bool
unfolding sanitize_limits resync_all
set_stream_limits c l =
    let (s, fine) = sanitize_limits l in
    if fine
    then (record c { limits = s; all_streams = resync_all s c.all_streams }, true)
    else (c, false)

-- Limits that a carrier may run with.
pub record IsSane (l : StreamLimits) : Type 0 where
  pub frames : (pos 1 ≤ℤ l.max_frames_per_stream) × (l.max_frames_per_stream ≤ℤ max_frames)
  pub bytes : pos 1 ≤ℤ l.max_bytes_per_stream
  pub total : l.max_bytes_per_stream ≤ℤ l.max_bytes_total
  pub waits : (pos 1 ≤ℤ l.overflow_wait) × (pos 1 ≤ℤ l.consumer_stall)

positive_or-pos : (z : ℤ) (d : ℕ) → 0 < d → pos 1 ≤ℤ positive_or z (pos d)
unfolding positive_or
positive_or-pos (pos n) d h = ground arith
positive_or-pos (negsuc n) d h = ground arith

positive_or-eq : (z d : ℤ) → pos 1 ≤ℤ z → positive_or z d ≡ z
unfolding positive_or
positive_or-eq (pos n) d h = ground arith
positive_or-eq (negsuc n) d h = ground arith

frames_or_default_bounds :
    (z : ℤ) → (pos 1 ≤ℤ frames_or_default z) × (frames_or_default z ≤ℤ max_frames)
unfolding frames_or_default
frames_or_default_bounds (pos n) = ground arith
frames_or_default_bounds (negsuc n) = ground arith

frames_or_default-eq : (z : ℤ) → pos 1 ≤ℤ z → z ≤ℤ max_frames → frames_or_default z ≡ z
unfolding frames_or_default
frames_or_default-eq (pos n) h k = ground arith
frames_or_default-eq (negsuc n) h k = ground arith

sane : (l : StreamLimits) → (sanitize_limits l).1 ≡ true → IsSane (sanitize_limits l).0
unfolding sanitize_limits
sane l h =
    let (low, high) = frames_or_default_bounds l.max_frames_per_stream in
    record {
      frames = (low, high);
      bytes = positive_or-pos l.max_bytes_per_stream (704 * 2 ^ 10) (omega arith);
      total = ground arith;
      waits = (
        positive_or-pos l.overflow_wait (100 * 1000000) (omega arith),
        positive_or-pos l.consumer_stall (30 * 1000000000) (omega arith),
      );
    }

kept : (l : StreamLimits) → IsSane l → sanitize_limits l ≡ (l, true)
unfolding sanitize_limits
kept l h =
    rw
      (
        frames_or_default-eq l.max_frames_per_stream h.frames.0 h.frames.1,
        positive_or-eq l.max_bytes_per_stream default_stream_limits.max_bytes_per_stream h.bytes,
        positive_or-eq l.max_bytes_total default_stream_limits.max_bytes_total (omega arith),
        positive_or-eq l.overflow_wait default_stream_limits.overflow_wait h.waits.0,
        positive_or-eq l.consumer_stall default_stream_limits.consumer_stall h.waits.1,
      )
      (ground arith)

-- Whatever limits are asked for, those that come without the error are sane: every bound is
-- positive, the frame bound is at most MaxFrames and the carrier's budget at least one stream's
-- share. Sane limits come back unchanged and without the error.
pub sanitize_limits-IsSane :
    (l : StreamLimits)
    → ((sanitize_limits l).1 ≡ true → IsSane (sanitize_limits l).0)
      × (IsSane l → sanitize_limits l ≡ (l, true))
sanitize_limits-IsSane l = (sane l, kept l)
