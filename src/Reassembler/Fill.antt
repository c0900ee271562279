-- ===== src/Reassembler/Fill.antt =====
-- In-order fragments fill the unit.
use ota_common.Common.{
  ℕ, ◌+◌, ◌≤◌, ◌<◌, ◌≡◌, refl, sym, ap, ◌∙◌, arith, true, List, ◌++◌, length, take, drop, slice,
  write_at, u32, leb, take_left, take_all, take-add, length-append, length-take, length-slice,
  length-write_at, length-replicate, append_assoc,
}
use ota_common.Reassembler.{Reassembler, reset, accept, feed}

-- The first `off` bytes of `unit` have arrived.
pub record IsFilling (unit : List ℕ) (off : ℕ) (r : Reassembler) : Type 0 where
  pub running : r.active ≡ true
  pub of_unit : r.total ≡ length unit
  pub so_far : r.filled ≡ off
  pub sized : length r.buf ≡ length unit
  pub prefix : take off r.buf ≡ take off unit
  pub within : off ≤ length unit

pub reset-IsFilling : (unit : List ℕ) → IsFilling unit 0 (reset (length unit))
unfolding reset
reset-IsFilling unit = record {
  running = refl;
  of_unit = refl;
  so_far = refl;
  sized = length-replicate (length unit) 0;
  prefix = refl;
  within = omega arith;
}

-- Writing the next `n` bytes of the unit behind the first `off`.
take-write_at :
    (buf unit : List ℕ) (off n k : ℕ)
    → off + n ≡ k
    → k ≤ length unit
    → length buf ≡ length unit
    → take off buf ≡ take off unit
    → take k (write_at buf off (slice off n unit)) ≡ take k unit
take-write_at buf unit off n k e h sized prefix =
    ap (take k) (sym (append_assoc (take off buf) s (drop (off + length s) buf)))
    ∙ (take_left k (take off buf ++ s) (drop (off + length s) buf) covers
        ∙ (ap (λ t. t ++ s) prefix ∙ take-add off n k unit e))
  where
    s : List ℕ
    s = slice off n unit

    covers : length (take off buf ++ s) ≡ k
    covers = omega (
      arith,
      length-append (take off buf) s,
      length-take off buf,
      length-slice off n unit (omega arith),
    )

-- A fragment that continues an active unit within its bounds is copied.
feed-accept :
    (r : Reassembler) (off : ℕ) (part : List ℕ)
    → r.active ≡ true
    → r.filled ≡ off
    → off + length part ≤ r.total
    → feed r off part ≡ accept r off part
unfolding feed
feed-accept r off part running e h = ground arith

-- Where the first `off` bytes of a unit of fewer than 65536 have arrived, its next `n` bytes are
-- accepted, after which the first `off + n` have arrived, and the unit is reported complete exactly
-- when its end is reached.
pub feed-IsFilling :
    (unit : List ℕ) (off n : ℕ) (r : Reassembler)
    → length unit < 65536
    → off + n ≤ length unit
    → IsFilling unit off r
    → IsFilling unit (off + n) (feed r off (slice off n unit)).0
      × ((feed r off (slice off n unit)).1 ≡ leb (length unit) (off + n))
unfolding accept
feed-IsFilling unit off n r small fits w = rw accepted (
  record {
    running = w.running;
    of_unit = w.of_unit;
    so_far = filled';
    sized = length-write_at r.buf off part (omega (arith, len)) ∙ w.sized;
    prefix = take-write_at r.buf unit off n (off + n) refl fits w.sized w.prefix;
    within = fits;
  },
  ground (arith, filled'),
)
  where
    open w use {of_unit, so_far, sized}

    part : List ℕ
    part = slice off n unit

    len : length part ≡ n
    len = length-slice off n unit fits

    accepted : feed r off part ≡ accept r off part
    accepted = feed-accept r off part w.running w.so_far (omega (arith, len))

    filled' : u32 (r.filled + u32 (length part)) ≡ off + n
    filled' = omega (arith, len)

-- A filled buffer is the unit.
pub IsFilling-full :
    (unit : List ℕ) (r : Reassembler) → IsFilling unit (length unit) r → r.buf ≡ unit
IsFilling-full unit r w =
    sym (take_all (length unit) r.buf (omega arith))
    ∙ (w.prefix ∙ take_all (length unit) unit (omega arith))
