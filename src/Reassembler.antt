-- ===== src/Reassembler.antt =====
-- `OtaReceiver::Reassembler` of src/transport.cpp.
pub mod Fill
pub mod Octets
mod Tests
use ota_common.Common.{
  ℕ, ◌+◌, ◌%◌, Bool, true, false, List, ◌++◌, length, take, drop, replicate, write_at, u32, ltb,
  leb, ◌!=◌, if◌then◌else◌, not,
}

pub record Reassembler : Type 0 where
  pub buf : List ℕ
  pub total : ℕ
  pub filled : ℕ
  pub active : Bool

abbrev pub idle : Reassembler
idle = record { buf = replicate 0 0; total = 0; filled = 0; active = false }

pub reset : ℕ → Reassembler
reset total_len = record {
  buf = replicate total_len 0;
  total = total_len;
  filled = 0;
  active = true;
}

-- The copy of an accepted fragment, and whether the unit is complete.
pub accept : Reassembler → ℕ → List ℕ → Reassembler × Bool
accept r off part =
    let r' = record r {
      buf = write_at r.buf off part;
      filled = u32 (r.filled + u32 (length part));
    } in
    (r', leb r'.total r'.filled)

pub feed : Reassembler → ℕ → List ℕ → Reassembler × Bool
unfolding accept
feed r off part =
    if not r.active
    then (r, false)
    else if off != r.filled
    then (r, false)
    else if ltb r.total (off + length part)
    then (r, false)
    else accept r off part
