-- ===== src/Transfer.antt =====
-- A seeder and a receiver connected: the frames that `OtaSeeder` of src/transport.cpp sends are the
-- frames that `OtaReceiver` takes, in the same order and none lost.
pub mod Fragments
pub mod Ports
pub mod Answered
pub mod Rounds
pub mod Octets
pub mod Session
pub mod Buffered
pub mod Retained
pub mod Recovery
pub mod Payload
pub mod Written
pub mod Flashed
pub mod Opening
pub mod Whole
pub mod Released
pub mod Images
pub mod Sample
mod Tests
use ota_common.Common.{
  ℕ, zero, suc, ◌+◌, ◌-◌, Bool, List, [], ◌∷◌, ◌++◌, ◌≡◌, refl, length, slice, leb, ltb,
  if◌then◌else◌,
}
use ota_common.Wire.{OtaFrameType, OtaFrameHeader, block, proof, frame_header_pack}
use ota_common.Merkle.{Hash256}
use ota_common.Seeder.{proof_bytes}

-- The header of the fragment at an offset of a unit of `total` bytes.
abbrev pub fragment_header : OtaFrameType → ℕ → ℕ → ℕ → ℕ → OtaFrameHeader
fragment_header type session index total off = record {
  type = type;
  session = session;
  index = index;
  off = off;
  total = total;
}

-- The length of the fragment at an offset.
pub fragment_len : ℕ → ℕ → ℕ → ℕ
fragment_len frag total off = if leb (off + frag) total then frag else total - off

-- The frames of a unit from an offset on, with fragments of at most `frag` bytes.
pub fragments : OtaFrameType → ℕ → ℕ → List ℕ → ℕ → ℕ → ℕ → List (List ℕ)
fragments type session index unit frag zero off = []
fragments type session index unit frag (suc fuel) off =
    let rest = fragments type session index unit frag fuel (off + frag) in
    if ltb off (length unit)
    then (frame_header_pack (fragment_header type session index (length unit) off)
        ++ slice off (fragment_len frag (length unit) off) unit)
      ∷ rest
    else []

-- The frames of a proof unit, which is one empty frame where the path is empty, and of a block unit.
unfoldable pub proof_frames : ℕ → ℕ → List Hash256 → ℕ → List (List ℕ)
proof_frames session index [] frag =
    (frame_header_pack (fragment_header proof session index 0 0) ++ []) ∷ []
proof_frames session index (p ∷ ps) frag =
    let unit = proof_bytes (p ∷ ps) in fragments proof session index unit frag (length unit) 0

unfoldable pub block_frames : ℕ → ℕ → List ℕ → ℕ → List (List ℕ)
block_frames session index input frag = fragments block session index input frag (length input) 0

-- Frames taken one after the other.
unfoldable pub take_all_frames {ℓ} : {R : Type ℓ} → (List ℕ → R → R) → List (List ℕ) → R → R
take_all_frames take_frame [] r = r
take_all_frames take_frame (f ∷ fs) r = take_all_frames take_frame fs (take_frame f r)

pub take_all_frames-append {ℓ} :
    {R : Type ℓ}
    → (take_frame : List ℕ → R → R) (fs gs : List (List ℕ)) (r : R)
    → take_all_frames take_frame (fs ++ gs) r
      ≡ take_all_frames take_frame gs (take_all_frames take_frame fs r)
unfolding take_all_frames
take_all_frames-append take_frame [] gs r = refl
take_all_frames-append take_frame (f ∷ fs) gs r =
    take_all_frames-append take_frame fs gs (take_frame f r)
