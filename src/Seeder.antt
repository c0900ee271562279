-- ===== src/Seeder.antt =====
-- `OtaSeeder` of src/transport.cpp. A pointer into the package is the list of the bytes from it to
-- the end; `out` is the list of the frames handed to `IFrameOut`, oldest first.
pub mod Frames
pub mod Delivery
pub mod Leaves
pub mod Chunks
pub mod Answer
pub mod Serving
pub mod Opening
pub mod Octets
mod Tests
use ota_common.Common.{
  ℕ, zero, suc, ◌+◌, ◌-◌, ◌*◌, ◌/◌, ◌%◌, Bool, true, false, Option, none, some, List, [], ◌∷◌, ◌++◌,
  length, take, drop, slice, u16, u32, u64, sub32, ltb, leb, ◌==◌, ◌!=◌, if◌then◌else◌,
}
use ota_common.Wire.{
  OtaFrameType, OtaFrameHeader, start, manifest, block, proof, request, ack, done, abort, load,
  load_commit, announce, unnamed, frame_header_pack, frame_header_unpack, OtaStartInfo,
  start_info_pack, index_manifest, max_fragment,
}
use ota_common.Manifest.{manifest_at, manifest_size}
use ota_common.Package.{ParsedPackage, PackageError, ok, package_parse}
use ota_common.Merkle.{Hash256, hash_leaf, merkle_proof}

pub record Seeder : Type 0 where
  pub out : List (List ℕ)
  pub session : ℕ
  pub frag : ℕ
  pub valid : Bool
  pub finished : Bool
  pub manifest_bytes : List ℕ
  pub sig_len : ℕ
  pub payload : List ℕ
  pub payload_len : ℕ
  pub block_size : ℕ
  pub block_count : ℕ
  pub leaves : List Hash256

-- `frag_` of the constructor: at least 1 and at most `kMaxFragment`.
pub fragment_size : ℕ → ℕ
fragment_size size =
    let frag = if size == 0 then 1 else size in if ltb max_fragment frag then max_fragment else frag

-- The leaf loop of the constructor; `none` if it has not ended within the fuel.
pub leaf_loop : ℕ → ℕ → ℕ → List ℕ → ℕ → Option (List Hash256)
leaf_loop zero block_size payload_len payload off = none
leaf_loop (suc fuel) block_size payload_len payload off =
    let len =
      if leb (u32 (off + block_size)) payload_len then block_size else sub32 payload_len off in
    let leaf = hash_leaf (slice off len payload) in
    let rest = leaf_loop fuel block_size payload_len payload (u32 (off + block_size)) in
    if ltb off payload_len
    then (elim rest [ none ↦ none | some leaves ↦ some (leaf ∷ leaves) ])
    else some []

abbrev pub view : Option (List ℕ) → List ℕ
view none = []
view (some p) = p

abbrev invalid_seeder : ℕ → ℕ → Seeder
invalid_seeder session frag = record {
  out = [];
  session = session;
  frag = frag;
  valid = false;
  finished = false;
  manifest_bytes = [];
  sig_len = 0;
  payload = [];
  payload_len = 0;
  block_size = 0;
  block_count = 0;
  leaves = [];
}

-- The fields set after a successful parse, before the leaves.
unfoldable pub adopt : ParsedPackage → ℕ → ℕ → Seeder
adopt pkg session frag =
    let m = manifest_at (view pkg.manifest) in
    record (invalid_seeder session frag) {
      manifest_bytes = view pkg.manifest;
      sig_len = pkg.signature_len;
      payload = view pkg.payload;
      payload_len = u32 pkg.payload_len;
      block_size = u16 m.block_size;
      block_count = u16 m.block_count;
    }

pub with_leaves : ℕ → Seeder → Option Seeder
with_leaves fuel s = elim (leaf_loop fuel s.block_size s.payload_len s.payload 0) [
  | none ↦ none
  | some leaves ↦ some (record s { leaves = leaves; valid = true })
]

pub construct : ℕ → PackageError × ParsedPackage → ℕ → ℕ → Option Seeder
construct fuel (ok, pkg) session frag = with_leaves fuel (adopt pkg session frag)
construct fuel (_, pkg) session frag = some (invalid_seeder session frag)

-- The constructor; `none` if it has not returned within the fuel.
pub new_seeder : ℕ → Option (List ℕ) → ℕ → ℕ → Option Seeder
new_seeder fuel buf session size = construct fuel (package_parse buf) session (fragment_size size)

-- `emit`. The payload is given as the bytes from its pointer on.
unfoldable pub emit : OtaFrameHeader → List ℕ → ℕ → Seeder → Seeder
emit h payload n s = record s { out = s.out ++ ((frame_header_pack h ++ take n payload) ∷ []) }

pub begin : Seeder → Seeder
begin s =
    let info : OtaStartInfo = record {
      block_size = s.block_size;
      block_count = s.block_count;
      payload_length = s.payload_len;
      manifest_len = manifest_size;
      sig_len = u16 s.sig_len;
    } in
    let body = start_info_pack info in
    let h : OtaFrameHeader = record {
      type = start;
      session = s.session;
      index = 0;
      off = 0;
      total = 0;
    } in
    if s.valid then emit h body (length body) s else s

-- The fragment loops of `send_manifest`, `send_block` and `send_proof` over a unit of `total` bytes,
-- with the cast of the loop's offset. An offset grows by a byte at least, so `total` is fuel enough
-- where `total` and one fragment more stay below the bound of the cast.
unfoldable pub send_unit : (ℕ → ℕ) → OtaFrameType → ℕ → List ℕ → ℕ → ℕ → ℕ → Seeder → Seeder
send_unit cast type index unit total zero off s = s
send_unit cast type index unit total (suc fuel) off s =
    let n = if leb (off + s.frag) total then s.frag else total - off in
    let h : OtaFrameHeader = record {
      type = type;
      session = s.session;
      index = index;
      off = u16 off;
      total = u16 total;
    } in
    let rest =
      send_unit cast type index unit total fuel (cast (off + s.frag))
        (emit h (drop off unit) n s) in
    if ltb off total then rest else s

pub send_manifest : Seeder → Seeder
send_manifest s =
    let total = manifest_size + s.sig_len in
    send_unit u64 manifest index_manifest s.manifest_bytes total total 0 s

pub block_base : Seeder → ℕ → ℕ
block_base s index = u32 (index * s.block_size)

pub block_len : Seeder → ℕ → ℕ
unfolding block_base
block_len s index =
    let base = block_base s index in
    if leb (u32 (base + s.block_size)) s.payload_len then s.block_size else sub32 s.payload_len base

pub send_block : ℕ → Seeder → Seeder
send_block index s =
    let len = block_len s index in
    if leb s.block_count index
    then s
    else send_unit u32 block index (drop (block_base s index) s.payload) len len 0 s

-- The hashes of a proof one behind the other.
unfoldable pub proof_bytes : List Hash256 → List ℕ
proof_bytes [] = []
proof_bytes (h ∷ hs) = h.bytes ++ proof_bytes hs

pub send_path : ℕ → List Hash256 → Seeder → Seeder
send_path index path s =
    let total = length path * 32 in
    if total == 0
    then emit (record { type = proof; session = s.session; index = index; off = 0; total = 0 }) [] 0
        s
    else send_unit u64 proof index (proof_bytes path) total total 0 s

pub send_proof : ℕ → Seeder → Seeder
send_proof index s = send_path index (merkle_proof s.leaves index) s

-- The answer to a request.
pub answer : ℕ → Seeder → Seeder
answer index s =
    if index == index_manifest then send_manifest s else send_block index (send_proof index s)

pub dispatch : OtaFrameType → OtaFrameHeader → Seeder → Seeder
dispatch request h s = answer h.index s
dispatch done h s = record s { finished = true }
dispatch abort h s = record s { finished = true }
dispatch start h s = s
dispatch manifest h s = s
dispatch block h s = s
dispatch proof h s = s
dispatch ack h s = s
dispatch load h s = s
dispatch load_commit h s = s
dispatch announce h s = s
dispatch (unnamed b) h s = s

pub receive : Option OtaFrameHeader → Seeder → Seeder
receive none s = s
receive (some h) s = if h.session != s.session then s else dispatch h.type h s

pub on_frame : List ℕ → Seeder → Seeder
on_frame frame s = if s.valid then receive (frame_header_unpack (some frame)) s else s
