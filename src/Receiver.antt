-- ===== src/Receiver.antt =====
-- `OtaReceiver` of src/transport.cpp. The store and the verifier are the caller's; `out` is the list
-- of the frames handed to `IFrameOut`, oldest first; the two maps are functions from an index.
pub mod Frames
pub mod Octets
pub mod Installed
pub mod Received
pub mod Authentic
pub mod Complete
pub mod Admission
pub mod Invariant
pub mod LateStart
pub mod Units
pub mod Noted
pub mod Delivered
pub mod Had
pub mod Stale
pub mod Kept
pub mod Started
pub mod Cases
pub mod Rooted
pub mod Runs
pub mod Authorised
mod Tests
use ota_common.Common.{
  ℕ, zero, suc, ◌+◌, ◌-◌, ◌*◌, ◌/◌, ◌%◌, Bool, true, false, ◌&&◌, ◌||◌, not, Option, none, some,
  List, [], ◌∷◌, ◌++◌, length, take, drop, slice, replicate, u16, u32, ltb, leb, ◌==◌, ◌!=◌,
  if◌then◌else◌,
}
use ota_common.Wire.{
  OtaFrameType, OtaFrameHeader, start, manifest, block, proof, request, ack, done, abort, load,
  load_commit, announce, unnamed, frame_header_pack, frame_header_unpack, OtaStartInfo,
  start_info_unpack, index_manifest, frame_header_len,
}
use ota_common.Manifest.{
  Manifest, zero_manifest, manifest_at, manifest_magic, manifest_format, manifest_size,
}
use ota_common.Package.{SignatureVerifier}
use ota_common.Merkle.{Hash256, merkle_verify_block}
use ota_common.Reassembler.{Reassembler, idle, reset, feed}
use ota_common.BlockStore.{BlockStore}

pub record Receiver (S : Type 0) : Type 0 where
  pub store : S
  pub out : List (List ℕ)
  pub session : ℕ
  pub have_geometry : Bool
  pub block_size : ℕ
  pub block_count : ℕ
  pub payload_length : ℕ
  pub manifest_len : ℕ
  pub sig_len : ℕ
  pub manifest_re : Reassembler
  pub manifest_ready : Bool
  pub manifest_copy : Manifest
  pub merkle_root : Hash256
  pub block_re : Reassembler
  pub block_in_flight : ℕ
  pub proof_re : Reassembler
  pub proof_in_flight : ℕ
  pub proofs : ℕ → Option (List Hash256)
  pub ready_blocks : ℕ → Option (List ℕ)
  pub complete : Bool
  pub aborted : Bool

-- The constructor, with the members' initial values.
abbrev pub new_receiver : {S : Type 0} → S → ℕ → Receiver S
new_receiver store session = record {
  store = store;
  out = [];
  session = session;
  have_geometry = false;
  block_size = 0;
  block_count = 0;
  payload_length = 0;
  manifest_len = 0;
  sig_len = 0;
  manifest_re = idle;
  manifest_ready = false;
  manifest_copy = zero_manifest;
  merkle_root = record { bytes = replicate 32 0 };
  block_re = idle;
  block_in_flight = index_manifest;
  proof_re = idle;
  proof_in_flight = index_manifest;
  proofs = λ index. none;
  ready_blocks = λ index. none;
  complete = false;
  aborted = false;
}

-- `map[key] = value` and `map.erase(key)`.
abbrev pub update {ℓ} : {V : Type ℓ} → (ℕ → Option V) → ℕ → Option V → ℕ → Option V
update f key v k = if k == key then v else f k

-- The hashes `i`, `i + 1`, … of a proof unit.
pub hashes_from : ℕ → ℕ → List ℕ → List Hash256
hashes_from zero i buf = []
hashes_from (suc left) i buf =
    record { bytes = slice (i * 32) 32 buf } ∷ hashes_from left (i + 1) buf

-- `verifier_ == nullptr || verifier_->verify(…)` of a manifest unit.
abbrev pub signature_ok : Option SignatureVerifier → List ℕ → Bool
signature_ok none buf = true
signature_ok (some verify) buf = verify (take manifest_size buf) (drop manifest_size buf)

module _ {S : Type 0} (ops : BlockStore S) (verifier : Option SignatureVerifier) where
  pub send_simple : OtaFrameType → ℕ → Receiver S → Receiver S
  send_simple type index r = record r {
    out =
        r.out
        ++ (frame_header_pack
              (record { type = type; session = r.session; index = index; off = 0; total = 0 })
            ∷ []);
  }

  pub send_request : ℕ → Receiver S → Receiver S
  send_request index r = send_simple request index r

  -- `next_needed_block`, with the blocks from `i` on left to look at.
  pub needed_from : ℕ → ℕ → S → ℕ
  needed_from zero i store = index_manifest
  needed_from (suc left) i store =
      let rest = needed_from left (i + 1) store in if not (ops.has_block store i) then i else rest

  pub next_needed_block : Receiver S → ℕ
  next_needed_block r = needed_from r.block_count 0 r.store

  request_block : ℕ → Receiver S → Receiver S
  request_block need r =
      if need == index_manifest
      then send_simple done 0 (record r { complete = true })
      else send_request need r

  pub request_next : Receiver S → Receiver S
  request_next r =
      if not r.manifest_ready
      then send_request index_manifest r
      else request_block (next_needed_block r) r

  pub poll : Receiver S → Receiver S
  poll r = if not r.aborted && not r.complete then request_next r else r

  set_geometry : Option OtaStartInfo → Receiver S → Receiver S
  set_geometry none r = r
  set_geometry (some s) r = request_next (record r {
    block_size = s.block_size;
    block_count = s.block_count;
    payload_length = s.payload_length;
    manifest_len = s.manifest_len;
    sig_len = s.sig_len;
    have_geometry = true;
  })

  pub handle_start : List ℕ → Receiver S → Receiver S
  handle_start p r = set_geometry (start_info_unpack (some p)) r

  -- `aborted_ = true`.
  pub refuse : Receiver S → Receiver S
  refuse r = record r { aborted = true }

  -- The geometry of the manifest, where no START has come: casts to `uint16_t`.
  adopt_geometry : Manifest → Receiver S → Receiver S
  adopt_geometry m r = record r {
    block_size = u16 m.block_size;
    block_count = u16 m.block_count;
    payload_length = m.payload_length;
  }

  -- The end of `handle_manifest`: the manifest is kept.
  install : Manifest → Receiver S → Receiver S
  install m r = request_next (record r {
    manifest_copy = m;
    merkle_root = record { bytes = m.payload_merkle_root };
    manifest_ready = true;
    manifest_re = record (r.manifest_re) { active = false };
  })

  -- The cross-check of the START geometry.
  cross_check : Manifest → Receiver S → Receiver S
  cross_check m r =
      if r.have_geometry
      then (if m.block_size != r.block_size
            || (m.block_count != r.block_count || m.payload_length != r.payload_length)
          then refuse r
          else install m r)
      else install m (adopt_geometry m r)

  -- The checks of a complete manifest unit.
  pub accept_manifest : List ℕ → Receiver S → Receiver S
  accept_manifest buf r =
      let m = manifest_at buf in
      if ltb (length buf) manifest_size
      then refuse r
      else if m.magic != manifest_magic || m.format != manifest_format
      then refuse r
      else if not (signature_ok verifier buf)
      then refuse r
      else cross_check m r

  pub feed_manifest : Reassembler × Bool → Receiver S → Receiver S
  feed_manifest (re, complete) r =
      let r' = record r { manifest_re = re } in if complete then accept_manifest re.buf r' else r'

  pub handle_manifest : OtaFrameHeader → List ℕ → Receiver S → Receiver S
  handle_manifest h p r =
      if r.manifest_ready
      then r
      else feed_manifest (feed (if h.off == 0 then reset h.total else r.manifest_re) h.off p) r

  -- `try_finish_block` once the block and its proof are both there.
  pub finish_block : ℕ → List ℕ → List Hash256 → Receiver S → Receiver S
  finish_block index input path r =
      let verified = merkle_verify_block input index r.block_count path r.merkle_root in
      let r' =
        if verified
        then send_simple ack index (record r { store = (ops.put_block r.store index input).0 })
        else r in
      request_next (record r' {
        ready_blocks = update r'.ready_blocks index none;
        proofs = update r'.proofs index none;
      })

  try_parts : ℕ → Option (List ℕ) → Option (List Hash256) → Receiver S → Receiver S
  try_parts index none path r = r
  try_parts index (some input) none r = r
  try_parts index (some input) (some path) r = finish_block index input path r

  pub try_finish_block : ℕ → Receiver S → Receiver S
  try_finish_block index r = try_parts index (r.ready_blocks index) (r.proofs index) r

  pub feed_block : ℕ → Reassembler × Bool → Receiver S → Receiver S
  feed_block index (re, complete) r =
      if complete
      then try_finish_block index (record r {
        block_re = record re { active = false };
        block_in_flight = index;
        ready_blocks = update r.ready_blocks index (some re.buf);
      })
      else record r { block_re = re; block_in_flight = index }

  pub handle_block : OtaFrameHeader → List ℕ → Receiver S → Receiver S
  handle_block h p r =
      if not r.manifest_ready
      then r
      else if ops.has_block r.store h.index
      then r
      else feed_block h.index
          (feed (if h.off == 0 || r.block_in_flight != h.index then reset h.total else r.block_re)
            h.off p)
          r

  -- A complete proof unit of the given bytes.
  keep_proof : ℕ → Reassembler → Receiver S → Receiver S
  keep_proof index re r =
      let r' = record r { proof_re = record re { active = false }; proof_in_flight = index } in
      if length re.buf % 32 != 0
      then r'
      else try_finish_block index (record r' {
        proofs = update r'.proofs index (some (hashes_from (length re.buf / 32) 0 re.buf));
      })

  pub feed_proof : ℕ → Reassembler × Bool → Receiver S → Receiver S
  feed_proof index (re, complete) r =
      if complete
      then keep_proof index re r
      else record r { proof_re = re; proof_in_flight = index }

  -- A proof unit of length 0: a tree of a single leaf.
  pub empty_proof : ℕ → Receiver S → Receiver S
  empty_proof index r =
      try_finish_block index (record r { proofs = update r.proofs index (some []) })

  pub handle_proof : OtaFrameHeader → List ℕ → Receiver S → Receiver S
  handle_proof h p r =
      if not r.manifest_ready
      then r
      else if ops.has_block r.store h.index
      then r
      else if h.total == 0
      then empty_proof h.index r
      else feed_proof h.index
          (feed (if h.off == 0 || r.proof_in_flight != h.index then reset h.total else r.proof_re)
            h.off p)
          r

  pub dispatch : OtaFrameType → OtaFrameHeader → List ℕ → Receiver S → Receiver S
  dispatch start h p r = handle_start p r
  dispatch manifest h p r = handle_manifest h p r
  dispatch block h p r = handle_block h p r
  dispatch proof h p r = handle_proof h p r
  dispatch abort h p r = refuse r
  dispatch request h p r = r
  dispatch ack h p r = r
  dispatch done h p r = r
  dispatch load h p r = r
  dispatch load_commit h p r = r
  dispatch announce h p r = r
  dispatch (unnamed b) h p r = r

  pub receive : Option OtaFrameHeader → List ℕ → Receiver S → Receiver S
  receive none p r = r
  receive (some h) p r =
      if h.session != r.session
      then r
      else if r.aborted || r.complete
      then r
      else dispatch h.type h p r

  -- `on_frame`. A null pointer is refused by `frame_header_unpack`.
  pub on_frame : List ℕ → Receiver S → Receiver S
  on_frame frame r = receive (frame_header_unpack (some frame)) (drop frame_header_len frame) r
