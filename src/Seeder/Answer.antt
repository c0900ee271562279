-- ===== src/Seeder/Answer.antt =====
-- The frames that answer the request of a block.
use ota_common.Common.{
  ℕ, ◌+◌, ◌*◌, ◌≤◌, ◌<◌, ◌≡◌, refl, sym, ap, ap₂, ◌∙◌, arith, true, false, some, List, [], ◌∷◌,
  ◌++◌, append_assoc, append-nil, length, get_or, drop, slice, u32, u64, leb, ◌==◌, ◌!=◌,
  take-append-drop, length-append, length-slice, length-map,
}
use ota_common.Wire.{
  OtaFrameHeader, block, manifest, proof, request, frame_header_pack, frame_header_unpack,
}
use ota_common.Wire.Frame.{frame_header_unpack-pack}
use ota_common.Merkle.{Hash256, hash_leaf, merkle_proof}
use ota_common.Merkle.Digests.{AreHashes, leaves_of, leaves_of-AreHashes}
use ota_common.Merkle.Paths.{merkle_proof-AreHashes, merkle_proof-short}
use ota_common.Transfer.{fragments, proof_frames, block_frames}
use ota_common.Transfer.Fragments.{send_unit-fragments}
use ota_common.Seeder.{
  send_manifest, Seeder, emit, send_unit, block_base, block_len, send_block, proof_bytes, send_path,
  send_proof, answer, dispatch, receive, on_frame,
}

-- The seeder serves these blocks: its leaves are their hashes, and the block that it cuts from its
-- payload for an index is the one of that index.
pub record IsServing (blocks : List (List ℕ)) (s : Seeder) : Type 0 where
  pub valid : s.valid ≡ true
  pub some_frag : 0 < s.frag
  pub frag_fits : s.frag ≤ 225
  pub session_fits : s.session < 256
  pub leaves : s.leaves ≡ leaves_of blocks
  pub counted : s.block_count ≡ length blocks
  pub count_fits : length blocks < 65536
  pub pieces :
      (i : ℕ)
      → i < length blocks
      → slice (block_base s i) (block_len s i) s.payload ≡ get_or blocks i []
  pub inside : (i : ℕ) → i < length blocks → block_base s i + block_len s i ≤ length s.payload
  pub some_block : (i : ℕ) → i < length blocks → 0 < block_len s i
  pub block_fits : (i : ℕ) → i < length blocks → block_len s i < 65536

pub length-piece :
    (blocks : List (List ℕ)) (index : ℕ) (s : Seeder)
    → IsServing blocks s
    → index < length blocks
    → length (get_or blocks index []) ≡ block_len s index
length-piece blocks index s w h =
    ap length (sym (w.pieces index h))
    ∙ length-slice (block_base s index) (block_len s index) s.payload (w.inside index h)

-- What is sent is appended to what was sent.
abbrev pub sending : Seeder → List (List ℕ) → Seeder
sending s frames = record s { out = s.out ++ frames }

u32_exact : (x : ℕ) → x < 131072 → u32 x ≡ x
u32_exact x h = omega arith

u64_exact : (x : ℕ) → x < 131072 → u64 x ≡ x
u64_exact x h = omega arith

pub length-proof_bytes :
    (path : List Hash256) → AreHashes path → length (proof_bytes path) ≡ length path * 32
unfolding proof_bytes
length-proof_bytes [] w = refl
length-proof_bytes (h ∷ hs) (one, rest) =
    omega (arith, length-append h.bytes (proof_bytes hs), length-proof_bytes hs rest, one)

send_path-frames :
    (index : ℕ) (path : List Hash256) (s : Seeder)
    → s.frag ≤ 225
    → AreHashes path
    → length path * 32 < 65536
    → send_path index path s ≡ sending s (proof_frames s.session index path s.frag)
unfolding send_path proof_frames emit
send_path-frames index [] s most w small = refl
send_path-frames index (p ∷ ps) s most w small =
    let total = length-proof_bytes (p ∷ ps) w in
    let more : (length (p ∷ ps) * 32 == 0) ≡ false = ground arith in
    rw (more, sym total)
      (ap
          (λ unit.
            send_unit u64 proof index unit (length (proof_bytes (p ∷ ps)))
              (length (proof_bytes (p ∷ ps))) 0 s)
          (sym (append-nil (proof_bytes (p ∷ ps))))
        ∙ send_unit-fragments u64 proof index (proof_bytes (p ∷ ps)) []
            (length (proof_bytes (p ∷ ps))) 0 s u64_exact most (omega (arith, total)))

send_block-frames :
    (blocks : List (List ℕ)) (index : ℕ) (s : Seeder)
    → IsServing blocks s
    → index < length blocks
    → send_block index s ≡ sending s (block_frames s.session index (get_or blocks index []) s.frag)
unfolding send_block block_frames
send_block-frames blocks index s w h =
    let within : leb s.block_count index ≡ false = ground (arith, w.counted) in
    let b = get_or blocks index [] in
    let len = block_len s index in
    let from = drop (block_base s index) s.payload in
    let cut = w.pieces index h in
    let size : len ≡ length b = sym (length-piece blocks index s w h) in
    let split : from ≡ b ++ drop len from =
      sym (take-append-drop len from) ∙ ap (λ t. t ++ drop len from) cut in
    rw within (
      ap₂ (λ unit (n : ℕ). send_unit u32 block index unit n n 0 s) split size
      ∙ send_unit-fragments u32 block index b (drop len from) (length b) 0 s u32_exact w.frag_fits
          (omega (arith, size, w.block_fits index h)))

pub still-IsServing :
    (blocks frames : List (List ℕ)) (s : Seeder)
    → IsServing blocks s
    → IsServing blocks (sending s frames)
unfolding block_base block_len
still-IsServing blocks frames s w = record {
  valid = w.valid;
  some_frag = w.some_frag;
  frag_fits = w.frag_fits;
  session_fits = w.session_fits;
  leaves = w.leaves;
  counted = w.counted;
  count_fits = w.count_fits;
  pieces = w.pieces;
  inside = w.inside;
  some_block = w.some_block;
  block_fits = w.block_fits;
}

-- The proofs of a seeder that serves blocks.
pub serving_path :
    (blocks : List (List ℕ)) (index : ℕ) (s : Seeder)
    → IsServing blocks s
    → AreHashes (merkle_proof s.leaves index) × (length (merkle_proof s.leaves index) ≤ 16)
serving_path blocks index s w = (
  merkle_proof-AreHashes s.leaves index (rw w.leaves (leaves_of-AreHashes blocks)),
  merkle_proof-short s.leaves index
      (omega (arith, ap length w.leaves, length-map hash_leaf blocks, w.count_fits)),
)

-- The answer to a request for a block of a seeder that serves the blocks: the frames of the proof
-- that `merkle_proof` makes of its index, then those of the block.
pub answer-frames :
    (blocks : List (List ℕ)) (index : ℕ) (s : Seeder)
    → IsServing blocks s
    → index < length blocks
    → answer index s
      ≡ sending s (
          proof_frames s.session index (merkle_proof s.leaves index) s.frag
          ++ block_frames s.session index (get_or blocks index []) s.frag)
unfolding answer send_proof
answer-frames blocks index s w h =
    let numbered : (index == 65535) ≡ false = ground (arith, w.count_fits) in
    let path = merkle_proof s.leaves index in
    let (hashes, short) = serving_path blocks index s w in
    let first = proof_frames s.session index path s.frag in
    rw (numbered, send_path-frames index path s w.frag_fits hashes (omega arith))
      (send_block-frames blocks index (sending s first) (still-IsServing blocks first s w) h
        ∙ ap (λ o. record s { out = o }) (append_assoc s.out first _))

-- A request frame of the session is answered.
pub on_frame-request :
    (index : ℕ) (s : Seeder)
    → s.valid ≡ true
    → s.session < 256
    → index < 65536
    → on_frame
        (frame_header_pack
          (record { type = request; session = s.session; index = index; off = 0; total = 0 }))
        s
      ≡ answer index s
unfolding on_frame receive dispatch
on_frame-request index s valid ses fits =
    let h : OtaFrameHeader = record {
      type = request;
      session = s.session;
      index = index;
      off = 0;
      total = 0;
    } in
    let ours : (s.session != s.session) ≡ false = ground arith in
    let read =
      ap (λ f. frame_header_unpack (some f)) (sym (append-nil (frame_header_pack h)))
      ∙ frame_header_unpack-pack h [] (record {
        of_type = tt;
        session_fits = ses;
        index_fits = fits;
        off_fits = omega arith;
        total_fits = omega arith;
      }) in
    rw (valid, read) (ground arith)

-- The answer to the request of the manifest: the fragments of the manifest and its signature.
pub answer-manifest_frames :
    (raw rest : List ℕ) (s : Seeder)
    → s.manifest_bytes ≡ raw ++ rest
    → length raw ≡ 192 + s.sig_len
    → length raw < 65536
    → s.frag ≤ 225
    → answer 65535 s ≡ sending s (fragments manifest s.session 65535 raw s.frag (length raw) 0)
unfolding answer send_manifest
answer-manifest_frames raw rest s held size small most =
    ap₂ (λ unit (n : ℕ). send_unit u64 manifest 65535 unit n n 0 s) held (sym size)
    ∙ send_unit-fragments u64 manifest 65535 raw rest (length raw) 0 s u64_exact most small
