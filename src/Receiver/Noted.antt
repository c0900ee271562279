-- ===== src/Receiver/Noted.antt =====
-- A proof unit that arrives whole before its block is noted.
use ota_common.Common.{
  ℕ, ◌+◌, ◌*◌, ◌/◌, ◌%◌, ◌<◌, ◌≡◌, refl, sym, ap, ap₂, subst, ◌∙◌, arith, true, false, Option, none,
  some, List, [], ◌∷◌, ◌++◌, append_assoc, length, take, take_left, drop_left, length-append, ◌!=◌,
}
use ota_common.Package.{SignatureVerifier}
use ota_common.Merkle.{Hash256}
use ota_common.Merkle.Digests.{AreHashes}
use ota_common.Reassembler.{Reassembler}
use ota_common.BlockStore.{BlockStore}
use ota_common.Seeder.{proof_bytes}
use ota_common.Seeder.Answer.{length-proof_bytes}
use ota_common.Transfer.{proof_frames, take_all_frames}
use ota_common.Receiver.{
  Receiver, update, hashes_from, try_parts, try_finish_block, keep_proof, feed_proof, empty_proof,
  on_frame,
}
use ota_common.Receiver.Units.{Wants, proof_arrives, empty_proof_arrives}

-- What the receiver reads of the bytes of a path is the path.
hashes_from-proof_bytes :
    (path : List Hash256) (i : ℕ) (before : List ℕ)
    → AreHashes path
    → length before ≡ i * 32
    → hashes_from (length path) i (before ++ proof_bytes path) ≡ path
unfolding hashes_from proof_bytes
hashes_from-proof_bytes [] i before w h = refl
hashes_from-proof_bytes (p ∷ ps) i before (one, rest) h =
    ap₂ (λ bytes (hs : List Hash256). record { bytes = bytes } ∷ hs)
      (ap (take 32) (drop_left (i * 32) before (p.bytes ++ proof_bytes ps) h)
        ∙ take_left 32 p.bytes (proof_bytes ps) one)
      (ap (hashes_from (length ps) (i + 1)) (sym (append_assoc before p.bytes (proof_bytes ps)))
        ∙ hashes_from-proof_bytes ps (i + 1) (before ++ p.bytes) rest
            (omega (arith, length-append before p.bytes)))

pub update_at : {V : Type 0} → (f : ℕ → Option V) (k : ℕ) (v : Option V) → update f k v k ≡ v
update_at f k v = ground arith

module _ {S : Type 0} (ops : BlockStore S) (verifier : Option SignatureVerifier)
    (session index : ℕ) where
  -- A state in which the proof has arrived as well; nothing is stored yet.
  pub record HasProof (path : List Hash256) (r r' : Receiver S) : Type 0 where
    pub wants : Wants ops verifier session index r'
    pub held : r'.proofs index ≡ some path
    pub same_store : r'.store ≡ r.store
    pub same_out : r'.out ≡ r.out
    pub same_count : r'.block_count ≡ r.block_count
    pub same_root : r'.merkle_root ≡ r.merkle_root
    pub same_blocks : r'.ready_blocks ≡ r.ready_blocks

  try_parts-no_block :
      (input : Option (List ℕ)) (path : Option (List Hash256)) (r : Receiver S)
      → input ≡ none
      → try_parts ops verifier index input path r ≡ r
  unfolding try_parts
  try_parts-no_block none path r e = refl
  try_parts-no_block (some input) path r e = ground arith

  try_finish_block-no_block :
      (r : Receiver S) → r.ready_blocks index ≡ none → try_finish_block ops verifier index r ≡ r
  unfolding try_finish_block
  try_finish_block-no_block r e = try_parts-no_block (r.ready_blocks index) (r.proofs index) r e

  noted :
      (path : List Hash256) (r : Receiver S) (re : Reassembler) (flight : ℕ)
      → Wants ops verifier session index r
      → HasProof path r (record r {
        proof_re = re;
        proof_in_flight = flight;
        proofs = update r.proofs index (some path);
      })
  noted path r re flight w = record {
    wants = record {
      opened = record { ours = w.opened.ours; live = w.opened.live; running = w.opened.running };
      ready = w.ready;
      lacks = w.lacks;
    };
    held = update_at r.proofs index (some path);
    same_store = refl;
    same_out = refl;
    same_count = refl;
    same_root = refl;
    same_blocks = refl;
  }

  -- A proof unit that arrives whole is noted, and the block is tried.
  arrived :
      (path : List Hash256) (r : Receiver S) (re : Reassembler)
      → Wants ops verifier session index r
      → AreHashes path
      → re.buf ≡ proof_bytes path
      → (q : Receiver S) × HasProof path r q
        × (feed_proof ops verifier index (re, true) r ≡ try_finish_block ops verifier index q)
  unfolding feed_proof keep_proof
  arrived path r re w digests bytes =
      let size = ap length bytes ∙ length-proof_bytes path digests in
      let whole : (length re.buf % 32 != 0) ≡ false = ground (arith, size) in
      let read : hashes_from (length re.buf / 32) 0 re.buf ≡ path =
        ap₂ (λ n b. hashes_from n 0 b) (omega (arith, size)) bytes
        ∙ hashes_from-proof_bytes path 0 [] digests refl in
      (_, noted path r (record re { active = false }) index w, rw (whole, read) refl)

  single :
      (r : Receiver S)
      → Wants ops verifier session index r
      → (q : Receiver S) × HasProof [] r q
        × (empty_proof ops verifier index r ≡ try_finish_block ops verifier index q)
  unfolding empty_proof
  single r w = (_, noted [] r r.proof_re r.proof_in_flight w, refl)

  -- The frames of a path.
  pub proof_taken :
      (path : List Hash256) (frag : ℕ) (r : Receiver S)
      → session < 256
      → index < 65536
      → 0 < frag
      → AreHashes path
      → length path * 32 < 65536
      → Wants ops verifier session index r
      → (q : Receiver S) × HasProof path r q
        × (take_all_frames (on_frame ops verifier) (proof_frames session index path frag) r
            ≡ try_finish_block ops verifier index q)
  unfolding proof_frames take_all_frames
  proof_taken [] frag r sf xf some_frag digests small w =
      let (q, h, e) = single r w in
      (q, h, empty_proof_arrives ops verifier session index r sf xf w ∙ e)
  proof_taken (p ∷ ps) frag r sf xf some_frag digests small w =
      let size = length-proof_bytes (p ∷ ps) digests in
      let (re, bytes, runs) =
        proof_arrives ops verifier session index (proof_bytes (p ∷ ps)) sf xf (omega (arith, size))
          frag r some_frag (omega (arith, size)) w in
      let (q, h, e) = arrived (p ∷ ps) r re w digests bytes in (q, h, runs ∙ e)

  pub proof-HasProof :
      (path : List Hash256) (frag : ℕ) (r : Receiver S)
      → session < 256
      → index < 65536
      → 0 < frag
      → AreHashes path
      → length path * 32 < 65536
      → Wants ops verifier session index r
      → r.ready_blocks index ≡ none
      → HasProof path r
          (take_all_frames (on_frame ops verifier) (proof_frames session index path frag) r)
  proof-HasProof path frag r sf xf some_frag digests small w lacking =
      let (q, h, e) = proof_taken path frag r sf xf some_frag digests small w in
      subst (HasProof path r)
        (sym (e ∙ try_finish_block-no_block q (ap (λ f. f index) h.same_blocks ∙ lacking))) h
