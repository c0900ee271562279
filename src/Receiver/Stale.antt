-- ===== src/Receiver/Stale.antt =====
-- An answer for a block of which the receiver keeps a copy from before.
use ota_common.Common.{
  ℕ, ◌*◌, ◌<◌, ◌≡◌, refl, sym, ap, ap₂, subst, ◌∙◌, arith, true, false, ◌==◌, Option, none, some,
  List, ◌++◌, length,
}
use ota_common.Wire.{index_manifest}
use ota_common.Package.{SignatureVerifier}
use ota_common.Merkle.{Hash256, merkle_verify_block}
use ota_common.Merkle.Digests.{AreHashes}
use ota_common.Reassembler.{Reassembler}
use ota_common.BlockStore.{BlockStore}
use ota_common.Transfer.{proof_frames, block_frames, take_all_frames, take_all_frames-append}
use ota_common.Receiver.{
  Receiver, needed_from, next_needed_block, update, request_next, finish_block, try_parts,
  try_finish_block, feed_block, on_frame,
}
use ota_common.Receiver.Frames.{request_next-SameBut, request_next-ends}
use ota_common.Receiver.Noted.{update_at, proof_taken}
use ota_common.Receiver.Units.{Wants, block_arrives}
use ota_common.Receiver.Delivered.{IsDelivered, finish_block-IsDelivered, both_there, from_like}
use ota_common.Receiver.Had.{block_frames-had}

module _ {S : Type 0} (ops : BlockStore S) (verifier : Option SignatureVerifier)
    (session index : ℕ) where
  -- The copy is the block itself: the proof completes it.
  pub answer-primed :
      (path : List Hash256) (input : List ℕ) (frag : ℕ) (r : Receiver S)
      → session < 256
      → index < 65536
      → 0 < frag
      → AreHashes path
      → length path * 32 < 65536
      → length input < 65536
      → Wants ops verifier session index r
      → r.ready_blocks index ≡ some input
      → merkle_verify_block input index r.block_count path r.merkle_root ≡ true
      → ops.has_block (ops.put_block r.store index input).0 index ≡ true
      → IsDelivered ops verifier session index input r (
          take_all_frames
            (on_frame ops verifier)
            (proof_frames session index path frag ++ block_frames session index input frag)
            r)
  answer-primed path input frag r sf xf some_frag digests small fits w held ok has =
      let (q, h, e) =
        proof_taken ops verifier session index path frag r sf xf some_frag digests small w in
      let kept : q.ready_blocks index ≡ some input = ap (λ f. f index) h.same_blocks ∙ held in
      let r' = finish_block ops verifier index input path q in
      let done : IsDelivered ops verifier session index input r r' =
        from_like ops verifier session index input r q r'
          (record {
            same_store = h.same_store;
            same_out = h.same_out;
            same_count = h.same_count;
            same_root = h.same_root;
            same_blocks = λ k other. ap (λ f. f k) h.same_blocks;
          })
          (finish_block-IsDelivered ops verifier session index input path q h.wants
            (rw (h.same_count, h.same_root) ok)) in
      let runs =
        take_all_frames-append (on_frame ops verifier) (proof_frames session index path frag)
          (block_frames session index input frag) r
        ∙ ap (take_all_frames (on_frame ops verifier) (block_frames session index input frag))
            (e ∙ both_there ops verifier session index input path q kept h.held)
        ∙ block_frames-had ops verifier session index input frag r' sf xf fits
            (ap (λ st. ops.has_block st index) done.stored ∙ has) in
      subst (IsDelivered ops verifier session index input r) (sym runs) done

  try_parts-no_proof :
      (input : Option (List ℕ)) (path : Option (List Hash256)) (r : Receiver S)
      → path ≡ none
      → try_parts ops verifier index input path r ≡ r
  unfolding try_parts
  try_parts-no_proof none path r e = refl
  try_parts-no_proof (some input) none r e = refl
  try_parts-no_proof (some input) (some path) r e = ground arith

  pub next_needed-same :
      (r r' : Receiver S)
      → r'.block_count ≡ r.block_count
      → r'.store ≡ r.store
      → next_needed_block ops verifier r' ≡ next_needed_block ops verifier r
  unfolding next_needed_block
  next_needed-same r r' count store = ap₂ (λ (n : ℕ) s. needed_from ops verifier n 0 s) count store

  -- The block is kept until its proof comes again; nothing is stored.
  pub record IsPrimed (input : List ℕ) (r r' : Receiver S) : Type 0 where
    pub ours : r'.session ≡ session
    pub live : r'.aborted ≡ false
    pub running : r'.complete ≡ false
    pub ready : r'.manifest_ready ≡ true
    pub same_store : r'.store ≡ r.store
    pub same_count : r'.block_count ≡ r.block_count
    pub same_root : r'.merkle_root ≡ r.merkle_root
    pub held : r'.ready_blocks index ≡ some input

  -- The state after a copy that its proof refutes.
  abbrev dropped : Receiver S → Receiver S
  dropped q = record q {
    ready_blocks = update q.ready_blocks index none;
    proofs = update q.proofs index none;
  }

  finish_block-dropped :
      (input : List ℕ) (path : List Hash256) (q : Receiver S)
      → merkle_verify_block input index q.block_count path q.merkle_root ≡ false
      → finish_block ops verifier index input path q ≡ request_next ops verifier (dropped q)
  unfolding finish_block
  finish_block-dropped input path q bad = rw bad refl

  -- A block unit that arrives whole without its proof is kept.
  kept_alone :
      (input : List ℕ) (r q : Receiver S) (re : Reassembler)
      → Wants ops verifier session index q
      → q.proofs index ≡ none
      → q.store ≡ r.store
      → q.block_count ≡ r.block_count
      → q.merkle_root ≡ r.merkle_root
      → re.buf ≡ input
      → IsPrimed input r (feed_block ops verifier index (re, true) q)
  unfolding feed_block try_finish_block
  kept_alone input r q re w no_proof store count root bytes =
      let last = record q {
        block_re = record re { active = false };
        block_in_flight = index;
        ready_blocks = update q.ready_blocks index (some re.buf);
      } in
      subst (IsPrimed input r) (sym (try_parts-no_proof _ (last.proofs index) last no_proof))
        (record {
          ours = w.opened.ours;
          live = w.opened.live;
          running = w.opened.running;
          ready = w.ready;
          same_store = store;
          same_count = count;
          same_root = root;
          held = update_at q.ready_blocks index (some re.buf) ∙ ap some bytes;
        })

  -- The copy is not what the proof is for: it is dropped, and the block kept in its place.
  pub answer-refuted :
      (path : List Hash256) (stale input : List ℕ) (frag : ℕ) (r : Receiver S)
      → session < 256
      → index < 65535
      → 0 < frag
      → AreHashes path
      → length path * 32 < 65536
      → 0 < length input
      → length input < 65536
      → Wants ops verifier session index r
      → next_needed_block ops verifier r ≡ index
      → r.ready_blocks index ≡ some stale
      → merkle_verify_block stale index r.block_count path r.merkle_root ≡ false
      → IsPrimed input r (
          take_all_frames
            (on_frame ops verifier)
            (proof_frames session index path frag ++ block_frames session index input frag)
            r)
  unfolding block_frames
  answer-refuted path stale input frag r sf xf some_frag digests small some_input fits w needed held
        bad =
      let (q, h, e) =
        proof_taken ops verifier session index path frag r sf (omega arith) some_frag digests small
          w in
      let kept : q.ready_blocks index ≡ some stale = ap (λ f. f index) h.same_blocks ∙ held in
      let r' = request_next ops verifier (dropped q) in
      let same = request_next-SameBut ops verifier (dropped q) in
      let still : next_needed_block ops verifier r' ≡ index =
        next_needed-same r r' (same.block_count ∙ h.same_count) (same.store ∙ h.same_store)
        ∙ needed in
      let ends = request_next-ends ops verifier (dropped q) h.wants.ready h.wants.opened.running in
      let wants : Wants ops verifier session index r' = record {
        opened = record {
          ours = same.session ∙ h.wants.opened.ours;
          live = same.aborted ∙ h.wants.opened.live;
          running = ends ∙ not_last (next_needed_block ops verifier r') still;
        };
        ready = same.manifest_ready ∙ h.wants.ready;
        lacks = ap (λ st. ops.has_block st index) same.store ∙ h.wants.lacks;
      } in
      let (re, bytes, runs) =
        block_arrives ops verifier session index input sf (omega arith) fits frag r' some_frag
          some_input wants in
      subst (IsPrimed input r)
        (sym (
          take_all_frames-append (on_frame ops verifier) (proof_frames session index path frag)
            (block_frames session index input frag) r
          ∙ ap (take_all_frames (on_frame ops verifier) (block_frames session index input frag)) (
              e
              ∙ both_there ops verifier session index stale path q kept h.held
              ∙ finish_block-dropped stale path q (rw (h.same_count, h.same_root) bad))
          ∙ runs))
        (kept_alone input r r' re wants
          (ap (λ f. f index) same.proofs ∙ update_at q.proofs index none)
          (same.store ∙ h.same_store) (same.block_count ∙ h.same_count)
          (same.merkle_root ∙ h.same_root) bytes)
    where
      not_last : (n : ℕ) → n ≡ index → (n == index_manifest) ≡ false
      not_last n e = ground (arith, e, xf)
