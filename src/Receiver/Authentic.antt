-- ===== src/Receiver/Authentic.antt =====
-- The store receives nothing but verified blocks.
use ota_common.Common.{
  ℕ, ◌<◌, ◌≡◌, refl, sym, ap, ◌∙◌, arith, inl, inr, Bool, true, false, Option, none, some, List, [],
  length, get_or, ◌!=◌, ◌%◌, Bool-cases, drop, IsBytes, IsBytes-drop,
}
use ota_common.Wire.{
  OtaFrameType, OtaFrameHeader, start, manifest, block, proof, OtaStartInfo, start_info_unpack,
  frame_header_len,
}
use ota_common.Manifest.{Manifest, manifest_at}
use ota_common.Package.{SignatureVerifier}
use ota_common.Merkle.{Hash256, merkle_verify_block, merkle_root}
use ota_common.Merkle.Collisions.{Collides}
use ota_common.Merkle.Binding.{merkle_verify_block_binds, merkle_verify_block-lt}
use ota_common.Merkle.Digests.{leaves_of}
use ota_common.Reassembler.{Reassembler}
use ota_common.BlockStore.{BlockStore}
use ota_common.Receiver.{
  Receiver, refuse, adopt_geometry, send_simple, request_next, set_geometry, handle_start, install,
  cross_check, accept_manifest, feed_manifest, handle_manifest, finish_block, try_parts,
  try_finish_block, feed_block, handle_block, keep_proof, feed_proof, empty_proof, handle_proof,
  dispatch, on_frame,
}
use ota_common.Receiver.Cases.{
  handle_manifest-cases, handle_block-fed, handle_proof-fed, on_frame-payload,
}
use ota_common.Receiver.Frames.{request_next-SameBut}
use ota_common.Wire.Layout.{AreBytes}
use ota_common.Merkle.Octets.{AreDigests}
use ota_common.Reassembler.Octets.{start-IsBytes, feed-IsBytes}
use ota_common.Receiver.Octets.{
  HasOctets, OfBytes, OfDigests, block-HasOctets, proof-HasOctets, empty-HasOctets,
}

module _ {S : Type 0} (ops : BlockStore S) (verifier : Option SignatureVerifier) where
  -- What may become of the store: it stays, or one block is put that its proof ties to the root, and
  -- that is made of bytes, like its proof, in good runs.
  pub data StoreStep (IsGood : Type 0) (r : Receiver S) (s : S) : Type 0 where
    kept : s ≡ r.store → StoreStep IsGood r s
    put :
        (index : ℕ) (input : List ℕ) (path : List Hash256)
        → r.manifest_ready ≡ true
        → merkle_verify_block input index r.block_count path r.merkle_root ≡ true
        → (IsGood → IsBytes input × AreDigests path)
        → s ≡ (ops.put_block r.store index input).0
        → StoreStep IsGood r s

  request_next-store : (r : Receiver S) → (request_next ops verifier r).store ≡ r.store
  request_next-store r = (request_next-SameBut ops verifier r).store

  module _ {IsGood : Type 0} where
    finish_block-StoreStep :
        (index : ℕ) (input : List ℕ) (path : List Hash256) (r : Receiver S)
        → r.manifest_ready ≡ true
        → (IsGood → IsBytes input × AreDigests path)
        → StoreStep IsGood r (finish_block ops verifier index input path r).store
    unfolding finish_block send_simple
    finish_block-StoreStep index input path r ready octets =
        elim (Bool-cases (merkle_verify_block input index r.block_count path r.merkle_root)) [
          | inl ok ↦ put index input path ready ok octets (rw ok (request_next-store _))
          | inr bad ↦ kept (rw bad (request_next-store _))
        ]

    try_parts-StoreStep :
        (index : ℕ) (input : Option (List ℕ)) (path : Option (List Hash256)) (r : Receiver S)
        → r.manifest_ready ≡ true
        → (IsGood → OfBytes input × OfDigests path)
        → StoreStep IsGood r (try_parts ops verifier index input path r).store
    unfolding try_parts
    try_parts-StoreStep index none path r ready octets = kept refl
    try_parts-StoreStep index (some input) none r ready octets = kept refl
    try_parts-StoreStep index (some input) (some path) r ready octets =
        finish_block-StoreStep index input path r ready octets

    try_finish_block-StoreStep :
        (index : ℕ) (r : Receiver S)
        → r.manifest_ready ≡ true
        → (IsGood → HasOctets r)
        → StoreStep IsGood r (try_finish_block ops verifier index r).store
    unfolding try_finish_block
    try_finish_block-StoreStep index r ready octets =
        try_parts-StoreStep index _ _ r ready
          (λ good. ((octets good).blocks index, (octets good).proofs index))

    -- The step of a state is the step of one that agrees in what a step reads.
    carry :
        (r r' : Receiver S) (s : S)
        → r'.store ≡ r.store
        → r'.manifest_ready ≡ r.manifest_ready
        → r'.block_count ≡ r.block_count
        → r'.merkle_root ≡ r.merkle_root
        → StoreStep IsGood r' s
        → StoreStep IsGood r s
    carry r r' s a b c d (kept e) = kept (e ∙ a)
    carry r r' s a b c d (put index input path ready ok octets e) =
        put index input path (sym b ∙ ready) (rw (← c, ← d) ok) octets
          (e ∙ ap (λ t. (ops.put_block t index input).0) a)

    feed_block-StoreStep :
        (index : ℕ) (re : Reassembler) (complete : Bool) (r : Receiver S)
        → r.manifest_ready ≡ true
        → (IsGood → IsBytes re.buf × HasOctets r)
        → StoreStep IsGood r (feed_block ops verifier index (re, complete) r).store
    unfolding feed_block
    feed_block-StoreStep index re true r ready octets = carry r _ _ refl refl refl refl (
        try_finish_block-StoreStep index _ ready
          (λ good. block-HasOctets index re r (octets good).0 (octets good).1))
    feed_block-StoreStep index re false r ready octets = kept refl

    handle_block-StoreStep :
        (h : OtaFrameHeader) (p : List ℕ) (r : Receiver S)
        → (IsGood → IsBytes p × HasOctets r)
        → StoreStep IsGood r (handle_block ops verifier h p r).store
    handle_block-StoreStep h p r octets =
        handle_block-fed ops verifier (λ r'. StoreStep IsGood r r'.store) r h p (kept refl)
          (λ ready first. feed_block-StoreStep h.index _ _ r ready (λ good.
            let (bytes, w) = octets good in
            (
              feed-IsBytes _ h.off p (start-IsBytes first h.total r.block_re w.block_unit) bytes,
              w,
            )))

    keep_proof-StoreStep :
        (index : ℕ) (re : Reassembler) (r : Receiver S)
        → r.manifest_ready ≡ true
        → (IsGood → IsBytes re.buf × HasOctets r)
        → StoreStep IsGood r (keep_proof ops verifier index re r).store
    unfolding keep_proof
    keep_proof-StoreStep index re r ready octets = elim (Bool-cases (length re.buf % 32 != 0)) [
      | inl ragged ↦ simp ragged (kept refl)
      | inr whole ↦ simp whole (
          carry r _ _ refl refl refl refl (
            try_finish_block-StoreStep index _ ready
              (λ good. proof-HasOctets index re r (octets good).0 (octets good).1)))
    ]

    feed_proof-StoreStep :
        (index : ℕ) (re : Reassembler) (complete : Bool) (r : Receiver S)
        → r.manifest_ready ≡ true
        → (IsGood → IsBytes re.buf × HasOctets r)
        → StoreStep IsGood r (feed_proof ops verifier index (re, complete) r).store
    unfolding feed_proof
    feed_proof-StoreStep index re true r ready octets = keep_proof-StoreStep index re r ready octets
    feed_proof-StoreStep index re false r ready octets = kept refl

    empty_proof-StoreStep :
        (index : ℕ) (r : Receiver S)
        → r.manifest_ready ≡ true
        → (IsGood → HasOctets r)
        → StoreStep IsGood r (empty_proof ops verifier index r).store
    unfolding empty_proof
    empty_proof-StoreStep index r ready octets =
        carry r _ _ refl refl refl refl
          (try_finish_block-StoreStep index _ ready (λ good. empty-HasOctets index r (octets good)))

    handle_proof-StoreStep :
        (h : OtaFrameHeader) (p : List ℕ) (r : Receiver S)
        → (IsGood → IsBytes p × HasOctets r)
        → StoreStep IsGood r (handle_proof ops verifier h p r).store
    handle_proof-StoreStep h p r octets =
        handle_proof-fed ops verifier (λ r'. StoreStep IsGood r r'.store) r h p (kept refl)
          (λ ready. empty_proof-StoreStep h.index r ready (λ good. (octets good).1))
          (λ ready first. feed_proof-StoreStep h.index _ _ r ready (λ good.
            let (bytes, w) = octets good in
            (
              feed-IsBytes _ h.off p (start-IsBytes first h.total r.proof_re w.proof_unit) bytes,
              w,
            )))

  handle_start-store :
      (p : List ℕ) (r : Receiver S) → (handle_start ops verifier p r).store ≡ r.store
  unfolding handle_start
  handle_start-store p r = go (start_info_unpack (some p))
    where
      go : (s : Option OtaStartInfo) → (set_geometry ops verifier s r).store ≡ r.store
      go none = unfold set_geometry in refl
      go (some s) = unfold set_geometry in request_next-store _

  install-store : (m : Manifest) (r : Receiver S) → (install ops verifier m r).store ≡ r.store
  unfolding install
  install-store m r = request_next-store _

  cross_check-store :
      (m : Manifest) (r : Receiver S) → (cross_check ops verifier m r).store ≡ r.store
  unfolding cross_check adopt_geometry refuse
  cross_check-store m r =
      ground (arith, install-store m r, install-store m (adopt_geometry ops verifier m r))

  accept_manifest-store :
      (buf : List ℕ) (r : Receiver S) → (accept_manifest ops verifier buf r).store ≡ r.store
  unfolding accept_manifest refuse
  accept_manifest-store buf r = ground (arith, cross_check-store (manifest_at buf) r)

  feed_manifest-store :
      (re : Reassembler) (complete : Bool) (r : Receiver S)
      → (feed_manifest ops verifier (re, complete) r).store ≡ r.store
  unfolding feed_manifest
  feed_manifest-store re true r = accept_manifest-store re.buf _
  feed_manifest-store re false r = refl

  handle_manifest-store :
      (h : OtaFrameHeader) (p : List ℕ) (r : Receiver S)
      → (handle_manifest ops verifier h p r).store ≡ r.store
  handle_manifest-store h p r =
      handle_manifest-cases ops verifier (λ r'. r'.store ≡ r.store) r h p refl
        (λ unready re complete. feed_manifest-store re complete r)

  dispatch-StoreStep :
      {IsGood : Type 0}
      → (t : OtaFrameType) (h : OtaFrameHeader) (p : List ℕ) (r : Receiver S)
      → (IsGood → IsBytes p × HasOctets r)
      → StoreStep IsGood r (dispatch ops verifier t h p r).store
  unfolding dispatch refuse
  dispatch-StoreStep start h p r octets = kept (handle_start-store p r)
  dispatch-StoreStep manifest h p r octets = kept (handle_manifest-store h p r)
  dispatch-StoreStep block h p r octets = handle_block-StoreStep h p r octets
  dispatch-StoreStep proof h p r octets = handle_proof-StoreStep h p r octets
  dispatch-StoreStep _ h p r octets = kept refl

  -- A frame, whatever its bytes, leaves the store as it was, or puts one block that its proof ties
  -- to the merkle root held, under the index of the put; this only once the manifest is accepted.
  pub on_frame-StoreStep :
      (frame : List ℕ) (r : Receiver S)
      → StoreStep (IsBytes frame × HasOctets r) r (on_frame ops verifier frame r).store
  on_frame-StoreStep frame r =
      on_frame-payload ops verifier (λ r'. StoreStep (IsBytes frame × HasOctets r) r r'.store) r
        frame (kept refl)
        (λ h.
          dispatch-StoreStep h.type h (drop frame_header_len frame) r
            (λ good. (IsBytes-drop frame_header_len frame good.0, good.1)))

  -- What may become of the store where the root and the number are those of published blocks.
  pub data PublishedStep (blocks : List (List ℕ)) (r : Receiver S) (s : S) : Type 0 where
    kept : s ≡ r.store → PublishedStep blocks r s
    published :
        (index : ℕ)
        → index < length blocks
        → s ≡ (ops.put_block r.store index (get_or blocks index [])).0
        → PublishedStep blocks r s
    forged :
        (index : ℕ) (input : List ℕ) (path : List Hash256)
        → index < length blocks
        → s ≡ (ops.put_block r.store index input).0
        → Collides blocks index input path
        → PublishedStep blocks r s

  -- Where the published blocks, the frame and what the receiver keeps are made of bytes, and the kept
  -- proofs of digests of 32 bytes: with the root and the number of the published blocks, a frame leaves the store as it was, or
  -- puts a published block under its own index; or it puts another block, which collides with the
  -- published one of that index.
  pub on_frame-published :
      (blocks : List (List ℕ)) (frame : List ℕ) (r : Receiver S)
      → AreBytes blocks
      → IsBytes frame
      → HasOctets r
      → r.merkle_root ≡ merkle_root (leaves_of blocks)
      → r.block_count ≡ length blocks
      → PublishedStep blocks r (on_frame ops verifier frame r).store
  on_frame-published blocks frame r o bytes w root count = go (on_frame-StoreStep frame r)
    where
      go : {s : S} → StoreStep (IsBytes frame × HasOctets r) r s → PublishedStep blocks r s
      go (kept e) = kept e
      go (put index input path ready ok octets e) =
          let (of_bytes, of_digests) = octets (bytes, w) in
          let ok' = rw (count, root) at ok in
          let room = merkle_verify_block-lt input index (length blocks) path _ ok' in
          elim (merkle_verify_block_binds blocks input index path o of_bytes of_digests room ok') [
            | inl same ↦ published index room (e ∙ ap (λ b. (ops.put_block r.store index b).0) same)
            | inr collision ↦ forged index input path room e collision
          ]
