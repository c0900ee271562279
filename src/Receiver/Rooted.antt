-- ===== src/Receiver/Rooted.antt =====
-- The root in use stays once a manifest is accepted.
use ota_common.Common.{
  ℕ, ◌≡◌, refl, ◌∙◌, arith, Bool, true, false, inl, inr, Option, none, some, List, length, ◌!=◌,
  ◌%◌, Bool-cases,
}
use ota_common.Wire.{
  OtaFrameType, OtaFrameHeader, start, manifest, block, proof, OtaStartInfo, start_info_unpack,
}
use ota_common.Package.{SignatureVerifier}
use ota_common.Merkle.{Hash256, merkle_verify_block}
use ota_common.Reassembler.{Reassembler}
use ota_common.BlockStore.{BlockStore}
use ota_common.Receiver.{
  Receiver, refuse, send_simple, request_next, set_geometry, handle_start, handle_manifest,
  finish_block, try_parts, try_finish_block, feed_block, handle_block, keep_proof, feed_proof,
  empty_proof, handle_proof, dispatch, on_frame, poll,
}
use ota_common.Receiver.Cases.{
  handle_manifest-cases, handle_block-cases, handle_proof-cases, on_frame-cases, poll-cases,
}
use ota_common.Receiver.Frames.{request_next-SameBut}

pub record SameRoot {S : Type 0} (r r' : Receiver S) : Type 0 where
  pub ready : r'.manifest_ready ≡ r.manifest_ready
  pub root : r'.merkle_root ≡ r.merkle_root

module _ {S : Type 0} (ops : BlockStore S) (verifier : Option SignatureVerifier) where
  request_next-SameRoot :
      (r q : Receiver S)
      → q.manifest_ready ≡ r.manifest_ready
      → q.merkle_root ≡ r.merkle_root
      → SameRoot r (request_next ops verifier q)
  request_next-SameRoot r q ready root =
      let same = request_next-SameBut ops verifier q in
      record { ready = same.manifest_ready ∙ ready; root = same.merkle_root ∙ root }

  finish_block-SameRoot :
      (index : ℕ) (input : List ℕ) (path : List Hash256) (r : Receiver S)
      → SameRoot r (finish_block ops verifier index input path r)
  unfolding finish_block send_simple
  finish_block-SameRoot index input path r =
      elim (Bool-cases (merkle_verify_block input index r.block_count path r.merkle_root)) [
        | inl ok ↦ rw ok (request_next-SameRoot r _ refl refl)
        | inr bad ↦ rw bad (request_next-SameRoot r _ refl refl)
      ]

  try_finish_block-SameRoot :
      (index : ℕ) (r : Receiver S) → SameRoot r (try_finish_block ops verifier index r)
  unfolding try_finish_block
  try_finish_block-SameRoot index r = go (r.ready_blocks index) (r.proofs index)
    where
      go :
          (input : Option (List ℕ)) (path : Option (List Hash256))
          → SameRoot r (try_parts ops verifier index input path r)
      go none path = unfold try_parts in record { ready = refl; root = refl }
      go (some input) none = unfold try_parts in record { ready = refl; root = refl }
      go (some input) (some path) = unfold try_parts in finish_block-SameRoot index input path r

  carry :
      (r q r' : Receiver S)
      → q.manifest_ready ≡ r.manifest_ready
      → q.merkle_root ≡ r.merkle_root
      → SameRoot q r'
      → SameRoot r r'
  carry r q r' ready root same = record { ready = same.ready ∙ ready; root = same.root ∙ root }

  feed_block-SameRoot :
      (index : ℕ) (re : Reassembler) (complete : Bool) (r : Receiver S)
      → SameRoot r (feed_block ops verifier index (re, complete) r)
  unfolding feed_block
  feed_block-SameRoot index re true r = carry r _ _ refl refl (try_finish_block-SameRoot index _)
  feed_block-SameRoot index re false r = record { ready = refl; root = refl }

  same_root : (r : Receiver S) → SameRoot r r
  same_root r = record { ready = refl; root = refl }

  handle_block-SameRoot :
      (h : OtaFrameHeader) (p : List ℕ) (r : Receiver S)
      → SameRoot r (handle_block ops verifier h p r)
  handle_block-SameRoot h p r =
      handle_block-cases ops verifier (SameRoot r) r h p (same_root r)
        (λ ready re complete. feed_block-SameRoot h.index re complete r)

  feed_proof-SameRoot :
      (index : ℕ) (re : Reassembler) (complete : Bool) (r : Receiver S)
      → SameRoot r (feed_proof ops verifier index (re, complete) r)
  unfolding feed_proof keep_proof
  feed_proof-SameRoot index re false r = record { ready = refl; root = refl }
  feed_proof-SameRoot index re true r = elim (Bool-cases (length re.buf % 32 != 0)) [
    | inl ragged ↦ simp ragged (record { ready = refl; root = refl })
    | inr whole ↦ simp whole (carry r _ _ refl refl (try_finish_block-SameRoot index _))
  ]

  handle_proof-SameRoot :
      (h : OtaFrameHeader) (p : List ℕ) (r : Receiver S)
      → SameRoot r (handle_proof ops verifier h p r)
  unfolding empty_proof
  handle_proof-SameRoot h p r =
      handle_proof-cases ops verifier (SameRoot r) r h p (same_root r)
        (λ ready. carry r _ _ refl refl (try_finish_block-SameRoot h.index _))
        (λ ready re complete. feed_proof-SameRoot h.index re complete r)

  handle_start-SameRoot : (p : List ℕ) (r : Receiver S) → SameRoot r (handle_start ops verifier p r)
  unfolding handle_start
  handle_start-SameRoot p r = go (start_info_unpack (some p))
    where
      go : (s : Option OtaStartInfo) → SameRoot r (set_geometry ops verifier s r)
      go none = unfold set_geometry in same_root r
      go (some s) = unfold set_geometry in request_next-SameRoot r _ refl refl

  handle_manifest-SameRoot :
      (h : OtaFrameHeader) (p : List ℕ) (r : Receiver S)
      → r.manifest_ready ≡ true
      → SameRoot r (handle_manifest ops verifier h p r)
  handle_manifest-SameRoot h p r ready =
      handle_manifest-cases ops verifier (SameRoot r) r h p (same_root r)
        (λ unready re complete. ground arith)

  dispatch-SameRoot :
      (t : OtaFrameType) (h : OtaFrameHeader) (p : List ℕ) (r : Receiver S)
      → r.manifest_ready ≡ true
      → SameRoot r (dispatch ops verifier t h p r)
  unfolding dispatch refuse
  dispatch-SameRoot start h p r ready = handle_start-SameRoot p r
  dispatch-SameRoot manifest h p r ready = handle_manifest-SameRoot h p r ready
  dispatch-SameRoot block h p r ready = handle_block-SameRoot h p r
  dispatch-SameRoot proof h p r ready = handle_proof-SameRoot h p r
  dispatch-SameRoot _ h p r ready = record { ready = refl; root = refl }

  -- Once a manifest is accepted, no frame changes the root.
  pub on_frame-SameRoot :
      (frame : List ℕ) (r : Receiver S)
      → r.manifest_ready ≡ true
      → SameRoot r (on_frame ops verifier frame r)
  on_frame-SameRoot frame r ready =
      on_frame-cases ops verifier (SameRoot r) r frame (same_root r)
        (λ running h p. dispatch-SameRoot h.type h p r ready)

  pub poll-SameRoot : (r : Receiver S) → SameRoot r (poll ops verifier r)
  poll-SameRoot r =
      poll-cases ops verifier (SameRoot r) r (same_root r)
        (λ running. request_next-SameRoot r r refl refl)

  pub poll-store : (r : Receiver S) → (poll ops verifier r).store ≡ r.store
  poll-store r =
      poll-cases ops verifier (λ r'. r'.store ≡ r.store) r refl
        (λ running. (request_next-SameBut ops verifier r).store)
