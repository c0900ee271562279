-- ===== src/Receiver/Received.antt =====
-- A receiver goes on keeping bytes, whatever frames of bytes it receives.
use ota_common.Common.{
  ℕ, ◌%◌, inl, inr, Bool, true, false, Option, none, some, List, drop, length, ◌!=◌, Bool-cases,
  IsBytes, IsBytes-drop,
}
use ota_common.Wire.{
  OtaFrameType, OtaFrameHeader, start, manifest, block, proof, abort, frame_header_len,
}
use ota_common.Package.{SignatureVerifier}
use ota_common.Merkle.{Hash256, merkle_verify_block}
use ota_common.Reassembler.{Reassembler}
use ota_common.Reassembler.Octets.{start-IsBytes, feed-IsBytes}
use ota_common.BlockStore.{BlockStore}
use ota_common.Receiver.{
  Receiver, update, send_simple, finish_block, try_parts, try_finish_block, feed_block,
  handle_block, keep_proof, feed_proof, empty_proof, handle_proof, dispatch, on_frame,
}
use ota_common.Receiver.Cases.{
  handle_manifest-cases, handle_block-fed, handle_proof-fed, on_frame-payload,
}
use ota_common.Receiver.Octets.{
  HasOctets, OfBytes, OfDigests, updated, block-HasOctets, proof-HasOctets, empty-HasOctets,
}
use ota_common.Receiver.Installed.{
  request_next-HasOctets, handle_start-HasOctets, feed_manifest-HasOctets, refuse-HasOctets,
}

module _ {S : Type 0} (ops : BlockStore S) (verifier : Option SignatureVerifier) where
  dropped-HasOctets :
      (index : ℕ) (r : Receiver S)
      → HasOctets r
      → HasOctets (record r {
        ready_blocks = update r.ready_blocks index none;
        proofs = update r.proofs index none;
      })
  dropped-HasOctets index r w = record {
    block_unit = w.block_unit;
    proof_unit = w.proof_unit;
    blocks = updated OfBytes r.ready_blocks index none w.blocks tt;
    proofs = updated OfDigests r.proofs index none w.proofs tt;
  }

  finish_block-HasOctets :
      (index : ℕ) (input : List ℕ) (path : List Hash256) (r : Receiver S)
      → HasOctets r
      → HasOctets (finish_block ops verifier index input path r)
  unfolding finish_block send_simple
  finish_block-HasOctets index input path r w =
      elim (Bool-cases (merkle_verify_block input index r.block_count path r.merkle_root)) [
        | inr bad ↦ simp bad (request_next-HasOctets ops verifier _ (dropped-HasOctets index r w))
        | inl ok ↦ simp ok (
            request_next-HasOctets ops verifier _ (
              dropped-HasOctets index _ (record {
                block_unit = w.block_unit;
                proof_unit = w.proof_unit;
                blocks = w.blocks;
                proofs = w.proofs;
              })))
      ]

  try_parts-HasOctets :
      (index : ℕ) (input : Option (List ℕ)) (path : Option (List Hash256)) (r : Receiver S)
      → HasOctets r
      → HasOctets (try_parts ops verifier index input path r)
  unfolding try_parts
  try_parts-HasOctets index none path r w = w
  try_parts-HasOctets index (some input) none r w = w
  try_parts-HasOctets index (some input) (some path) r w =
      finish_block-HasOctets index input path r w

  try_finish_block-HasOctets :
      (index : ℕ) (r : Receiver S) → HasOctets r → HasOctets (try_finish_block ops verifier index r)
  unfolding try_finish_block
  try_finish_block-HasOctets index r w = try_parts-HasOctets index _ _ r w

  feed_block-HasOctets :
      (index : ℕ) (re : Reassembler) (complete : Bool) (r : Receiver S)
      → IsBytes re.buf
      → HasOctets r
      → HasOctets (feed_block ops verifier index (re, complete) r)
  unfolding feed_block
  feed_block-HasOctets index re true r bytes w =
      try_finish_block-HasOctets index _ (block-HasOctets index re r bytes w)
  feed_block-HasOctets index re false r bytes w = record {
    block_unit = bytes;
    proof_unit = w.proof_unit;
    blocks = w.blocks;
    proofs = w.proofs;
  }

  keep_proof-HasOctets :
      (index : ℕ) (re : Reassembler) (r : Receiver S)
      → IsBytes re.buf
      → HasOctets r
      → HasOctets (keep_proof ops verifier index re r)
  unfolding keep_proof
  keep_proof-HasOctets index re r bytes w = elim (Bool-cases (length re.buf % 32 != 0)) [
    | inl ragged ↦ simp ragged (record {
      block_unit = w.block_unit;
      proof_unit = bytes;
      blocks = w.blocks;
      proofs = w.proofs;
    })
    | inr whole ↦
        simp whole (try_finish_block-HasOctets index _ (proof-HasOctets index re r bytes w))
  ]

  feed_proof-HasOctets :
      (index : ℕ) (re : Reassembler) (complete : Bool) (r : Receiver S)
      → IsBytes re.buf
      → HasOctets r
      → HasOctets (feed_proof ops verifier index (re, complete) r)
  unfolding feed_proof
  feed_proof-HasOctets index re true r bytes w = keep_proof-HasOctets index re r bytes w
  feed_proof-HasOctets index re false r bytes w = record {
    block_unit = w.block_unit;
    proof_unit = bytes;
    blocks = w.blocks;
    proofs = w.proofs;
  }

  handle_block-HasOctets :
      (h : OtaFrameHeader) (p : List ℕ) (r : Receiver S)
      → IsBytes p
      → HasOctets r
      → HasOctets (handle_block ops verifier h p r)
  handle_block-HasOctets h p r bytes w =
      handle_block-fed ops verifier HasOctets r h p w (λ ready first.
        feed_block-HasOctets h.index _ _ r
          (feed-IsBytes _ h.off p (start-IsBytes first h.total r.block_re w.block_unit) bytes) w)

  handle_proof-HasOctets :
      (h : OtaFrameHeader) (p : List ℕ) (r : Receiver S)
      → IsBytes p
      → HasOctets r
      → HasOctets (handle_proof ops verifier h p r)
  handle_proof-HasOctets h p r bytes w =
      handle_proof-fed ops verifier HasOctets r h p w
        (λ ready.
          unfold empty_proof in try_finish_block-HasOctets h.index _ (empty-HasOctets h.index r w))
        (λ ready first.
          feed_proof-HasOctets h.index _ _ r
            (feed-IsBytes _ h.off p (start-IsBytes first h.total r.proof_re w.proof_unit) bytes) w)

  dispatch-HasOctets :
      (t : OtaFrameType) (h : OtaFrameHeader) (p : List ℕ) (r : Receiver S)
      → IsBytes p
      → HasOctets r
      → HasOctets (dispatch ops verifier t h p r)
  unfolding dispatch
  dispatch-HasOctets start h p r bytes w = handle_start-HasOctets ops verifier p r w
  dispatch-HasOctets manifest h p r bytes w =
      handle_manifest-cases ops verifier HasOctets r h p w
        (λ unready re complete. feed_manifest-HasOctets ops verifier re complete r w)
  dispatch-HasOctets block h p r bytes w = handle_block-HasOctets h p r bytes w
  dispatch-HasOctets proof h p r bytes w = handle_proof-HasOctets h p r bytes w
  dispatch-HasOctets abort h p r bytes w = refuse-HasOctets ops verifier r w
  dispatch-HasOctets _ h p r bytes w = w

  -- A frame of bytes leaves everything that the receiver keeps made of bytes.
  pub on_frame-HasOctets :
      (frame : List ℕ) (r : Receiver S)
      → IsBytes frame
      → HasOctets r
      → HasOctets (on_frame ops verifier frame r)
  on_frame-HasOctets frame r bytes w = on_frame-payload ops verifier HasOctets r frame w (λ h.
      dispatch-HasOctets h.type h (drop frame_header_len frame) r
        (IsBytes-drop frame_header_len frame bytes) w)
