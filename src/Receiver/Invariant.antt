-- ===== src/Receiver/Invariant.antt =====
-- Every frame and every poll keeps the invariant of the receiver.
use ota_common.Common.{
  ℕ, ◌<◌, ◌≡◌, refl, arith, inl, inr, Bool, true, false, ◌||◌, Option, none, some, List, length,
  ◌!=◌, ◌%◌, Bool-cases,
}
use ota_common.Wire.{
  OtaFrameType, OtaFrameHeader, start, manifest, block, proof, abort, OtaStartInfo,
  start_info_unpack,
}
use ota_common.Wire.Info.{start_info_unpack-narrow}
use ota_common.Package.{SignatureVerifier}
use ota_common.Merkle.{Hash256, merkle_verify_block}
use ota_common.Reassembler.{Reassembler}
use ota_common.BlockStore.{BlockStore}
use ota_common.Receiver.{
  Receiver, new_receiver, send_simple, poll, set_geometry, handle_start, handle_manifest,
  finish_block, try_parts, try_finish_block, feed_block, handle_block, keep_proof, feed_proof,
  empty_proof, handle_proof, dispatch, on_frame,
}
use ota_common.Receiver.Cases.{
  handle_manifest-cases, handle_block-cases, handle_proof-cases, on_frame-cases, poll-cases,
}
use ota_common.Receiver.Admission.{refuse-Inv, feed_manifest-Inv}
use ota_common.Receiver.Complete.{Inv, IsRunning, running-Inv, request_next-Inv}

module _ {S : Type 0} (ops : BlockStore S) (verifier : Option SignatureVerifier) where
  -- A receiver just made keeps the invariant.
  pub new_receiver-Inv : (store : S) (session : ℕ) → Inv ops verifier (new_receiver store session)
  new_receiver-Inv store session = record {
    narrow = omega arith;
    accepted = λ e. cc;
    finished = λ e. cc;
  }

  abbrev Keeps : Receiver S → Type 0
  Keeps r = Inv ops verifier r

  abbrev Runs : Receiver S → Type 0
  Runs r = IsRunning ops verifier r

  finish_block-Inv :
      (index : ℕ) (input : List ℕ) (path : List Hash256) (r : Receiver S)
      → Runs r
      → Keeps (finish_block ops verifier index input path r)
  unfolding finish_block send_simple
  finish_block-Inv index input path r w =
      elim (Bool-cases (merkle_verify_block input index r.block_count path r.merkle_root)) [
        | inl ok ↦ rw ok (request_next-Inv ops verifier _ w)
        | inr bad ↦ rw bad (request_next-Inv ops verifier _ w)
      ]

  try_parts-Inv :
      (index : ℕ) (input : Option (List ℕ)) (path : Option (List Hash256)) (r : Receiver S)
      → Runs r
      → Keeps (try_parts ops verifier index input path r)
  unfolding try_parts
  try_parts-Inv index none path r w = running-Inv ops verifier r w
  try_parts-Inv index (some input) none r w = running-Inv ops verifier r w
  try_parts-Inv index (some input) (some path) r w = finish_block-Inv index input path r w

  try_finish_block-Inv :
      (index : ℕ) (r : Receiver S) → Runs r → Keeps (try_finish_block ops verifier index r)
  unfolding try_finish_block
  try_finish_block-Inv index r w = try_parts-Inv index _ _ r w

  feed_block-Inv :
      (index : ℕ) (re : Reassembler) (complete : Bool) (r : Receiver S)
      → Runs r
      → Keeps (feed_block ops verifier index (re, complete) r)
  unfolding feed_block
  feed_block-Inv index re true r w = try_finish_block-Inv index _ w
  feed_block-Inv index re false r w = running-Inv ops verifier _ w

  handle_block-Inv :
      (h : OtaFrameHeader) (p : List ℕ) (r : Receiver S)
      → Runs r
      → Keeps (handle_block ops verifier h p r)
  handle_block-Inv h p r w =
      handle_block-cases ops verifier Keeps r h p (running-Inv ops verifier r w)
        (λ ready re complete. feed_block-Inv h.index re complete r w)

  keep_proof-Inv :
      (index : ℕ) (re : Reassembler) (r : Receiver S)
      → Runs r
      → Keeps (keep_proof ops verifier index re r)
  unfolding keep_proof
  keep_proof-Inv index re r w = elim (Bool-cases (length re.buf % 32 != 0)) [
    | inl ragged ↦ simp ragged (running-Inv ops verifier _ w)
    | inr whole ↦ simp whole (try_finish_block-Inv index _ w)
  ]

  feed_proof-Inv :
      (index : ℕ) (re : Reassembler) (complete : Bool) (r : Receiver S)
      → Runs r
      → Keeps (feed_proof ops verifier index (re, complete) r)
  unfolding feed_proof
  feed_proof-Inv index re true r w = keep_proof-Inv index re r w
  feed_proof-Inv index re false r w = running-Inv ops verifier _ w

  empty_proof-Inv : (index : ℕ) (r : Receiver S) → Runs r → Keeps (empty_proof ops verifier index r)
  unfolding empty_proof
  empty_proof-Inv index r w = try_finish_block-Inv index _ w

  handle_proof-Inv :
      (h : OtaFrameHeader) (p : List ℕ) (r : Receiver S)
      → Runs r
      → Keeps (handle_proof ops verifier h p r)
  handle_proof-Inv h p r w =
      handle_proof-cases ops verifier Keeps r h p (running-Inv ops verifier r w)
        (λ ready. empty_proof-Inv h.index r w)
        (λ ready re complete. feed_proof-Inv h.index re complete r w)

  set_geometry-Inv :
      (s : Option OtaStartInfo) (r : Receiver S)
      → ((t : OtaStartInfo) → s ≡ some t → t.block_count < 65536)
      → Runs r
      → Keeps (set_geometry ops verifier s r)
  unfolding set_geometry
  set_geometry-Inv none r fits w = running-Inv ops verifier r w
  set_geometry-Inv (some s) r fits w =
      request_next-Inv ops verifier _
        (record { narrow = fits s refl; accepted = w.accepted; unfinished = w.unfinished })

  handle_start-Inv : (p : List ℕ) (r : Receiver S) → Runs r → Keeps (handle_start ops verifier p r)
  unfolding handle_start
  handle_start-Inv p r w =
      set_geometry-Inv (start_info_unpack (some p)) r (λ t e. start_info_unpack-narrow (some p) t e)
        w

  handle_manifest-Inv :
      (h : OtaFrameHeader) (p : List ℕ) (r : Receiver S)
      → Runs r
      → Keeps (handle_manifest ops verifier h p r)
  handle_manifest-Inv h p r w =
      handle_manifest-cases ops verifier Keeps r h p (running-Inv ops verifier r w)
        (λ unready re complete. feed_manifest-Inv ops verifier re complete r w)

  dispatch-Inv :
      (t : OtaFrameType) (h : OtaFrameHeader) (p : List ℕ) (r : Receiver S)
      → Runs r
      → Keeps (dispatch ops verifier t h p r)
  unfolding dispatch
  dispatch-Inv start h p r w = handle_start-Inv p r w
  dispatch-Inv manifest h p r w = handle_manifest-Inv h p r w
  dispatch-Inv block h p r w = handle_block-Inv h p r w
  dispatch-Inv proof h p r w = handle_proof-Inv h p r w
  dispatch-Inv abort h p r w = refuse-Inv ops verifier r w
  dispatch-Inv _ h p r w = running-Inv ops verifier r w

  still_running : (r : Receiver S) → Keeps r → (r.aborted || r.complete) ≡ false → Runs r
  still_running r w running = record {
    narrow = w.narrow;
    accepted = w.accepted;
    unfinished = ground (arith, running);
  }

  -- Every frame, whatever its bytes, keeps the invariant: the manifest held was read from bytes of
  -- the right magic and format that passed the signature check, its root is the root in use, and a
  -- complete transfer has every block below the block count in the store.
  pub on_frame-Inv :
      (frame : List ℕ) (r : Receiver S)
      → Inv ops verifier r
      → Inv ops verifier (on_frame ops verifier frame r)
  on_frame-Inv frame r w =
      on_frame-cases ops verifier Keeps r frame w
        (λ running h p. dispatch-Inv h.type h p r (still_running r w running))

  -- A poll keeps the invariant: the manifest held was read from bytes of the right magic and format
  -- that passed the signature check, its root is the root in use, and a complete transfer has every
  -- block below the block count in the store.
  pub poll-Inv : (r : Receiver S) → Inv ops verifier r → Inv ops verifier (poll ops verifier r)
  poll-Inv r w =
      poll-cases ops verifier Keeps r w
        (λ running. request_next-Inv ops verifier r (still_running r w (ground (arith, running))))
