-- ===== src/Receiver/Cases.antt =====
-- The guards of the handlers, for a property of the state after a handler.
use ota_common.Common.{
  ℕ, ◌≡◌, Bool, true, false, ◌||◌, ◌&&◌, not, inl, inr, Option, none, some, List, drop, ◌!=◌, ◌==◌,
  Bool-cases, if◌then◌else◌,
}
use ota_common.Wire.{OtaFrameHeader, frame_header_len}
use ota_common.Package.{SignatureVerifier}
use ota_common.Reassembler.{Reassembler, reset, feed}
use ota_common.BlockStore.{BlockStore}
use ota_common.Receiver.{
  Receiver, request_next, feed_manifest, handle_manifest, feed_block, handle_block, feed_proof,
  empty_proof, handle_proof, dispatch, receive, on_frame, poll,
}

module _ {S : Type 0} (ops : BlockStore S) (verifier : Option SignatureVerifier)
    (P : Receiver S → Type 0) (r : Receiver S) where
  pub handle_manifest-cases :
      (h : OtaFrameHeader) (p : List ℕ)
      → P r
      → (r.manifest_ready ≡ false
          → (re : Reassembler) (complete : Bool) → P (feed_manifest ops verifier (re, complete) r))
      → P (handle_manifest ops verifier h p r)
  unfolding handle_manifest
  handle_manifest-cases h p ignored fed = elim (Bool-cases r.manifest_ready) [
    | inl ready ↦ simp ready ignored
    | inr unready ↦ simp unready (fed unready _ _)
  ]

  pub handle_block-cases :
      (h : OtaFrameHeader) (p : List ℕ)
      → P r
      → (r.manifest_ready ≡ true
          → (re : Reassembler) (complete : Bool)
          → P (feed_block ops verifier h.index (re, complete) r))
      → P (handle_block ops verifier h p r)
  unfolding handle_block
  handle_block-cases h p ignored fed = elim (Bool-cases r.manifest_ready) [
    | inr unready ↦ simp unready ignored
    | inl ready ↦ elim (Bool-cases (ops.has_block r.store h.index)) [
      | inl old ↦ simp (ready, old) ignored
      | inr new ↦ simp (ready, new) (fed ready _ _)
    ]
  ]

  pub handle_proof-cases :
      (h : OtaFrameHeader) (p : List ℕ)
      → P r
      → (r.manifest_ready ≡ true → P (empty_proof ops verifier h.index r))
      → (r.manifest_ready ≡ true
          → (re : Reassembler) (complete : Bool)
          → P (feed_proof ops verifier h.index (re, complete) r))
      → P (handle_proof ops verifier h p r)
  unfolding handle_proof
  handle_proof-cases h p ignored empty fed = elim (Bool-cases r.manifest_ready) [
    | inr unready ↦ simp unready ignored
    | inl ready ↦ elim (Bool-cases (ops.has_block r.store h.index)) [
      | inl old ↦ simp (ready, old) ignored
      | inr new ↦ elim (Bool-cases (h.total == 0)) [
        | inl single ↦ simp (ready, new, single) (empty ready)
        | inr more ↦ simp (ready, new, more) (fed ready _ _)
      ]
    ]
  ]

  -- What is fed to the reassembler.
  pub handle_block-fed :
      (h : OtaFrameHeader) (p : List ℕ)
      → P r
      → (r.manifest_ready ≡ true
          → (first : Bool)
          → P (
              feed_block ops verifier h.index
                (feed (if first then reset h.total else r.block_re) h.off p)
                r))
      → P (handle_block ops verifier h p r)
  unfolding handle_block
  handle_block-fed h p ignored fed = elim (Bool-cases r.manifest_ready) [
    | inr unready ↦ simp unready ignored
    | inl ready ↦ elim (Bool-cases (ops.has_block r.store h.index)) [
      | inl old ↦ simp (ready, old) ignored
      | inr new ↦ simp (ready, new) (fed ready _)
    ]
  ]

  pub handle_proof-fed :
      (h : OtaFrameHeader) (p : List ℕ)
      → P r
      → (r.manifest_ready ≡ true → P (empty_proof ops verifier h.index r))
      → (r.manifest_ready ≡ true
          → (first : Bool)
          → P (
              feed_proof ops verifier h.index
                (feed (if first then reset h.total else r.proof_re) h.off p)
                r))
      → P (handle_proof ops verifier h p r)
  unfolding handle_proof
  handle_proof-fed h p ignored empty fed = elim (Bool-cases r.manifest_ready) [
    | inr unready ↦ simp unready ignored
    | inl ready ↦ elim (Bool-cases (ops.has_block r.store h.index)) [
      | inl old ↦ simp (ready, old) ignored
      | inr new ↦ elim (Bool-cases (h.total == 0)) [
        | inl single ↦ simp (ready, new, single) (empty ready)
        | inr more ↦ simp (ready, new, more) (fed ready _)
      ]
    ]
  ]

  receive-cases :
      (h : Option OtaFrameHeader) (p : List ℕ)
      → P r
      → ((r.aborted || r.complete) ≡ false
          → (h : OtaFrameHeader) → P (dispatch ops verifier h.type h p r))
      → P (receive ops verifier h p r)
  unfolding receive
  receive-cases none p ignored handled = ignored
  receive-cases (some h) p ignored handled = elim (Bool-cases (h.session != r.session)) [
    | inl foreign ↦ simp foreign ignored
    | inr ours ↦ elim (Bool-cases (r.aborted || r.complete)) [
      | inl over ↦ simp (ours, over) ignored
      | inr running ↦ simp (ours, running) (handled running h)
    ]
  ]

  pub on_frame-cases :
      (frame : List ℕ)
      → P r
      → ((r.aborted || r.complete) ≡ false
          → (h : OtaFrameHeader) (p : List ℕ) → P (dispatch ops verifier h.type h p r))
      → P (on_frame ops verifier frame r)
  unfolding on_frame
  on_frame-cases frame ignored handled =
      receive-cases _ _ ignored (λ running h. handled running h _)

  -- The payload is the frame without its header.
  pub on_frame-payload :
      (frame : List ℕ)
      → P r
      → ((h : OtaFrameHeader) → P (dispatch ops verifier h.type h (drop frame_header_len frame) r))
      → P (on_frame ops verifier frame r)
  unfolding on_frame
  on_frame-payload frame ignored handled = receive-cases _ _ ignored (λ running h. handled h)

  pub poll-cases :
      P r
      → ((not r.aborted && not r.complete) ≡ true → P (request_next ops verifier r))
      → P (poll ops verifier r)
  unfolding poll
  poll-cases ignored asked = elim (Bool-cases (not r.aborted && not r.complete)) [
    | inl running ↦ simp running (asked running)
    | inr over ↦ simp over ignored
  ]
