-- ===== src/Receiver/Frames.antt =====
-- What the sending operations of the receiver leave alone.
use ota_common.Common.{
  ℕ, ◌≡◌, refl, ap₂, arith, ◌≢◌, some, none, drop, ◌++◌, ◌||◌, true, false, Option, List, [], ◌∷◌,
  inl, inr, ◌==◌, Bool-cases,
}
use ota_common.Wire.{
  OtaFrameHeader, request, frame_header_pack, frame_header_unpack, frame_header_len, index_manifest,
}
use ota_common.Wire.Frame.{IsHeader, frame_header_unpack-pack, drop-frame_header_pack}
use ota_common.Package.{SignatureVerifier}
use ota_common.BlockStore.{BlockStore}
use ota_common.Receiver.{
  Receiver, send_simple, send_request, request_block, request_next, next_needed_block, needed_from,
  poll, receive, dispatch, on_frame,
}

-- Two states that differ at most in the frames sent and in the flag `complete`.
pub record SameBut {S : Type 0} (r r' : Receiver S) : Type 0 where
  pub store : r'.store ≡ r.store
  pub session : r'.session ≡ r.session
  pub have_geometry : r'.have_geometry ≡ r.have_geometry
  pub block_size : r'.block_size ≡ r.block_size
  pub block_count : r'.block_count ≡ r.block_count
  pub payload_length : r'.payload_length ≡ r.payload_length
  pub manifest_ready : r'.manifest_ready ≡ r.manifest_ready
  pub manifest_copy : r'.manifest_copy ≡ r.manifest_copy
  pub merkle_root : r'.merkle_root ≡ r.merkle_root
  pub proofs : r'.proofs ≡ r.proofs
  pub ready_blocks : r'.ready_blocks ≡ r.ready_blocks
  pub aborted : r'.aborted ≡ r.aborted

-- What `send_request` sends.
abbrev pub request_frame : ℕ → ℕ → List ℕ
request_frame session index =
    frame_header_pack
      (record { type = request; session = session; index = index; off = 0; total = 0 })

-- A receiver that has sent one request more.
abbrev pub asking : {S : Type 0} → ℕ → Receiver S → Receiver S
asking index r = record r { out = r.out ++ (request_frame r.session index ∷ []) }

module _ {S : Type 0} (ops : BlockStore S) (verifier : Option SignatureVerifier) where
  pub request_next-SameBut : (r : Receiver S) → SameBut r (request_next ops verifier r)
  unfolding request_next request_block send_request send_simple
  request_next-SameBut r = ground arith

  -- A request, or the frame that ends the transfer, is the one frame sent.
  pub request_next-out :
      (r : Receiver S) → (f : List ℕ) × ((request_next ops verifier r).out ≡ r.out ++ (f ∷ []))
  unfolding request_next request_block send_request send_simple
  request_next-out r = elim (Bool-cases r.manifest_ready) [
    | inr unready ↦ simp unready (_, refl)
    | inl ready ↦ elim (Bool-cases (next_needed_block ops verifier r == index_manifest)) [
      | inl over ↦ simp (ready, over) (_, refl)
      | inr more ↦ simp (ready, more) (_, refl)
    ]
  ]

  -- Before the manifest, a request does not end the transfer.
  pub request_next-unready :
      (r : Receiver S)
      → r.manifest_ready ≡ false
      → (request_next ops verifier r).complete ≡ r.complete
  unfolding request_next send_request send_simple
  request_next-unready r unready = ground (arith, unready)

  -- The transfer ends where no block is needed any more.
  pub request_next-ends :
      (r : Receiver S)
      → r.manifest_ready ≡ true
      → r.complete ≡ false
      → (request_next ops verifier r).complete
        ≡ (next_needed_block ops verifier (request_next ops verifier r) == index_manifest)
  request_next-ends r ready running =
      let same = request_next-SameBut r in
      let asked : next_needed_block ops verifier (request_next ops verifier r)
          ≡ next_needed_block ops verifier r =
        unfold next_needed_block in
        ap₂ (λ (n : ℕ) s. needed_from ops verifier n 0 s) same.block_count same.store in
      rw asked (
        unfold request_next request_block send_request send_simple in
        ground (arith, ready, running))

  -- Before the manifest, a poll requests it.
  pub poll-unready :
      (r : Receiver S)
      → r.aborted ≡ false
      → r.complete ≡ false
      → r.manifest_ready ≡ false
      → poll ops verifier r ≡ asking index_manifest r
  unfolding poll request_next send_request send_simple
  poll-unready r live running unready = simp (live, running, unready) refl

  -- After it, a poll requests the next block.
  pub poll-ready :
      (r : Receiver S)
      → r.aborted ≡ false
      → r.complete ≡ false
      → r.manifest_ready ≡ true
      → (next_needed_block ops verifier r == index_manifest) ≡ false
      → poll ops verifier r ≡ asking (next_needed_block ops verifier r) r
  unfolding poll request_next request_block send_request send_simple
  poll-ready r live running ready more = simp (live, running, ready, more) refl

  -- A packed frame is received as its header and its payload.
  pub on_frame-pack :
      (h : OtaFrameHeader) (p : List ℕ) (r : Receiver S)
      → IsHeader h
      → on_frame ops verifier (frame_header_pack h ++ p) r ≡ receive ops verifier (some h) p r
  unfolding on_frame
  on_frame-pack h p r w =
      ap₂ (λ (u : Option OtaFrameHeader) (q : List ℕ). receive ops verifier u q r)
        (frame_header_unpack-pack h p w) (drop-frame_header_pack h p)

  -- A frame of the session is dispatched on its type while the transfer runs.
  pub receive-running :
      (h : OtaFrameHeader) (p : List ℕ) (r : Receiver S)
      → h.session ≡ r.session
      → r.aborted ≡ false
      → r.complete ≡ false
      → receive ops verifier (some h) p r ≡ dispatch ops verifier h.type h p r
  unfolding receive
  receive-running h p r ours live running = ground arith

  -- The end of a transfer is final: no frame changes anything of an aborted or complete receiver.
  pub on_frame-over :
      (frame : List ℕ) (r : Receiver S)
      → (r.aborted || r.complete) ≡ true
      → on_frame ops verifier frame r ≡ r
  unfolding on_frame
  on_frame-over frame r over = go (frame_header_unpack (some frame))
    where
      go : (h : Option OtaFrameHeader) → receive ops verifier h (drop frame_header_len frame) r ≡ r
      go none = unfold receive in refl
      go (some h) = unfold receive in ground arith

  -- A frame of another session is ignored.
  pub receive-foreign :
      (h : OtaFrameHeader) (p : List ℕ) (r : Receiver S)
      → h.session ≢ r.session
      → receive ops verifier (some h) p r ≡ r
  unfolding receive
  receive-foreign h p r foreign = ground arith
