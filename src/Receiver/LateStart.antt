-- ===== src/Receiver/LateStart.antt =====
-- A START frame after the manifest replaces the geometry that the signed manifest fixed: the
-- cross-check of `handle_manifest` does not come again.
use ota_common.Common.{ℕ, ◌≡◌, ap, arith, true, false, Option, List, ◌++◌}
use ota_common.Wire.{
  OtaFrameHeader, start, frame_header_pack, OtaStartInfo, start_info_pack, index_manifest,
}
use ota_common.Wire.Frame.{IsHeader}
use ota_common.Wire.Info.{IsStartInfo, start_info_unpack-pack}
use ota_common.Package.{SignatureVerifier}
use ota_common.BlockStore.{BlockStore}
use ota_common.Receiver.{
  Receiver, set_geometry, handle_start, dispatch, request_next, request_block, next_needed_block,
  needed_from, send_simple, on_frame,
}
use ota_common.Receiver.Frames.{on_frame-pack, receive-running}

module _ {S : Type 0} (ops : BlockStore S) (verifier : Option SignatureVerifier) where
  nothing_needed :
      (r : Receiver S) → r.block_count ≡ 0 → next_needed_block ops verifier r ≡ index_manifest
  unfolding next_needed_block needed_from
  nothing_needed r empty = ap (λ (n : ℕ). needed_from ops verifier n 0 r.store) empty

  request_next-no_blocks :
      (r : Receiver S)
      → r.manifest_ready ≡ true
      → r.block_count ≡ 0
      → ((request_next ops verifier r).complete ≡ true)
        × ((request_next ops verifier r).store ≡ r.store)
  unfolding request_next request_block send_simple
  request_next-no_blocks r ready empty = ground (arith, nothing_needed r empty)

  -- Whatever the signed manifest says and whatever the store holds, a START frame of the session
  -- that declares no blocks, received after the manifest, completes the transfer and stores nothing.
  pub late_start_completes :
      (h : OtaFrameHeader) (s : OtaStartInfo) (rest : List ℕ) (r : Receiver S)
      → IsHeader h
      → h.type ≡ start
      → h.session ≡ r.session
      → IsStartInfo s
      → s.block_count ≡ 0
      → r.manifest_ready ≡ true
      → r.aborted ≡ false
      → r.complete ≡ false
      → let r' = on_frame ops verifier (frame_header_pack h ++ (start_info_pack s ++ rest)) r in
        (r'.complete ≡ true) × (r'.store ≡ r.store)
  late_start_completes h s rest r hw type ours sw empty ready live running =
      rw
        (
          on_frame-pack ops verifier h (start_info_pack s ++ rest) r hw,
          receive-running ops verifier h (start_info_pack s ++ rest) r ours live running,
          type,
        )
        (unfold dispatch handle_start in
          rw (start_info_unpack-pack s rest sw)
            (unfold set_geometry in request_next-no_blocks _ ready empty))
