-- ===== src/Transfer/Answered.antt =====
-- A request of the receiver, the seeder's answer, and what the receiver makes of it.
use ota_common.Common.{ℕ, ◌<◌, ◌≡◌, ◌∙◌, arith, true, Option, none, List, [], ◌++◌, length, get_or}
use ota_common.Wire.{request, frame_header_pack}
use ota_common.Package.{SignatureVerifier}
use ota_common.BlockStore.{BlockStore}
use ota_common.Merkle.{merkle_root, merkle_proof, merkle_verify_block}
use ota_common.Merkle.Digests.{leaves_of}
use ota_common.Merkle.Binding.{merkle_verify_block-merkle_proof}
use ota_common.Seeder
use ota_common.Seeder.{Seeder}
use ota_common.Seeder.Answer.{
  IsServing, serving_path, answer-frames, length-piece, on_frame-request, sending,
}
use ota_common.Receiver
use ota_common.Receiver.{Receiver}
use ota_common.Receiver.Units.{Wants}
use ota_common.Receiver.Delivered.{IsDelivered, answer-IsDelivered}
use ota_common.Transfer.{proof_frames, block_frames, take_all_frames}

module _ {S : Type 0} (ops : BlockStore S) (verifier : Option SignatureVerifier) where
  -- A request frame for a block, given to a seeder that serves the blocks, makes it send frames that,
  -- taken in order by a receiver of the session that holds the root and the number of these blocks,
  -- lacks this one and keeps no copy of it, put the block into the receiver's store under its index
  -- and make the receiver acknowledge it and send one frame more.
  pub request-IsDelivered :
      (blocks : List (List ℕ)) (index : ℕ) (s : Seeder) (r : Receiver S)
      → IsServing blocks s
      → index < length blocks
      → Wants ops verifier s.session index r
      → r.ready_blocks index ≡ none
      → r.block_count ≡ length blocks
      → r.merkle_root ≡ merkle_root (leaves_of blocks)
      → (frames : List (List ℕ)) × (Seeder.on_frame
            (frame_header_pack
              (record { type = request; session = s.session; index = index; off = 0; total = 0 }))
            s
          ≡ sending s frames)
        × IsDelivered ops verifier s.session index
            (get_or blocks index [])
            r
            (take_all_frames (Receiver.on_frame ops verifier) frames r)
  request-IsDelivered blocks index s r w h wants lacking count root =
      let path = merkle_proof s.leaves index in
      let input = get_or blocks index [] in
      let (hashes, short) = serving_path blocks index s w in
      let frames =
        proof_frames s.session index path s.frag ++ block_frames s.session index input s.frag in
      let sent =
        on_frame-request index s w.valid w.session_fits (omega (arith, w.count_fits))
        ∙ answer-frames blocks index s w h in
      let size : length input ≡ Seeder.block_len s index = length-piece blocks index s w h in
      let ok : merkle_verify_block input index r.block_count path r.merkle_root ≡ true =
        rw (count, root, w.leaves) (merkle_verify_block-merkle_proof blocks index h) in
      (
        frames,
        sent,
        answer-IsDelivered ops verifier s.session index path input s.frag r w.session_fits
            (omega (arith, w.count_fits)) w.some_frag hashes (omega arith)
            (omega (arith, size, w.some_block index h)) (omega (arith, size, w.block_fits index h))
            wants lacking ok,
      )
