-- ===== src/Receiver/Tests.antt =====
-- A receiver over a buffer store, in the states that the theorems speak of.
use ota_common.Common.{
  ℕ, ◌≡◌, refl, arith, true, false, none, some, List, [], ◌∷◌, ◌++◌, replicate, zero, suc, IsBytes,
  IsBytes-append,
}
use ota_common.Wire.{OtaFrameHeader, start, block, frame_header_pack, OtaStartInfo, start_info_pack}
use ota_common.Wire.Bytes.{type_to_byte-lt, frame_header_pack-IsBytes}
use ota_common.Merkle.{merkle_root}
use ota_common.Merkle.Digests.{leaves_of}
use ota_common.BlockStore.{BufferBlockStore, buffer_block_store}
use ota_common.Receiver.{Receiver, new_receiver, update, poll, on_frame}
use ota_common.Receiver.Authentic.{PublishedStep, on_frame-published}
use ota_common.Receiver.Octets.{HasOctets, OfDigests, updated}
use ota_common.Receiver.Complete.{Accepted, AllStored}
use ota_common.Receiver.Runs.{created, received, polled, PutUnder, Reachable-verified}
use ota_common.Receiver.LateStart.{late_start_completes}
use ota_common.Samples.{blocks, small_manifest, empty_store, digest}

abbrev fresh : Receiver BufferBlockStore
fresh = new_receiver empty_store 7

-- The manifest is there, and so is the proof of the third block.
abbrev waiting : Receiver BufferBlockStore
waiting = record fresh {
  manifest_ready = true;
  manifest_copy = small_manifest;
  merkle_root = merkle_root (leaves_of blocks);
  block_size = 4;
  block_count = 3;
  payload_length = 10;
  proofs = update (λ index. none) 2 (some (digest 1 ∷ []));
}

abbrev finished : Receiver BufferBlockStore
finished = record fresh { complete = true }

abbrev third_block_header : OtaFrameHeader
third_block_header = record { type = block; session = 7; index = 2; off = 0; total = 2 }

abbrev third_block : List ℕ
third_block = frame_header_pack third_block_header ++ (9 ∷ 10 ∷ [])

abbrev foreign_header : OtaFrameHeader
foreign_header = record { type = block; session = 8; index = 2; off = 0; total = 2 }

third_block-IsBytes : IsBytes third_block
third_block-IsBytes =
    IsBytes-append (frame_header_pack third_block_header) (9 ∷ 10 ∷ [])
      (frame_header_pack-IsBytes third_block_header (type_to_byte-lt block tt) (omega arith))
      (omega arith)

ones : (n : ℕ) → IsBytes (replicate n 1)
ones zero = tt
ones (suc n) = (omega arith, ones n)

waiting-HasOctets : HasOctets waiting
waiting-HasOctets = record {
  block_unit = tt;
  proof_unit = tt;
  blocks = λ i. tt;
  proofs = updated OfDigests (λ i. none) 2 (some (digest 1 ∷ [])) (λ i. tt) ((refl, ones 32), tt);
}

on_frame-published_example :
    PublishedStep buffer_block_store none blocks waiting
      (on_frame buffer_block_store none third_block waiting).store
on_frame-published_example =
    on_frame-published buffer_block_store none blocks third_block waiting (omega arith)
      third_block-IsBytes waiting-HasOctets refl refl

abbrev start_header : OtaFrameHeader
start_header = record { type = start; session = 7; index = 0; off = 0; total = 0 }

abbrev no_blocks : OtaStartInfo
no_blocks = record {
  block_size = 4;
  block_count = 0;
  payload_length = 0;
  manifest_len = 192;
  sig_len = 64;
}

late_start_completes_example :
    let r =
      on_frame buffer_block_store none
        (frame_header_pack start_header ++ (start_info_pack no_blocks ++ []))
        waiting in
    (r.complete ≡ true) × (r.store ≡ empty_store)
late_start_completes_example =
    late_start_completes buffer_block_store none start_header no_blocks [] waiting
      (record {
        of_type = tt;
        session_fits = omega arith;
        index_fits = omega arith;
        off_fits = omega arith;
        total_fits = omega arith;
      })
      refl refl (omega arith) refl refl refl refl

-- A START frame, a block frame and a poll, of a receiver without a verifier.
abbrev three_steps : Receiver BufferBlockStore
three_steps = poll buffer_block_store none (
    on_frame buffer_block_store none third_block (
      on_frame buffer_block_store none
        (frame_header_pack start_header ++ (start_info_pack no_blocks ++ [])) fresh))

Reachable-verified_example :
    (three_steps.manifest_ready ≡ false → three_steps.store ≡ empty_store)
    × ((three_steps.manifest_ready ≡ true
          → Accepted buffer_block_store none three_steps.manifest_copy three_steps.merkle_root
            × PutUnder buffer_block_store none empty_store three_steps.merkle_root
                three_steps.store)
        × (three_steps.complete ≡ true
            → AllStored buffer_block_store none three_steps.block_count three_steps.store))
Reachable-verified_example =
    Reachable-verified buffer_block_store none empty_store 7 three_steps
      (polled _ (received third_block _ (received _ fresh created)))
