-- ===== src/Transfer/Tests.antt =====
-- A seeder of a concrete package and a receiver that holds its root.
use ota_common.Common.{
  ℕ, zero, suc, ◌+◌, ◌*◌, ◌≤◌, ◌≡◌, ◌<◌, refl, sym, ◌∙◌, ap, subst, arith, true, none, some, List,
  [], ◌∷◌, ◌⊎◌, ◌==◌, Bool-cases, inl, inr, false, ◌++◌, append_assoc, length-append, length,
  get_or, u16,
}
use ota_common.Wire.{request, frame_header_pack}
use ota_common.Manifest.{manifest_at, manifest_bytes}
use ota_common.Manifest.Layout.{length-manifest_bytes, manifest_at-manifest_bytes}
use ota_common.Merkle.{merkle_root}
use ota_common.Merkle.Digests.{leaves_of}
use ota_common.BlockStore.{BufferBlockStore, buffer_store, buffer_block_store}
use ota_common.BlockStore.Buffer.{have_at-nil}
use ota_common.Seeder
use ota_common.Seeder.{Seeder, adopt, new_seeder}
use ota_common.Seeder.Leaves.{chunks, made}
use ota_common.Seeder.Answer.{IsServing, sending}
use ota_common.Seeder.Serving.{made-IsServing, new_seeder-IsServing}
use ota_common.Receiver
use ota_common.Receiver.{Receiver, next_needed_block, new_receiver}
use ota_common.Receiver.Units.{Wants}
use ota_common.Receiver.Delivered.{IsDelivered}
use ota_common.Transfer.{take_all_frames}
use ota_common.Transfer.Answered.{request-IsDelivered}
use ota_common.Transfer.Rounds.{rounds}
use ota_common.Transfer.Session.{IsDone}
use ota_common.Receiver.Complete.{next_needed_block-none}
use ota_common.Seeder.Opening.{announced}
use ota_common.Receiver.Started.{Announces}
use ota_common.Transfer.Opening.{opening}
use ota_common.Wire.Layout.{AreBytes}
use ota_common.Merkle.Octets.{leaves_of-AreOctets}
use ota_common.Receiver.Octets.{OfBytes, OfDigests, updated}
use ota_common.Transfer.Octets.{HasOctets}
use ota_common.Transfer.Recovery.{MeetsCollision, rounds-recover}
use ota_common.Transfer.Session.{Resumes}
use ota_common.Transfer.Whole.{IsPublishing, transfer-IsDone}
use ota_common.Transfer.Buffered.{AreDeclared, buffer_laws, buffer_laws-fresh}
use ota_common.Samples
use ota_common.Samples.{payload, small_manifest, small_manifest-IsManifest}
use ota_common.Seeder.Chunks.{chunk_bounded}
use ota_common.Transfer.Sample.{
  published-IsBytes, signature, published, published-IsManifest, container_bytes, views,
  read_manifest, read_same, blocks, three_blocks, container_parses,
}

abbrev fresh_store : BufferBlockStore
fresh_store = buffer_store (some published)

new_seeder-IsServing_example :
    (s : Seeder) × (new_seeder 11 (some container_bytes) 7 200 ≡ some s) × IsServing blocks s
new_seeder-IsServing_example =
    new_seeder-IsServing 11 container_bytes views 7 200 container_parses
      (rw read_same (omega arith)) (omega arith) (omega arith) (omega arith)
      (ap (λ m. u16 m.block_count) read_same ∙ sym three_blocks)

-- The manifest is there, and no block yet.
abbrev waiting : Receiver BufferBlockStore
waiting = record (new_receiver fresh_store 7) {
  manifest_ready = true;
  manifest_copy = published;
  merkle_root = merkle_root (leaves_of blocks);
  block_size = 4;
  block_count = 3;
  payload_length = 10;
}

abbrev small_seeder : Seeder
small_seeder = made 11 views 7 200

small_seeder-IsServing : IsServing blocks small_seeder
unfolding adopt
small_seeder-IsServing =
    made-IsServing 11 views 7 200 refl (omega arith) (omega arith) (rw read_same (omega arith))
      (ap (λ m. u16 m.block_count) read_same ∙ sym three_blocks)

waiting-Wants : Wants buffer_block_store none 7 2 waiting
waiting-Wants = record {
  opened = record { ours = refl; live = refl; running = refl };
  ready = refl;
  lacks = have_at-nil 2;
}

-- The last block, which is short.
request-IsDelivered_example :
    (frames : List (List ℕ)) × (Seeder.on_frame
        (frame_header_pack (record { type = request; session = 7; index = 2; off = 0; total = 0 }))
        small_seeder
      ≡ sending small_seeder frames)
    × IsDelivered buffer_block_store none 7 2
        (get_or blocks 2 [])
        waiting
        (take_all_frames (Receiver.on_frame buffer_block_store none) frames waiting)
unfolding adopt
request-IsDelivered_example =
    request-IsDelivered buffer_block_store none blocks 2 small_seeder waiting small_seeder-IsServing
      (omega (arith, three_blocks)) waiting-Wants refl (sym three_blocks) refl

same_blocks : blocks ≡ Samples.blocks
unfolding chunks
same_blocks = ap (λ m. chunks 11 (u16 m.block_size) payload) read_same

blocks_inside : (i : ℕ) → i < 3 → i * 4 + length (get_or Samples.blocks i []) ≤ 10
blocks_inside zero h = omega arith
blocks_inside (suc zero) h = omega arith
blocks_inside (suc (suc zero)) h = omega arith
blocks_inside (suc (suc (suc i))) h = absurd (omega arith)

declared : AreDeclared published blocks
declared = record {
  counted = three_blocks;
  bounded = λ i.
      subst (λ m. length (get_or blocks i []) ≤ u16 m.block_size) read_same
        (chunk_bounded 11 (u16 read_manifest.block_size) payload i);
  inside = λ i h. rw same_blocks (blocks_inside i (omega (arith, h, three_blocks)));
  payload_fits = omega arith;
  count_fits = omega arith;
}

raw_manifest : List ℕ
raw_manifest = manifest_bytes published ++ signature

raw_same : manifest_at raw_manifest ≡ published
unfolding raw_manifest
raw_same = manifest_at-manifest_bytes published signature published-IsManifest

raw_size : length raw_manifest ≡ 256
unfolding raw_manifest
raw_size =
    length-append (manifest_bytes published) signature
    ∙ ap (λ (n : ℕ). n + 64) (length-manifest_bytes published published-IsManifest)

raw_held : small_seeder.manifest_bytes ≡ raw_manifest ++ payload
unfolding adopt raw_manifest
raw_held = sym (append_assoc (manifest_bytes published) signature payload)

small_seeder-IsPublishing : IsPublishing none blocks small_seeder
unfolding adopt
small_seeder-IsPublishing = record {
  raw = raw_manifest;
  rest = payload;
  held = raw_held;
  size = raw_size;
  small = omega (arith, raw_size);
  sound = record {
    long_enough = omega (arith, raw_size);
    magic = ap (λ m. m.magic) raw_same;
    format = ap (λ m. m.format) raw_same;
    signed = refl;
  };
  rooted =
      ap (λ m. m.payload_merkle_root) raw_same
      ∙ ap (λ b. (merkle_root (leaves_of b)).bytes) (sym same_blocks);
  counted = ap (λ m. u16 m.block_count) raw_same ∙ sym three_blocks;
}

small_seeder-Announces :
    Announces buffer_block_store none (manifest_at raw_manifest) (announced small_seeder)
unfolding adopt
small_seeder-Announces = record {
  fits = record {
    block_size_fits = omega arith;
    block_count_fits = omega arith;
    payload_length_fits = omega arith;
    manifest_len_fits = omega arith;
    sig_len_fits = omega arith;
  };
  size = ap (λ m. m.block_size) raw_same ∙ sym (ap (λ m. u16 m.block_size) read_same);
  count = ap (λ m. m.block_count) raw_same ∙ sym (ap (λ m. u16 m.block_count) read_same);
  len = ap (λ m. m.payload_length) raw_same;
}

-- The whole transfer, from a receiver just made, with the START.
transfer-IsDone_example :
    IsDone buffer_block_store none blocks (buffer_laws published blocks declared) (
      rounds buffer_block_store none
        (suc (length blocks))
        (opening buffer_block_store none true (small_seeder, new_receiver fresh_store 7)))
unfolding adopt small_seeder-IsPublishing
transfer-IsDone_example =
    transfer-IsDone buffer_block_store none blocks (buffer_laws published blocks declared) true
      small_seeder fresh_store small_seeder-IsServing small_seeder-IsPublishing
      (λ on. small_seeder-Announces) (buffer_laws-fresh published blocks declared)

-- The manifest is there, and wrong bytes are kept of the first block.
abbrev holding : Receiver BufferBlockStore
holding = record waiting {
  ready_blocks = Receiver.update (λ i. none) 0 (some (9 ∷ 9 ∷ []));
  proofs = Receiver.update (λ i. none) 1 (some []);
}

holding-Resumes :
    Resumes buffer_block_store none blocks (buffer_laws published blocks declared) 7 0 holding
holding-Resumes = record {
  good = buffer_laws-fresh published blocks declared;
  ours = refl;
  live = refl;
  ready = refl;
  counted = sym three_blocks;
  rooted = refl;
  ends = sym still_needed;
  had = λ j h. absurd (omega arith);
}
  where
    still_needed : (next_needed_block buffer_block_store none holding == 65535) ≡ false
    still_needed = elim (Bool-cases (next_needed_block buffer_block_store none holding == 65535)) [
      | inr more ↦ more
      | inl over ↦
          let has =
            next_needed_block-none buffer_block_store none holding (omega arith) (ground arith) 0
              (omega arith) in
          let lacks = have_at-nil 0 in ground (arith, has, lacks)
    ]

blocks-AreBytes : AreBytes blocks
blocks-AreBytes = subst AreBytes (sym same_blocks) (omega arith)

holding-HasOctets : HasOctets buffer_block_store none (small_seeder, holding)
unfolding adopt
holding-HasOctets = record {
  sender = record {
    session_fits = omega arith;
    manifest = published-IsBytes;
    payload = omega arith;
    leaves = leaves_of-AreOctets blocks;
    sent = tt;
  };
  keeper = record {
    block_unit = tt;
    proof_unit = tt;
    blocks = updated OfBytes (λ i. none) 0 (some (9 ∷ 9 ∷ [])) (λ i. tt) (omega arith);
    proofs = updated OfDigests (λ i. none) 1 (some []) (λ i. tt) tt;
  };
}

rounds-recover_example :
    IsDone buffer_block_store none blocks
      (buffer_laws published blocks declared)
      (rounds buffer_block_store none 6 (small_seeder, holding))
    ⊎ MeetsCollision buffer_block_store none blocks
        (buffer_laws published blocks declared)
        (small_seeder, holding)
unfolding adopt
rounds-recover_example =
    rounds-recover buffer_block_store none blocks (buffer_laws published blocks declared) 3 0
      small_seeder holding small_seeder-IsServing holding-Resumes blocks-AreBytes holding-HasOctets
      (omega (arith, three_blocks))
