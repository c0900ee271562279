-- ===== src/Samples.antt =====
-- Concrete data that the tests of several parts run on.
use ota_common.Common.{refl, arith, ℕ, List, [], ◌∷◌, replicate, some}
use ota_common.Manifest.{Manifest}
use ota_common.Manifest.Layout.{IsManifest}
use ota_common.Merkle.{Hash256}
use ota_common.Trailer.{OtaTrailer}
use ota_common.BlockStore.{BufferBlockStore, buffer_store}

-- Two blocks of four bytes and a short third one.
abbrev pub blocks : List (List ℕ)
blocks = (1 ∷ 2 ∷ 3 ∷ 4 ∷ []) ∷ (5 ∷ 6 ∷ 7 ∷ 8 ∷ []) ∷ (9 ∷ 10 ∷ []) ∷ []

abbrev pub payload : List ℕ
payload = 1 ∷ 2 ∷ 3 ∷ 4 ∷ 5 ∷ 6 ∷ 7 ∷ 8 ∷ 9 ∷ 10 ∷ []

abbrev pub small_manifest : Manifest
small_manifest = record {
  magic = 0x4E414D4D;
  format = 1;
  flags = 0;
  env = replicate 32 116;
  base_version = replicate 48 0;
  base_commit = replicate 16 97;
  block_size = 4;
  block_count = 3;
  payload_length = 10;
  payload_merkle_root = replicate 32 7;
  output_length = 10;
  output_sha256 = replicate 32 9;
  reserved0 = 0;
  reserved1 = 0;
}

abbrev pub small_trailer : OtaTrailer
small_trailer = record {
  magic = 0;
  format = 0;
  flags = 0;
  env = replicate 32 116;
  version = replicate 48 50;
  commit = replicate 16 97;
  repo = replicate 48 0;
  hw_vendor = 42;
  image_length = 4096;
  reserved0 = 0;
  reserved1 = 0;
  crc32 = 0;
}

abbrev pub digest : ℕ → Hash256
digest b = record { bytes = replicate 32 b }

abbrev pub empty_store : BufferBlockStore
empty_store = buffer_store (some small_manifest)

pub small_manifest-IsManifest : IsManifest small_manifest
small_manifest-IsManifest = record {
  magic_fits = omega arith;
  format_fits = omega arith;
  flags_fits = omega arith;
  env_len = refl;
  base_version_len = refl;
  base_commit_len = refl;
  block_size_fits = omega arith;
  block_count_fits = omega arith;
  payload_length_fits = omega arith;
  root_len = refl;
  output_length_fits = omega arith;
  output_sha256_len = refl;
  reserved0_fits = omega arith;
  reserved1_fits = omega arith;
}

-- The same with a block size that is 0 modulo 65536.
abbrev pub unsized_manifest : Manifest
unsized_manifest = record small_manifest { block_size = 65536 }

pub unsized_manifest-IsManifest : IsManifest unsized_manifest
unsized_manifest-IsManifest = record {
  magic_fits = omega arith;
  format_fits = omega arith;
  flags_fits = omega arith;
  env_len = refl;
  base_version_len = refl;
  base_commit_len = refl;
  block_size_fits = omega arith;
  block_count_fits = omega arith;
  payload_length_fits = omega arith;
  root_len = refl;
  output_length_fits = omega arith;
  output_sha256_len = refl;
  reserved0_fits = omega arith;
  reserved1_fits = omega arith;
}
