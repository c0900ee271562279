-- ===== src/Manifest.antt =====
-- include/ota_common/manifest.h. A struct in memory is the list of its bytes, little-endian as on
-- every target of the library; a pointer into a buffer is the list of the bytes from it to the end.
pub mod Layout
pub mod Prefix
use ota_common.Common.{ℕ, ◌+◌, ◌/◌, ◌%◌, Bool, List, [], ◌∷◌, ◌++◌, slice, replicate, bit_and, ◌!=◌}
use ota_common.Wire.Layout.{concat}
use ota_common.Wire.{get16, get32, put16, put32}

abbrev pub manifest_magic : ℕ
manifest_magic = 0x4E414D4D

abbrev pub manifest_format : ℕ
manifest_format = 1

abbrev pub manifest_flag_delta : ℕ
manifest_flag_delta = 1

-- `sizeof(Manifest)`.
abbrev pub manifest_size : ℕ
manifest_size = 192

pub record Manifest : Type 0 where
  pub magic : ℕ
  pub format : ℕ
  pub flags : ℕ
  pub env : List ℕ
  pub base_version : List ℕ
  pub base_commit : List ℕ
  pub block_size : ℕ
  pub block_count : ℕ
  pub payload_length : ℕ
  pub payload_merkle_root : List ℕ
  pub output_length : ℕ
  pub output_sha256 : List ℕ
  pub reserved0 : ℕ
  pub reserved1 : ℕ

-- The struct that a `const Manifest *` points to.
pub manifest_at : List ℕ → Manifest
manifest_at p = record {
  magic = get32 p 0;
  format = get16 p 4;
  flags = get16 p 6;
  env = slice 8 32 p;
  base_version = slice 40 48 p;
  base_commit = slice 88 16 p;
  block_size = get32 p 104;
  block_count = get32 p 108;
  payload_length = get32 p 112;
  payload_merkle_root = slice 116 32 p;
  output_length = get32 p 148;
  output_sha256 = slice 152 32 p;
  reserved0 = get32 p 184;
  reserved1 = get32 p 188;
}

-- A manifest with all bytes zero, `Manifest{}`.
abbrev pub zero_manifest : Manifest
zero_manifest = record {
  magic = 0;
  format = 0;
  flags = 0;
  env = replicate 32 0;
  base_version = replicate 48 0;
  base_commit = replicate 16 0;
  block_size = 0;
  block_count = 0;
  payload_length = 0;
  payload_merkle_root = replicate 32 0;
  output_length = 0;
  output_sha256 = replicate 32 0;
  reserved0 = 0;
  reserved1 = 0;
}

-- The fields of the struct in the order of their offsets.
pub manifest_parts : Manifest → List (List ℕ)
manifest_parts m =
    put32 m.magic
    ∷ put16 m.format
    ∷ put16 m.flags
    ∷ m.env
    ∷ m.base_version
    ∷ m.base_commit
    ∷ put32 m.block_size
    ∷ put32 m.block_count
    ∷ put32 m.payload_length
    ∷ m.payload_merkle_root
    ∷ put32 m.output_length
    ∷ m.output_sha256
    ∷ put32 m.reserved0
    ∷ put32 m.reserved1
    ∷ []

-- The 192 bytes of the struct.
pub manifest_bytes : Manifest → List ℕ
unfolding manifest_parts
manifest_bytes m = concat (manifest_parts m)

pub manifest_is_delta : Manifest → Bool
manifest_is_delta m = bit_and m.flags manifest_flag_delta != 0
