-- ===== src/Manifest/Layout.antt =====
-- The struct read back from its bytes.
use ota_common.Common.{ℕ, ◌<◌, ◌≡◌, refl, List, ◌++◌, length, IsBytes}
use ota_common.Wire.Words.{put16-IsBytes, put32-IsBytes}
use ota_common.Wire.Layout.{
  concat-IsBytes, sizes, length-concat, bytes_field, word16_field, word32_field,
}
use ota_common.Manifest.{Manifest, manifest_at, manifest_parts, manifest_bytes}

-- Fields that fit the struct.
pub record IsManifest (m : Manifest) : Type 0 where
  pub magic_fits : m.magic < 4294967296
  pub format_fits : m.format < 65536
  pub flags_fits : m.flags < 65536
  pub env_len : length m.env ≡ 32
  pub base_version_len : length m.base_version ≡ 48
  pub base_commit_len : length m.base_commit ≡ 16
  pub block_size_fits : m.block_size < 4294967296
  pub block_count_fits : m.block_count < 4294967296
  pub payload_length_fits : m.payload_length < 4294967296
  pub root_len : length m.payload_merkle_root ≡ 32
  pub output_length_fits : m.output_length < 4294967296
  pub output_sha256_len : length m.output_sha256 ≡ 32
  pub reserved0_fits : m.reserved0 < 4294967296
  pub reserved1_fits : m.reserved1 < 4294967296

pub length-manifest_bytes : (m : Manifest) → IsManifest m → length (manifest_bytes m) ≡ 192
unfolding manifest_bytes
length-manifest_bytes m w = omega (sizes, length-concat (manifest_parts m))

-- A manifest whose fields fit the struct is read back, field for field, from its bytes with anything
-- behind them.
pub manifest_at-manifest_bytes :
    (m : Manifest) (rest : List ℕ) → IsManifest m → manifest_at (manifest_bytes m ++ rest) ≡ m
unfolding manifest_at manifest_bytes
manifest_at-manifest_bytes m rest w = λ i. record {
  magic = word32_field ps rest 0 0 refl m.magic _ refl w.magic_fits i;
  format = word16_field ps rest 1 4 (omega sizes) m.format _ refl w.format_fits i;
  flags = word16_field ps rest 2 6 (omega sizes) m.flags _ refl w.flags_fits i;
  env = bytes_field ps rest 3 8 (omega sizes) m.env _ 32 refl w.env_len i;
  base_version =
      bytes_field ps rest 4 40 (omega sizes) m.base_version _ 48 refl w.base_version_len i;
  base_commit = bytes_field ps rest 5 88 (omega sizes) m.base_commit _ 16 refl w.base_commit_len i;
  block_size = word32_field ps rest 6 104 (omega sizes) m.block_size _ refl w.block_size_fits i;
  block_count = word32_field ps rest 7 108 (omega sizes) m.block_count _ refl w.block_count_fits i;
  payload_length =
      word32_field ps rest 8 112 (omega sizes) m.payload_length _ refl w.payload_length_fits i;
  payload_merkle_root =
      bytes_field ps rest 9 116 (omega sizes) m.payload_merkle_root _ 32 refl w.root_len i;
  output_length =
      word32_field ps rest 10 148 (omega sizes) m.output_length _ refl w.output_length_fits i;
  output_sha256 =
      bytes_field ps rest 11 152 (omega sizes) m.output_sha256 _ 32 refl w.output_sha256_len i;
  reserved0 = word32_field ps rest 12 184 (omega sizes) m.reserved0 _ refl w.reserved0_fits i;
  reserved1 = word32_field ps rest 13 188 (omega sizes) m.reserved1 _ refl w.reserved1_fits i;
}
  where
    ps : List (List ℕ)
    ps = manifest_parts m

-- The struct's bytes are bytes where those of its arrays are.
pub manifest_bytes-IsBytes :
    (m : Manifest)
    → IsBytes m.env
    → IsBytes m.base_version
    → IsBytes m.base_commit
    → IsBytes m.payload_merkle_root
    → IsBytes m.output_sha256
    → IsBytes (manifest_bytes m)
unfolding manifest_bytes manifest_parts
manifest_bytes-IsBytes m env version commit root sha = concat-IsBytes (manifest_parts m) (
  put32-IsBytes m.magic,
  (
    put16-IsBytes m.format,
    (
      put16-IsBytes m.flags,
      (
        env,
        (
          version,
          (
            commit,
            (
              put32-IsBytes m.block_size,
              (
                put32-IsBytes m.block_count,
                (
                  put32-IsBytes m.payload_length,
                  (
                    root,
                    (
                      put32-IsBytes m.output_length,
                      (sha, (put32-IsBytes m.reserved0, (put32-IsBytes m.reserved1, tt))),
                    ),
                  ),
                ),
              ),
            ),
          ),
        ),
      ),
    ),
  ),
)
