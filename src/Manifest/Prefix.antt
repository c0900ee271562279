-- ===== src/Manifest/Prefix.antt =====
-- A manifest is read from the first 192 bytes alone.
use ota_common.Common.{ℕ, ◌≤◌, ◌≡◌, arith, List, take, slice-take}
use ota_common.Wire.Prefix.{get16-take, get32-take}
use ota_common.Manifest.{manifest_at}

pub manifest_at-take : (n : ℕ) (p : List ℕ) → 192 ≤ n → manifest_at (take n p) ≡ manifest_at p
unfolding manifest_at
manifest_at-take n p h = λ i. record {
  magic = get32-take 0 n p (omega arith) i;
  format = get16-take 4 n p (omega arith) i;
  flags = get16-take 6 n p (omega arith) i;
  env = slice-take 8 32 n p (omega arith) i;
  base_version = slice-take 40 48 n p (omega arith) i;
  base_commit = slice-take 88 16 n p (omega arith) i;
  block_size = get32-take 104 n p (omega arith) i;
  block_count = get32-take 108 n p (omega arith) i;
  payload_length = get32-take 112 n p (omega arith) i;
  payload_merkle_root = slice-take 116 32 n p (omega arith) i;
  output_length = get32-take 148 n p (omega arith) i;
  output_sha256 = slice-take 152 32 n p (omega arith) i;
  reserved0 = get32-take 184 n p (omega arith) i;
  reserved1 = get32-take 188 n p (omega arith) i;
}
