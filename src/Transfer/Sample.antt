-- ===== src/Transfer/Sample.antt =====
-- A concrete package of three blocks.
use ota_common.Common.{
  ℕ, ◌≡◌, refl, ap, arith, none, some, List, ◌++◌, length, replicate, ltb, u16, zero, suc, ◌<◌,
  IsBytes, IsBytes-append, if◌then◌else◌,
}
use ota_common.Manifest.{Manifest, manifest_at, manifest_bytes}
use ota_common.Manifest.Layout.{IsManifest, manifest_at-manifest_bytes, manifest_bytes-IsBytes}
use ota_common.Package.{ok, ParsedPackage, package_parse}
use ota_common.Package.Build.{container, package_parse-container}
use ota_common.Merkle.{merkle_root}
use ota_common.Merkle.Digests.{leaves_of, leaves_of-AreHashes, merkle_root-IsHash}
use ota_common.Merkle.Octets.{leaves_of-AreOctets, merkle_root-IsBytes}
use ota_common.Seeder.Leaves.{chunks}
use ota_common.Samples
use ota_common.Samples.{payload, small_manifest, small_manifest-IsManifest}

abbrev pub signature : List ℕ
signature = replicate 64 1

-- The manifest of the three blocks.
abbrev pub published : Manifest
published = record small_manifest {
  payload_merkle_root = (merkle_root (leaves_of Samples.blocks)).bytes;
}

pub published-IsManifest : IsManifest published
published-IsManifest = record {
  magic_fits = omega arith;
  format_fits = omega arith;
  flags_fits = omega arith;
  env_len = refl;
  base_version_len = refl;
  base_commit_len = refl;
  block_size_fits = omega arith;
  block_count_fits = omega arith;
  payload_length_fits = omega arith;
  root_len = merkle_root-IsHash (leaves_of Samples.blocks) (leaves_of-AreHashes Samples.blocks);
  output_length_fits = omega arith;
  output_sha256_len = refl;
  reserved0_fits = omega arith;
  reserved1_fits = omega arith;
}

abbrev pub container_bytes : List ℕ
container_bytes = container 0 published signature payload

abbrev pub views : ParsedPackage
views = record {
  header = some container_bytes;
  manifest = some (manifest_bytes published ++ (signature ++ payload));
  signature = some (signature ++ payload);
  signature_len = 64;
  payload = if ltb 0 (length payload) then some payload else none;
  payload_len = length payload;
}

abbrev pub read_manifest : Manifest
read_manifest = manifest_at (manifest_bytes published ++ (signature ++ payload))

pub read_same : read_manifest ≡ published
read_same = manifest_at-manifest_bytes published (signature ++ payload) published-IsManifest

abbrev pub blocks : List (List ℕ)
blocks = chunks 11 (u16 read_manifest.block_size) payload

pub three_blocks : length blocks ≡ 3
unfolding chunks
three_blocks = ap (λ m. length (chunks 11 (u16 m.block_size) payload)) read_same

pub container_parses : package_parse (some container_bytes) ≡ (ok, views)
container_parses =
    package_parse-container 0 published signature payload (omega arith) published-IsManifest refl
      refl refl refl

pub copies : (n b : ℕ) → b < 256 → IsBytes (replicate n b)
copies zero b h = tt
copies (suc n) b h = (h, copies n b h)

-- The package from its manifest on.
pub published-IsBytes : IsBytes (manifest_bytes published ++ (signature ++ payload))
published-IsBytes =
    IsBytes-append (manifest_bytes published) (signature ++ payload)
      (manifest_bytes-IsBytes published (copies 32 116 (omega arith)) (copies 48 0 (omega arith))
        (copies 16 97 (omega arith))
        (merkle_root-IsBytes (leaves_of Samples.blocks) (leaves_of-AreOctets Samples.blocks))
        (copies 32 9 (omega arith)))
      (IsBytes-append signature payload (copies 64 1 (omega arith)) (omega arith))
