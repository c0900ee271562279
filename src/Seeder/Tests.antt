-- ===== src/Seeder/Tests.antt =====
-- A seeder over a concrete package, and the request of its last block.
use ota_common.Common.{
  ℕ, ◌≡◌, refl, arith, ap, true, false, none, some, List, [], ◌++◌, length, replicate, ltb, u16,
  if◌then◌else◌,
}
use ota_common.Wire.{request, frame_header_pack}
use ota_common.Manifest.{Manifest, manifest_bytes}
use ota_common.Manifest.Layout.{manifest_at-manifest_bytes}
use ota_common.Merkle.Digests.{leaves_of}
use ota_common.Package.{ParsedPackage}
use ota_common.Package.Build.{container, package_parse-container}
use ota_common.Seeder.{Seeder, new_seeder, on_frame}
use ota_common.Seeder.Frames.{IsBounded, on_frame-IsBounded}
use ota_common.Seeder.Leaves.{new_seeder-stuck}
use ota_common.Samples.{
  blocks, payload, small_manifest, unsized_manifest, unsized_manifest-IsManifest,
}

abbrev signature : List ℕ
signature = replicate 64 1

abbrev seeder : Seeder
seeder = record {
  out = [];
  session = 7;
  frag = 3;
  valid = true;
  finished = false;
  manifest_bytes = manifest_bytes small_manifest ++ (signature ++ payload);
  sig_len = 64;
  payload = payload;
  payload_len = 10;
  block_size = 4;
  block_count = 3;
  leaves = leaves_of blocks;
}

abbrev last_block_request : List ℕ
last_block_request =
    frame_header_pack (record { type = request; session = 7; index = 2; off = 0; total = 0 })

on_frame-IsBounded_example : IsBounded (on_frame last_block_request seeder)
on_frame-IsBounded_example =
    on_frame-IsBounded last_block_request seeder
      (record { some_frag = omega arith; frag_fits = omega arith; sent = tt })

-- What `package_parse` makes of a container of this payload.
abbrev views : Manifest → ParsedPackage
views m = record {
  header = some (container 0 m signature payload);
  manifest = some (manifest_bytes m ++ (signature ++ payload));
  signature = some (signature ++ payload);
  signature_len = 64;
  payload = if ltb 0 (length payload) then some payload else none;
  payload_len = length payload;
}

new_seeder-stuck_example :
    new_seeder 1000 (some (container 0 unsized_manifest signature payload)) 7 200 ≡ none
new_seeder-stuck_example =
    new_seeder-stuck 1000 (container 0 unsized_manifest signature payload) (views unsized_manifest)
      7 200
      (package_parse-container 0 unsized_manifest signature payload (omega arith)
        unsized_manifest-IsManifest refl refl refl refl)
      (ap (λ m. u16 m.block_size)
        (manifest_at-manifest_bytes unsized_manifest (signature ++ payload)
          unsized_manifest-IsManifest))
      (omega arith) (omega arith)
