-- ===== src/Transfer/Images.antt =====
-- The payload of a package, delivered into a buffer or onto a flash target.
mod Tests
use ota_common.Common.{
  ℕ, ◌+◌, ◌<◌, ◌≡◌, refl, sym, subst, ap, ap₂, ◌∙◌, Option, none, some, List, ◌++◌, length, take,
  drop, u16, u32, slice-take, drop-take, take-append-drop, drop-drop, length-take, length-drop,
}
use native.Mathlib.Nat.{mod-eq_of_lt}
use ota_common.Manifest.{Manifest, manifest_at}
use ota_common.Manifest.Prefix.{manifest_at-take}
use ota_common.Package.{
  ok, ParsedPackage, package_parse, package_verify_signature, SignatureVerifier,
}
use ota_common.Package.Parse.{IsParsed, package_parse-IsParsed}
use ota_common.Package.Build.{package_verify_signature-parsed}
use ota_common.Merkle.{merkle_root}
use ota_common.Merkle.Digests.{leaves_of}
use ota_common.BlockStore.{BlockStore}
use ota_common.Seeder.{Seeder, view, adopt}
use ota_common.Seeder.Leaves.{chunks, made, new_seeder-made}
use ota_common.Seeder.Answer.{IsServing}
use ota_common.Seeder.Serving.{made-IsServing}
use ota_common.Receiver.{signature_ok}
use ota_common.Receiver.Kept.{IsSound}
use ota_common.Transfer.Rounds.{Stores}
use ota_common.Transfer.Session.{IsDone}
use ota_common.Seeder.Opening.{announced}
use ota_common.Receiver.Started.{Announces}
use ota_common.Transfer.Whole.{IsPublishing, transfer-IsDone}
use ota_common.Transfer.Released.{IsRelease, returned}

module _ (verifier : Option SignatureVerifier) (fuel : ℕ) (buf : List ℕ) (pkg : ParsedPackage)
    (parsed : package_parse (some buf) ≡ (ok, pkg)) (w : IsRelease verifier fuel pkg) where
  module _ (session size : ℕ) (ses : session < 256) (fits : pkg.payload_len + 65536 < 4294967296)
      (enough : pkg.payload_len < fuel) where
    here : length (view pkg.payload) ≡ pkg.payload_len
    here = (returned verifier fuel buf pkg parsed w session size ses fits enough).0
