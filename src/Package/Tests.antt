-- ===== src/Package/Tests.antt =====
-- A concrete container, parsed and checked.
use ota_common.Common.{
  ℕ, ◌≡◌, refl, arith, some, none, List, ◌++◌, length, replicate, ltb, if◌then◌else◌, slice, ◌==◌,
}
use ota_common.Manifest.{manifest_bytes}
use ota_common.Package.{
  ok, ParsedPackage, package_parse, package_verify_signature, SignatureVerifier,
}
use ota_common.Package.Parse.{IsParsed, package_parse-IsParsed}
use ota_common.Package.Build.{container, package_parse-container, package_verify_signature-parsed}
use ota_common.Samples.{small_manifest-IsManifest, payload, small_manifest}

abbrev signature : List ℕ
signature = replicate 64 1

abbrev views : ParsedPackage
views = record {
  header = some (container 0 small_manifest signature payload);
  manifest = some (manifest_bytes small_manifest ++ (signature ++ payload));
  signature = some (signature ++ payload);
  signature_len = 64;
  payload = if ltb 0 (length payload) then some payload else none;
  payload_len = length payload;
}

package_parse-container_example :
    package_parse (some (container 0 small_manifest signature payload)) ≡ (ok, views)
package_parse-container_example =
    package_parse-container 0 small_manifest signature payload (omega arith)
      small_manifest-IsManifest refl refl refl refl

package_parse-IsParsed_example : IsParsed (container 0 small_manifest signature payload) views
package_parse-IsParsed_example =
    package_parse-IsParsed (container 0 small_manifest signature payload) views
      package_parse-container_example

-- A verifier that looks at the lengths only.
abbrev by_length : SignatureVerifier
by_length = λ message sig. length message == 192

package_verify_signature-parsed_example :
    package_verify_signature views by_length
    ≡ by_length
        (slice 16 192 (container 0 small_manifest signature payload))
        (slice 208 64 (container 0 small_manifest signature payload))
package_verify_signature-parsed_example =
    package_verify_signature-parsed (container 0 small_manifest signature payload) views by_length
      package_parse-container_example
