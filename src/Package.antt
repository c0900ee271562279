-- ===== src/Package.antt =====
-- src/package.cpp and include/ota_common/package.h: the package container.
pub mod Parse
pub mod Build
pub mod Identity
mod Tests
use ota_common.Common.{
  ℕ, ◌-◌, ◌+◌, ◌<◌, Bool, true, false, ◌&&◌, Option, none, some, List, [], ◌∷◌, ◌++◌, length, take,
  drop, ltb, leb, ◌==◌, ◌!=◌, if◌then◌else◌,
}
use ota_common.Wire.Layout.{concat}
use ota_common.Wire.{get16, get32, put16, put32}
use ota_common.Manifest.{Manifest, manifest_at, manifest_magic, manifest_format, manifest_size}
use ota_common.Trailer.{OtaTrailer}
use ota_common.CString.{field_equal}

abbrev pub package_magic : ℕ
package_magic = 0x41544F4D

abbrev pub package_format : ℕ
package_format = 1

-- `sizeof(PackageHeader)`.
abbrev pub package_header_size : ℕ
package_header_size = 16

-- `kEd25519SigLen`, of include/ota_common/signature.h.
abbrev pub signature_size : ℕ
signature_size = 64

pub record PackageHeader : Type 0 where
  pub magic : ℕ
  pub format : ℕ
  pub flags : ℕ
  pub manifest_length : ℕ
  pub signature_length : ℕ

pub header_at : List ℕ → PackageHeader
header_at p = record {
  magic = get32 p 0;
  format = get16 p 4;
  flags = get16 p 6;
  manifest_length = get32 p 8;
  signature_length = get32 p 12;
}

pub header_parts : PackageHeader → List (List ℕ)
header_parts h =
    put32 h.magic
    ∷ put16 h.format
    ∷ put16 h.flags
    ∷ put32 h.manifest_length
    ∷ put32 h.signature_length
    ∷ []

-- The 16 bytes of the struct.
pub header_bytes : PackageHeader → List ℕ
unfolding header_parts
header_bytes h = concat (header_parts h)

pub data PackageError : Type 0 where
  ok too_small bad_magic bad_format bad_manifest length_mismatch : PackageError

-- Views into the caller's buffer; a null pointer is `none`.
pub record ParsedPackage : Type 0 where
  pub header : Option (List ℕ)
  pub manifest : Option (List ℕ)
  pub signature : Option (List ℕ)
  pub signature_len : ℕ
  pub payload : Option (List ℕ)
  pub payload_len : ℕ

abbrev pub empty_package : ParsedPackage
empty_package = record {
  header = none;
  manifest = none;
  signature = none;
  signature_len = 0;
  payload = none;
  payload_len = 0;
}

-- The checks of the manifest and of the payload's length, from the offset behind the signature on.
parse_payload : List ℕ → PackageHeader → List ℕ → List ℕ → ℕ → PackageError × ParsedPackage
parse_payload buf hdr manifest signature off =
    let payload_len = length buf - off in
    let m = manifest_at manifest in
    if m.magic != manifest_magic
    then (bad_manifest, empty_package)
    else if m.format != manifest_format
    then (bad_manifest, empty_package)
    else if m.payload_length != payload_len
    then (length_mismatch, empty_package)
    else (
      ok,
      record {
        header = some buf;
        manifest = some manifest;
        signature = some signature;
        signature_len = hdr.signature_length;
        payload = if ltb 0 payload_len then some (drop off buf) else none;
        payload_len = payload_len;
      },
    )

-- The bounds checks of the sections, from the offset behind the header on.
parse_sections : List ℕ → PackageHeader → ℕ → PackageError × ParsedPackage
parse_sections buf hdr off =
    if ltb (length buf - off) hdr.manifest_length
    then (length_mismatch, empty_package)
    else (let manifest = drop off buf in
        let off' = off + hdr.manifest_length in
        if ltb (length buf - off') hdr.signature_length
        then (length_mismatch, empty_package)
        else parse_payload buf hdr manifest (drop off' buf) (off' + hdr.signature_length))

parse_header : List ℕ → PackageHeader → PackageError × ParsedPackage
parse_header buf hdr =
    if hdr.magic != package_magic
    then (bad_magic, empty_package)
    else if hdr.format != package_format
    then (bad_format, empty_package)
    else if hdr.manifest_length != manifest_size
    then (bad_manifest, empty_package)
    else if hdr.signature_length != signature_size
    then (bad_manifest, empty_package)
    else parse_sections buf hdr package_header_size

pub package_parse : Option (List ℕ) → PackageError × ParsedPackage
package_parse none = (too_small, empty_package)
package_parse (some buf) =
    if ltb (length buf) package_header_size
    then (too_small, empty_package)
    else parse_header buf (header_at buf)

-- `ISignatureVerifier` of include/ota_common/signature.h: a verifier of the caller's, given the
-- message and the signature with their lengths.
abbrev pub SignatureVerifier : Type 0
SignatureVerifier = List ℕ → List ℕ → Bool

verify_views : Option (List ℕ) → Option (List ℕ) → ℕ → SignatureVerifier → Bool
verify_views none signature len verify = false
verify_views (some manifest) none len verify = false
verify_views (some manifest) (some signature) len verify =
    verify (take manifest_size manifest) (take len signature)

pub package_verify_signature : ParsedPackage → SignatureVerifier → Bool
unfolding verify_views
package_verify_signature pkg verify =
    verify_views pkg.manifest pkg.signature pkg.signature_len verify

pub package_identity_matches : Manifest → OtaTrailer → Bool
package_identity_matches m running =
    field_equal 32 m.env running.env
    && (field_equal 48 m.base_version running.version
        && field_equal 16 m.base_commit running.commit)
