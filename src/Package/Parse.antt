-- ===== src/Package/Parse.antt =====
-- `package_parse` accepts exactly the containers with the declared layout.
use ota_common.Common.{
  ℕ, ◌+◌, ◌-◌, ◌≤◌, ◌≡◌, refl, sym, ap₂, ◌∙◌, arith, none, some, List, length, drop, ltb,
  if◌then◌else◌,
}
use ota_common.Manifest.{manifest_at}
use ota_common.Package.{
  PackageHeader, header_at, ok, ParsedPackage, parse_payload, parse_sections, parse_header,
  package_parse,
}

-- What a successful parse has established of the buffer, and what the views hold.
pub record IsParsed (buf : List ℕ) (pkg : ParsedPackage) : Type 0 where
  pub header_magic : (header_at buf).magic ≡ 0x41544F4D
  pub header_format : (header_at buf).format ≡ 1
  pub header_manifest_length : (header_at buf).manifest_length ≡ 192
  pub header_signature_length : (header_at buf).signature_length ≡ 64
  pub magic : (manifest_at (drop 16 buf)).magic ≡ 0x4E414D4D
  pub format : (manifest_at (drop 16 buf)).format ≡ 1
  pub whole : length buf ≡ 272 + pkg.payload_len
  pub claimed : (manifest_at (drop 16 buf)).payload_length ≡ pkg.payload_len
  pub header : pkg.header ≡ some buf
  pub manifest : pkg.manifest ≡ some (drop 16 buf)
  pub signature : pkg.signature ≡ some (drop 208 buf)
  pub signature_len : pkg.signature_len ≡ 64
  pub payload : pkg.payload ≡ (if ltb 0 pkg.payload_len then some (drop 272 buf) else none)

abbrev parsed_views : List ℕ → PackageHeader → List ℕ → List ℕ → ℕ → ParsedPackage
parsed_views buf hdr manifest signature off = record {
  header = some buf;
  manifest = some manifest;
  signature = some signature;
  signature_len = hdr.signature_length;
  payload = if ltb 0 (length buf - off) then some (drop off buf) else none;
  payload_len = length buf - off;
}

parse_payload-ok :
    (buf : List ℕ) (hdr : PackageHeader) (man sig : List ℕ) (off : ℕ) (pkg : ParsedPackage)
    → parse_payload buf hdr man sig off ≡ (ok, pkg)
    → ((manifest_at man).magic ≡ 0x4E414D4D)
      × ((manifest_at man).format ≡ 1)
      × ((manifest_at man).payload_length ≡ length buf - off)
      × (parsed_views buf hdr man sig off ≡ pkg)
unfolding parse_payload
parse_payload-ok buf hdr man sig off pkg e = ground arith

parse_sections-ok :
    (buf : List ℕ) (hdr : PackageHeader) (off : ℕ) (pkg : ParsedPackage)
    → parse_sections buf hdr off ≡ (ok, pkg)
    → (hdr.manifest_length ≤ length buf - off)
      × (hdr.signature_length ≤ length buf - (off + hdr.manifest_length))
      × (parse_payload buf hdr
            (drop off buf)
            (drop (off + hdr.manifest_length) buf)
            (off + hdr.manifest_length + hdr.signature_length)
          ≡ (ok, pkg))
unfolding parse_sections
parse_sections-ok buf hdr off pkg e = ground arith

parse_header-ok :
    (buf : List ℕ) (hdr : PackageHeader) (pkg : ParsedPackage)
    → parse_header buf hdr ≡ (ok, pkg)
    → (hdr.magic ≡ 0x41544F4D)
      × (hdr.format ≡ 1)
      × (hdr.manifest_length ≡ 192)
      × (hdr.signature_length ≡ 64)
      × (parse_sections buf hdr 16 ≡ (ok, pkg))
unfolding parse_header
parse_header-ok buf hdr pkg e = ground arith

package_parse-ok :
    (buf : List ℕ) (pkg : ParsedPackage)
    → package_parse (some buf) ≡ (ok, pkg)
    → (16 ≤ length buf) × (parse_header buf (header_at buf) ≡ (ok, pkg))
unfolding package_parse
package_parse-ok buf pkg e = ground arith

-- A successful parse has checked the magics, formats and lengths, every byte of the buffer belongs
-- to one of the four sections, and the views are those sections.
pub package_parse-IsParsed :
    (buf : List ℕ) (pkg : ParsedPackage) → package_parse (some buf) ≡ (ok, pkg) → IsParsed buf pkg
package_parse-IsParsed buf pkg e =
    let (room, h) = package_parse-ok buf pkg e in
    let (m, f, ml, sl, s) = parse_header-ok buf (header_at buf) pkg h in
    let (mfits, sfits, p) = parse_sections-ok buf (header_at buf) 16 pkg s in
    let hdr = header_at buf in
    let at₁ : 16 + hdr.manifest_length ≡ 208 = omega arith in
    let at₂ : 16 + hdr.manifest_length + hdr.signature_length ≡ 272 = omega arith in
    let (mm, mf, pl, views) =
      parse_payload-ok buf hdr (drop 16 buf) (drop (16 + hdr.manifest_length) buf)
        (16 + hdr.manifest_length + hdr.signature_length) pkg p in
    let views' =
      sym (ap₂ (λ (a b : ℕ). parsed_views buf hdr (drop 16 buf) (drop a buf) b) at₁ at₂) ∙ views in
    rw (← views') (record {
      header_magic = m;
      header_format = f;
      header_manifest_length = ml;
      header_signature_length = sl;
      magic = mm;
      format = mf;
      whole = omega arith;
      claimed = omega arith;
      header = refl;
      manifest = refl;
      signature = refl;
      signature_len = sl;
      payload = refl;
    })
