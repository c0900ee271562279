-- ===== src/Package/Build.antt =====
-- The reference container, and `package_parse` of it; the signature check after a parse.
use ota_common.Common.{
  ℕ, ◌+◌, ◌-◌, ◌<◌, ◌≡◌, refl, sym, ap, ◌∙◌, arith, none, some, List, ◌++◌, length, drop, slice,
  length-append, drop_left, drop-drop, ltb, if◌then◌else◌, le→ltb, IsBytes, IsBytes-append,
}
use ota_common.Wire.Words.{put16-IsBytes, put32-IsBytes}
use ota_common.Wire.Layout.{concat-IsBytes, sizes, length-concat, word16_field, word32_field}
use ota_common.Manifest.{Manifest, manifest_at, manifest_bytes}
use ota_common.Manifest.Layout.{IsManifest, manifest_at-manifest_bytes, length-manifest_bytes}
use ota_common.Package.{
  PackageHeader, header_at, header_parts, header_bytes, ok, ParsedPackage, parse_payload,
  parse_sections, parse_header, package_parse, package_verify_signature, SignatureVerifier,
}
use ota_common.Package.Parse.{package_parse-IsParsed}

-- The header of a container of this format.
abbrev pub container_header : ℕ → PackageHeader
container_header flags = record {
  magic = 0x41544F4D;
  format = 1;
  flags = flags;
  manifest_length = 192;
  signature_length = 64;
}

-- Header, manifest, signature and payload, one behind the other.
abbrev pub container : ℕ → Manifest → List ℕ → List ℕ → List ℕ
container flags m sig payload =
    header_bytes (container_header flags) ++ (manifest_bytes m ++ (sig ++ payload))

length-header_bytes : (h : PackageHeader) → length (header_bytes h) ≡ 16
unfolding header_bytes
length-header_bytes h = omega (sizes, length-concat (header_parts h))

pub container-IsBytes :
    (flags : ℕ) (m : Manifest) (sig payload : List ℕ)
    → IsBytes (manifest_bytes m)
    → IsBytes sig
    → IsBytes payload
    → IsBytes (container flags m sig payload)
unfolding header_bytes header_parts
container-IsBytes flags m sig payload wm ws wp =
    let h = container_header flags in
    IsBytes-append (header_bytes h) (manifest_bytes m ++ (sig ++ payload))
      (concat-IsBytes (header_parts h) (
        put32-IsBytes h.magic,
        (
          put16-IsBytes h.format,
          (
            put16-IsBytes h.flags,
            (put32-IsBytes h.manifest_length, (put32-IsBytes h.signature_length, tt)),
          ),
        ),
      ))
      (IsBytes-append (manifest_bytes m) (sig ++ payload) wm (IsBytes-append sig payload ws wp))

header_at-container :
    (flags : ℕ) (rest : List ℕ)
    → flags < 65536
    → header_at (header_bytes (container_header flags) ++ rest) ≡ container_header flags
unfolding header_at header_bytes header_parts
header_at-container flags rest fits = λ i. record {
  magic = word32_field ps rest 0 0 refl 0x41544F4D _ refl (omega arith) i;
  format = word16_field ps rest 1 4 (omega sizes) 1 _ refl (omega arith) i;
  flags = word16_field ps rest 2 6 (omega sizes) flags _ refl fits i;
  manifest_length = word32_field ps rest 3 8 (omega sizes) 192 _ refl (omega arith) i;
  signature_length = word32_field ps rest 4 12 (omega sizes) 64 _ refl (omega arith) i;
}
  where
    ps : List (List ℕ)
    ps = header_parts (container_header flags)

module _ (flags : ℕ) (m : Manifest) (sig payload : List ℕ) (flags_fit : flags < 65536)
    (w : IsManifest m) (magic : m.magic ≡ 0x4E414D4D) (format : m.format ≡ 1)
    (sig_len : length sig ≡ 64) (claimed : m.payload_length ≡ length payload) where
  buf : List ℕ
  buf = container flags m sig payload

  at_manifest : drop 16 buf ≡ manifest_bytes m ++ (sig ++ payload)
  unfolding buf
  at_manifest = drop_left 16 (header_bytes (container_header flags)) _ (length-header_bytes _)

  at_signature : drop 208 buf ≡ sig ++ payload
  at_signature =
      sym (drop-drop 16 192 208 buf refl)
      ∙ (ap (drop 192) at_manifest
          ∙ drop_left 192 (manifest_bytes m) (sig ++ payload) (length-manifest_bytes m w))

  at_payload : drop 272 buf ≡ payload
  at_payload =
      sym (drop-drop 208 64 272 buf refl)
      ∙ (ap (drop 64) at_signature ∙ drop_left 64 sig payload sig_len)

  length-buf : length buf ≡ 272 + length payload
  unfolding buf
  length-buf = omega (
    arith,
    length-append (header_bytes (container_header flags)) (manifest_bytes m ++ (sig ++ payload)),
    length-append (manifest_bytes m) (sig ++ payload),
    length-append sig payload,
    length-header_bytes (container_header flags),
    length-manifest_bytes m w,
  )

  header_read : header_at buf ≡ container_header flags
  unfolding buf
  header_read = header_at-container flags _ flags_fit

  parse_start : package_parse (some buf) ≡ parse_sections buf (container_header flags) 16
  unfolding package_parse parse_header
  parse_start = rw (le→ltb (length buf) 16 (omega (arith, length-buf)), header_read)

  parse_middle :
      parse_sections buf (container_header flags) 16
      ≡ parse_payload buf (container_header flags) (drop 16 buf) (drop 208 buf) 272
  unfolding parse_sections
  parse_middle = rw (
    le→ltb (length buf - 16) 192 (omega (arith, length-buf)),
    le→ltb (length buf - 208) 64 (omega (arith, length-buf)),
  )

  manifest_read : manifest_at (drop 16 buf) ≡ m
  manifest_read = ap manifest_at at_manifest ∙ manifest_at-manifest_bytes m (sig ++ payload) w

  payload_left : length buf - 272 ≡ length payload
  payload_left = omega (arith, length-buf)

  parse_end : parse_payload buf (container_header flags) (drop 16 buf) (drop 208 buf) 272 ≡ (
    ok,
    record {
      header = some buf;
      manifest = some (drop 16 buf);
      signature = some (drop 208 buf);
      signature_len = 64;
      payload = if ltb 0 (length payload) then some (drop 272 buf) else none;
      payload_len = length payload;
    },
  )
  unfolding parse_payload
  parse_end = rw (payload_left, manifest_read, magic, format, claimed) (ground arith)

  -- A container of a well-formed manifest, a signature of 64 bytes and a payload of the claimed
  -- length is parsed into exactly these sections.
  pub package_parse-container : package_parse (some (container flags m sig payload)) ≡ (
    ok,
    record {
      header = some (container flags m sig payload);
      manifest = some (manifest_bytes m ++ (sig ++ payload));
      signature = some (sig ++ payload);
      signature_len = 64;
      payload = if ltb 0 (length payload) then some payload else none;
      payload_len = length payload;
    },
  )
  unfolding buf
  package_parse-container =
      parse_start
      ∙ (parse_middle
          ∙ (parse_end ∙ λ i. (
            ok,
            record {
              header = some buf;
              manifest = some (at_manifest i);
              signature = some (at_signature i);
              signature_len = 64;
              payload = if ltb 0 (length payload) then some (at_payload i) else none;
              payload_len = length payload;
            },
          )))

-- After a successful parse, the signature check hands the verifier the 192 manifest bytes and the
-- 64 signature bytes behind them, and nothing else of the buffer.
pub package_verify_signature-parsed :
    (buf : List ℕ) (pkg : ParsedPackage) (verify : SignatureVerifier)
    → package_parse (some buf) ≡ (ok, pkg)
    → package_verify_signature pkg verify ≡ verify (slice 16 192 buf) (slice 208 64 buf)
unfolding package_verify_signature
package_verify_signature-parsed buf pkg verify e =
    let p = package_parse-IsParsed buf pkg e in rw (p.manifest, p.signature, p.signature_len)
