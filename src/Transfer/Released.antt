-- ===== src/Transfer/Released.antt =====
-- A package whose manifest describes its payload, served to a receiver that trusts its signature.
use ota_common.Common.{
  ℕ, suc, ◌+◌, ◌<◌, ◌≡◌, refl, sym, subst, ap, ap₂, ◌∙◌, arith, Bool, true, Option, none, some,
  List, length, take, drop, u16, u32, slice-take, drop-take, take-append-drop, drop-drop,
  length-take, length-drop,
}
use native.Mathlib.Nat.{mod-eq_of_lt}
use ota_common.Manifest.{Manifest, manifest_at}
use ota_common.Manifest.Prefix.{manifest_at-take}
use ota_common.Package.{
  ok, ParsedPackage, package_parse, package_verify_signature, SignatureVerifier,
}
use ota_common.Package.Parse.{IsParsed, package_parse-IsParsed}
use ota_common.Package.Build.{package_verify_signature-parsed}
use ota_common.Merkle.{merkle_root}
use ota_common.Merkle.Digests.{leaves_of}
use ota_common.BlockStore.{BlockStore}
use ota_common.Seeder.{Seeder, view, adopt, new_seeder}
use ota_common.Seeder.Leaves.{chunks, made, new_seeder-made}
use ota_common.Seeder.Answer.{IsServing}
use ota_common.Seeder.Serving.{made-IsServing}
use ota_common.Receiver.{signature_ok, new_receiver}
use ota_common.Receiver.Kept.{IsSound}
use ota_common.Transfer.Rounds.{Stores, rounds}
use ota_common.Transfer.Session.{IsDone}
use ota_common.Transfer.Payload.{Measures}
use ota_common.Seeder.Opening.{announced}
use ota_common.Receiver.Started.{Announces}
use ota_common.Transfer.Opening.{opening}
use ota_common.Transfer.Whole.{IsPublishing, transfer-IsDone}

-- The manifest that a receiver reads of a package.
abbrev pub manifest_of : ParsedPackage → Manifest
manifest_of pkg = manifest_at (view pkg.manifest)

abbrev pub blocks_in : ℕ → ParsedPackage → List (List ℕ)
blocks_in fuel pkg = chunks fuel (manifest_of pkg).block_size (view pkg.payload)

-- The manifest has the block size, the count and the root of the payload's blocks, and the verifier,
-- if there is one, accepts the package.
pub record IsRelease (verifier : Option SignatureVerifier) (fuel : ℕ) (pkg : ParsedPackage)
    : Type 0 where
  pub some_size : 0 < (manifest_of pkg).block_size
  pub narrow : (manifest_of pkg).block_size < 65536
  pub counted : (manifest_of pkg).block_count ≡ length (blocks_in fuel pkg)
  pub few : (manifest_of pkg).block_count < 65536
  pub rooted :
      (manifest_of pkg).payload_merkle_root ≡ (merkle_root (leaves_of (blocks_in fuel pkg))).bytes
  pub signed :
      (verify : SignatureVerifier)
      → verifier ≡ some verify
      → package_verify_signature pkg verify ≡ true

module _ (verifier : Option SignatureVerifier) (fuel : ℕ) (buf : List ℕ) (pkg : ParsedPackage)
    (parsed : package_parse (some buf) ≡ (ok, pkg)) (w : IsRelease verifier fuel pkg) where
  pub established : IsParsed buf pkg
  established = package_parse-IsParsed buf pkg parsed

  -- The manifest and its signature, as they are sent.
  abbrev raw : List ℕ
  raw = take 256 (drop 16 buf)

  seen : view pkg.manifest ≡ drop 16 buf
  seen = ap view established.manifest

  raw_read : manifest_at raw ≡ manifest_of pkg
  raw_read = manifest_at-take 256 (drop 16 buf) (omega arith) ∙ sym (ap manifest_at seen)

  raw_len : length raw ≡ 256
  raw_len = omega (arith, length-take 256 (drop 16 buf), length-drop 16 buf, established.whole)

  accepted :
      (o : Option SignatureVerifier)
      → ((verify : SignatureVerifier)
          → o ≡ some verify
          → package_verify_signature pkg verify ≡ true)
      → signature_ok o raw ≡ true
  accepted none signed = refl
  accepted (some verify) signed =
      ap₂ verify (slice-take 0 192 256 (drop 16 buf) (omega arith))
        (drop-take 192 64 256 (drop 16 buf) refl ∙ ap (take 64) (drop-drop 16 192 208 buf refl))
      ∙ (sym (package_verify_signature-parsed buf pkg verify parsed) ∙ signed verify refl)

  raw-IsSound : IsSound verifier raw
  raw-IsSound = record {
    long_enough = omega (arith, raw_len);
    magic =
        ap (λ m. m.magic) (manifest_at-take 256 (drop 16 buf) (omega arith)) ∙ established.magic;
    format =
        ap (λ m. m.format) (manifest_at-take 256 (drop 16 buf) (omega arith)) ∙ established.format;
    signed = accepted verifier w.signed;
  }

  narrow_size : u16 (manifest_of pkg).block_size ≡ (manifest_of pkg).block_size
  narrow_size = mod-eq_of_lt w.narrow

  few_blocks : u16 (manifest_of pkg).block_count ≡ (manifest_of pkg).block_count
  few_blocks = mod-eq_of_lt w.few

  module _ (session size : ℕ) (ses : session < 256) (fits : pkg.payload_len + 65536 < 4294967296)
      (enough : pkg.payload_len < fuel) where
    abbrev seeder : Seeder
    seeder = made fuel pkg session size

    some_size : 0 < u16 (manifest_of pkg).block_size
    some_size = omega (arith, narrow_size, w.some_size)

    pub returned :
        (length (view pkg.payload) ≡ pkg.payload_len)
        × (new_seeder fuel (some buf) session size ≡ some seeder)
    returned = new_seeder-made fuel buf pkg session size parsed some_size fits enough

    seeder-IsServing : IsServing (blocks_in fuel pkg) seeder
    unfolding adopt
    seeder-IsServing =
        subst (λ (n : ℕ). IsServing (chunks fuel n (view pkg.payload)) seeder) narrow_size
          (made-IsServing fuel pkg session size returned.0 fits ses some_size (
            few_blocks
            ∙ w.counted
            ∙ ap (λ (n : ℕ). length (chunks fuel n (view pkg.payload))) (sym narrow_size)))

    seeder-IsPublishing : IsPublishing verifier (blocks_in fuel pkg) seeder
    unfolding adopt
    seeder-IsPublishing = record {
      raw = raw;
      rest = drop 256 (drop 16 buf);
      held = seen ∙ sym (take-append-drop 256 (drop 16 buf));
      size = omega (arith, raw_len, established.signature_len);
      small = omega (arith, raw_len);
      sound = raw-IsSound;
      rooted = ap (λ m. m.payload_merkle_root) raw_read ∙ w.rooted;
      counted = ap (λ m. u16 m.block_count) raw_read ∙ few_blocks ∙ w.counted;
    }

    claimed : (manifest_of pkg).payload_length ≡ pkg.payload_len
    claimed = ap (λ (p : List ℕ). (manifest_at p).payload_length) seen ∙ established.claimed

    -- The START of the seeder has the geometry of the manifest.
    seeder-Announces :
        {S : Type 0} (ops : BlockStore S)
        → Announces ops verifier (manifest_at raw) (announced seeder)
    unfolding adopt
    seeder-Announces ops =
        let len : u32 pkg.payload_len ≡ pkg.payload_len = mod-eq_of_lt (omega (arith, fits)) in
        record {
          fits = record {
            block_size_fits = omega arith;
            block_count_fits = omega arith;
            payload_length_fits = omega (arith, len, fits);
            manifest_len_fits = omega arith;
            sig_len_fits = omega arith;
          };
          size = ap (λ m. m.block_size) raw_read ∙ sym narrow_size;
          count = ap (λ m. m.block_count) raw_read ∙ sym few_blocks;
          len = ap (λ m. m.payload_length) raw_read ∙ claimed ∙ sym len;
        }

    -- The constructor returns a seeder, and this one and a receiver just made, over a store that keeps
    -- what it is given, are done after a round for the manifest and one for each block.
    pub release-IsDone :
        {S : Type 0} (started : Bool) (ops : BlockStore S)
        → (laws : Stores ops (blocks_in fuel pkg)) → (store : S) → laws.IsGood store
        → (s : Seeder) × (new_seeder fuel (some buf) session size ≡ some s)
          × IsDone ops verifier (blocks_in fuel pkg) laws (
              rounds ops verifier
                (suc (length (blocks_in fuel pkg)))
                (opening ops verifier started (s, new_receiver store session)))
    unfolding adopt seeder-IsPublishing
    release-IsDone started ops laws store good = (
      seeder,
      returned.1,
      transfer-IsDone ops verifier (blocks_in fuel pkg) laws started seeder store seeder-IsServing
          seeder-IsPublishing (λ on. seeder-Announces ops) good,
    )

    pub release-Measures : Measures fuel (manifest_of pkg) (view pkg.payload)
    release-Measures = record {
      some_size = w.some_size;
      enough = omega (arith, returned.0, enough);
      len = claimed ∙ sym returned.0;
      count = w.counted;
      payload_fits = omega (arith, claimed, fits);
      count_fits = omega (arith, w.few);
    }
