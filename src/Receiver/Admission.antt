-- ===== src/Receiver/Admission.antt =====
-- A complete manifest unit keeps the invariant of the receiver, whether it is refused or kept.
use ota_common.Common.{
  ℕ, ◌<◌, ◌≤◌, ◌≡◌, refl, arith, inl, inr, Bool, true, false, ◌||◌, Option, List, length, ◌!=◌, ltb,
  Bool-cases,
}
use ota_common.Manifest.{Manifest, manifest_at}
use ota_common.Package.{SignatureVerifier}
use ota_common.Reassembler.{Reassembler}
use ota_common.BlockStore.{BlockStore}
use ota_common.Receiver.{
  Receiver, refuse, adopt_geometry, signature_ok, install, cross_check, accept_manifest,
  feed_manifest,
}
use ota_common.Receiver.Complete.{Inv, IsRunning, running-Inv, request_next-Inv}

module _ {S : Type 0} (ops : BlockStore S) (verifier : Option SignatureVerifier) where
  abbrev Keeps : Receiver S → Type 0
  Keeps r = Inv ops verifier r

  abbrev Runs : Receiver S → Type 0
  Runs r = IsRunning ops verifier r

  pub refuse-Inv : (r : Receiver S) → Runs r → Keeps (refuse ops verifier r)
  unfolding refuse
  refuse-Inv r w = running-Inv ops verifier _ w

  install-Inv :
      (raw : List ℕ) (r : Receiver S)
      → 192 ≤ length raw
      → signature_ok verifier raw ≡ true
      → (manifest_at raw).magic ≡ 0x4E414D4D
      → (manifest_at raw).format ≡ 1
      → r.block_count < 65536
      → r.complete ≡ false
      → Keeps (install ops verifier (manifest_at raw) r)
  unfolding install
  install-Inv raw r long signed magic format narrow unfinished =
      request_next-Inv ops verifier _ (record {
        narrow = narrow;
        accepted = λ ready. record {
          raw = raw;
          long_enough = long;
          signed = signed;
          read = refl;
          magic = magic;
          format = format;
          rooted = refl;
        };
        unfinished = unfinished;
      })

  cross_check-Inv :
      (raw : List ℕ) (r : Receiver S)
      → 192 ≤ length raw
      → signature_ok verifier raw ≡ true
      → (manifest_at raw).magic ≡ 0x4E414D4D
      → (manifest_at raw).format ≡ 1
      → Runs r
      → Keeps (cross_check ops verifier (manifest_at raw) r)
  unfolding cross_check
  cross_check-Inv raw r long signed magic format w = elim (Bool-cases r.have_geometry) [
    | inl known ↦ elim (Bool-cases mismatch) [
      | inl bad ↦ simp (known, bad) (refuse-Inv r w)
      | inr good ↦
          simp (known, good) (install-Inv raw r long signed magic format w.narrow w.unfinished)
    ]
    | inr unknown ↦
        simp unknown (
          adopted-Inv (unfold adopt_geometry in omega arith)
            (unfold adopt_geometry in w.unfinished))
  ]
    where
      m : Manifest
      m = manifest_at raw

      mismatch : Bool
      mismatch =
          m.block_size != r.block_size
          || (m.block_count != r.block_count || m.payload_length != r.payload_length)

      adopted : Receiver S
      adopted = adopt_geometry ops verifier m r

      adopted-Inv :
          adopted.block_count < 65536
          → adopted.complete ≡ false
          → Keeps (install ops verifier m adopted)
      adopted-Inv = install-Inv raw adopted long signed magic format

  accept_manifest-Inv :
      (raw : List ℕ) (r : Receiver S) → Runs r → Keeps (accept_manifest ops verifier raw r)
  unfolding accept_manifest
  accept_manifest-Inv raw r w = elim (Bool-cases (ltb (length raw) 192)) [
    | inl short ↦ simp short (refuse-Inv r w)
    | inr long ↦ elim (Bool-cases wrong) [
      | inl bad ↦ simp (long, bad) (refuse-Inv r w)
      | inr good ↦ elim (Bool-cases (signature_ok verifier raw)) [
        | inr forged ↦ simp (long, good, forged) (refuse-Inv r w)
        | inl signed ↦
            simp (long, good, signed)
              (cross_check-Inv raw r (ground arith) signed (ground (arith, good))
                (ground (arith, good)) w)
      ]
    ]
  ]
    where
      wrong : Bool
      wrong = (manifest_at raw).magic != 0x4E414D4D || (manifest_at raw).format != 1

  pub feed_manifest-Inv :
      (re : Reassembler) (complete : Bool) (r : Receiver S)
      → Runs r
      → Keeps (feed_manifest ops verifier (re, complete) r)
  unfolding feed_manifest
  feed_manifest-Inv re true r w = accept_manifest-Inv re.buf _ w
  feed_manifest-Inv re false r w = running-Inv ops verifier _ w
