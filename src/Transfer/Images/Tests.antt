-- ===== src/Transfer/Images/Tests.antt =====
-- The package of three blocks, delivered into a buffer and onto a flash target.
use ota_common.Common.{
  ℕ, ◌+◌, ◌≡◌, refl, arith, true, false, some, none, List, [], ◌++◌, length, ◌==◌, Option, Bool,
  if◌then◌else◌,
}
use ota_common.Package.{SignatureVerifier}
use ota_common.BlockStore.{FlashTarget, FlashStatus, ok, not_ready, is_ok, out_of_range}
use ota_common.Seeder.{Seeder}
use ota_common.Samples
use ota_common.Transfer.Written.{TakesSequence}
use ota_common.Transfer.Released.{manifest_of}
use ota_common.Transfer.Sample.{views}

-- A verifier that looks at the lengths only.
abbrev by_length : SignatureVerifier
by_length = λ message sig. length message + length sig == 256

abbrev unwrap : Option SignatureVerifier → SignatureVerifier
unwrap none = by_length
unwrap (some verify) = verify

-- A target that appends once it has been begun.
abbrev tape_write : List ℕ × Bool → ℕ → List ℕ → (List ℕ × Bool) × FlashStatus
tape_write (written, false) off input = ((written, false), not_ready)
tape_write (written, true) off input =
    if off == length written
    then ((written ++ input, true), ok)
    else ((written, true), out_of_range)

abbrev tape : FlashTarget (List ℕ × Bool)
tape = record {
  begin = λ t size m. (([], true), ok);
  write = tape_write;
  commit = λ t. (t, ok);
  abort = λ t. ([], false);
}

tape_write-appends :
    (t : List ℕ × Bool) (input : List ℕ)
    → t.1 ≡ true
    → let r = tape_write t (length t.0) input in
      (is_ok r.1 ≡ true) × (r.0.1 ≡ true) × (r.0.0 ≡ t.0 ++ input)
tape_write-appends (written, false) input on = cc
tape_write-appends (written, true) input on =
    let here : (length written == length written) ≡ true = ground arith in
    rw here (refl, refl, refl)

abbrev tape-TakesSequence : TakesSequence tape (manifest_of views) ([], false)
tape-TakesSequence = record {
  IsOpen = λ t. t.1 ≡ true;
  image = λ t. t.0;
  begin_ok = refl;
  begin_open = refl;
  begin_empty = refl;
  write_ok = λ t input on fits. tape_write-appends t input on;
}
