-- ===== src/Trailer/Tests.antt =====
-- A concrete trailer, made valid and found behind an image.
use ota_common.Common.{
  IsBytes, zero, suc, ℕ, ◌≡◌, ◌<◌, refl, arith, true, false, List, append_assoc, length, sym, subst,
  ap, ◌∙◌, some, [], ◌∷◌, ◌++◌, replicate,
}
use ota_common.Wire.{put16, put32}
use ota_common.Wire.Layout.{concat}
use ota_common.Trailer.{
  checked_parts, OtaTrailer, trailer_bytes, crc32_ieee, trailer_finalize, trailer_from_image_tail,
}
use ota_common.Trailer.Valid.{
  IsTrailer, length-trailer_bytes, finalize-IsTrailer, trailer_bytes-IsBytes,
  trailer_from_image_tail-finalize,
}
use ota_common.Trailer.Corrupted.{trailer_from_image_tail-corrupted}
use ota_common.Samples.{small_trailer}

-- The check value of this CRC-32, of the digits 1 to 9.
check_value : crc32_ieee (49 ∷ 50 ∷ 51 ∷ 52 ∷ 53 ∷ 54 ∷ 55 ∷ 56 ∷ 57 ∷ []) ≡ 3421780262
unfolding crc32_ieee
check_value = refl

IsBytes-replicate : (n b : ℕ) → b < 256 → IsBytes (replicate n b)
IsBytes-replicate zero b h = tt
IsBytes-replicate (suc n) b h = (h, IsBytes-replicate n b h)

small_trailer-IsTrailer : IsTrailer small_trailer
small_trailer-IsTrailer = record {
  magic_fits = omega arith;
  format_fits = omega arith;
  flags_fits = omega arith;
  env_len = refl;
  version_len = refl;
  commit_len = refl;
  repo_len = refl;
  env_bytes = IsBytes-replicate 32 116 (omega arith);
  version_bytes = IsBytes-replicate 48 50 (omega arith);
  commit_bytes = IsBytes-replicate 16 97 (omega arith);
  repo_bytes = IsBytes-replicate 48 0 (omega arith);
  hw_vendor_fits = omega arith;
  image_length_fits = omega arith;
  reserved0_fits = omega arith;
  reserved1_fits = omega arith;
}

trailer_from_image_tail-finalize_example :
    trailer_from_image_tail
      (some ((1 ∷ 2 ∷ 3 ∷ []) ++ trailer_bytes (trailer_finalize small_trailer)))
    ≡ (true, some (trailer_finalize small_trailer))
trailer_from_image_tail-finalize_example =
    trailer_from_image_tail-finalize (1 ∷ 2 ∷ 3 ∷ []) small_trailer small_trailer-IsTrailer

-- The finalized trailer around the first byte of its environment.
abbrev finalized : OtaTrailer
finalized = trailer_finalize small_trailer

before_env : List ℕ
before_env = put32 0x4F544231 ++ (put16 1 ++ put16 0)

after_env : List ℕ
after_env =
    (replicate 31 116
      ++ concat (
          replicate 48 50
          ∷ replicate 16 97
          ∷ replicate 48 0
          ∷ put32 42
          ∷ put32 4096
          ∷ put32 0
          ∷ put32 0
          ∷ []))
    ++ put32 finalized.crc32

regroup : (a b c d e : List ℕ) → (a ++ (b ++ c)) ++ (d ++ e) ≡ (a ++ (b ++ (c ++ d))) ++ e
regroup a b c d e =
    append_assoc a (b ++ c) (d ++ e)
    ∙ ap (λ t. a ++ t) (append_assoc b c (d ++ e) ∙ ap (λ t. b ++ t) (sym (append_assoc c d e)))
    ∙ ap (λ t. a ++ t) (sym (append_assoc b (c ++ d) e))
    ∙ sym (append_assoc a (b ++ (c ++ d)) e)

around : before_env ++ (116 ∷ after_env) ≡ trailer_bytes finalized
unfolding before_env after_env trailer_bytes trailer_finalize checked_parts
around = regroup (put32 0x4F544231) (put16 1) (put16 0) _ (put32 finalized.crc32)

trailer_from_image_tail-corrupted_example :
    (trailer_from_image_tail (some ((1 ∷ 2 ∷ 3 ∷ []) ++ (before_env ++ (84 ∷ after_env))))).0
    ≡ false
trailer_from_image_tail-corrupted_example =
    trailer_from_image_tail-corrupted (1 ∷ 2 ∷ 3 ∷ []) before_env after_env 116 84
      (ap length around
        ∙ length-trailer_bytes finalized (finalize-IsTrailer small_trailer small_trailer-IsTrailer))
      (subst IsBytes (sym around) (
        trailer_bytes-IsBytes finalized (finalize-IsTrailer small_trailer small_trailer-IsTrailer)))
      (omega arith) (λ e. absurd (omega (arith, e)))
      (ap (λ t. (trailer_from_image_tail (some ((1 ∷ 2 ∷ 3 ∷ []) ++ t))).0) around
        ∙ ap (λ p. p.0)
            (trailer_from_image_tail-finalize (1 ∷ 2 ∷ 3 ∷ []) small_trailer
              small_trailer-IsTrailer))
