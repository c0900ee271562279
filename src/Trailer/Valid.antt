-- ===== src/Trailer/Valid.antt =====
-- A finalized trailer is valid, and is found again at the end of an image.
use ota_common.Common.{
  ℕ, zero, suc, ◌+◌, ◌-◌, ◌<◌, ◌≡◌, refl, sym, ap, ◌∙◌, arith, true, List, [], ◌∷◌, ◌++◌,
  append-nil, append_assoc, length, some, take, slice, length-append, take_left, take_all,
  drop_left, le→ltb, sub32, bit_and, bit_xor, ◌/◌, IsBytes, IsBytes-append,
}
use ota_common.Wire.{put32, get32}
use ota_common.Common.Bits.{bit_xor-lt, bit_and-lt}
use ota_common.Wire.Words.{put16-IsBytes, put32-IsBytes}
use ota_common.Wire.Layout.{
  concat, sizes, AreBytes, concat-IsBytes, length-concat, bytes_field, word16_field, word32_field,
}
use ota_common.Trailer.{
  OtaTrailer, checked_parts, trailer_bytes, trailer_at, crc_bits, crc_loop, crc32_ieee,
  trailer_finalize, trailer_is_valid, trailer_from_image_tail,
}

-- Fields that fit the struct.
pub record IsTrailer (t : OtaTrailer) : Type 0 where
  pub magic_fits : t.magic < 4294967296
  pub format_fits : t.format < 65536
  pub flags_fits : t.flags < 65536
  pub env_len : length t.env ≡ 32
  pub version_len : length t.version ≡ 48
  pub commit_len : length t.commit ≡ 16
  pub repo_len : length t.repo ≡ 48
  pub env_bytes : IsBytes t.env
  pub version_bytes : IsBytes t.version
  pub commit_bytes : IsBytes t.commit
  pub repo_bytes : IsBytes t.repo
  pub hw_vendor_fits : t.hw_vendor < 4294967296
  pub image_length_fits : t.image_length < 4294967296
  pub reserved0_fits : t.reserved0 < 4294967296
  pub reserved1_fits : t.reserved1 < 4294967296

abbrev stamp : OtaTrailer → OtaTrailer
stamp t = record t { magic = 0x4F544231; format = 1 }

length-checked_parts : (t : OtaTrailer) → IsTrailer t → length (concat (checked_parts t)) ≡ 168
unfolding checked_parts
length-checked_parts t w = omega (sizes, length-concat (checked_parts t))

pub length-trailer_bytes : (t : OtaTrailer) → IsTrailer t → length (trailer_bytes t) ≡ 172
unfolding trailer_bytes
length-trailer_bytes t w =
    omega
      (sizes, length-append (concat (checked_parts t)) (put32 t.crc32), length-checked_parts t w)

-- The checksum covers the bytes before it, and these alone.
checked_prefix :
    (t : OtaTrailer) → IsTrailer t → take 168 (trailer_bytes t) ≡ concat (checked_parts t)
unfolding trailer_bytes
checked_prefix t w =
    take_left 168 (concat (checked_parts t)) (put32 t.crc32) (length-checked_parts t w)

stamp-IsTrailer : (t : OtaTrailer) → IsTrailer t → IsTrailer (stamp t)
stamp-IsTrailer t w = ground arith

pub finalize-IsTrailer : (t : OtaTrailer) → IsTrailer t → IsTrailer (trailer_finalize t)
unfolding trailer_finalize
finalize-IsTrailer t w = ground arith

finalize-checked_parts :
    (t : OtaTrailer) → checked_parts (trailer_finalize t) ≡ checked_parts (stamp t)
unfolding checked_parts trailer_finalize
finalize-checked_parts t = refl

-- The checksum does not cover itself.
finalize_prefix :
    (t : OtaTrailer)
    → IsTrailer t
    → take 168 (trailer_bytes (trailer_finalize t)) ≡ take 168 (trailer_bytes (stamp t))
finalize_prefix t w =
    checked_prefix (trailer_finalize t) (finalize-IsTrailer t w)
    ∙ (ap concat (finalize-checked_parts t) ∙ sym (checked_prefix (stamp t) (stamp-IsTrailer t w)))

-- `trailer_finalize` makes any trailer valid whose fields fit the struct.
pub trailer_finalize-valid :
    (t : OtaTrailer) → IsTrailer t → trailer_is_valid (trailer_finalize t) ≡ true
unfolding trailer_is_valid trailer_finalize
trailer_finalize-valid t w = ground (arith, ap crc32_ieee (finalize_prefix t w))

concat_snoc : (ps : List (List ℕ)) (x : List ℕ) → concat (ps ++ (x ∷ [])) ++ [] ≡ concat ps ++ x
concat_snoc [] x = append-nil _ ∙ append-nil x
concat_snoc (p ∷ ps) x =
    append_assoc p (concat (ps ++ (x ∷ []))) []
    ∙ (ap (λ t. p ++ t) (concat_snoc ps x) ∙ sym (append_assoc p (concat ps) x))

-- A trailer is read back from its bytes.
trailer_at-trailer_bytes :
    (t : OtaTrailer) → IsTrailer t → t.crc32 < 4294967296 → trailer_at (trailer_bytes t) ≡ t
unfolding trailer_at trailer_bytes checked_parts
trailer_at-trailer_bytes t w fits = λ i. record {
  magic = word32_field ps end 0 0 refl t.magic _ refl w.magic_fits i;
  format = word16_field ps end 1 4 (omega sizes) t.format _ refl w.format_fits i;
  flags = word16_field ps end 2 6 (omega sizes) t.flags _ refl w.flags_fits i;
  env = bytes_field ps end 3 8 (omega sizes) t.env _ 32 refl w.env_len i;
  version = bytes_field ps end 4 40 (omega sizes) t.version _ 48 refl w.version_len i;
  commit = bytes_field ps end 5 88 (omega sizes) t.commit _ 16 refl w.commit_len i;
  repo = bytes_field ps end 6 104 (omega sizes) t.repo _ 48 refl w.repo_len i;
  hw_vendor = word32_field ps end 7 152 (omega sizes) t.hw_vendor _ refl w.hw_vendor_fits i;
  image_length =
      word32_field ps end 8 156 (omega sizes) t.image_length _ refl w.image_length_fits i;
  reserved0 = word32_field ps end 9 160 (omega sizes) t.reserved0 _ refl w.reserved0_fits i;
  reserved1 = word32_field ps end 10 164 (omega sizes) t.reserved1 _ refl w.reserved1_fits i;
  crc32 =
      (ap (λ b. get32 b 168) (sym (concat_snoc ps end))
          ∙ word32_field (ps ++ (end ∷ [])) [] 11 168 (omega sizes) t.crc32 [] refl fits)
        i;
}
  where
    ps : List (List ℕ)
    ps = checked_parts t

    end : List ℕ
    end = put32 t.crc32

pub crc_bits-lt : (left crc : ℕ) → crc < 4294967296 → crc_bits left crc < 4294967296
unfolding crc_bits
crc_bits-lt zero crc h = h
crc_bits-lt (suc left) crc h =
    crc_bits-lt left (bit_xor (crc / 2) (bit_and 0xEDB88320 (sub32 0 (bit_and crc 1)))) (
      bit_xor-lt 32 (crc / 2) _ (omega arith)
        (bit_and-lt 32 0xEDB88320 (sub32 0 (bit_and crc 1)) (omega arith) (omega arith)))

pub crc_loop-lt :
    (crc : ℕ) (input : List ℕ) → crc < 4294967296 → IsBytes input → crc_loop crc input < 4294967296
unfolding crc_loop
crc_loop-lt crc [] h w = h
crc_loop-lt crc (x ∷ input) h w =
    crc_loop-lt (crc_bits 8 (bit_xor crc x)) input
      (crc_bits-lt 8 (bit_xor crc x) (bit_xor-lt 32 crc x h (omega arith))) w.1

-- The checksum of any bytes fits a `uint32_t`.
pub crc32_ieee-lt : (input : List ℕ) → IsBytes input → crc32_ieee input < 4294967296
unfolding crc32_ieee
crc32_ieee-lt input w =
    bit_xor-lt 32 _ 0xFFFFFFFF (crc_loop-lt 0xFFFFFFFF input (omega arith) w) (omega arith)

checked_parts-AreBytes : (t : OtaTrailer) → IsTrailer t → AreBytes (checked_parts t)
unfolding checked_parts
checked_parts-AreBytes t w = (
  put32-IsBytes t.magic,
  (
    put16-IsBytes t.format,
    (
      put16-IsBytes t.flags,
      (
        w.env_bytes,
        (
          w.version_bytes,
          (
            w.commit_bytes,
            (
              w.repo_bytes,
              (
                put32-IsBytes t.hw_vendor,
                (
                  put32-IsBytes t.image_length,
                  (put32-IsBytes t.reserved0, (put32-IsBytes t.reserved1, tt)),
                ),
              ),
            ),
          ),
        ),
      ),
    ),
  ),
)

pub trailer_bytes-IsBytes : (t : OtaTrailer) → IsTrailer t → IsBytes (trailer_bytes t)
unfolding trailer_bytes
trailer_bytes-IsBytes t w =
    IsBytes-append (concat (checked_parts t)) (put32 t.crc32)
      (concat-IsBytes (checked_parts t) (checked_parts-AreBytes t w)) (put32-IsBytes t.crc32)

finalize-crc32_fits : (t : OtaTrailer) → IsTrailer t → (trailer_finalize t).crc32 < 4294967296
unfolding trailer_finalize
finalize-crc32_fits t w = rw (checked_prefix (stamp t) (stamp-IsTrailer t w)) (
    crc32_ieee-lt _ (
      concat-IsBytes (checked_parts (stamp t))
        (checked_parts-AreBytes (stamp t) (stamp-IsTrailer t w))))

-- A finalized trailer, of fields that fit the struct, appended to any image is found by
-- `trailer_from_image_tail`, and valid.
pub trailer_from_image_tail-finalize :
    (image : List ℕ) (t : OtaTrailer)
    → IsTrailer t
    → trailer_from_image_tail (some (image ++ trailer_bytes (trailer_finalize t)))
      ≡ (true, some (trailer_finalize t))
unfolding trailer_from_image_tail
trailer_from_image_tail-finalize image t w = rw (
  le→ltb (length (image ++ trailer_bytes u)) 172 (omega (arith, size)),
  tail,
  trailer_at-trailer_bytes u (finalize-IsTrailer t w) (finalize-crc32_fits t w),
  trailer_finalize-valid t w,
)
  where
    u : OtaTrailer
    u = trailer_finalize t

    size : length (image ++ trailer_bytes u) ≡ length image + 172
    size = omega (
      arith,
      length-append image (trailer_bytes u),
      length-trailer_bytes u (finalize-IsTrailer t w),
    )

    tail :
        slice (length (image ++ trailer_bytes u) - 172) 172 (image ++ trailer_bytes u)
        ≡ trailer_bytes u
    tail =
        ap (take 172) (
          drop_left (length (image ++ trailer_bytes u) - 172) image (trailer_bytes u)
            (omega (arith, size)))
        ∙ take_all 172 (trailer_bytes u)
            (omega (arith, length-trailer_bytes u (finalize-IsTrailer t w)))
