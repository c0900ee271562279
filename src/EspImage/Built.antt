-- ===== src/EspImage/Built.antt =====
-- The length found is that of the image that stands there.
use ota_common.Common.{
  ℕ, zero, suc, ◌+◌, ◌-◌, ◌*◌, ◌/◌, ◌<◌, ◌≡◌, refl, sym, ap, ap₂, ◌∙◌, arith, bit_or, u8, u32, Bool,
  true, false, some, List, [], ◌∷◌, ◌++◌, append_assoc, length, get_or, ◌!=◌, if◌then◌else◌,
  length-append, drop_left, take_left, le→ltb,
}
use ota_common.Common.Bits.{bit_or_byte, bit_or_half_word, bit_or_three_bytes}
use ota_common.Wire.{put32}
use ota_common.Wire.Words.{length-put32, put32-bytes, bytes_sum32}
use ota_common.EspImage.{
  ImageReader, buffer_read, le32, segment_loop, finish_length, header_length, esp_image_length,
}

-- A segment: its load address and its bytes.
pub record Segment : Type 0 where
  pub load_addr : ℕ
  pub input : List ℕ

abbrev segment_header : Segment → List ℕ
segment_header s = put32 s.load_addr ++ put32 (length s.input)

pub segments_bytes : List Segment → List ℕ
segments_bytes [] = []
segments_bytes (s ∷ ss) = segment_header s ++ (s.input ++ segments_bytes ss)

abbrev pub AreSegments : List Segment → Type 0
AreSegments [] = Unit {0}
AreSegments (s ∷ ss) = (length s.input < 4294967296) × AreSegments ss

le32_sum :
    (b₀ b₁ b₂ b₃ : ℕ)
    → b₀ < 256
    → b₁ < 256
    → b₂ < 256
    → b₃ < 256
    → bit_or (bit_or (bit_or b₀ (u32 (b₁ * 256))) (u32 (b₂ * 65536))) (u32 (b₃ * 16777216))
      ≡ b₀ + b₁ * 256 + b₂ * 65536 + b₃ * 16777216
le32_sum b₀ b₁ b₂ b₃ h₀ h₁ h₂ h₃ = ground (
  arith,
  bit_or_byte b₀ b₁,
  bit_or_half_word (b₀ + b₁ * 256) b₂,
  bit_or_three_bytes (b₀ + b₁ * 256 + b₂ * 65536) b₃,
)

le32-segment_header :
    (s : Segment) → length s.input < 4294967296 → le32 (segment_header s) 4 ≡ length s.input
unfolding le32
le32-segment_header s h =
    let n = length s.input in
    ap₂ (λ a b. le32 (a ++ b) 4) (put32-bytes s.load_addr) (put32-bytes n)
    ∙ (le32_sum (u8 (n / 1)) (u8 (n / 256)) (u8 (n / 65536)) (u8 (n / 16777216)) (omega arith)
          (omega arith) (omega arith) (omega arith)
        ∙ omega (arith, bytes_sum32 n h))

-- Reading what stands behind a prefix.
buffer_read-slice :
    (pre part rest : List ℕ) (off n : ℕ)
    → length pre ≡ off
    → length part ≡ n
    → buffer_read (pre ++ (part ++ rest)) off n ≡ some part
unfolding buffer_read
buffer_read-slice pre part rest off n here size =
    let len = length-append pre (part ++ rest) in
    let len' = length-append part rest in
    rw (
      le→ltb (length (pre ++ (part ++ rest))) off (omega (arith, len)),
      le→ltb (length (pre ++ (part ++ rest)) - off) n (omega (arith, len, len')),
      drop_left off pre (part ++ rest) here,
      take_left n part rest size,
    )

segment_loop-step :
    (read : ImageReader) (left len : ℕ) (seg : List ℕ)
    → read len 8 ≡ some seg
    → segment_loop read (suc left) len ≡ segment_loop read left (len + (8 + le32 seg 4))
unfolding segment_loop
segment_loop-step read left len seg e = rw (segment_loop, e)

-- The loop passes every segment of the image.
segment_loop-segments :
    (pre rest : List ℕ) (ss : List Segment) (len : ℕ)
    → AreSegments ss
    → length pre ≡ len
    → segment_loop (buffer_read (pre ++ (segments_bytes ss ++ rest))) (length ss) len
      ≡ some (len + length (segments_bytes ss))
unfolding segment_loop segments_bytes
segment_loop-segments pre rest [] len w e = ap some (omega arith)
segment_loop-segments pre rest (s ∷ ss) len w e =
    ap (λ bytes. segment_loop (buffer_read bytes) (length (s ∷ ss)) len) regroup
    ∙ (segment_loop-step (buffer_read (pre ++ (segment_header s ++ tail))) (length ss) len
          (segment_header s) found
        ∙ (ap
              (λ (n : ℕ).
                segment_loop (buffer_read (pre ++ (segment_header s ++ tail))) (length ss)
                  (len + (8 + n)))
              (le32-segment_header s w.0)
            ∙ (ap
                  (λ bytes.
                    segment_loop (buffer_read bytes) (length ss) (len + (8 + length s.input)))
                  further
                ∙ (segment_loop-segments (pre ++ (segment_header s ++ s.input)) rest ss
                      (len + (8 + length s.input)) w.1 (omega (arith, sizes₁, sizes₂, sizes₃))
                    ∙ ap some (omega (arith, sizes₃, sizes₄, sizes₅))))))
  where
    tail : List ℕ
    tail = s.input ++ (segments_bytes ss ++ rest)

    regroup :
        pre ++ ((segment_header s ++ (s.input ++ segments_bytes ss)) ++ rest)
        ≡ pre ++ (segment_header s ++ tail)
    regroup =
        ap (λ t. pre ++ t)
          (append_assoc (segment_header s) (s.input ++ segments_bytes ss) rest
            ∙ ap (λ t. segment_header s ++ t) (append_assoc s.input (segments_bytes ss) rest))

    sizes₃ : length (segment_header s) ≡ 8
    sizes₃ = omega (arith, length-append (put32 s.load_addr) (put32 (length s.input)), length-put32)

    found : buffer_read (pre ++ (segment_header s ++ tail)) len 8 ≡ some (segment_header s)
    found = buffer_read-slice pre (segment_header s) tail len 8 e sizes₃

    further :
        pre ++ (segment_header s ++ tail)
        ≡ (pre ++ (segment_header s ++ s.input)) ++ (segments_bytes ss ++ rest)
    further =
        ap (λ t. pre ++ t)
          (sym (append_assoc (segment_header s) s.input (segments_bytes ss ++ rest)))
        ∙ sym (append_assoc pre (segment_header s ++ s.input) (segments_bytes ss ++ rest))

    sizes₁ :
        length (pre ++ (segment_header s ++ s.input))
        ≡ length pre + length (segment_header s ++ s.input)
    sizes₁ = length-append pre (segment_header s ++ s.input)

    sizes₂ : length (segment_header s ++ s.input) ≡ length (segment_header s) + length s.input
    sizes₂ = length-append (segment_header s) s.input

    sizes₄ :
        length (segment_header s ++ (s.input ++ segments_bytes ss))
        ≡ length (segment_header s) + length (s.input ++ segments_bytes ss)
    sizes₄ = length-append (segment_header s) (s.input ++ segments_bytes ss)

    sizes₅ : length (s.input ++ segments_bytes ss) ≡ length s.input + length (segments_bytes ss)
    sizes₅ = length-append s.input (segments_bytes ss)

-- The header of an image: the magic, the number of segments, 21 bytes, and the digest flag.
abbrev pub image_header : ℕ → List ℕ → ℕ → List ℕ
image_header count mid flag = 0xE9 ∷ count ∷ (mid ++ (flag ∷ []))

get_or-last : (mid : List ℕ) (n flag : ℕ) → length mid ≡ n → get_or (mid ++ (flag ∷ [])) n 0 ≡ flag
get_or-last [] zero flag e = refl
get_or-last [] (suc n) flag e = absurd (omega arith)
get_or-last (x ∷ mid) zero flag e = absurd (omega arith)
get_or-last (x ∷ mid) (suc n) flag e = get_or-last mid n flag (omega arith)

finish_length-padded :
    (hash_appended : Bool) (len : ℕ)
    → finish_length hash_appended len
      ≡ u32 ((len / 16 + 1) * 16 + (if hash_appended then 32 else 0))
unfolding finish_length
finish_length-padded true len = ap u32 (omega arith)
finish_length-padded false len = ap u32 (omega arith)

esp_image_length-read :
    (read : ImageReader) (header : List ℕ) (len : ℕ)
    → read 0 24 ≡ some header
    → get_or header 0 0 ≡ 0xE9
    → segment_loop read (get_or header 1 0) 24 ≡ some len
    → esp_image_length read ≡ some (finish_length (get_or header 23 0 != 0) len)
unfolding esp_image_length header_length
esp_image_length-read read header len e magic looped =
    rw (esp_image_length, e, header_length, magic, looped)

-- Of an image that is built from segments of fewer than 2^32 bytes, with anything behind it, the
-- length found is that of the header and the segments, padded by at least one byte to a multiple of
-- 16, with 32 more where the header says that a digest is appended, cut to `uint32_t`.
pub esp_image_length-built :
    (ss : List Segment) (mid rest : List ℕ) (flag : ℕ)
    → AreSegments ss
    → length mid ≡ 21
    → let len = 24 + length (segments_bytes ss) in
      esp_image_length
        (buffer_read (image_header (length ss) mid flag ++ (segments_bytes ss ++ rest)))
      ≡ some (u32 ((len / 16 + 1) * 16 + (if flag != 0 then 32 else 0)))
esp_image_length-built ss mid rest flag w mid_len =
    esp_image_length-read _ header _ (buffer_read-slice [] header _ 0 24 refl size) refl
      (segment_loop-segments header rest ss 24 w size)
    ∙ (ap (λ (f : ℕ). some (finish_length (f != 0) (24 + length (segments_bytes ss))))
          (get_or-last mid 21 flag mid_len)
        ∙ ap some (finish_length-padded (flag != 0) (24 + length (segments_bytes ss))))
  where
    header : List ℕ
    header = image_header (length ss) mid flag

    size : length header ≡ 24
    size = omega (arith, length-append mid (flag ∷ []))
