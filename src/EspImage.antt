-- ===== src/EspImage.antt =====
-- src/esp_image.cpp and include/ota_common/esp_image.h: the length of an ESP application image.
-- `size_t` is taken to hold every sum of the loop, as it does with 64 bits: at most 255 segments.
pub mod Built
mod Tests
use ota_common.Common.{
  ℕ, zero, suc, ◌+◌, ◌-◌, ◌*◌, ◌/◌, ◌%◌, ◌^◌, bit_or, u32, Bool, true, false, ◌||◌, Option, none,
  some, List, [], ◌∷◌, length, slice, get_or, ltb, ◌!=◌, if◌then◌else◌,
}

-- `IImageReader::read`: the `n` bytes at an offset, or a failure.
abbrev pub ImageReader : Type 0
ImageReader = ℕ → ℕ → Option (List ℕ)

-- `BufferImageReader` over a buffer.
pub buffer_read : List ℕ → ImageReader
buffer_read input offset n =
    if ltb (length input) offset || ltb (length input - offset) n
    then none
    else some (slice offset n input)

-- `le32(p + off)`.
pub le32 : List ℕ → ℕ → ℕ
le32 p off =
    bit_or
      (bit_or (bit_or (get_or p off 0) (u32 (get_or p (off + 1) 0 * 2 ^ 8)))
        (u32 (get_or p (off + 2) 0 * 2 ^ 16)))
      (u32 (get_or p (off + 3) 0 * 2 ^ 24))

-- The loop over the segments, with those from `i` on left.
pub segment_loop : ImageReader → ℕ → ℕ → Option ℕ
segment_loop read zero len = some len
segment_loop read (suc left) len = elim (read len 8) [
  | none ↦ none
  | some seg ↦ segment_loop read left (len + (8 + le32 seg 4))
]

-- The checksum byte with its padding, and the digest where one is appended.
pub finish_length : Bool → ℕ → ℕ
finish_length hash_appended len =
    let padded = len + (15 - len % 16) + 1 in u32 (if hash_appended then padded + 32 else padded)

header_length : ImageReader → List ℕ → Option ℕ
header_length read header =
    if get_or header 0 0 != 0xE9 then none else elim (segment_loop read (get_or header 1 0) 24) [
      | none ↦ none
      | some len ↦ some (finish_length (get_or header 23 0 != 0) len)
    ]

pub esp_image_length : ImageReader → Option ℕ
esp_image_length read = elim (read 0 24) [ none ↦ none | some header ↦ header_length read header ]
