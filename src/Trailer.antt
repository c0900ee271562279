-- ===== src/Trailer.antt =====
-- src/trailer.cpp and include/ota_common/trailer.h: the self-identity trailer of an image.
pub mod Valid
pub mod Checksum
pub mod Corrupted
pub mod Identity
mod Tests
use ota_common.Common.{
  ℕ, zero, suc, ◌+◌, ◌-◌, ◌/◌, ◌%◌, ◌^◌, bit_and, bit_xor, sub32, Bool, true, false, ◌&&◌, Option,
  none, some, List, [], ◌∷◌, ◌++◌, length, take, drop, slice, ltb, ◌==◌, ◌!=◌, if◌then◌else◌,
}
use ota_common.Wire.Layout.{concat}
use ota_common.Wire.{get16, get32, put16, put32}
use ota_common.CString.{field_equal}

abbrev pub trailer_magic : ℕ
trailer_magic = 0x4F544231

abbrev pub trailer_format : ℕ
trailer_format = 1

-- `sizeof(OtaTrailer)`.
abbrev pub trailer_size : ℕ
trailer_size = 172

pub record OtaTrailer : Type 0 where
  pub magic : ℕ
  pub format : ℕ
  pub flags : ℕ
  pub env : List ℕ
  pub version : List ℕ
  pub commit : List ℕ
  pub repo : List ℕ
  pub hw_vendor : ℕ
  pub image_length : ℕ
  pub reserved0 : ℕ
  pub reserved1 : ℕ
  pub crc32 : ℕ

-- The fields of the struct that stand before `crc32`, in the order of their offsets.
pub checked_parts : OtaTrailer → List (List ℕ)
checked_parts t =
    put32 t.magic
    ∷ put16 t.format
    ∷ put16 t.flags
    ∷ t.env
    ∷ t.version
    ∷ t.commit
    ∷ t.repo
    ∷ put32 t.hw_vendor
    ∷ put32 t.image_length
    ∷ put32 t.reserved0
    ∷ put32 t.reserved1
    ∷ []

-- All 172 bytes of the struct.
pub trailer_bytes : OtaTrailer → List ℕ
unfolding checked_parts
trailer_bytes t = concat (checked_parts t) ++ put32 t.crc32

-- `memcpy` of the bytes into the struct.
pub trailer_at : List ℕ → OtaTrailer
trailer_at p = record {
  magic = get32 p 0;
  format = get16 p 4;
  flags = get16 p 6;
  env = slice 8 32 p;
  version = slice 40 48 p;
  commit = slice 88 16 p;
  repo = slice 104 48 p;
  hw_vendor = get32 p 152;
  image_length = get32 p 156;
  reserved0 = get32 p 160;
  reserved1 = get32 p 164;
  crc32 = get32 p 168;
}

-- The eight rounds of `crc32_ieee` over one byte.
pub crc_bits : ℕ → ℕ → ℕ
crc_bits zero crc = crc
crc_bits (suc left) crc =
    let mask = sub32 0 (bit_and crc 1) in
    crc_bits left (bit_xor (crc / 2) (bit_and 0xEDB88320 mask))

pub crc_loop : ℕ → List ℕ → ℕ
unfolding crc_bits
crc_loop crc [] = crc
crc_loop crc (x ∷ input) = crc_loop (crc_bits 8 (bit_xor crc x)) input

pub crc32_ieee : List ℕ → ℕ
unfolding crc_loop
crc32_ieee input = bit_xor (crc_loop 0xFFFFFFFF input) 0xFFFFFFFF

pub trailer_finalize : OtaTrailer → OtaTrailer
trailer_finalize t =
    let stamped = record t { magic = trailer_magic; format = trailer_format } in
    record stamped { crc32 = crc32_ieee (take (trailer_size - 4) (trailer_bytes stamped)) }

pub trailer_is_valid : OtaTrailer → Bool
trailer_is_valid t =
    if t.magic != trailer_magic
    then false
    else if t.format != trailer_format
    then false
    else crc32_ieee (take (trailer_size - 4) (trailer_bytes t)) == t.crc32

-- The result and what is written to `out`, if anything.
pub trailer_from_image_tail : Option (List ℕ) → Bool × Option OtaTrailer
trailer_from_image_tail none = (false, none)
trailer_from_image_tail (some image) =
    if ltb (length image) trailer_size
    then (false, none)
    else (let out = trailer_at (slice (length image - trailer_size) trailer_size image) in
        (trailer_is_valid out, some out))

pub trailer_identity_equal : OtaTrailer → OtaTrailer → Bool
trailer_identity_equal a b =
    field_equal 32 a.env b.env
    && (field_equal 48 a.version b.version && field_equal 16 a.commit b.commit)
