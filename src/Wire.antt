-- ===== src/Wire.antt =====
-- The frame and payload codecs at the head of src/transport.cpp, with the types of
-- include/ota_common/transport.h that they carry. A buffer that a caller passes with its length is
-- the list of its bytes, and a null pointer is `none`.
pub mod Words
pub mod Prefix
pub mod Frame
pub mod Info
pub mod Layout
pub mod Fields
pub mod Bytes
mod Tests
use ota_common.Common.{
  ℕ, zero, suc, ◌+◌, ◌-◌, ◌*◌, ◌/◌, ◌%◌, ◌^◌, bit_or, u8, u16, u32, Bool, true, false, ◌||◌, Option,
  none, some, List, [], ◌∷◌, ◌++◌, length, get_or, ltb, ◌==◌, if◌then◌else◌,
}

abbrev pub byte_at : List ℕ → ℕ → ℕ
byte_at buf i = get_or buf i 0

-- Constants of the wire format.
abbrev pub max_frame_payload : ℕ
max_frame_payload = 233

abbrev pub frame_header_len : ℕ
frame_header_len = 8

abbrev pub max_fragment : ℕ
max_fragment = 225

abbrev pub index_manifest : ℕ
index_manifest = 0xFFFF

abbrev pub load_info_len : ℕ
load_info_len = 8

pub put16 : ℕ → List ℕ
put16 v = u8 v ∷ u8 (v / 2 ^ 8) ∷ []

-- `get16(buf + off)`.
pub get16 : List ℕ → ℕ → ℕ
get16 buf off = u16 (bit_or (byte_at buf off) (byte_at buf (off + 1) * 2 ^ 8))

pub put32_loop : ℕ → ℕ → ℕ → List ℕ
put32_loop zero i v = []
put32_loop (suc left) i v = u8 (v / 2 ^ (8 * i)) ∷ put32_loop left (i + 1) v

pub put32 : ℕ → List ℕ
unfolding put32_loop
put32 v = put32_loop 4 0 v

pub get32_loop : ℕ → ℕ → List ℕ → ℕ → ℕ → ℕ
get32_loop zero i buf off v = v
get32_loop (suc left) i buf off v =
    get32_loop left (i + 1) buf off (bit_or v (u32 (byte_at buf (off + i) * 2 ^ (8 * i))))

-- `get32(buf + off)`.
pub get32 : List ℕ → ℕ → ℕ
unfolding get32_loop
get32 buf off = get32_loop 4 0 buf off 0

-- `enum class OtaFrameType : uint8_t`: a cast from a byte can give a value that no enumerator names.
pub data OtaFrameType : Type 0 where
  start manifest block proof request ack done abort load load_commit announce : OtaFrameType
  unnamed : ℕ → OtaFrameType

pub type_to_byte : OtaFrameType → ℕ
type_to_byte start = 1
type_to_byte manifest = 2
type_to_byte block = 3
type_to_byte proof = 4
type_to_byte request = 5
type_to_byte ack = 6
type_to_byte done = 7
type_to_byte abort = 8
type_to_byte load = 9
type_to_byte load_commit = 10
type_to_byte announce = 11
type_to_byte (unnamed b) = b

pub type_of_byte : ℕ → OtaFrameType
type_of_byte b =
    if b == 1
    then start
    else if b == 2
    then manifest
    else if b == 3
    then block
    else if b == 4
    then proof
    else if b == 5
    then request
    else if b == 6
    then ack
    else if b == 7
    then done
    else if b == 8
    then abort
    else if b == 9
    then load
    else if b == 10
    then load_commit
    else if b == 11
    then announce
    else unnamed b

pub record OtaFrameHeader : Type 0 where
  pub type : OtaFrameType
  pub session : ℕ
  pub index : ℕ
  pub off : ℕ
  pub total : ℕ

pub frame_header_pack : OtaFrameHeader → List ℕ
unfolding put16 type_to_byte
frame_header_pack h =
    type_to_byte h.type ∷ h.session ∷ (put16 h.index ++ (put16 h.off ++ put16 h.total))

frame_header_at : List ℕ → OtaFrameHeader
unfolding get16 type_of_byte
frame_header_at buf = record {
  type = type_of_byte (byte_at buf 0);
  session = byte_at buf 1;
  index = get16 buf 2;
  off = get16 buf 4;
  total = get16 buf 6;
}

pub frame_header_unpack : Option (List ℕ) → Option OtaFrameHeader
unfolding frame_header_at
frame_header_unpack none = none
frame_header_unpack (some buf) =
    if ltb (length buf) frame_header_len then none else some (frame_header_at buf)

pub record OtaStartInfo : Type 0 where
  pub block_size : ℕ
  pub block_count : ℕ
  pub payload_length : ℕ
  pub manifest_len : ℕ
  pub sig_len : ℕ

pub start_info_pack : OtaStartInfo → List ℕ
unfolding put16 put32
start_info_pack s =
    put16 s.block_size
    ++ (put16 s.block_count
        ++ (put32 s.payload_length ++ (put16 s.manifest_len ++ put16 s.sig_len)))

start_info_at : List ℕ → OtaStartInfo
unfolding get16 get32
start_info_at buf = record {
  block_size = get16 buf 0;
  block_count = get16 buf 2;
  payload_length = get32 buf 4;
  manifest_len = get16 buf 8;
  sig_len = get16 buf 10;
}

pub start_info_unpack : Option (List ℕ) → Option OtaStartInfo
unfolding start_info_at
start_info_unpack none = none
start_info_unpack (some buf) = if ltb (length buf) 12 then none else some (start_info_at buf)

pub record OtaLoadInfo : Type 0 where
  pub total_len : ℕ
  pub offset : ℕ

pub load_info_pack : OtaLoadInfo → List ℕ
unfolding put32
load_info_pack s = put32 s.total_len ++ put32 s.offset

load_info_at : List ℕ → OtaLoadInfo
unfolding get32
load_info_at buf = record { total_len = get32 buf 0; offset = get32 buf 4 }

pub load_info_unpack : Option (List ℕ) → Option OtaLoadInfo
unfolding load_info_at
load_info_unpack none = none
load_info_unpack (some buf) =
    if ltb (length buf) load_info_len then none else some (load_info_at buf)
