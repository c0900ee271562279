-- ===== src/Wire/Bytes.antt =====
-- What is packed is made of bytes.
use ota_common.Common.{◌<◌, ◌++◌, IsBytes, IsBytes-append, arith}
use ota_common.Wire.{
  OtaFrameType, start, manifest, block, proof, request, ack, done, abort, load, load_commit,
  announce, unnamed, OtaFrameHeader, OtaStartInfo, type_to_byte, frame_header_pack, start_info_pack,
  put16, put32,
}
use ota_common.Wire.Frame.{IsFrameType}
use ota_common.Wire.Words.{put16-IsBytes}

-- A type that is sent.
pub type_to_byte-lt : (t : OtaFrameType) → IsFrameType t → type_to_byte t < 256
unfolding type_to_byte
type_to_byte-lt start w = omega arith
type_to_byte-lt manifest w = omega arith
type_to_byte-lt block w = omega arith
type_to_byte-lt proof w = omega arith
type_to_byte-lt request w = omega arith
type_to_byte-lt ack w = omega arith
type_to_byte-lt done w = omega arith
type_to_byte-lt abort w = omega arith
type_to_byte-lt load w = omega arith
type_to_byte-lt load_commit w = omega arith
type_to_byte-lt announce w = omega arith
type_to_byte-lt (unnamed b) w = w.0

pub frame_header_pack-IsBytes :
    (h : OtaFrameHeader)
    → type_to_byte h.type < 256
    → h.session < 256
    → IsBytes (frame_header_pack h)
unfolding frame_header_pack
frame_header_pack-IsBytes h named ses = (
  named,
  (
    ses,
    IsBytes-append (put16 h.index) (put16 h.off ++ put16 h.total) (put16-IsBytes h.index) (
        IsBytes-append (put16 h.off) (put16 h.total) (put16-IsBytes h.off) (put16-IsBytes h.total)),
  ),
)

pub start_info_pack-IsBytes : (s : OtaStartInfo) → IsBytes (start_info_pack s)
unfolding start_info_pack put16 put32
start_info_pack-IsBytes s = omega arith
