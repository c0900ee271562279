-- ===== src/Wire/Frame.antt =====
-- The 8-byte frame header: what `frame_header_pack` writes, `frame_header_unpack` reads, and back.
use ota_common.Common.{
  ℕ, ◌<◌, ◌≡◌, refl, arith, List, [], ◌∷◌, ◌++◌, length, drop, some, ◌⊎◌, IsBytes,
}
use ota_common.Wire.{
  OtaFrameType, OtaFrameHeader, unnamed, type_to_byte, type_of_byte, frame_header_pack,
  frame_header_unpack,
}
use ota_common.Wire.Words.{get16_sum, get16_packed}

-- A type that the cast from a byte gives: an enumerator, or a byte that names none.
abbrev pub IsFrameType : OtaFrameType → Type 0
IsFrameType (unnamed b) = (b < 256) × ((b ≡ 0) ⊎ (11 < b))
IsFrameType _ = Unit {0}

-- A header whose fields fit their types.
pub record IsHeader (h : OtaFrameHeader) : Type 0 where
  pub of_type : IsFrameType h.type
  pub session_fits : h.session < 256
  pub index_fits : h.index < 65536
  pub off_fits : h.off < 65536
  pub total_fits : h.total < 65536

type_of_byte-type_to_byte : (t : OtaFrameType) → IsFrameType t → type_of_byte (type_to_byte t) ≡ t
unfolding type_of_byte type_to_byte
type_of_byte-type_to_byte (unnamed b) h = ground arith
type_of_byte-type_to_byte _ h = refl

type_to_byte-type_of_byte : (b : ℕ) → type_to_byte (type_of_byte b) ≡ b
unfolding type_of_byte type_to_byte
type_to_byte-type_of_byte b = ground arith

-- Unpacking a packed header, with any bytes behind it, gives the header back.
pub frame_header_unpack-pack :
    (h : OtaFrameHeader) (rest : List ℕ)
    → IsHeader h
    → frame_header_unpack (some (frame_header_pack h ++ rest)) ≡ some h
unfolding frame_header_unpack frame_header_pack
frame_header_unpack-pack h rest w =
    let buf = frame_header_pack h ++ rest in
    ground (
      arith,
      type_of_byte-type_to_byte h.type w.of_type,
      get16_packed buf 2 h.index refl refl w.index_fits,
      get16_packed buf 4 h.off refl refl w.off_fits,
      get16_packed buf 6 h.total refl refl w.total_fits,
    )

-- Every eight bytes are some header's: packing what was unpacked gives the first eight bytes.
pub frame_header_pack-unpack :
    (b₀ b₁ b₂ b₃ b₄ b₅ b₆ b₇ : ℕ) (rest : List ℕ) (h : OtaFrameHeader)
    → let eight : List ℕ = b₀ ∷ b₁ ∷ b₂ ∷ b₃ ∷ b₄ ∷ b₅ ∷ b₆ ∷ b₇ ∷ [] in
      IsBytes eight
      → frame_header_unpack (some (eight ++ rest)) ≡ some h
      → frame_header_pack h ≡ eight
unfolding frame_header_unpack frame_header_pack
frame_header_pack-unpack b₀ b₁ b₂ b₃ b₄ b₅ b₆ b₇ rest h bytes e =
    let buf : List ℕ = b₀ ∷ b₁ ∷ b₂ ∷ b₃ ∷ b₄ ∷ b₅ ∷ b₆ ∷ b₇ ∷ rest in
    ground (
      arith,
      type_to_byte-type_of_byte b₀,
      get16_sum buf 2 b₂ b₃ refl refl,
      get16_sum buf 4 b₄ b₅ refl refl,
      get16_sum buf 6 b₆ b₇ refl refl,
    )

pub drop-frame_header_pack :
    (h : OtaFrameHeader) (rest : List ℕ) → drop 8 (frame_header_pack h ++ rest) ≡ rest
unfolding frame_header_pack
drop-frame_header_pack h rest = refl

pub length-frame_header_pack : (h : OtaFrameHeader) → length (frame_header_pack h) ≡ 8
unfolding frame_header_pack
length-frame_header_pack h = refl
