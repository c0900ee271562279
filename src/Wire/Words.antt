-- ===== src/Wire/Words.antt =====
-- 16- and 32-bit words in little-endian order.
use ota_common.Common.{
  ℕ, ◌+◌, ◌*◌, ◌/◌, ◌<◌, bit_or, u8, u32, ◌≡◌, refl, arith, List, [], ◌∷◌, ◌∙◌, length, IsBytes,
}
use ota_common.Common.Bits.{zero-bit_or, bit_or_byte, bit_or_half_word, bit_or_three_bytes}
use ota_common.Wire.{byte_at, put16, get16, put32, get32}

-- The words as sums of their bytes.
pub get16_sum :
    (buf : List ℕ) (off b₀ b₁ : ℕ)
    → byte_at buf off ≡ b₀
    → byte_at buf (off + 1) ≡ b₁
    → b₀ < 256
    → b₁ < 256
    → get16 buf off ≡ b₀ + b₁ * 256
unfolding get16
get16_sum buf off b₀ b₁ e₀ e₁ h₀ h₁ = ground (arith, bit_or_byte b₀ b₁)

-- What the four rounds of `get32` make of the bytes that they read.
word32 : ℕ → ℕ → ℕ → ℕ → ℕ
word32 b₀ b₁ b₂ b₃ =
    bit_or (bit_or (bit_or (bit_or 0 (u32 (b₀ * 1))) (u32 (b₁ * 256))) (u32 (b₂ * 65536)))
      (u32 (b₃ * 16777216))

word32_sum :
    (b₀ b₁ b₂ b₃ : ℕ)
    → b₀ < 256
    → b₁ < 256
    → b₂ < 256
    → b₃ < 256
    → word32 b₀ b₁ b₂ b₃ ≡ b₀ + b₁ * 256 + b₂ * 65536 + b₃ * 16777216
unfolding word32
word32_sum b₀ b₁ b₂ b₃ h₀ h₁ h₂ h₃ = ground (
  arith,
  zero-bit_or b₀,
  bit_or_byte b₀ b₁,
  bit_or_half_word (b₀ + b₁ * 256) b₂,
  bit_or_three_bytes (b₀ + b₁ * 256 + b₂ * 65536) b₃,
)

get32-word32 :
    (buf : List ℕ) (off : ℕ)
    → get32 buf off
      ≡ word32
          (byte_at buf (off + 0))
          (byte_at buf (off + 1))
          (byte_at buf (off + 2))
          (byte_at buf (off + 3))
unfolding get32 word32
get32-word32 buf off = refl

pub get32_sum :
    (buf : List ℕ) (off b₀ b₁ b₂ b₃ : ℕ)
    → byte_at buf (off + 0) ≡ b₀
    → byte_at buf (off + 1) ≡ b₁
    → byte_at buf (off + 2) ≡ b₂
    → byte_at buf (off + 3) ≡ b₃
    → b₀ < 256
    → b₁ < 256
    → b₂ < 256
    → b₃ < 256
    → get32 buf off ≡ b₀ + b₁ * 256 + b₂ * 65536 + b₃ * 16777216
get32_sum buf off b₀ b₁ b₂ b₃ e₀ e₁ e₂ e₃ h₀ h₁ h₂ h₃ =
    rw (get32-word32, e₀, e₁, e₂, e₃) (word32_sum b₀ b₁ b₂ b₃ h₀ h₁ h₂ h₃)

pub put32-bytes :
    (v : ℕ) → put32 v ≡ u8 (v / 1) ∷ u8 (v / 256) ∷ u8 (v / 65536) ∷ u8 (v / 16777216) ∷ []
unfolding put32
put32-bytes v = refl

pub length-put16 : (v : ℕ) → length (put16 v) ≡ 2
unfolding put16
length-put16 v = refl

pub length-put32 : (v : ℕ) → length (put32 v) ≡ 4
unfolding put32
length-put32 v = refl

pub bytes_sum32 :
    (v : ℕ)
    → v < 4294967296
    → u8 v + u8 (v / 256) * 256 + u8 (v / 65536) * 65536 + u8 (v / 16777216) * 16777216 ≡ v
bytes_sum32 v h = omega arith

pub bytes_sum16 : (v : ℕ) → v < 65536 → u8 v + u8 (v / 256) * 256 ≡ v
bytes_sum16 v h = omega arith

-- Where the bytes of a packed word stand, its value is read.
pub get16_packed :
    (buf : List ℕ) (off v : ℕ)
    → byte_at buf off ≡ u8 v
    → byte_at buf (off + 1) ≡ u8 (v / 256)
    → v < 65536
    → get16 buf off ≡ v
get16_packed buf off v e₀ e₁ h =
    get16_sum buf off (u8 v) (u8 (v / 256)) e₀ e₁ (omega arith) (omega arith) ∙ bytes_sum16 v h

pub get32_packed :
    (buf : List ℕ) (off v : ℕ)
    → byte_at buf (off + 0) ≡ u8 (v / 1)
    → byte_at buf (off + 1) ≡ u8 (v / 256)
    → byte_at buf (off + 2) ≡ u8 (v / 65536)
    → byte_at buf (off + 3) ≡ u8 (v / 16777216)
    → v < 4294967296
    → get32 buf off ≡ v
get32_packed buf off v e₀ e₁ e₂ e₃ h =
    get32_sum buf off (u8 (v / 1)) (u8 (v / 256)) (u8 (v / 65536)) (u8 (v / 16777216)) e₀ e₁ e₂ e₃
      (omega arith) (omega arith) (omega arith) (omega arith)
    ∙ omega (arith, bytes_sum32 v h)

pub put16-IsBytes : (v : ℕ) → IsBytes (put16 v)
unfolding put16
put16-IsBytes v = omega arith

pub put32-IsBytes : (v : ℕ) → IsBytes (put32 v)
unfolding put32
put32-IsBytes v = omega arith

pub get16-lt : (buf : List ℕ) (off : ℕ) → get16 buf off < 65536
unfolding get16
get16-lt buf off = omega arith
