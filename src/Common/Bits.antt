-- ===== src/Common/Bits.antt =====
-- `|` of a value and of bits that lie above it, as a sum; the width of `^` and `&`.
pub mod Xor
use Prim.Native.Nat.{
  ℕ, zero, suc, ◌+◌, ◌*◌, ◌/◌, ◌%◌, ◌^◌, ◌≤◌, ◌<◌, min, max, differ, digits, bit_and, bit_or,
  bit_xor, bit_and-bitwise, bit_or-bitwise, bit_xor-bitwise,
}
use mathlib.Core.Path.{◌≡◌, refl, ap}
use native.Mathlib.Nat.{pow-suc, one-le-pow}
use native.Mathlib.Omega.{arith}

-- The digit recursion behind the bit operations.
module _ (z : ℕ → ℕ) (f : ℕ → ℕ → ℕ) where
  digits_enough : (i j a b : ℕ) → a ≤ i → a ≤ j → digits z f i a b ≡ digits z f j a b
  digits_enough zero zero a b p q = refl
  digits_enough zero (suc j) zero b p q = refl
  digits_enough zero (suc j) (suc a) b p q = absurd (omega arith)
  digits_enough (suc i) zero zero b p q = refl
  digits_enough (suc i) zero (suc a) b p q = absurd (omega arith)
  digits_enough (suc i) (suc j) zero b p q = refl
  digits_enough (suc i) (suc j) (suc a) b p q =
      omega (arith, digits_enough i j (suc a / 2) (b / 2) (omega arith) (omega arith))

  -- Digits below 2 leave a number within its width.
  digits-lt :
      ((c d : ℕ) → c < 2 → d < 2 → f c d < 2)
      → ((k b : ℕ) → b < 2 ^ k → z b < 2 ^ k)
      → (k i a b : ℕ) → a ≤ i
      → a < 2 ^ k
      → b < 2 ^ k
      → digits z f i a b < 2 ^ k
  digits-lt small rest k zero a b p ha hb = rest k b hb
  digits-lt small rest k (suc i) zero b p ha hb = rest k b hb
  digits-lt small rest zero (suc i) (suc a) b p ha hb = absurd (omega arith)
  digits-lt small rest (suc k) (suc i) (suc a) b p ha hb = omega (
    arith,
    pow-suc 2 k,
    small (suc a % 2) (b % 2) (omega arith) (omega arith),
    digits-lt small rest k i (suc a / 2) (b / 2) (omega arith) (omega (arith, pow-suc 2 k))
        (omega (arith, pow-suc 2 k)),
  )

-- The lowest digit of `a | b`, and the rest.
bit_or_halves : (a b : ℕ) → bit_or a b ≡ bit_or (a / 2) (b / 2) * 2 + max (a % 2) (b % 2)
bit_or_halves zero b = omega (arith, bit_or-bitwise 0 b, bit_or-bitwise 0 (b / 2))
bit_or_halves (suc a) b = omega (
  arith,
  bit_or-bitwise (suc a) b,
  bit_or-bitwise (suc a / 2) (b / 2),
  digits_enough (λ b. b) max a (suc a / 2) (suc a / 2) (b / 2) (omega arith) (omega arith),
)

pub zero-bit_or : (b : ℕ) → bit_or 0 b ≡ b
zero-bit_or b = bit_or-bitwise 0 b

double_shift : (q k : ℕ) → q * 2 ^ suc k ≡ q * 2 ^ k * 2
double_shift q k = omega (arith, ap (λ (t : ℕ). q * t) (pow-suc 2 k))

-- `r | (q << k)` is a sum when `r` has at most `k` bits.
pub bit_or_above : (k r q : ℕ) → r < 2 ^ k → bit_or r (q * 2 ^ k) ≡ r + q * 2 ^ k
bit_or_above zero r q fits = ground (arith, zero-bit_or (q * 1))
bit_or_above (suc k) r q fits = ground (
  arith,
  bit_or_halves r (q * 2 ^ suc k),
  double_shift q k,
  pow-suc 2 k,
  bit_or_above k (r / 2) q,
)

pub bit_or_byte : (r q : ℕ) → r < 256 → bit_or r (q * 256) ≡ r + q * 256
bit_or_byte r q fits = bit_or_above 8 r q fits

pub bit_or_half_word : (r q : ℕ) → r < 65536 → bit_or r (q * 65536) ≡ r + q * 65536
bit_or_half_word r q fits = bit_or_above 16 r q fits

pub bit_or_three_bytes : (r q : ℕ) → r < 16777216 → bit_or r (q * 16777216) ≡ r + q * 16777216
bit_or_three_bytes r q fits = bit_or_above 24 r q fits

differ-lt : (c d : ℕ) → c < 2 → d < 2 → differ c d < 2
differ-lt zero d p q = q
differ-lt (suc zero) zero p q = omega arith
differ-lt (suc zero) (suc zero) p q = omega arith
differ-lt (suc zero) (suc (suc d)) p q = absurd (omega arith)
differ-lt (suc (suc c)) d p q = absurd (omega arith)

pub bit_xor-lt : (k a b : ℕ) → a < 2 ^ k → b < 2 ^ k → bit_xor a b < 2 ^ k
bit_xor-lt k a b ha hb =
    rw bit_xor-bitwise
      (digits-lt (λ d. d) differ differ-lt (λ k b h. h) k a a b (omega arith) ha hb)

pub bit_and-lt : (k a b : ℕ) → a < 2 ^ k → b < 2 ^ k → bit_and a b < 2 ^ k
bit_and-lt k a b ha hb = rw bit_and-bitwise (
    digits-lt (λ d. 0) min (λ c d p q. omega arith) (λ k b h. omega (arith, one-le-pow k 2)) k a a b
      (omega arith) ha hb)
