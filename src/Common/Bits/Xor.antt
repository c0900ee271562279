-- ===== src/Common/Bits/Xor.antt =====
-- `^` can be undone, and keeps the highest bit that only one side has.
use Prim.Native.Nat.{
  ℕ, zero, suc, ◌+◌, ◌*◌, ◌/◌, ◌%◌, ◌^◌, ◌≤◌, ◌<◌, min, differ, bit_and, bit_xor, bit_and-bitwise,
  bit_xor-bitwise,
}
use mathlib.Core.Path.{◌≡◌, refl, sym}
use native.Mathlib.Nat.{pow-suc}
use native.Mathlib.Omega.{arith}
use ota_common.Common.Bits.{digits_enough, differ-lt}

-- The lowest digit of `a ^ b`, and the rest.
bit_xor_halves : (a b : ℕ) → bit_xor a b ≡ bit_xor (a / 2) (b / 2) * 2 + differ (a % 2) (b % 2)
bit_xor_halves zero b = omega (arith, bit_xor-bitwise 0 b, bit_xor-bitwise 0 (b / 2))
bit_xor_halves (suc a) b = omega (
  arith,
  bit_xor-bitwise (suc a) b,
  bit_xor-bitwise (suc a / 2) (b / 2),
  digits_enough (λ b. b) differ a (suc a / 2) (suc a / 2) (b / 2) (omega arith) (omega arith),
)

differ_cancel : (c d e : ℕ) → c < 2 → d < 2 → e < 2 → differ c e ≡ differ d e → c ≡ d
differ_cancel zero zero e p q r same = refl
differ_cancel zero (suc zero) zero p q r same = same
differ_cancel zero (suc zero) (suc zero) p q r same = sym same
differ_cancel (suc zero) zero zero p q r same = same
differ_cancel (suc zero) zero (suc zero) p q r same = sym same
differ_cancel (suc zero) (suc zero) e p q r same = refl
differ_cancel (suc (suc c)) d e p q r same = absurd (omega arith)
differ_cancel c (suc (suc d)) e p q r same = absurd (omega arith)
differ_cancel c d (suc (suc e)) p q r same = absurd (omega arith)

-- `a ^ c` tells what `a` was.
pub bit_xor_cancel : (k a b c : ℕ) → a < 2 ^ k → b < 2 ^ k → bit_xor a c ≡ bit_xor b c → a ≡ b
bit_xor_cancel zero a b c ha hb same = omega arith
bit_xor_cancel (suc k) a b c ha hb same =
    let x = bit_xor_halves a c in
    let y = bit_xor_halves b c in
    let p = differ-lt (a % 2) (c % 2) (omega arith) (omega arith) in
    let q = differ-lt (b % 2) (c % 2) (omega arith) (omega arith) in
    let high =
      bit_xor_cancel k (a / 2) (b / 2) (c / 2) (omega (arith, pow-suc 2 k))
        (omega (arith, pow-suc 2 k)) (omega (arith, x, y, p, q, same)) in
    let low =
      differ_cancel (a % 2) (b % 2) (c % 2) (omega arith) (omega arith) (omega arith)
        (omega (arith, x, y, p, q, same)) in
    omega (arith, high, low)

-- A bit above all of `a`.
pub bit_xor-le : (k a b : ℕ) → a < 2 ^ k → 2 ^ k ≤ b → 2 ^ k ≤ bit_xor a b
bit_xor-le zero zero b ha hb = omega (arith, bit_xor-bitwise 0 b, hb)
bit_xor-le zero (suc a) b ha hb = absurd (omega arith)
bit_xor-le (suc k) a b ha hb = omega (
  arith,
  bit_xor_halves a b,
  pow-suc 2 k,
  bit_xor-le k (a / 2) (b / 2) (omega (arith, pow-suc 2 k)) (omega (arith, pow-suc 2 k)),
)

-- `x & 1`.
bit_and_halves : (a b : ℕ) → bit_and a b ≡ bit_and (a / 2) (b / 2) * 2 + min (a % 2) (b % 2)
bit_and_halves zero b = omega (arith, bit_and-bitwise 0 b, bit_and-bitwise 0 (b / 2))
bit_and_halves (suc a) b = omega (
  arith,
  bit_and-bitwise (suc a) b,
  bit_and-bitwise (suc a / 2) (b / 2),
  digits_enough (λ b. zero) min a (suc a / 2) (suc a / 2) (b / 2) (omega arith) (omega arith),
)

bit_and_zero : (k a : ℕ) → a < 2 ^ k → bit_and a 0 ≡ 0
bit_and_zero zero zero h = bit_and-bitwise 0 0
bit_and_zero zero (suc a) h = absurd (omega arith)
bit_and_zero (suc k) a h =
    omega (arith, bit_and_halves a 0, bit_and_zero k (a / 2) (omega (arith, pow-suc 2 k)))

pub bit_and_one : (k a : ℕ) → a < 2 ^ k → bit_and a 1 ≡ a % 2
bit_and_one k a h = omega (arith, bit_and_halves a 1, bit_and_zero k (a / 2) (omega arith))

differ_comm : (c d : ℕ) → c < 2 → d < 2 → differ c d ≡ differ d c
differ_comm zero zero p q = refl
differ_comm zero (suc zero) p q = refl
differ_comm (suc zero) zero p q = refl
differ_comm (suc zero) (suc zero) p q = refl
differ_comm (suc (suc c)) d p q = absurd (omega arith)
differ_comm c (suc (suc d)) p q = absurd (omega arith)

pub bit_xor_comm : (k a b : ℕ) → a < 2 ^ k → b < 2 ^ k → bit_xor a b ≡ bit_xor b a
bit_xor_comm zero zero zero ha hb = refl
bit_xor_comm zero (suc a) b ha hb = absurd (omega arith)
bit_xor_comm zero a (suc b) ha hb = absurd (omega arith)
bit_xor_comm (suc k) a b ha hb = omega (
  arith,
  bit_xor_halves a b,
  bit_xor_halves b a,
  differ_comm (a % 2) (b % 2) (omega arith) (omega arith),
  bit_xor_comm k (a / 2) (b / 2) (omega (arith, pow-suc 2 k)) (omega (arith, pow-suc 2 k)),
)
