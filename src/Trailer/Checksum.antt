-- ===== src/Trailer/Checksum.antt =====
-- `crc32_ieee` tells bytes apart that differ in one place.
use ota_common.Common.{
  ℕ, zero, suc, ◌/◌, ◌%◌, ◌<◌, ◌≡◌, ◌≢◌, sym, ap, ◌∙◌, arith, inl, inr, List, [], ◌∷◌, ◌++◌,
  bit_and, bit_xor, sub32, IsBytes, IsBytes-split, ◌==◌, Bool-cases,
}
use ota_common.Common.Bits.{bit_xor-lt, bit_and-lt}
use ota_common.Common.Bits.Xor.{bit_xor_cancel, bit_xor-le, bit_xor_comm, bit_and_one}
use ota_common.Trailer.{crc_bits, crc_loop, crc32_ieee}
use ota_common.Trailer.Valid.{crc_bits-lt, crc_loop-lt}

-- What one round adds to the shifted checksum.
abbrev tap : ℕ → ℕ
tap crc = bit_and 0xEDB88320 (sub32 0 (bit_and crc 1))

abbrev step : ℕ → ℕ
step crc = bit_xor (crc / 2) (tap crc)

step-lt : (crc : ℕ) → crc < 4294967296 → step crc < 4294967296
step-lt crc h =
    bit_xor-lt 32 (crc / 2) (tap crc) (omega arith)
      (bit_and-lt 32 0xEDB88320 (sub32 0 (bit_and crc 1)) (omega arith) (omega arith))

step-even : (crc : ℕ) → crc < 4294967296 → crc % 2 ≡ 0 → step crc ≡ bit_xor (crc / 2) 0
step-even crc h even =
    ap (λ (b : ℕ). bit_xor (crc / 2) (bit_and 0xEDB88320 (sub32 0 b))) (bit_and_one 32 crc h ∙ even)

step-odd : (crc : ℕ) → crc < 4294967296 → crc % 2 ≡ 1 → step crc ≡ bit_xor (crc / 2) 0xEDB88320
step-odd crc h odd =
    ap (λ (b : ℕ). bit_xor (crc / 2) (bit_and 0xEDB88320 (sub32 0 b))) (bit_and_one 32 crc h ∙ odd)

-- An even and an odd checksum are kept apart by the highest bit of the polynomial.
step-parity : (c d : ℕ) → c < 4294967296 → d < 4294967296 → c % 2 ≡ 0 → d % 2 ≡ 1 → step c ≢ step d
step-parity c d hc hd even odd same =
    let low = bit_xor-lt 31 (c / 2) 0 (omega arith) (omega arith) in
    let high = bit_xor-le 31 (d / 2) 0xEDB88320 (omega arith) (omega arith) in
    absurd (omega (arith, step-even c hc even, step-odd d hd odd, same, low, high))

step_inj : (c d : ℕ) → c < 4294967296 → d < 4294967296 → step c ≡ step d → c ≡ d
step_inj c d hc hd same = elim (Bool-cases (c % 2 == 0)) [
  | inl even ↦ elim (Bool-cases (d % 2 == 0)) [
    | inl even' ↦
        let e : c % 2 ≡ 0 = ground arith in
        let e' : d % 2 ≡ 0 = ground arith in
        let halves =
          bit_xor_cancel 31 (c / 2) (d / 2) 0 (omega arith) (omega arith)
            (sym (step-even c hc e) ∙ same ∙ step-even d hd e') in
        omega (arith, halves, e, e')
    | inr odd' ↦ absurd (step-parity c d hc hd (ground arith) (ground arith) same)
  ]
  | inr odd ↦ elim (Bool-cases (d % 2 == 0)) [
    | inl even' ↦ absurd (step-parity d c hd hc (ground arith) (ground arith) (sym same))
    | inr odd' ↦
        let e : c % 2 ≡ 1 = ground arith in
        let e' : d % 2 ≡ 1 = ground arith in
        let halves =
          bit_xor_cancel 31 (c / 2) (d / 2) 0xEDB88320 (omega arith) (omega arith)
            (sym (step-odd c hc e) ∙ same ∙ step-odd d hd e') in
        omega (arith, halves, e, e')
  ]
]

crc_bits_inj :
    (left c d : ℕ) → c < 4294967296 → d < 4294967296 → crc_bits left c ≡ crc_bits left d → c ≡ d
unfolding crc_bits
crc_bits_inj zero c d hc hd same = same
crc_bits_inj (suc left) c d hc hd same =
    step_inj c d hc hd (crc_bits_inj left (step c) (step d) (step-lt c hc) (step-lt d hd) same)

-- After the same bytes, checksums that differ still differ.
crc_loop_inj :
    (input : List ℕ) (c d : ℕ)
    → IsBytes input
    → c < 4294967296
    → d < 4294967296
    → crc_loop c input ≡ crc_loop d input
    → c ≡ d
unfolding crc_loop
crc_loop_inj [] c d w hc hd same = same
crc_loop_inj (x ∷ input) c d w hc hd same =
    let byte : x < 4294967296 = omega (arith, w.0) in
    let c' = bit_xor-lt 32 c x hc byte in
    let d' = bit_xor-lt 32 d x hd byte in
    let rounds =
      crc_loop_inj input (crc_bits 8 (bit_xor c x)) (crc_bits 8 (bit_xor d x)) w.1
        (crc_bits-lt 8 (bit_xor c x) c') (crc_bits-lt 8 (bit_xor d x) d') same in
    bit_xor_cancel 32 c d x hc hd (crc_bits_inj 8 (bit_xor c x) (bit_xor d x) c' d' rounds)

crc_loop_tells :
    (before after : List ℕ) (x y c : ℕ)
    → IsBytes before
    → IsBytes after
    → x < 256
    → y < 256
    → c < 4294967296
    → crc_loop c (before ++ (x ∷ after)) ≡ crc_loop c (before ++ (y ∷ after))
    → x ≡ y
unfolding crc_loop
crc_loop_tells [] after x y c wb wa hx hy hc same =
    let bx : x < 4294967296 = omega arith in
    let by' : y < 4294967296 = omega arith in
    let cx = bit_xor-lt 32 c x hc bx in
    let cy = bit_xor-lt 32 c y hc by' in
    let rounds =
      crc_loop_inj after (crc_bits 8 (bit_xor c x)) (crc_bits 8 (bit_xor c y)) wa
        (crc_bits-lt 8 (bit_xor c x) cx) (crc_bits-lt 8 (bit_xor c y) cy) same in
    bit_xor_cancel 32 x y c bx by' (
      bit_xor_comm 32 x c bx hc
      ∙ crc_bits_inj 8 (bit_xor c x) (bit_xor c y) cx cy rounds
      ∙ bit_xor_comm 32 c y hc by')
crc_loop_tells (b ∷ before) after x y c wb wa hx hy hc same =
    crc_loop_tells before after x y (crc_bits 8 (bit_xor c b)) wb.1 wa hx hy
      (crc_bits-lt 8 (bit_xor c b) (bit_xor-lt 32 c b hc (omega (arith, wb.0)))) same

-- Two series of bytes with the same checksum that are the same up to one place are the same there.
pub crc32_ieee_tells :
    (before after : List ℕ) (x y : ℕ)
    → IsBytes (before ++ (x ∷ after))
    → IsBytes (before ++ (y ∷ after))
    → crc32_ieee (before ++ (x ∷ after)) ≡ crc32_ieee (before ++ (y ∷ after))
    → x ≡ y
unfolding crc32_ieee
crc32_ieee_tells before after x y wx wy same =
    let (wb, ws) = IsBytes-split before (x ∷ after) wx in
    let (wb', ws') = IsBytes-split before (y ∷ after) wy in
    crc_loop_tells before after x y 0xFFFFFFFF wb ws.1 ws.0 ws'.0 (omega arith) (
      bit_xor_cancel 32 (crc_loop 0xFFFFFFFF (before ++ (x ∷ after)))
        (crc_loop 0xFFFFFFFF (before ++ (y ∷ after))) 0xFFFFFFFF
        (crc_loop-lt 0xFFFFFFFF (before ++ (x ∷ after)) (omega arith) wx)
        (crc_loop-lt 0xFFFFFFFF (before ++ (y ∷ after)) (omega arith) wy) same)
