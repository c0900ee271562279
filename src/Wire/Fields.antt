-- ===== src/Wire/Fields.antt =====
-- A word that is read and written again gives back its bytes.
use ota_common.Common.{
  ℕ, zero, suc, ◌+◌, ◌*◌, ◌<◌, ◌≤◌, ◌≡◌, refl, sym, ap, ◌∙◌, arith, List, [], ◌∷◌, length, slice,
  get_or, u8, ◌/◌, IsBytes, ap₂,
}
use ota_common.Wire.{byte_at, put16, get16, put32, get32}
use ota_common.Wire.Words.{get16_sum, get32_sum, put32-bytes}

get_or-lt : (p : List ℕ) (i : ℕ) → IsBytes p → get_or p i 0 < 256
get_or-lt [] i w = omega arith
get_or-lt (x ∷ p) zero w = w.0
get_or-lt (x ∷ p) (suc i) w = get_or-lt p i w.1

slice_cons :
    (off next n : ℕ) (p : List ℕ)
    → off + 1 ≡ next
    → off < length p
    → slice off (suc n) p ≡ byte_at p off ∷ slice next n p
slice_cons off next n [] e h = absurd (omega arith)
slice_cons zero zero n (x ∷ p) e h = absurd (omega arith)
slice_cons zero (suc next) n (x ∷ p) e h =
    let here : 0 ≡ next = omega arith in ap (λ (k : ℕ). x ∷ slice k n p) here
slice_cons (suc off) zero n (x ∷ p) e h = absurd (omega arith)
slice_cons (suc off) (suc next) n (x ∷ p) e h = slice_cons off next n p (omega arith) (omega arith)

-- Two bytes read as a word and written again.
pub put16-get16 :
    (off : ℕ) (p : List ℕ) → IsBytes p → off + 2 ≤ length p → put16 (get16 p off) ≡ slice off 2 p
unfolding put16
put16-get16 off p w h =
    let a = get_or-lt p off w in
    let b = get_or-lt p (off + 1) w in
    let sum = get16_sum p off (byte_at p off) (byte_at p (off + 1)) refl refl a b in
    ap₂ (λ (x y : ℕ). x ∷ y ∷ []) (omega (arith, sum, a, b)) (omega (arith, sum, a, b))
    ∙ sym (
        slice_cons off (off + 1) 1 p refl (omega arith)
        ∙ ap (λ t. byte_at p off ∷ t)
            (slice_cons (off + 1) (off + 2) 0 p (omega arith) (omega arith)))

put32_sum :
    (a b c d : ℕ)
    → a < 256
    → b < 256
    → c < 256
    → d < 256
    → put32 (a + b * 256 + c * 65536 + d * 16777216) ≡ a ∷ b ∷ c ∷ d ∷ []
put32_sum a b c d ha hb hc hd =
    let v = a + b * 256 + c * 65536 + d * 16777216 in
    let e₀ : u8 (v / 1) ≡ a = omega arith in
    let e₁ : u8 (v / 256) ≡ b = omega arith in
    let e₂ : u8 (v / 65536) ≡ c = omega arith in
    let e₃ : u8 (v / 16777216) ≡ d = omega arith in
    put32-bytes v ∙ (λ i. e₀ i ∷ e₁ i ∷ e₂ i ∷ e₃ i ∷ [])

-- Four bytes read as a word and written again.
pub put32-get32 :
    (off : ℕ) (p : List ℕ) → IsBytes p → off + 4 ≤ length p → put32 (get32 p off) ≡ slice off 4 p
put32-get32 off p w h =
    let sum =
      get32_sum p off (byte_at p (off + 0)) (byte_at p (off + 1)) (byte_at p (off + 2))
        (byte_at p (off + 3)) refl refl refl refl (get_or-lt p (off + 0) w)
        (get_or-lt p (off + 1) w) (get_or-lt p (off + 2) w) (get_or-lt p (off + 3) w) in
    let start : off + 0 ≡ off = omega arith in
    ap put32 sum
    ∙ put32_sum (byte_at p (off + 0)) (byte_at p (off + 1)) (byte_at p (off + 2))
        (byte_at p (off + 3)) (get_or-lt p (off + 0) w) (get_or-lt p (off + 1) w)
        (get_or-lt p (off + 2) w) (get_or-lt p (off + 3) w)
    ∙ sym (
        ap (λ (k : ℕ). slice k 4 p) (sym start)
        ∙ slice_cons (off + 0) (off + 1) 3 p (omega arith) (omega arith)
        ∙ ap (λ t. byte_at p (off + 0) ∷ t)
            (slice_cons (off + 1) (off + 2) 2 p (omega arith) (omega arith)
              ∙ ap (λ t. byte_at p (off + 1) ∷ t)
                  (slice_cons (off + 2) (off + 3) 1 p (omega arith) (omega arith)
                    ∙ ap (λ t. byte_at p (off + 2) ∷ t)
                        (slice_cons (off + 3) (off + 4) 0 p (omega arith) (omega arith)))))
