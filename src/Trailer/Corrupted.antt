-- ===== src/Trailer/Corrupted.antt =====
-- A trailer of which one byte has changed is not valid any more.
use ota_common.Common.{
  ℕ, zero, suc, ◌+◌, ◌-◌, ◌<◌, ◌≤◌, ◌≡◌, ◌≢◌, refl, sym, ap, ap₂, subst, ◌∙◌, arith, inl, inr, true,
  false, List, [], ◌∷◌, ◌++◌, some, length, get_or, take, slice, IsBytes, IsBytes-split,
  IsBytes-take, IsBytes-append, Bool-cases, ltb, append-nil, slice-add, take-append_ge,
  take-append_le, take_all, take_left, length-take, drop_left, length-append, le→ltb, ltb→lt,
  ltb-false,
}
use ota_common.Wire.{get16, get32, put16, put32}
use ota_common.Wire.Layout.{concat}
use ota_common.Wire.Prefix.{get32_ext}
use ota_common.Wire.Fields.{put16-get16, put32-get32}
use ota_common.Trailer.{
  OtaTrailer, checked_parts, trailer_bytes, trailer_at, crc32_ieee, trailer_is_valid,
  trailer_from_image_tail,
}
use ota_common.Trailer.Checksum.{crc32_ieee_tells}

valid_checksum :
    (t : OtaTrailer) → trailer_is_valid t ≡ true → crc32_ieee (take 168 (trailer_bytes t)) ≡ t.crc32
unfolding trailer_is_valid
valid_checksum t valid = ground arith

get_or_here : (before after : List ℕ) (x : ℕ) → get_or (before ++ (x ∷ after)) (length before) 0 ≡ x
get_or_here [] after x = refl
get_or_here (b ∷ before) after x = get_or_here before after x

get_or_beside :
    (before after : List ℕ) (x y i : ℕ)
    → length before < i
    → get_or (before ++ (x ∷ after)) i 0 ≡ get_or (before ++ (y ∷ after)) i 0
get_or_beside before after x y zero h = absurd (omega arith)
get_or_beside [] after x y (suc i) h = refl
get_or_beside (b ∷ before) after x y (suc i) h = get_or_beside before after x y i (omega arith)

module _ (p : List ℕ) (bytes : IsBytes p) (len : length p ≡ 172) where
  -- The part of a field and those behind it.
  join :
      (off n m : ℕ) (x rest : List ℕ)
      → x ≡ slice off n p
      → rest ≡ slice (off + n) m p
      → x ++ rest ≡ slice off (n + m) p
  join off n m x rest e f = ap₂ (λ a b. a ++ b) e f ∙ slice-add off n m p

  word : (off : ℕ) → off + 4 ≤ 172 → put32 (get32 p off) ≡ slice off 4 p
  word off h = put32-get32 off p bytes (omega (arith, len))

  half : (off : ℕ) → off + 2 ≤ 172 → put16 (get16 p off) ≡ slice off 2 p
  half off h = put16-get16 off p bytes (omega (arith, len))

  -- The fields read are the bytes in front of the checksum.
  checked_parts-trailer_at : concat (checked_parts (trailer_at p)) ≡ take 168 p
  unfolding checked_parts trailer_at
  checked_parts-trailer_at = join 0 4 164 (put32 (get32 p 0)) _ (word 0 (omega arith)) (
      join 4 2 162 (put16 (get16 p 4)) _ (half 4 (omega arith)) (
        join 6 2 160 (put16 (get16 p 6)) _ (half 6 (omega arith)) (
          join 8 32 128 (slice 8 32 p) _ refl (
            join 40 48 80 (slice 40 48 p) _ refl (
              join 88 16 64 (slice 88 16 p) _ refl (
                join 104 48 16 (slice 104 48 p) _ refl (
                  join 152 4 12 (put32 (get32 p 152)) _ (word 152 (omega arith)) (
                    join 156 4 8 (put32 (get32 p 156)) _ (word 156 (omega arith)) (
                      join 160 4 4 (put32 (get32 p 160)) _ (word 160 (omega arith))
                        (append-nil (put32 (get32 p 164)) ∙ word 164 (omega arith)))))))))))

  covered : take 168 (trailer_bytes (trailer_at p)) ≡ take 168 p
  unfolding trailer_bytes
  covered =
      let size : length (concat (checked_parts (trailer_at p))) ≡ 168 =
        omega (arith, ap length checked_parts-trailer_at, length-take 168 p, len) in
      take_left 168 (concat (checked_parts (trailer_at p))) _ size ∙ checked_parts-trailer_at

  valid-crc32 : trailer_is_valid (trailer_at p) ≡ true → crc32_ieee (take 168 p) ≡ get32 p 168
  unfolding trailer_at
  valid-crc32 valid = ap crc32_ieee (sym covered) ∙ valid_checksum (trailer_at p) valid

  -- The bytes are those that the checksum covers, and the checksum.
  two_parts : take 168 p ++ put32 (get32 p 168) ≡ p
  two_parts =
      ap (λ t. take 168 p ++ t) (word 168 (omega arith))
      ∙ slice-add 0 168 4 p
      ∙ take_all 172 p (omega (arith, len))

module _ (before after : List ℕ) (x y : ℕ) where
  abbrev with_byte : ℕ → List ℕ
  with_byte z = before ++ (z ∷ after)

  same_len : length (with_byte y) ≡ length (with_byte x)
  same_len = omega (arith, length-append before (y ∷ after), length-append before (x ∷ after))

  -- The changed byte is one that the checksum covers.
  covered_same :
      length before < 168
      → IsBytes (with_byte x)
      → IsBytes (with_byte y)
      → crc32_ieee (take 168 (with_byte x)) ≡ crc32_ieee (take 168 (with_byte y))
      → x ≡ y
  covered_same inside bx by' same =
      let j = 167 - length before in
      let cut : (z : ℕ) → take 168 (with_byte z) ≡ before ++ (z ∷ take j after) =
        λ z. take-append_ge (suc j) 168 before (z ∷ after) (omega arith) in
      crc32_ieee_tells before (take j after) x y (subst IsBytes (cut x) (IsBytes-take 168 _ bx))
        (subst IsBytes (cut y) (IsBytes-take 168 _ by'))
        (ap crc32_ieee (sym (cut x)) ∙ same ∙ ap crc32_ieee (cut y))

  -- The changed byte is one of the checksum.
  stored_same :
      168 ≤ length before
      → length (with_byte x) ≡ 172
      → IsBytes (with_byte x)
      → IsBytes (with_byte y)
      → get32 (with_byte x) 168 ≡ get32 (with_byte y) 168
      → x ≡ y
  stored_same outside len bx by' same =
      let front : take 168 (with_byte x) ≡ take 168 (with_byte y) =
        take-append_le 168 before (x ∷ after) outside
        ∙ sym (take-append_le 168 before (y ∷ after) outside) in
      let all : with_byte x ≡ with_byte y =
        sym (two_parts (with_byte x) bx len)
        ∙ ap₂ (λ (t : List ℕ) (v : ℕ). t ++ put32 v) front same
        ∙ two_parts (with_byte y) by' (same_len ∙ len) in
      sym (get_or_here before after x)
      ∙ ap (λ (t : List ℕ). get_or t (length before) 0) all
      ∙ get_or_here before after y

  same_byte :
      length (with_byte x) ≡ 172
      → IsBytes (with_byte x)
      → IsBytes (with_byte y)
      → crc32_ieee (take 168 (with_byte x)) ≡ get32 (with_byte x) 168
      → crc32_ieee (take 168 (with_byte y)) ≡ get32 (with_byte y) 168
      → x ≡ y
  same_byte len bx by' cx cy = elim (Bool-cases (ltb (length before) 168)) [
    | inl inside ↦
        let front : length before < 168 = ltb→lt (length before) 168 inside in
        let stored =
          get32_ext 168 (with_byte x) (with_byte y)
            (λ k h. get_or_beside before after x y (168 + k) (omega (arith, front))) in
        covered_same front bx by' (cx ∙ stored ∙ sym cy)
    | inr outside ↦
        let behind : 168 ≤ length before = ltb-false (length before) 168 outside in
        let front = ap crc32_ieee (
          take-append_le 168 before (x ∷ after) behind
          ∙ sym (take-append_le 168 before (y ∷ after) behind)) in
        stored_same behind len bx by' (sym cx ∙ front ∙ cy)
  ]

-- The trailer of an image that ends with 172 bytes.
tail-valid :
    (image p : List ℕ)
    → length p ≡ 172
    → (trailer_from_image_tail (some (image ++ p))).0 ≡ trailer_is_valid (trailer_at p)
unfolding trailer_from_image_tail
tail-valid image p len =
    let size : length (image ++ p) ≡ length image + 172 =
      omega (arith, length-append image p, len) in
    let tail : slice (length (image ++ p) - 172) 172 (image ++ p) ≡ p =
      ap (take 172) (drop_left (length (image ++ p) - 172) image p (omega (arith, size)))
      ∙ take_all 172 p (omega (arith, len)) in
    rw (le→ltb (length (image ++ p)) 172 (omega (arith, size)), tail) refl

-- If the trailer at the end of an image is valid, it is not once one of its 172 bytes has another
-- value: no change of a single byte goes unnoticed, in the fields or in the checksum.
pub trailer_from_image_tail-corrupted :
    (image before after : List ℕ) (x y : ℕ)
    → length (before ++ (x ∷ after)) ≡ 172
    → IsBytes (before ++ (x ∷ after))
    → y < 256
    → x ≢ y
    → (trailer_from_image_tail (some (image ++ (before ++ (x ∷ after))))).0 ≡ true
    → (trailer_from_image_tail (some (image ++ (before ++ (y ∷ after))))).0 ≡ false
trailer_from_image_tail-corrupted image before after x y len bx hy other valid =
    let p = before ++ (x ∷ after) in
    let q = before ++ (y ∷ after) in
    let len' : length q ≡ 172 = same_len before after x y ∙ len in
    let (wb, ws) = IsBytes-split before (x ∷ after) bx in
    let by' = IsBytes-append before (y ∷ after) wb (hy, ws.1) in
    elim (Bool-cases (trailer_is_valid (trailer_at q))) [
      | inr refused ↦ tail-valid image q len' ∙ refused
      | inl accepted ↦
          let cx = valid-crc32 p bx len (sym (tail-valid image p len) ∙ valid) in
          absurd
            (other (same_byte before after x y len bx by' cx (valid-crc32 q by' len' accepted)))
    ]
