-- ===== src/Common/Slices.antt =====
-- Parts of a buffer: `memcpy` out of it, and into it.
use Prim.Native.Nat.{ℕ, zero, suc, ◌+◌, ◌-◌, ◌*◌, ◌≤◌, ◌<◌}
use mathlib.Core.Path.{◌≡◌, refl, sym, ap, ap₂, subst, ◌∙◌}
use mathlib.Core.Logic.{◌⊎◌, inl, inr}
use mathlib.Core.List.{List, [], ◌∷◌, ◌++◌}
use native.Mathlib.Omega.{arith}
use ota_common.Common.Lists.{length, take, drop, get_or, length-append, length-take, length-drop}

module _ {ℓ} {A : Type ℓ} where
  -- The `n` elements from `off` on; fewer where the buffer ends before.
  abbrev pub slice : ℕ → ℕ → List A → List A
  slice off n xs = take n (drop off xs)

  -- `memcpy(buf + off, data, len)`, for a range that lies in the buffer.
  abbrev pub write_at : List A → ℕ → List A → List A
  write_at buf off part = take off buf ++ (part ++ drop (off + length part) buf)

  pub take-append-drop : (n : ℕ) (xs : List A) → take n xs ++ drop n xs ≡ xs
  take-append-drop zero xs = refl
  take-append-drop (suc n) [] = refl
  take-append-drop (suc n) (x ∷ xs) = ap (λ t. x ∷ t) (take-append-drop n xs)

  pub take_all : (n : ℕ) (xs : List A) → length xs ≤ n → take n xs ≡ xs
  take_all zero [] h = refl
  take_all zero (x ∷ xs) h = absurd (omega arith)
  take_all (suc n) [] h = refl
  take_all (suc n) (x ∷ xs) h = ap (λ t. x ∷ t) (take_all n xs (omega arith))

  pub drop_all : (n : ℕ) (xs : List A) → length xs ≤ n → drop n xs ≡ []
  drop_all zero [] h = refl
  drop_all zero (x ∷ xs) h = absurd (omega arith)
  drop_all (suc n) [] h = refl
  drop_all (suc n) (x ∷ xs) h = drop_all n xs (omega arith)

  pub take_taken_length : (n : ℕ) (xs : List A) → take (length (take n xs)) xs ≡ take n xs
  take_taken_length zero xs = refl
  take_taken_length (suc n) [] = refl
  take_taken_length (suc n) (x ∷ xs) = ap (λ t. x ∷ t) (take_taken_length n xs)

  -- A slice, and an element, of a prefix.
  pub slice-take : (o n m : ℕ) (xs : List A) → o + n ≤ m → slice o n (take m xs) ≡ slice o n xs
  slice-take zero zero m xs h = refl
  slice-take zero (suc n) zero xs h = absurd (omega arith)
  slice-take zero (suc n) (suc m) [] h = refl
  slice-take zero (suc n) (suc m) (x ∷ xs) h =
      ap (λ t. x ∷ t) (slice-take zero n m xs (omega arith))
  slice-take (suc o) zero m xs h = refl
  slice-take (suc o) (suc n) zero xs h = absurd (omega arith)
  slice-take (suc o) (suc n) (suc m) [] h = refl
  slice-take (suc o) (suc n) (suc m) (x ∷ xs) h = slice-take o (suc n) m xs (omega arith)

  pub get_or-take : (n i : ℕ) (xs : List A) (d : A) → i < n → get_or (take n xs) i d ≡ get_or xs i d
  get_or-take zero i xs d h = absurd (omega arith)
  get_or-take (suc n) i [] d h = refl
  get_or-take (suc n) zero (x ∷ xs) d h = refl
  get_or-take (suc n) (suc i) (x ∷ xs) d h = get_or-take n i xs d (omega arith)

  pub drop-take : (o n m : ℕ) (xs : List A) → o + n ≡ m → drop o (take m xs) ≡ slice o n xs
  drop-take zero n m xs e = ap (λ (k : ℕ). take k xs) (omega arith)
  drop-take (suc o) n zero xs e = absurd (omega arith)
  drop-take (suc o) zero (suc m) [] e = refl
  drop-take (suc o) (suc n) (suc m) [] e = refl
  drop-take (suc o) n (suc m) (x ∷ xs) e = drop-take o n m xs (omega arith)

  pub take_left : (n : ℕ) (xs ys : List A) → length xs ≡ n → take n (xs ++ ys) ≡ xs
  take_left zero [] ys e = refl
  take_left zero (x ∷ xs) ys e = absurd (omega arith)
  take_left (suc n) [] ys e = absurd (omega arith)
  take_left (suc n) (x ∷ xs) ys e = ap (λ t. x ∷ t) (take_left n xs ys (omega arith))

  pub drop_left : (n : ℕ) (xs ys : List A) → length xs ≡ n → drop n (xs ++ ys) ≡ ys
  drop_left zero [] ys e = refl
  drop_left zero (x ∷ xs) ys e = absurd (omega arith)
  drop_left (suc n) [] ys e = absurd (omega arith)
  drop_left (suc n) (x ∷ xs) ys e = drop_left n xs ys (omega arith)

  pub take-append_le : (n : ℕ) (xs ys : List A) → n ≤ length xs → take n (xs ++ ys) ≡ take n xs
  take-append_le zero xs ys h = refl
  take-append_le (suc n) [] ys h = absurd (omega arith)
  take-append_le (suc n) (x ∷ xs) ys h = ap (λ t. x ∷ t) (take-append_le n xs ys (omega arith))

  pub drop-append_le :
      (n : ℕ) (xs ys : List A) → n ≤ length xs → drop n (xs ++ ys) ≡ drop n xs ++ ys
  drop-append_le zero xs ys h = refl
  drop-append_le (suc n) [] ys h = absurd (omega arith)
  drop-append_le (suc n) (x ∷ xs) ys h = drop-append_le n xs ys (omega arith)

  pub drop-drop : (m n k : ℕ) (xs : List A) → m + n ≡ k → drop n (drop m xs) ≡ drop k xs
  drop-drop zero n k xs e = ap (λ j. drop j xs) (omega arith)
  drop-drop (suc m) zero zero [] e = refl
  drop-drop (suc m) zero (suc k) [] e = refl
  drop-drop (suc m) (suc n) zero [] e = refl
  drop-drop (suc m) (suc n) (suc k) [] e = refl
  drop-drop (suc m) n zero (x ∷ xs) e = absurd (omega arith)
  drop-drop (suc m) n (suc k) (x ∷ xs) e = drop-drop m n k xs (omega arith)

  -- Two neighbouring slices make one.
  pub take-add : (m n k : ℕ) (xs : List A) → m + n ≡ k → take m xs ++ take n (drop m xs) ≡ take k xs
  take-add zero n k xs e = ap (λ j. take j xs) (omega arith)
  take-add (suc m) zero zero [] e = refl
  take-add (suc m) zero (suc k) [] e = refl
  take-add (suc m) (suc n) zero [] e = refl
  take-add (suc m) (suc n) (suc k) [] e = refl
  take-add (suc m) n zero (x ∷ xs) e = absurd (omega arith)
  take-add (suc m) n (suc k) (x ∷ xs) e = ap (λ t. x ∷ t) (take-add m n k xs (omega arith))

  pub length-slice : (off n : ℕ) (xs : List A) → off + n ≤ length xs → length (slice off n xs) ≡ n
  length-slice off n xs h = omega (arith, length-take n (drop off xs), length-drop off xs)

  pub length-write_at :
      (buf : List A) (off : ℕ) (part : List A)
      → off + length part ≤ length buf
      → length (write_at buf off part) ≡ length buf
  length-write_at buf off part h = omega (
    arith,
    length-append (take off buf) (part ++ drop (off + length part) buf),
    length-append part (drop (off + length part) buf),
    length-take off buf,
    length-drop (off + length part) buf,
  )

  -- What was copied in is read back.
  pub slice-write_at :
      (buf : List A) (off : ℕ) (part : List A)
      → off + length part ≤ length buf
      → slice off (length part) (write_at buf off part) ≡ part
  slice-write_at buf off part h =
      ap (take (length part)) (
        drop_left off (take off buf) (part ++ drop (off + length part) buf)
          (omega (arith, length-take off buf)))
      ∙ take_left (length part) part (drop (off + length part) buf) refl

  pub drop-append_ge :
      (n k : ℕ) (xs ys : List A) → length xs ≡ n → drop (n + k) (xs ++ ys) ≡ drop k ys
  drop-append_ge n k xs ys e =
      sym (drop-drop n k (n + k) (xs ++ ys) refl) ∙ ap (drop k) (drop_left n xs ys e)

  pub take-append_ge :
      (k m : ℕ) (xs ys : List A) → length xs + k ≡ m → take m (xs ++ ys) ≡ xs ++ take k ys
  take-append_ge k m [] ys e = ap (λ (j : ℕ). take j ys) (omega arith)
  take-append_ge k zero (x ∷ xs) ys e = absurd (omega arith)
  take-append_ge k (suc m) (x ∷ xs) ys e = ap (λ t. x ∷ t) (take-append_ge k m xs ys (omega arith))

  -- Two neighbouring slices in the middle of a buffer.
  pub slice-add :
      (off m n : ℕ) (xs : List A) → slice off m xs ++ slice (off + m) n xs ≡ slice off (m + n) xs
  slice-add off m n xs =
      ap (λ t. slice off m xs ++ take n t) (sym (drop-drop off m (off + m) xs refl))
      ∙ take-add m n (m + n) (drop off xs) refl

  -- A slice within the first `m` elements does not see what follows them.
  slice-append_le :
      (o n : ℕ) (xs ys : List A) → o + n ≤ length xs → slice o n (xs ++ ys) ≡ slice o n xs
  slice-append_le o n xs ys h =
      ap (take n) (drop-append_le o xs ys (omega arith))
      ∙ take-append_le n (drop o xs) ys (omega (arith, length-drop o xs))

  slice-write_at_before :
      (buf : List A) (off : ℕ) (part : List A) (o n : ℕ)
      → off ≤ length buf
      → o + n ≤ off
      → slice o n (write_at buf off part) ≡ slice o n buf
  slice-write_at_before buf off part o n inside h =
      let room : o + n ≤ length (take off buf) = omega (arith, length-take off buf) in
      slice-append_le o n (take off buf) _ room
      ∙ (sym (slice-append_le o n (take off buf) (drop off buf) room)
          ∙ ap (slice o n) (take-append-drop off buf))

  slice-write_at_after :
      (buf : List A) (off : ℕ) (part : List A) (k n : ℕ)
      → off + length part ≤ length buf
      → let o = off + length part + k in slice o n (write_at buf off part) ≡ slice o n buf
  slice-write_at_after buf off part k n inside = ap (take n) (
      ap (λ (j : ℕ). drop j (write_at buf off part)) (omega arith)
      ∙ drop-append_ge off (length part + k) (take off buf) _ (omega (arith, length-take off buf))
      ∙ drop-append_ge (length part) k part (drop (off + length part) buf) refl
      ∙ drop-drop (off + length part) k (off + length part + k) buf refl)

  -- What lies beside the range that is copied in stays.
  pub slice-write_at_ne :
      (buf : List A) (off : ℕ) (part : List A) (o n : ℕ)
      → off + length part ≤ length buf
      → (o + n ≤ off) ⊎ (off + length part ≤ o)
      → slice o n (write_at buf off part) ≡ slice o n buf
  slice-write_at_ne buf off part o n inside (inl before) =
      slice-write_at_before buf off part o n (omega arith) before
  slice-write_at_ne buf off part o n inside (inr after) =
      let split : off + length part + (o - (off + length part)) ≡ o = omega arith in
      subst (λ (j : ℕ). slice j n (write_at buf off part) ≡ slice j n buf) split
        (slice-write_at_after buf off part (o - (off + length part)) n inside)

  -- Lists that agree on their first `k` pieces of a size agree on what these cover.
  pub take-pieces :
      (size k : ℕ) (xs ys : List A)
      → ((i : ℕ) → i < k → slice (i * size) size xs ≡ slice (i * size) size ys)
      → take (k * size) xs ≡ take (k * size) ys
  take-pieces size zero xs ys same =
      let none_yet : 0 * size ≡ 0 = omega arith in
      ap (λ (j : ℕ). take j xs) none_yet ∙ sym (ap (λ (j : ℕ). take j ys) none_yet)
  take-pieces size (suc k) xs ys same =
      let next : k * size + size ≡ suc k * size = omega arith in
      sym (take-add (k * size) size (suc k * size) xs next)
      ∙ ap₂ (λ ps qs. ps ++ qs) (take-pieces size k xs ys (λ i h. same i (omega arith)))
          (same k (omega arith))
      ∙ take-add (k * size) size (suc k * size) ys next
