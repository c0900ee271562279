-- ===== src/Seeder/Chunks.antt =====
-- The blocks that a payload is cut into.
use ota_common.Common.{
  ℕ, zero, suc, ◌+◌, ◌*◌, ◌≤◌, ◌<◌, ◌≡◌, ap, ◌∙◌, arith, List, [], ◌∷◌, length, get_or, take, drop,
  drop-drop, length-drop, length-take,
}
use ota_common.Seeder.Leaves.{chunks}

-- The block of an index is the piece of the payload at its offset.
pub chunk_at :
    (fuel size : ℕ) (xs : List ℕ) (i : ℕ)
    → 0 < size
    → i < length (chunks fuel size xs)
    → (i * size < length xs) × (get_or (chunks fuel size xs) i [] ≡ take size (drop (i * size) xs))
unfolding chunks
chunk_at zero size xs i s h = absurd (omega arith)
chunk_at (suc fuel) size [] i s h = absurd (omega arith)
chunk_at (suc fuel) size (x ∷ xs) zero s h =
    let none_before : 0 ≡ 0 * size = omega arith in
    (omega arith, ap (λ (k : ℕ). take size (drop k (x ∷ xs))) none_before)
chunk_at (suc fuel) size (x ∷ xs) (suc i) s h =
    let (inside, piece) = chunk_at fuel size (drop size (x ∷ xs)) i s (omega arith) in
    let on : size + i * size ≡ suc i * size = omega arith in
    (
      omega (arith, inside, on, length-drop size (x ∷ xs)),
      piece ∙ ap (take size) (drop-drop size (i * size) (suc i * size) (x ∷ xs) on),
    )

-- No block is longer than the size.
pub chunk_bounded :
    (fuel size : ℕ) (xs : List ℕ) (i : ℕ) → length (get_or (chunks fuel size xs) i []) ≤ size
unfolding chunks
chunk_bounded zero size xs i = omega arith
chunk_bounded (suc fuel) size [] i = omega arith
chunk_bounded (suc fuel) size (x ∷ xs) zero = omega (arith, length-take size (x ∷ xs))
chunk_bounded (suc fuel) size (x ∷ xs) (suc i) = chunk_bounded fuel size (drop size (x ∷ xs)) i

-- A block ends within the payload.
pub chunk_inside :
    (fuel size : ℕ) (xs : List ℕ) (i : ℕ)
    → 0 < size
    → i < length (chunks fuel size xs)
    → i * size + length (get_or (chunks fuel size xs) i []) ≤ length xs
chunk_inside fuel size xs i some_size h =
    let (within, piece) = chunk_at fuel size xs i some_size h in
    omega (
      arith,
      ap length piece,
      length-take size (drop (i * size) xs),
      length-drop (i * size) xs,
      within,
    )

-- The blocks cover the payload.
pub chunks_cover :
    (fuel size : ℕ) (xs : List ℕ)
    → 0 < size
    → length xs ≤ fuel
    → length xs ≤ length (chunks fuel size xs) * size
unfolding chunks
chunks_cover zero size xs some_size enough = omega arith
chunks_cover (suc fuel) size [] some_size enough = omega arith
chunks_cover (suc fuel) size (x ∷ xs) some_size enough =
    let rest = length-drop size (x ∷ xs) in
    let covered = chunks_cover fuel size (drop size (x ∷ xs)) some_size (omega (arith, rest)) in
    omega (arith, rest, covered)
