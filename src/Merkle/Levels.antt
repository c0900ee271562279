-- ===== src/Merkle/Levels.antt =====
-- The levels of the tree: their lengths, their nodes, and the end of the loop in `merkle_root`.
use ota_common.Common.{
  ℕ, zero, suc, ◌+◌, ◌/◌, ◌≤◌, ◌<◌, ◌≡◌, refl, arith, List, [], ◌∷◌, length, if◌then◌else◌,
}
use ota_common.Merkle.{
  Hash256, reduce_level, node, level_loop, idx_is_last_odd, fold_sibling, sibling,
}

pub length-reduce_level :
    (level : List Hash256) → length (reduce_level level) ≡ (length level + 1) / 2
unfolding reduce_level
length-reduce_level [] = refl
length-reduce_level (a ∷ []) = refl
length-reduce_level (a ∷ b ∷ rest) = omega (arith, length-reduce_level rest)

-- A level of at least one node, with its number of nodes as fuel, is reduced to one node: the loop
-- of `merkle_root` ends within the fuel given to it.
pub length-level_loop :
    (fuel : ℕ) (level : List Hash256)
    → 0 < length level
    → length level ≤ fuel
    → length (level_loop fuel level) ≡ 1
unfolding level_loop
length-level_loop zero level h k = absurd (omega arith)
length-level_loop (suc fuel) level h k =
    ground (arith, length-reduce_level level, length-level_loop fuel (reduce_level level))

sibling_two_on : (i : ℕ) → sibling (suc (suc i)) ≡ suc (suc (sibling i))
unfolding sibling
sibling_two_on i = ground arith

idx_is_last_odd_two_on :
    (i n : ℕ) → i < n → idx_is_last_odd (suc (suc i)) (suc (suc n)) ≡ idx_is_last_odd i n
unfolding idx_is_last_odd
idx_is_last_odd_two_on i n h = ground arith

fold_sibling_two_on : (i : ℕ) (h s : Hash256) → fold_sibling (suc (suc i)) h s ≡ fold_sibling i h s
unfolding fold_sibling
fold_sibling_two_on i h s = ground arith

-- For a node `i` of a level, node `i / 2` of the reduced level is the node itself where it is the
-- last of an odd number, and else the hash of it and its sibling in their order.
pub node-reduce_level :
    (level : List Hash256) (i : ℕ)
    → i < length level
    → node (reduce_level level) (i / 2) ≡ (
        if idx_is_last_odd i (length level)
        then node level i
        else fold_sibling i (node level i) (node level (sibling i)))
unfolding reduce_level
node-reduce_level [] i h = absurd (omega arith)
node-reduce_level (a ∷ []) zero h = unfold idx_is_last_odd in refl
node-reduce_level (a ∷ []) (suc i) h = absurd (omega arith)
node-reduce_level (a ∷ b ∷ rest) zero h =
    unfold idx_is_last_odd fold_sibling sibling in ground arith
node-reduce_level (a ∷ b ∷ rest) (suc zero) h =
    unfold idx_is_last_odd fold_sibling sibling in ground arith
node-reduce_level (a ∷ b ∷ rest) (suc (suc i)) h =
    let half : suc (suc i) / 2 ≡ suc (i / 2) = omega arith in
    rw
      (
        half,
        idx_is_last_odd_two_on i (length rest) (omega arith),
        sibling_two_on i,
        fold_sibling_two_on i,
      )
      (node-reduce_level rest i (omega arith))

pub half-lt : (i n : ℕ) → i < n → i / 2 < (n + 1) / 2
half-lt i n h = omega arith
