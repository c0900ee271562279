-- ===== src/Merkle/Nodes.antt =====
-- An inner node has the same hash as a leaf whose block is the two digests below it.
use ota_common.Common.{
  ℕ, zero, suc, ◌+◌, ◌*◌, ◌/◌, ◌≤◌, ◌<◌, ◌≡◌, refl, sym, ap, ◌∙◌, arith, true, List, [], ◌∷◌, ◌++◌,
  append-nil, length,
}
use ota_common.Sha256.{hash, new, update, finish}
use ota_common.Sha256.Digest.{update_all, concat, update_all-hash}
use ota_common.Merkle.{
  Hash256, reduce_level, node, level_loop, idx_is_last_odd, fold_sibling, hash_pair, hash_leaf,
  sibling, merkle_root, merkle_proof, merkle_verify_block,
}
use ota_common.Merkle.Levels.{length-reduce_level, node-reduce_level}
use ota_common.Merkle.Complete.{merkle_verify-merkle_proof}

update_all-two :
    (xs ys : List ℕ)
    → (finish (update (update new xs) ys)).1 ≡ (finish (update_all new (xs ∷ (ys ∷ [])))).1
unfolding update_all
update_all-two xs ys = refl

-- The two hash functions agree where the block is the two digests.
pub hash_pair-hash_leaf :
    (left right : Hash256) → hash_pair left right ≡ hash_leaf (left.bytes ++ right.bytes)
unfolding hash_pair hash_leaf concat
hash_pair-hash_leaf left right =
    ap (λ b. record { bytes = b })
      (update_all-two left.bytes right.bytes
        ∙ (update_all-hash (left.bytes ∷ (right.bytes ∷ []))
            ∙ ap (λ t. hash (left.bytes ++ t)) (append-nil right.bytes)))

-- The fuel does not matter once it is enough.
level_loop-fuel :
    (m n : ℕ) (level : List Hash256)
    → length level ≤ m
    → length level ≤ n
    → level_loop m level ≡ level_loop n level
unfolding level_loop
level_loop-fuel zero zero level a b = refl
level_loop-fuel zero (suc n) level a b = ground arith
level_loop-fuel (suc m) zero level a b = ground arith
level_loop-fuel (suc m) (suc n) level a b =
    ground (arith, length-reduce_level level, level_loop-fuel m n (reduce_level level))

node-pair :
    (level : List Hash256) (i : ℕ)
    → i * 2 + 1 < length level
    → node (reduce_level level) i ≡ hash_pair (node level (i * 2)) (node level (i * 2 + 1))
unfolding idx_is_last_odd fold_sibling sibling
node-pair level i h =
    let half : i * 2 / 2 ≡ i = omega arith in
    let at_left = node-reduce_level level (i * 2) (omega arith) in
    ap (node (reduce_level level)) (sym half) ∙ (at_left ∙ ground arith)

merkle_root-node :
    (leaves : List Hash256)
    → 0 < length leaves
    → merkle_root leaves ≡ node (level_loop (length leaves) leaves) 0
unfolding merkle_root
merkle_root-node [] h = absurd (omega arith)
merkle_root-node (leaf ∷ leaves) h = refl

level_loop-reduce_level :
    (fuel : ℕ) (level : List Hash256)
    → 1 < length level
    → level_loop (suc fuel) level ≡ level_loop fuel (reduce_level level)
unfolding level_loop
level_loop-reduce_level fuel level h = ground arith

root-reduce_level :
    (leaves : List Hash256)
    → 1 < length leaves
    → merkle_root (reduce_level leaves) ≡ merkle_root leaves
root-reduce_level leaves h =
    let size = length-reduce_level leaves in
    let above = reduce_level leaves in
    merkle_root-node above (omega (arith, size))
    ∙ (ap (λ t. node t 0)
          (level_loop-fuel (length above) (length leaves) above (omega arith) (omega (arith, size))
            ∙ (sym (level_loop-reduce_level (length leaves) leaves h)
                ∙ level_loop-fuel (suc (length leaves)) (length leaves) leaves (omega arith)
                    (omega arith)))
        ∙ sym (merkle_root-node leaves (omega arith)))

-- The tree does not tell a leaf from an inner node: against the root of any leaves, the block that
-- is the digests of leaves `2 i` and `2 i + 1` one after the other is accepted as block `i` of half
-- as many blocks, rounded up, with the proof of that inner node.
pub inner_node_accepted :
    (leaves : List Hash256) (i : ℕ)
    → i * 2 + 1 < length leaves
    → merkle_verify_block
        ((node leaves (i * 2)).bytes ++ (node leaves (i * 2 + 1)).bytes)
        i
        ((length leaves + 1) / 2)
        (merkle_proof (reduce_level leaves) i)
        (merkle_root leaves)
      ≡ true
unfolding merkle_verify_block
inner_node_accepted leaves i h =
    let size = length-reduce_level leaves in
    let leaf = sym (
      node-pair leaves i h ∙ hash_pair-hash_leaf (node leaves (i * 2)) (node leaves (i * 2 + 1))) in
    rw (leaf, sym size, sym (root-reduce_level leaves (omega arith)))
      (merkle_verify-merkle_proof (reduce_level leaves) i (omega (arith, size)))
