-- ===== src/Merkle/Digests.antt =====
-- The nodes of a tree are digests of 32 bytes.
use ota_common.Common.{ℕ, zero, suc, ◌≡◌, refl, arith, List, [], ◌∷◌, length, map}
use ota_common.Sha256.Stream.{length-finish, length-hash}
use ota_common.Merkle.{
  Hash256, hash_leaf, hash_pair, node, fold_sibling, merkle_root, reduce_level, level_loop,
}

-- A digest of 32 bytes, the size of `Hash256::bytes`.
abbrev pub IsHash : Hash256 → Type 0
IsHash h = length h.bytes ≡ 32

abbrev pub AreHashes : List Hash256 → Type 0
AreHashes [] = Unit {0}
AreHashes (h ∷ hs) = IsHash h × AreHashes hs

pub hash_pair-IsHash : (l r : Hash256) → IsHash (hash_pair l r)
unfolding hash_pair
hash_pair-IsHash l r = length-finish _

pub fold_sibling-IsHash : (i : ℕ) (h s : Hash256) → IsHash (fold_sibling i h s)
unfolding fold_sibling
fold_sibling-IsHash i h s = ground (arith, hash_pair-IsHash h s, hash_pair-IsHash s h)

pub hash_leaf-IsHash : (block : List ℕ) → IsHash (hash_leaf block)
unfolding hash_leaf
hash_leaf-IsHash block = length-hash block

pub reduce_level-AreHashes :
    (level : List Hash256) → AreHashes level → AreHashes (reduce_level level)
unfolding reduce_level
reduce_level-AreHashes [] w = w
reduce_level-AreHashes (a ∷ []) w = w
reduce_level-AreHashes (a ∷ b ∷ rest) w = (hash_pair-IsHash a b, reduce_level-AreHashes rest w.1.1)

pub level_loop-AreHashes :
    (fuel : ℕ) (level : List Hash256) → AreHashes level → AreHashes (level_loop fuel level)
unfolding level_loop
level_loop-AreHashes zero level w = w
level_loop-AreHashes (suc fuel) level w =
    ground (arith, level_loop-AreHashes fuel (reduce_level level) (reduce_level-AreHashes level w))

pub node-IsHash : (level : List Hash256) (i : ℕ) → AreHashes level → IsHash (node level i)
node-IsHash [] i w = refl
node-IsHash (h ∷ hs) zero w = w.0
node-IsHash (h ∷ hs) (suc i) w = node-IsHash hs i w.1

pub merkle_root-IsHash : (leaves : List Hash256) → AreHashes leaves → IsHash (merkle_root leaves)
unfolding merkle_root
merkle_root-IsHash [] w = refl
merkle_root-IsHash (leaf ∷ leaves) w =
    node-IsHash (level_loop _ (leaf ∷ leaves)) 0 (level_loop-AreHashes _ (leaf ∷ leaves) w)

-- The leaves of a payload's blocks.
abbrev pub leaves_of : List (List ℕ) → List Hash256
leaves_of = map hash_leaf

pub leaves_of-AreHashes : (blocks : List (List ℕ)) → AreHashes (leaves_of blocks)
leaves_of-AreHashes [] = tt
leaves_of-AreHashes (b ∷ bs) = (hash_leaf-IsHash b, leaves_of-AreHashes bs)
