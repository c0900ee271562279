-- ===== src/Merkle/Octets.antt =====
-- Every node of a tree and of a proof is made of bytes.
use ota_common.Common.{
  ℕ, zero, suc, ◌/◌, ◌%◌, ◌==◌, List, [], ◌∷◌, arith, inl, inr, length, ltb, leb, Bool-cases,
  IsBytes, replicate,
}
use ota_common.Sha256.Stream.{finish-IsBytes, hash-IsBytes}
use ota_common.Merkle.{
  Hash256, hash_leaf, hash_pair, reduce_level, node, level_loop, merkle_root, proof_loop,
  merkle_proof, idx_is_last_odd, sibling, fold_sibling,
}
use ota_common.Merkle.Digests.{
  IsHash, AreHashes, leaves_of, leaves_of-AreHashes, hash_pair-IsHash, hash_leaf-IsHash,
}
use ota_common.Merkle.Paths.{merkle_proof-AreHashes}

abbrev pub AreOctets : List Hash256 → Type 0
AreOctets [] = Unit {0}
AreOctets (h ∷ hs) = IsBytes h.bytes × AreOctets hs

hash_pair-IsBytes : (l r : Hash256) → IsBytes (hash_pair l r).bytes
unfolding hash_pair
hash_pair-IsBytes l r = finish-IsBytes _

hash_leaf-IsBytes : (block : List ℕ) → IsBytes (hash_leaf block).bytes
unfolding hash_leaf
hash_leaf-IsBytes block = hash-IsBytes block

pub leaves_of-AreOctets : (blocks : List (List ℕ)) → AreOctets (leaves_of blocks)
leaves_of-AreOctets [] = tt
leaves_of-AreOctets (b ∷ bs) = (hash_leaf-IsBytes b, leaves_of-AreOctets bs)

reduce_level-AreOctets : (level : List Hash256) → AreOctets level → AreOctets (reduce_level level)
unfolding reduce_level
reduce_level-AreOctets [] w = w
reduce_level-AreOctets (a ∷ []) w = w
reduce_level-AreOctets (a ∷ b ∷ rest) w = (hash_pair-IsBytes a b, reduce_level-AreOctets rest w.1.1)

zeros : (n : ℕ) → IsBytes (replicate n 0)
zeros zero = tt
zeros (suc n) = (omega arith, zeros n)

node-IsBytes : (level : List Hash256) (i : ℕ) → AreOctets level → IsBytes (node level i).bytes
node-IsBytes [] i w = zeros 32
node-IsBytes (h ∷ hs) zero w = w.0
node-IsBytes (h ∷ hs) (suc i) w = node-IsBytes hs i w.1

proof_loop-AreOctets :
    (fuel : ℕ) (level : List Hash256) (idx : ℕ)
    → AreOctets level
    → AreOctets (proof_loop fuel level idx)
unfolding proof_loop
proof_loop-AreOctets zero level idx w = tt
proof_loop-AreOctets (suc fuel) level idx w =
    let rest =
      proof_loop-AreOctets fuel (reduce_level level) (idx / 2) (reduce_level-AreOctets level w) in
    elim (Bool-cases (ltb 1 (length level))) [
      | inr top ↦ rw top tt
      | inl more ↦ elim (Bool-cases (idx_is_last_odd idx (length level))) [
        | inl odd ↦ rw (more, odd) rest
        | inr paired ↦ rw (more, paired) (node-IsBytes level (sibling idx) w, rest)
      ]
    ]

pub merkle_proof-AreOctets :
    (leaves : List Hash256) (index : ℕ) → AreOctets leaves → AreOctets (merkle_proof leaves index)
unfolding merkle_proof
merkle_proof-AreOctets leaves index w = elim (Bool-cases (leb (length leaves) index)) [
  | inl out ↦ rw out tt
  | inr in_range ↦ rw in_range (proof_loop-AreOctets (length leaves) leaves index w)
]

level_loop-AreOctets :
    (fuel : ℕ) (level : List Hash256) → AreOctets level → AreOctets (level_loop fuel level)
unfolding level_loop
level_loop-AreOctets zero level w = w
level_loop-AreOctets (suc fuel) level w = elim (Bool-cases (ltb 1 (length level))) [
  | inl more ↦
      rw more (level_loop-AreOctets fuel (reduce_level level) (reduce_level-AreOctets level w))
  | inr top ↦ rw top w
]

pub merkle_root-IsBytes :
    (leaves : List Hash256) → AreOctets leaves → IsBytes (merkle_root leaves).bytes
unfolding merkle_root
merkle_root-IsBytes [] w = zeros 32
merkle_root-IsBytes (leaf ∷ leaves) w =
    node-IsBytes (level_loop (length (leaf ∷ leaves)) (leaf ∷ leaves)) 0
      (level_loop-AreOctets (length (leaf ∷ leaves)) (leaf ∷ leaves) w)

-- The 32 bytes of a digest.
abbrev pub IsDigest : Hash256 → Type 0
IsDigest h = IsHash h × IsBytes h.bytes

abbrev pub AreDigests : List Hash256 → Type 0
AreDigests [] = Unit {0}
AreDigests (h ∷ hs) = IsDigest h × AreDigests hs

pub hash_leaf-IsDigest : (block : List ℕ) → IsDigest (hash_leaf block)
hash_leaf-IsDigest block = (hash_leaf-IsHash block, hash_leaf-IsBytes block)

pub fold_sibling-IsDigest : (i : ℕ) (h s : Hash256) → IsDigest (fold_sibling i h s)
unfolding fold_sibling
fold_sibling-IsDigest i h s = elim (Bool-cases (i % 2 == 0)) [
  | inl even ↦ rw even (hash_pair-IsHash h s, hash_pair-IsBytes h s)
  | inr odd ↦ rw odd (hash_pair-IsHash s h, hash_pair-IsBytes s h)
]

both-AreDigests : (hs : List Hash256) → AreHashes hs → AreOctets hs → AreDigests hs
both-AreDigests [] w o = tt
both-AreDigests (h ∷ hs) w o = ((w.0, o.0), both-AreDigests hs w.1 o.1)

-- The published proofs are made of digests.
pub merkle_proof-AreDigests :
    (blocks : List (List ℕ)) (index : ℕ) → AreDigests (merkle_proof (leaves_of blocks) index)
merkle_proof-AreDigests blocks index =
    both-AreDigests (merkle_proof (leaves_of blocks) index)
      (merkle_proof-AreHashes (leaves_of blocks) index (leaves_of-AreHashes blocks))
      (merkle_proof-AreOctets (leaves_of blocks) index (leaves_of-AreOctets blocks))
