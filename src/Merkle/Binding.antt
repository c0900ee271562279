-- ===== src/Merkle/Binding.antt =====
-- What an accepted proof binds: two leaves accepted at one place under one root are equal, or their
-- two runs hash different pairs of nodes to one digest.
use ota_common.Common.{
  ℕ, zero, suc, ◌+◌, ◌/◌, ◌≤◌, ◌<◌, ◌≡◌, refl, sym, ◌∙◌, ap, ap₂, arith, ◌⊎◌, inl, inr, true, false,
  List, [], ◌∷◌, length, get_or, length-map, ltb, ltb→lt, ◌==◌, ==_iff, &&-true, Bool-cases,
  IsBytes,
}
use ota_common.Merkle.{
  Hash256, hash_leaf, node, idx_is_last_odd, fold_sibling, memcmp_eq, hash_eq, verify_loop,
  merkle_root, merkle_proof, merkle_verify, merkle_verify_block,
}
use ota_common.Merkle.Digests.{
  IsHash, AreHashes, merkle_root-IsHash, leaves_of, leaves_of-AreHashes,
}
use ota_common.Merkle.Octets.{
  IsDigest, AreDigests, hash_leaf-IsDigest, fold_sibling-IsDigest, merkle_proof-AreDigests,
}
use ota_common.Wire.Layout.{AreBytes}
use ota_common.Merkle.Collisions.{
  Pair, fold_pair, hashed_loop, PairCollision, above-PairCollision, fold_sibling-injective,
  hash_leaf-injective, Collides,
}
use ota_common.Merkle.Complete.{merkle_verify-merkle_proof}

memcmp_eq-eq : (n : ℕ) (p q : List ℕ) → length p ≡ n → length q ≡ n → memcmp_eq n p q ≡ true → p ≡ q
unfolding memcmp_eq
memcmp_eq-eq zero [] [] hp hq e = refl
memcmp_eq-eq zero [] (y ∷ q) hp hq e = absurd (omega arith)
memcmp_eq-eq zero (x ∷ p) q hp hq e = absurd (omega arith)
memcmp_eq-eq (suc n) [] q hp hq e = absurd (omega arith)
memcmp_eq-eq (suc n) (x ∷ p) [] hp hq e = absurd (omega arith)
memcmp_eq-eq (suc n) (x ∷ p) (y ∷ q) hp hq e =
    let both = &&-true (x == y) (memcmp_eq n p q) e in
    ap₂ ◌∷◌ ((==_iff x y).0 both.0) (memcmp_eq-eq n p q (omega arith) (omega arith) both.1)

pub hash_eq-eq : (a b : Hash256) → IsHash a → IsHash b → hash_eq a b ≡ true → a ≡ b
unfolding hash_eq
hash_eq-eq a b ha hb e =
    ap (λ (p : List ℕ). record { bytes = p }) (memcmp_eq-eq 32 a.bytes b.bytes ha hb e)

-- How a round of the loop with `fuel` rounds behind it can accept, with the pairs that it hashes.
data Accepts (fuel : ℕ) (h : Hash256) (idx count : ℕ) (root : Hash256) (pairs : List Pair)
    : Type 0 where
  top : count ≤ 1 → hash_eq h root ≡ true → Accepts fuel h idx count root pairs
  promoted :
      (proof : List Hash256)
      → 1 < count
      → idx_is_last_odd idx count ≡ true
      → verify_loop fuel h (idx / 2) ((count + 1) / 2) proof root ≡ true
      → AreDigests proof
      → pairs ≡ hashed_loop fuel h (idx / 2) ((count + 1) / 2) proof
      → Accepts fuel h idx count root pairs
  folded :
      (sib : Hash256) (proof : List Hash256)
      → 1 < count
      → idx_is_last_odd idx count ≡ false
      → verify_loop fuel (fold_sibling idx h sib) (idx / 2) ((count + 1) / 2) proof root ≡ true
      → IsDigest sib
      → AreDigests proof
      → pairs
        ≡ fold_pair idx h sib
          ∷ hashed_loop fuel (fold_sibling idx h sib) (idx / 2) ((count + 1) / 2) proof
      → Accepts fuel h idx count root pairs

verify_loop-Accepts :
    (fuel : ℕ) (h : Hash256) (idx count : ℕ) (proof : List Hash256) (root : Hash256)
    → AreDigests proof
    → verify_loop (suc fuel) h idx count proof root ≡ true
    → Accepts fuel h idx count root (hashed_loop (suc fuel) h idx count proof)
unfolding verify_loop hashed_loop
verify_loop-Accepts fuel h idx count [] root d e = elim (Bool-cases (ltb 1 count)) [
  | inl more ↦ elim (Bool-cases (idx_is_last_odd idx count)) [
    | inl odd ↦ promoted [] (ltb→lt 1 count more) odd (ground arith) d (simp (more, odd) refl)
    | inr paired ↦ ground arith
  ]
  | inr last ↦ top (ground arith) (ground arith)
]
verify_loop-Accepts fuel h idx count (sib ∷ proof) root d e = elim (Bool-cases (ltb 1 count)) [
  | inl more ↦ elim (Bool-cases (idx_is_last_odd idx count)) [
    | inl odd ↦
        promoted (sib ∷ proof) (ltb→lt 1 count more) odd (ground arith) d (simp (more, odd) refl)
    | inr paired ↦
        folded sib proof (ltb→lt 1 count more) paired (ground arith) d.0 d.1
          (simp (more, paired) refl)
  ]
  | inr last ↦ ground arith
]

-- That the rounds above bind, for any two nodes.
abbrev Binds : ℕ → ℕ → ℕ → Hash256 → Type 0
Binds fuel idx count root =
    (h h' : Hash256) (proof proof' : List Hash256)
    → IsDigest h
    → IsDigest h'
    → AreDigests proof
    → AreDigests proof'
    → verify_loop fuel h idx count proof root ≡ true
    → verify_loop fuel h' idx count proof' root ≡ true
    → (h ≡ h')
      ⊎ PairCollision (hashed_loop fuel h idx count proof) (hashed_loop fuel h' idx count proof')

accepted-Binds :
    (fuel idx count : ℕ) (h h' root : Hash256) (pairs pairs' : List Pair)
    → IsHash root
    → IsDigest h
    → IsDigest h'
    → Binds fuel (idx / 2) ((count + 1) / 2) root
    → Accepts fuel h idx count root pairs
    → Accepts fuel h' idx count root pairs'
    → (h ≡ h') ⊎ PairCollision pairs pairs'
accepted-Binds fuel idx count h h' root _ _ r w w' above (top _ e) (top _ e') =
    inl (hash_eq-eq h root w.0 r e ∙ sym (hash_eq-eq h' root w'.0 r e'))
accepted-Binds fuel idx count h h' root _ _ r w w' above (top last _) (promoted _ more _ _ _ _) =
    absurd (omega arith)
accepted-Binds fuel idx count h h' root _ _ r w w' above (top last _) (folded _ _ more _ _ _ _ _) =
    absurd (omega arith)
accepted-Binds fuel idx count h h' root _ _ r w w' above (promoted _ more _ _ _ _) (top last _) =
    absurd (omega arith)
accepted-Binds fuel idx count h h' root _ _ r w w' above (promoted p _ _ e d s)
      (promoted p' _ _ e' d' s') =
    rw (s, s') (above h h' p p' w w' d d' e e')
accepted-Binds fuel idx count h h' root _ _ r w w' above (promoted p _ odd _ _ _)
      (folded t p' _ paired _ _ _ _) =
    cc
accepted-Binds fuel idx count h h' root _ _ r w w' above (folded _ _ more _ _ _ _ _) (top last _) =
    absurd (omega arith)
accepted-Binds fuel idx count h h' root _ _ r w w' above (folded t p _ paired _ _ _ _)
      (promoted p' _ odd _ _ _) =
    cc
accepted-Binds fuel idx count h h' root _ _ r w w' above (folded t p _ _ e v d s)
      (folded t' p' _ _ e' v' d' s') =
    elim (above _ _ p p' (fold_sibling-IsDigest idx h t) (fold_sibling-IsDigest idx h' t') d d' e
      e') [
        | inl same ↦ rw (s, s') (fold_sibling-injective idx h t h' t' _ _ w v w' v' same)
        | inr collision ↦ rw (s, s') (inr (above-PairCollision _ _ _ _ collision))
      ]

verify_loop-Binds : (fuel idx count : ℕ) (root : Hash256) → IsHash root → Binds fuel idx count root
verify_loop-Binds zero idx count root r h h' p p' w w' d d' e e' = unfold verify_loop in cc
verify_loop-Binds (suc fuel) idx count root r h h' p p' w w' d d' e e' =
    accepted-Binds fuel idx count h h' root _ _ r w w'
      (verify_loop-Binds fuel (idx / 2) ((count + 1) / 2) root r)
      (verify_loop-Accepts fuel h idx count p root d e)
      (verify_loop-Accepts fuel h' idx count p' root d' e')

-- Two digests that `merkle_verify` accepts at one index, under one root and one leaf count, by
-- whatever proofs, are equal; or the two runs hash different pairs to one digest at one level.
pub merkle_verify_binds :
    (leaf leaf' root : Hash256) (index count : ℕ) (proof proof' : List Hash256)
    → IsDigest leaf
    → IsDigest leaf'
    → IsHash root
    → AreDigests proof
    → AreDigests proof'
    → merkle_verify leaf index count proof root ≡ true
    → merkle_verify leaf' index count proof' root ≡ true
    → (leaf ≡ leaf')
      ⊎ PairCollision
          (hashed_loop count leaf index count proof)
          (hashed_loop count leaf' index count proof')
unfolding merkle_verify
merkle_verify_binds leaf leaf' root index count proof proof' w w' r d d' e e' =
    verify_loop-Binds count index count root r leaf leaf' proof proof' w w' d d' (ground arith)
      (ground arith)

node-leaves_of :
    (blocks : List (List ℕ)) (i : ℕ)
    → i < length blocks
    → node (leaves_of blocks) i ≡ hash_leaf (get_or blocks i [])
node-leaves_of [] i h = absurd (omega arith)
node-leaves_of (b ∷ bs) zero h = refl
node-leaves_of (b ∷ bs) (suc i) h = node-leaves_of bs i (omega arith)

get_or-IsBytes : (blocks : List (List ℕ)) (i : ℕ) → AreBytes blocks → IsBytes (get_or blocks i [])
get_or-IsBytes [] i w = tt
get_or-IsBytes (b ∷ bs) zero w = w.0
get_or-IsBytes (b ∷ bs) (suc i) w = get_or-IsBytes bs i w.1

-- The proof of a published block.
published :
    (blocks : List (List ℕ)) (index : ℕ)
    → index < length blocks
    → merkle_verify
        (node (leaves_of blocks) index)
        index
        (length blocks)
        (merkle_proof (leaves_of blocks) index)
        (merkle_root (leaves_of blocks))
      ≡ true
published blocks index h =
    rw (← length-map hash_leaf blocks)
      (merkle_verify-merkle_proof (leaves_of blocks) index (rw (length-map hash_leaf blocks) h))

pub merkle_verify_block-merkle_proof :
    (blocks : List (List ℕ)) (index : ℕ)
    → index < length blocks
    → merkle_verify_block
        (get_or blocks index [])
        index
        (length blocks)
        (merkle_proof (leaves_of blocks) index)
        (merkle_root (leaves_of blocks))
      ≡ true
unfolding merkle_verify_block
merkle_verify_block-merkle_proof blocks index h =
    rw (sym (node-leaves_of blocks index h)) (published blocks index h)

-- Of blocks of bytes and a proof of digests of 32 bytes: a block that `merkle_verify_block` accepts at
-- an index, against the root of the published blocks
-- and with their number, is the published block of that index; or it is another block of the same
-- digest, or, at one level on the two ways to the root, from the block by the proof and from the
-- published block by its own proof, two different pairs of such digests are hashed to one digest.
pub merkle_verify_block_binds :
    (blocks : List (List ℕ)) (block : List ℕ) (index : ℕ) (proof : List Hash256)
    → AreBytes blocks
    → IsBytes block
    → AreDigests proof
    → index < length blocks
    → merkle_verify_block block index (length blocks) proof (merkle_root (leaves_of blocks)) ≡ true
    → (block ≡ get_or blocks index []) ⊎ Collides blocks index block proof
unfolding merkle_verify_block
merkle_verify_block_binds blocks block index proof o w d h e =
    elim (merkle_verify_binds (hash_leaf block) (hash_leaf (get_or blocks index []))
      (merkle_root leaves) index (length blocks) proof (merkle_proof leaves index)
      (hash_leaf-IsDigest block) (hash_leaf-IsDigest (get_or blocks index []))
      (merkle_root-IsHash leaves all) d (merkle_proof-AreDigests blocks index) e
      (rw (sym (node-leaves_of blocks index h)) (published blocks index h))) [
        | inl same ↦
            elim (hash_leaf-injective block (get_or blocks index []) w
              (get_or-IsBytes blocks index o) same) [
                | inl equal ↦ inl equal
                | inr collision ↦ inr (inl collision)
              ]
        | inr collision ↦ inr (inr collision)
      ]
  where
    leaves : List Hash256
    leaves = leaves_of blocks

    all : AreHashes leaves
    all = leaves_of-AreHashes blocks

-- An accepted index lies in the tree.
pub merkle_verify_block-lt :
    (block : List ℕ) (index count : ℕ) (proof : List Hash256) (root : Hash256)
    → merkle_verify_block block index count proof root ≡ true
    → index < count
unfolding merkle_verify_block merkle_verify
merkle_verify_block-lt block index count proof root e = ground arith
