-- ===== src/Receiver/Complete.antt =====
-- What holds of the receiver at any time: a kept manifest passed the checks, and a complete transfer
-- misses no block.
use ota_common.Common.{
  ℕ, zero, suc, ◌<◌, ◌≤◌, ◌+◌, ◌≡◌, ◌≢◌, refl, sym, ◌∙◌, arith, inl, inr, Bool, true, false, Option,
  List, length, Bool-cases,
}
use ota_common.Wire.{index_manifest}
use ota_common.Manifest.{Manifest, manifest_at}
use ota_common.Package.{SignatureVerifier}
use ota_common.Merkle.{Hash256}
use ota_common.BlockStore.{BlockStore}
use ota_common.Receiver.{
  Receiver, send_simple, send_request, needed_from, next_needed_block, request_block, request_next,
  signature_ok,
}
use ota_common.Receiver.Frames.{request_next-SameBut}

module _ {S : Type 0} (ops : BlockStore S) (verifier : Option SignatureVerifier) where
  -- The manifest was read from bytes of the right magic and format that passed the signature check,
  -- and the root is the manifest's.
  pub record Accepted (m : Manifest) (root : Hash256) : Type 0 where
    pub raw : List ℕ
    pub long_enough : 192 ≤ length raw
    pub signed : signature_ok verifier raw ≡ true
    pub read : m ≡ manifest_at raw
    pub magic : m.magic ≡ 0x4E414D4D
    pub format : m.format ≡ 1
    pub rooted : root.bytes ≡ m.payload_merkle_root

  abbrev pub AllStored : ℕ → S → Type 0
  AllStored count store = (i : ℕ) → i < count → ops.has_block store i ≡ true

  pub record Inv (r : Receiver S) : Type 0 where
    pub narrow : r.block_count < 65536
    pub accepted : r.manifest_ready ≡ true → Accepted r.manifest_copy r.merkle_root
    pub finished : r.complete ≡ true → AllStored r.block_count r.store

  -- The same of a transfer that still runs, over the fields that it speaks of.
  pub record Running (count : ℕ) (ready : Bool) (m : Manifest) (root : Hash256) (complete : Bool)
      : Type 0 where
    pub narrow : count < 65536
    pub accepted : ready ≡ true → Accepted m root
    pub unfinished : complete ≡ false

  abbrev pub IsRunning : Receiver S → Type 0
  IsRunning r = Running r.block_count r.manifest_ready r.manifest_copy r.merkle_root r.complete

  pub running-Inv : (r : Receiver S) → IsRunning r → Inv r
  running-Inv r w = record {
    narrow = w.narrow;
    accepted = w.accepted;
    finished = λ e. cc w.unfinished;
  }

  needed_from-none :
      (left i j : ℕ) (store : S)
      → needed_from ops verifier left i store ≡ index_manifest
      → i + left < 65536
      → i ≤ j
      → j < i + left
      → ops.has_block store j ≡ true
  unfolding needed_from
  needed_from-none zero i j store e h p q = absurd (omega arith)
  needed_from-none (suc left) i j store e h p q = elim (Bool-cases (ops.has_block store i)) [
    | inl has ↦ ground (arith, needed_from-none left (i + 1) j store)
    | inr lacks ↦ ground arith
  ]

  pub next_needed_block-none :
      (r : Receiver S)
      → r.block_count < 65536
      → next_needed_block ops verifier r ≡ index_manifest
      → AllStored r.block_count r.store
  unfolding next_needed_block
  next_needed_block-none r narrow e i h =
      needed_from-none r.block_count 0 i r.store e (omega arith) (omega arith) (omega arith)

  -- Else the needed block is the first one that the store lacks.
  needed_from-some :
      (left i : ℕ) (store : S)
      → let n = needed_from ops verifier left i store in
        n ≢ index_manifest → (n < i + left) × (ops.has_block store n ≡ false)
  unfolding needed_from
  needed_from-some zero i store some_needed = absurd (some_needed refl)
  needed_from-some (suc left) i store some_needed = elim (Bool-cases (ops.has_block store i)) [
    | inl has ↦
        let later = needed_from-some left (i + 1) store in ground (arith, later, some_needed)
    | inr lacks ↦ ground (arith, lacks)
  ]

  needed_from-first :
      (left i j : ℕ) (store : S)
      → i ≤ j
      → j < i + left
      → i + left < 65536
      → j < needed_from ops verifier left i store
      → ops.has_block store j ≡ true
  unfolding needed_from
  needed_from-first zero i j store low high small below = absurd (omega arith)
  needed_from-first (suc left) i j store low high small below =
      elim (Bool-cases (ops.has_block store i)) [
        | inl has ↦ ground (arith, needed_from-first left (i + 1) j store)
        | inr lacks ↦ ground arith
      ]

  pub next_needed_block-some :
      (r : Receiver S)
      → r.block_count < 65536
      → let n = next_needed_block ops verifier r in
        n ≢ index_manifest
        → (n < r.block_count)
          × ((ops.has_block r.store n ≡ false) × ((j : ℕ) → j < n → ops.has_block r.store j ≡ true))
  unfolding next_needed_block
  next_needed_block-some r narrow some_needed =
      let (within, lacks) = needed_from-some r.block_count 0 r.store some_needed in
      (
        omega (arith, within),
        (
          lacks,
          λ j below.
              needed_from-first r.block_count 0 j r.store (omega arith)
                (omega (arith, within, below)) (omega arith) below,
        ),
      )

  request_next-finished :
      (r : Receiver S)
      → IsRunning r
      → (request_next ops verifier r).complete ≡ true
      → AllStored r.block_count r.store
  request_next-finished r w e = next_needed_block-none r w.narrow none_missing
    where
      open w use {unfinished}

      none_missing : next_needed_block ops verifier r ≡ index_manifest
      none_missing = unfold request_next request_block send_request send_simple in ground arith

  pub request_next-Inv : (r : Receiver S) → IsRunning r → Inv (request_next ops verifier r)
  request_next-Inv r w =
      let same = request_next-SameBut ops verifier r in
      record {
        narrow = rw same.block_count w.narrow;
        accepted = λ ready.
            rw (same.manifest_copy, same.merkle_root)
              (w.accepted (sym same.manifest_ready ∙ ready));
        finished = λ e. rw (same.block_count, same.store) (request_next-finished r w e);
      }
