-- ===== src/BlockStore/Tests.antt =====
-- A buffer store fed with the second block before the first.
use ota_common.Common.{
  ℕ, ◌≡◌, ◌≢◌, refl, arith, true, false, some, List, [], ◌∷◌, ◌+◌, ◌*◌, slice, replicate,
}
use ota_common.BlockStore.{
  BufferBlockStore, ok, FlashTarget, FlashTargetBlockStore, flash_store, flash_put_block, have_at,
  ensure_geometry, buffer_put_block,
}
use ota_common.BlockStore.Buffer.{
  IsSized, ensure_geometry-IsSized, buffer_put_block-IsSized, buffer_put_block-stored,
}
use ota_common.BlockStore.Flash.{IsSequential, flash_put_block-IsSequential}
use ota_common.Samples.{small_manifest, empty_store}

abbrev sized_store : BufferBlockStore
sized_store = record empty_store {
  ready = true;
  block_size = 4;
  block_count = 3;
  have = replicate 3 false;
  buf = replicate 10 0;
}

sized_store-IsSized : IsSized small_manifest sized_store
unfolding ensure_geometry
sized_store-IsSized = ensure_geometry-IsSized small_manifest empty_store refl refl refl

abbrev second_block : List ℕ
second_block = 5 ∷ 6 ∷ 7 ∷ 8 ∷ []

buffer_put_block-IsSized_example :
    IsSized small_manifest (buffer_put_block sized_store 1 second_block).0
buffer_put_block-IsSized_example =
    buffer_put_block-IsSized small_manifest sized_store sized_store-IsSized 1 second_block
      (omega arith)

buffer_put_block-stored_example :
    let r = buffer_put_block sized_store 1 second_block in
    (r.1 ≡ true)
    × (have_at r.0.have 1 ≡ true)
    × (slice (1 * 4) 4 r.0.buf ≡ second_block)
    × (r.0.count ≡ 0 + 1)
    × ((j : ℕ) → j ≢ 1 → have_at r.0.have j ≡ have_at sized_store.have j)
buffer_put_block-stored_example =
    buffer_put_block-stored small_manifest sized_store sized_store-IsSized 1 second_block
      (omega arith) second_missing (omega arith) (omega arith) (omega arith)
  where
    second_missing : have_at sized_store.have 1 ≡ false
    second_missing = unfold have_at in refl

-- A target that keeps the writes that it is given, and fails none.
abbrev logging : FlashTarget (List (ℕ × List ℕ))
logging = record {
  begin = λ t size m. (t, ok);
  write = λ t offset input. ((offset, input) ∷ t, ok);
  commit = λ t. (t, ok);
  abort = λ t. t;
}

abbrev flashing : FlashTargetBlockStore (List (ℕ × List ℕ))
flashing = record (flash_store logging []) { manifest = some small_manifest }

flashing-IsSequential : IsSequential small_manifest flashing
flashing-IsSequential = record {
  source = refl;
  within = omega arith;
  counted = refl;
  unbegun = λ e. (refl, refl);
  begun = λ e. cc;
}

flash_put_block-IsSequential_example :
    IsSequential small_manifest (flash_put_block logging flashing 0 second_block).0
flash_put_block-IsSequential_example =
    flash_put_block-IsSequential logging small_manifest (omega arith) flashing 0 second_block
      flashing-IsSequential (omega arith)
