-- ===== src/BlockStore.antt =====
-- The stores of verified blocks: `IBlockStore`, `FlashTargetBlockStore` and `BufferBlockStore` of
-- src/transport.cpp and include/ota_common/transport.h, and the flash target behind the first
-- (include/ota_common/flash_target.h). A method returns the new state and its result. The stores
-- hold a pointer to the receiver's manifest, which does not change once it is set.
pub mod Flash
pub mod Image
pub mod Buffer
mod Tests
use ota_common.Common.{
  ℕ, ◌+◌, ◌-◌, ◌*◌, ◌%◌, Bool, true, false, ◌&&◌, ◌||◌, not, Option, none, some, List, [], length,
  get_or, set, replicate, write_at, u32, ltb, leb, ◌==◌, ◌!=◌, if◌then◌else◌,
}
use ota_common.Manifest.{Manifest}

pub record BlockStore (S : Type 0) : Type 0 where
  pub has_block : S → ℕ → Bool
  pub put_block : S → ℕ → List ℕ → S × Bool
  pub stored_count : S → ℕ

pub data FlashStatus : Type 0 where
  ok out_of_range write_error verify_failed not_ready : FlashStatus

abbrev pub is_ok : FlashStatus → Bool
is_ok ok = true
is_ok _ = false

-- `IFlashTarget`, which the caller implements over a state of its own.
pub record FlashTarget (T : Type 0) : Type 0 where
  pub begin : T → ℕ → Manifest → T × FlashStatus
  pub write : T → ℕ → List ℕ → T × FlashStatus
  pub commit : T → T × FlashStatus
  pub abort : T → T

pub record FlashTargetBlockStore (T : Type 0) : Type 0 where
  pub target : T
  pub manifest : Option Manifest
  pub began : Bool
  pub block_size : ℕ
  pub block_count : ℕ
  pub next : ℕ
  pub count : ℕ
  pub have : List Bool

-- `index < have_.size() && have_[index]`.
pub have_at : List Bool → ℕ → Bool
have_at have index = ltb index (length have) && get_or have index false

module _ {T : Type 0} (flash : FlashTarget T) where
  abbrev pub flash_store : T → FlashTargetBlockStore T
  flash_store target = record {
    target = target;
    manifest = none;
    began = false;
    block_size = 0;
    block_count = 0;
    next = 0;
    count = 0;
    have = [];
  }

  -- The block that starts `put_block`: the target is begun once.
  pub flash_begin : FlashTargetBlockStore T → Manifest → FlashTargetBlockStore T × Bool
  flash_begin s m =
      if s.began
      then (s, true)
      else (let (target, status) = flash.begin s.target m.output_length m in
          if is_ok status
          then (
            record s {
              target = target;
              began = true;
              block_size = m.block_size;
              block_count = m.block_count;
              have = replicate m.block_count false;
            },
            true,
          )
          else (record s { target = target }, false))

  -- The sequential write at the end of `put_block`.
  pub flash_write : FlashTargetBlockStore T → ℕ → List ℕ → FlashTargetBlockStore T × Bool
  flash_write s index input =
      let (target, status) = flash.write s.target (u32 (index * s.block_size)) input in
      if is_ok status
      then (
        record s {
          target = target;
          have = set s.have index true;
          next = u32 (s.next + 1);
          count = u32 (s.count + 1);
        },
        true,
      )
      else (record s { target = target }, false)

  flash_put : FlashTargetBlockStore T × Bool → ℕ → List ℕ → FlashTargetBlockStore T × Bool
  flash_put (s, false) index input = (s, false)
  flash_put (s, true) index input =
      if have_at s.have index
      then (s, true)
      else if index != s.next
      then (s, false)
      else flash_write s index input

  flash_put_with :
      Option Manifest → FlashTargetBlockStore T → ℕ → List ℕ → FlashTargetBlockStore T × Bool
  flash_put_with none s index input = (s, false)
  flash_put_with (some m) s index input = flash_put (flash_begin s m) index input

  pub flash_put_block : FlashTargetBlockStore T → ℕ → List ℕ → FlashTargetBlockStore T × Bool
  flash_put_block s index input = flash_put_with s.manifest s index input

  unfoldable pub flash_set_manifest :
      Option Manifest → FlashTargetBlockStore T → FlashTargetBlockStore T
  flash_set_manifest manifest s = record s { manifest = manifest }

  pub flash_commit : FlashTargetBlockStore T → FlashTargetBlockStore T × FlashStatus
  flash_commit s =
      let (target, status) = flash.commit s.target in (record s { target = target }, status)

  pub flash_abort : FlashTargetBlockStore T → FlashTargetBlockStore T
  flash_abort s = record s { target = flash.abort s.target }

  abbrev pub flash_block_store : BlockStore (FlashTargetBlockStore T)
  flash_block_store = record {
    has_block = λ s index. have_at s.have index;
    put_block = flash_put_block;
    stored_count = λ s. s.count;
  }

pub record BufferBlockStore : Type 0 where
  pub manifest : Option Manifest
  pub ready : Bool
  pub block_size : ℕ
  pub block_count : ℕ
  pub count : ℕ
  pub have : List Bool
  pub buf : List ℕ

abbrev pub buffer_store : Option Manifest → BufferBlockStore
buffer_store manifest = record {
  manifest = manifest;
  ready = false;
  block_size = 0;
  block_count = 0;
  count = 0;
  have = [];
  buf = [];
}

-- `ensure_geometry`, called where `manifest_` is not null.
pub ensure_geometry : BufferBlockStore → Manifest → BufferBlockStore
ensure_geometry s m = if s.ready then s else record s {
  block_size = m.block_size;
  block_count = m.block_count;
  buf = replicate m.payload_length 0;
  have = replicate m.block_count false;
  ready = true;
}

-- The copy at the end of `put_block`, after its bounds check.
pub buffer_write : BufferBlockStore → ℕ → ℕ → List ℕ → BufferBlockStore × Bool
buffer_write s index off input =
    if ltb (length s.buf) off || ltb (length s.buf - off) (length input) then (s, false) else (
      record s {
        buf = write_at s.buf off input;
        have = set s.have index true;
        count = u32 (s.count + 1);
      },
      true,
    )

pub buffer_put : BufferBlockStore → ℕ → List ℕ → BufferBlockStore × Bool
buffer_put s index input =
    if leb s.block_count index
    then (s, false)
    else if get_or s.have index false
    then (s, true)
    else buffer_write s index (u32 (index * s.block_size)) input

buffer_put_with : Option Manifest → BufferBlockStore → ℕ → List ℕ → BufferBlockStore × Bool
buffer_put_with none s index input = (s, false)
buffer_put_with (some m) s index input = buffer_put (ensure_geometry s m) index input

pub buffer_put_block : BufferBlockStore → ℕ → List ℕ → BufferBlockStore × Bool
buffer_put_block s index input = buffer_put_with s.manifest s index input

pub buffer_set_manifest : Option Manifest → BufferBlockStore → BufferBlockStore
buffer_set_manifest manifest s = record s { manifest = manifest }

abbrev pub buffer_block_store : BlockStore BufferBlockStore
buffer_block_store = record {
  has_block = λ s index. have_at s.have index;
  put_block = buffer_put_block;
  stored_count = λ s. s.count;
}
