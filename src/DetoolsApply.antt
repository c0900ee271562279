-- ===== src/DetoolsApply.antt =====
-- src/detools_apply.cpp and include/ota_common/detools_apply.h: the callbacks that connect the
-- vendored detools decoder with a base image, a patch in memory and a sink, and the in-place form.
-- The decoder is a parameter: a strategy that calls its callbacks and goes on with what they answer.
-- `size_t` has 64 bits, and `long` holds every sum that is formed in it.
pub mod Patch
pub mod Sink
pub mod InPlace
mod Tests
use ota_common.Common.{
  ℕ, ◌+◌, ◌-◌, ◌%◌, ◌^◌, ℤ, pos, negsuc, ◌+ℤ◌, u32, u64, Bool, true, false, Option, none, some,
  List, [], ◌∷◌, ◌++◌, length, slice, ltb, if◌then◌else◌,
}
use ota_common.EspImage.{ImageReader}
use ota_common.BlockStore.{FlashTarget, is_ok}

-- `-DETOOLS_IO_FAILED`.
abbrev pub io_failed : ℤ
io_failed = negsuc 9

-- What the decoder may do next: return a code, or call a callback, which answers a code and, where
-- it fills a buffer, the bytes.
pub data Decoder : Type 0 where
  finish : ℤ → Decoder
  from_read : ℕ → (ℤ → List ℕ → Decoder) → Decoder
  from_seek : ℤ → (ℤ → Decoder) → Decoder
  patch_read : ℕ → (ℤ → List ℕ → Decoder) → Decoder
  to_write : List ℕ → (ℤ → Decoder) → Decoder

-- `IByteSink`, over a state of its own.
abbrev pub ByteSink : Type 0 → Type 0
ByteSink S = S → List ℕ → S × Bool

-- The patch of a context, with what is read of it.
pub record PatchPos : Type 0 where
  pub patch : List ℕ
  pub patch_len : ℕ
  pub patch_pos : ℕ

pub record ApplyCtx (S : Type 0) : Type 0 where
  pub base_pos : ℕ
  pub source : PatchPos
  pub sink : S

-- `a - b` of `size_t`.
abbrev sub64 : ℕ → ℕ → ℕ
sub64 a b = (a + 2 ^ 64 - b) % 2 ^ 64

-- `cb_patch_read` and `cb_inplace_patch_read`, which have the same body.
pub read_patch : PatchPos → ℕ → PatchPos × ℤ × List ℕ
read_patch p size =
    if ltb (sub64 p.patch_len p.patch_pos) size
    then (p, io_failed, [])
    else (record p { patch_pos = u64 (p.patch_pos + size) }, pos 0, slice p.patch_pos size p.patch)

-- The context that `detools_apply` starts from.
abbrev pub start_ctx : {S : Type 0} → List ℕ → S → ApplyCtx S
start_ctx patch sink = record {
  base_pos = 0;
  source = record { patch = patch; patch_len = length patch; patch_pos = 0 };
  sink = sink;
}

module _ {S : Type 0} (base : ImageReader) (write : ByteSink S) where
  pub cb_from_read : ApplyCtx S → ℕ → ApplyCtx S × ℤ × List ℕ
  cb_from_read c size = elim (base c.base_pos size) [
    | none ↦ (c, io_failed, [])
    | some bytes ↦ (record c { base_pos = u64 (c.base_pos + size) }, pos 0, bytes)
  ]

  seek_to : ApplyCtx S → ℤ → ApplyCtx S × ℤ
  seek_to c (pos p) = (record c { base_pos = p }, pos 0)
  seek_to c (negsuc n) = (c, io_failed)

  pub cb_from_seek : ApplyCtx S → ℤ → ApplyCtx S × ℤ
  unfolding seek_to
  cb_from_seek c offset = seek_to c (pos c.base_pos +ℤ offset)

  pub cb_patch_read : ApplyCtx S → ℕ → ApplyCtx S × ℤ × List ℕ
  cb_patch_read c size =
      let (p, code, bytes) = read_patch c.source size in (record c { source = p }, code, bytes)

  pub cb_to_write : ApplyCtx S → List ℕ → ApplyCtx S × ℤ
  cb_to_write c bytes =
      let (sink, done) = write c.sink bytes in
      (record c { sink = sink }, if done then pos 0 else io_failed)

  -- A run of the decoder on a context.
  pub run : Decoder → ApplyCtx S → ApplyCtx S × ℤ
  run (finish code) c = (c, code)
  run (from_read size next) c =
      let (c', code, bytes) = cb_from_read c size in run (next code bytes) c'
  run (from_seek offset next) c = let (c', code) = cb_from_seek c offset in run (next code) c'
  run (patch_read size next) c =
      let (c', code, bytes) = cb_patch_read c size in run (next code bytes) c'
  run (to_write bytes next) c = let (c', code) = cb_to_write c bytes in run (next code) c'

  -- `decoder patch_len` is `detools_apply_patch_callbacks` on a patch of that length.
  pub detools_apply : (ℕ → Decoder) → List ℕ → S → ApplyCtx S × ℤ
  detools_apply decoder patch sink = run (decoder (length patch)) (start_ctx patch sink)

-- `FlashTargetByteSink`.
pub record FlashTargetByteSink (T : Type 0) : Type 0 where
  pub target : T
  pub offset : ℕ

module _ {T : Type 0} (flash : FlashTarget T) where
  pub sink_write : ByteSink (FlashTargetByteSink T)
  sink_write s bytes =
      let (target, status) = flash.write s.target s.offset bytes in
      if is_ok status
      then (record { target = target; offset = u32 (s.offset + u32 (length bytes)) }, true)
      else (record s { target = target }, false)

-- The texts of the codes are the decoder's own, `detools_error_as_string`.
pub detools_apply_error_string : {Text : Type 0} → (ℤ → Text) → ℤ → Text
detools_apply_error_string detools_error_as_string code = detools_error_as_string code
