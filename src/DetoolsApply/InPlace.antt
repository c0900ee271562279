-- ===== src/DetoolsApply/InPlace.antt =====
-- The in-place form: a flash region patched against itself, with a journal of its steps.
use ota_common.Common.{ℕ, ◌≤◌, ◌<◌, ◌^◌, ◌≡◌, refl, arith, ℤ, List, [], ◌++◌, length, take}
use ota_common.DetoolsApply.{PatchPos, read_patch}
use ota_common.DetoolsApply.Patch.{
  IsWithin, Reads, Reads-nothing, read_patch-Reads, Reads-append, Reads-prefix,
}

-- `IFlashMem` and `IStepJournal`, which the caller implements over states of its own. A method
-- returns the new state, its code and what it fills in.
pub record FlashMem (M : Type 0) : Type 0 where
  pub read : M → ℕ → ℕ → M × ℤ × List ℕ
  pub write : M → ℕ → List ℕ → M × ℤ
  pub erase : M → ℕ → ℕ → M × ℤ

pub record StepJournal (J : Type 0) : Type 0 where
  pub set_step : J → ℤ → J × ℤ
  pub get_step : J → J × ℤ × ℤ

-- The in-place decoder, as a strategy like `Decoder`.
pub data InPlaceDecoder : Type 0 where
  finish : ℤ → InPlaceDecoder
  mem_read : ℕ → ℕ → (ℤ → List ℕ → InPlaceDecoder) → InPlaceDecoder
  mem_write : ℕ → List ℕ → (ℤ → InPlaceDecoder) → InPlaceDecoder
  mem_erase : ℕ → ℕ → (ℤ → InPlaceDecoder) → InPlaceDecoder
  step_set : ℤ → (ℤ → InPlaceDecoder) → InPlaceDecoder
  step_get : (ℤ → ℤ → InPlaceDecoder) → InPlaceDecoder
  patch_read : ℕ → (ℤ → List ℕ → InPlaceDecoder) → InPlaceDecoder

pub record InPlaceCtx (M J : Type 0) : Type 0 where
  pub mem : M
  pub journal : J
  pub source : PatchPos

abbrev pub start_ctx : {M J : Type 0} → M → J → List ℕ → InPlaceCtx M J
start_ctx mem journal patch = record {
  mem = mem;
  journal = journal;
  source = record { patch = patch; patch_len = length patch; patch_pos = 0 };
}

module _ {M J : Type 0} (flash : FlashMem M) (steps : StepJournal J) where
  pub cb_mem_read : InPlaceCtx M J → ℕ → ℕ → InPlaceCtx M J × ℤ × List ℕ
  cb_mem_read c src size =
      let (mem, code, bytes) = flash.read c.mem src size in (record c { mem = mem }, code, bytes)

  pub cb_mem_write : InPlaceCtx M J → ℕ → List ℕ → InPlaceCtx M J × ℤ
  cb_mem_write c dst bytes =
      let (mem, code) = flash.write c.mem dst bytes in (record c { mem = mem }, code)

  pub cb_mem_erase : InPlaceCtx M J → ℕ → ℕ → InPlaceCtx M J × ℤ
  cb_mem_erase c addr size =
      let (mem, code) = flash.erase c.mem addr size in (record c { mem = mem }, code)

  pub cb_step_set : InPlaceCtx M J → ℤ → InPlaceCtx M J × ℤ
  cb_step_set c step =
      let (journal, code) = steps.set_step c.journal step in (record c { journal = journal }, code)

  pub cb_step_get : InPlaceCtx M J → InPlaceCtx M J × ℤ × ℤ
  cb_step_get c =
      let (journal, code, step) = steps.get_step c.journal in
      (record c { journal = journal }, code, step)

  pub cb_inplace_patch_read : InPlaceCtx M J → ℕ → InPlaceCtx M J × ℤ × List ℕ
  cb_inplace_patch_read c size =
      let (p, code, bytes) = read_patch c.source size in (record c { source = p }, code, bytes)

  -- A run of the decoder on a context, with the bytes that it reads of the patch.
  pub run_in_place : InPlaceDecoder → InPlaceCtx M J → InPlaceCtx M J × ℤ × List ℕ
  run_in_place (finish code) c = (c, code, [])
  run_in_place (mem_read src size next) c =
      let (c', code, bytes) = cb_mem_read c src size in run_in_place (next code bytes) c'
  run_in_place (mem_write dst bytes next) c =
      let (c', code) = cb_mem_write c dst bytes in run_in_place (next code) c'
  run_in_place (mem_erase addr size next) c =
      let (c', code) = cb_mem_erase c addr size in run_in_place (next code) c'
  run_in_place (step_set step next) c =
      let (c', code) = cb_step_set c step in run_in_place (next code) c'
  run_in_place (step_get next) c =
      let (c', code, step) = cb_step_get c in run_in_place (next code step) c'
  run_in_place (patch_read size next) c =
      let (c', code, bytes) = cb_inplace_patch_read c size in
      let (last, result, more) = run_in_place (next code bytes) c' in (last, result, bytes ++ more)

  -- `decoder patch_len` is `detools_apply_patch_in_place_callbacks` on a patch of that length.
  pub detools_apply_in_place : (ℕ → InPlaceDecoder) → M → J → List ℕ → InPlaceCtx M J × ℤ × List ℕ
  detools_apply_in_place decoder mem journal patch =
      run_in_place (decoder (length patch)) (start_ctx mem journal patch)

  run_in_place-Reads :
      (d : InPlaceDecoder) (c : InPlaceCtx M J)
      → IsWithin c.source
      → Reads c.source (run_in_place d c).0.source (run_in_place d c).2
  unfolding run_in_place cb_mem_read cb_mem_write cb_mem_erase cb_step_set cb_step_get
      cb_inplace_patch_read
  run_in_place-Reads (finish code) c w = Reads-nothing c.source w
  run_in_place-Reads (mem_read src size next) c w =
      let (c', code, bytes) = cb_mem_read c src size in run_in_place-Reads (next code bytes) c' w
  run_in_place-Reads (mem_write dst bytes next) c w =
      let (c', code) = cb_mem_write c dst bytes in run_in_place-Reads (next code) c' w
  run_in_place-Reads (mem_erase addr size next) c w =
      let (c', code) = cb_mem_erase c addr size in run_in_place-Reads (next code) c' w
  run_in_place-Reads (step_set step next) c w =
      let (c', code) = cb_step_set c step in run_in_place-Reads (next code) c' w
  run_in_place-Reads (step_get next) c w =
      let (c', code, step) = cb_step_get c in run_in_place-Reads (next code step) c' w
  run_in_place-Reads (patch_read size next) c w =
      let (c', code, bytes) = cb_inplace_patch_read c size in
      let step : Reads c.source c'.source bytes = read_patch-Reads c.source size w in
      Reads-append step (run_in_place-Reads (next code bytes) c' step.inside)

  -- Whatever the in-place decoder does, and whatever the flash region and the journal answer, what it
  -- reads of the patch, in the order of its calls, is a prefix of the patch, and no read goes past
  -- its end; a patch has fewer than 2^64 bytes.
  pub detools_apply_in_place-prefix :
      (decoder : ℕ → InPlaceDecoder) (mem : M) (journal : J) (patch : List ℕ)
      → length patch < 2 ^ 64
      → let (last, code, bytes) = detools_apply_in_place decoder mem journal patch in
        (last.source.patch_pos ≤ length patch) × (bytes ≡ take last.source.patch_pos patch)
  unfolding detools_apply_in_place
  detools_apply_in_place-prefix decoder mem journal patch small =
      let r =
        run_in_place-Reads (decoder (length patch)) (start_ctx mem journal patch)
          (record { within = omega arith; whole = refl; small = small }) in
      Reads-prefix r refl
