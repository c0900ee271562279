-- ===== src/DetoolsApply/Tests.antt =====
-- Two small decoders: one copies a byte of the base and two of the patch, one works in place.
use ota_common.Common.{
  ℕ, ◌≤◌, ◌≡◌, refl, arith, ℤ, pos, negsuc, List, [], ◌∷◌, ◌++◌, slice, take, some,
}
use ota_common.BlockStore.{FlashTarget, ok}
use ota_common.EspImage.{ImageReader}
use ota_common.DetoolsApply.{
  Decoder, finish, from_read, from_seek, patch_read, to_write, start_ctx, run, detools_apply,
  cb_from_read, cb_from_seek, cb_patch_read, cb_to_write, read_patch, FlashTargetByteSink,
  sink_write,
}
use ota_common.DetoolsApply.Patch.{patch_bytes, detools_apply-prefix}
use ota_common.DetoolsApply.Sink.{recorded, Written, IsContiguous, run-IsContiguous}
use ota_common.DetoolsApply.InPlace.{
  FlashMem, StepJournal, InPlaceDecoder, detools_apply_in_place, detools_apply_in_place-prefix,
}

abbrev copying : ℕ → Decoder
copying n = patch_read 2 λ code two.
    from_seek (pos 1)
      λ code'. from_read 1 λ code″ one. to_write two λ c. to_write one λ c'. finish (pos 3)

abbrev accepting : FlashTarget (List ℕ)
accepting = record {
  begin = λ t size m. (t, ok);
  write = λ t offset bytes. (t ++ bytes, ok);
  commit = λ t. (t, ok);
  abort = λ t. t;
}

abbrev empty_sink : FlashTargetByteSink (List ℕ × List Written)
empty_sink = record { target = ([], []); offset = 0 }

abbrev base : List ℕ
base = 40 ∷ 41 ∷ 42 ∷ []

abbrev base_read : ImageReader
base_read offset n = some (slice offset n base)

abbrev patch : List ℕ
patch = 7 ∷ 8 ∷ 9 ∷ []

copied :
    (detools_apply base_read
      (sink_write (recorded accepting))
      copying
      patch
      empty_sink).0.sink.target
    ≡ (7 ∷ 8 ∷ 41 ∷ [], (0, 7 ∷ 8 ∷ []) ∷ (2, 41 ∷ []) ∷ [])
unfolding detools_apply run cb_from_read cb_from_seek cb_patch_read cb_to_write read_patch
    sink_write
copied = refl

detools_apply-prefix_example :
    let write = sink_write (recorded accepting) in
    let last = (detools_apply base_read write copying patch empty_sink).0.source in
    (last.patch_pos ≤ 3)
    × (patch_bytes base_read write (copying 3) (start_ctx patch empty_sink)
        ≡ take last.patch_pos patch)
detools_apply-prefix_example =
    detools_apply-prefix base_read (sink_write (recorded accepting)) copying patch empty_sink
      (omega arith)

run-IsContiguous_example :
    let s =
      (run base_read
        (sink_write (recorded accepting))
        (copying 3)
        (start_ctx patch empty_sink)).0.sink in
    IsContiguous 0 s.target.1 s.offset
unfolding run cb_to_write sink_write cb_from_read cb_from_seek cb_patch_read read_patch
run-IsContiguous_example =
    run-IsContiguous accepting base_read 0 (copying 3) (start_ctx patch empty_sink) refl
      (omega arith)

-- A region that ignores writes and erases, and a journal that keeps the last step.
abbrev read_only : FlashMem (List ℕ)
read_only = record {
  read = λ m src size. (m, pos 0, take size m);
  write = λ m dst bytes. (m, negsuc 0);
  erase = λ m addr size. (m, pos 0);
}

abbrev last_step : StepJournal ℤ
last_step = record { set_step = λ j step. (step, pos 0); get_step = λ j. (j, pos 0, j) }

abbrev in_place : ℕ → InPlaceDecoder
in_place n = InPlaceDecoder.step_get λ code step.
    InPlaceDecoder.patch_read 2
      λ code' two. InPlaceDecoder.mem_write 0 two λ c. InPlaceDecoder.finish (pos 2)

detools_apply_in_place-prefix_example :
    let (last, code, bytes) =
      detools_apply_in_place read_only last_step in_place base (pos 0) patch in
    (last.source.patch_pos ≤ 3) × (bytes ≡ take last.source.patch_pos patch)
detools_apply_in_place-prefix_example =
    detools_apply_in_place-prefix read_only last_step in_place base (pos 0) patch (omega arith)
