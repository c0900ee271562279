-- ===== src/DetoolsApply/Sink.antt =====
-- A flash target behind `FlashTargetByteSink` receives the image in one piece.
use ota_common.Common.{
  ℕ, ◌+◌, ◌<◌, ◌≡◌, arith, refl, sym, ap, subst, inl, inr, ℤ, pos, negsuc, ◌+ℤ◌, u32, List, [], ◌∷◌,
  ◌++◌, length, if◌then◌else◌, Bool-cases, Option-cases,
}
use ota_common.EspImage.{ImageReader}
use ota_common.BlockStore.{FlashTarget, is_ok}
use ota_common.DetoolsApply.{
  Decoder, finish, from_read, from_seek, patch_read, to_write, ApplyCtx, cb_from_read, cb_from_seek,
  seek_to, cb_patch_read, cb_to_write, run, FlashTargetByteSink, sink_write,
}

-- An accepted write: its offset and its bytes.
abbrev pub Written : Type 0
Written = ℕ × List ℕ

-- A target that keeps a list of the writes that it accepted, oldest first.
abbrev pub recorded : {T : Type 0} → FlashTarget T → FlashTarget (T × List Written)
recorded flash = record {
  begin = λ (t, log) size m. let (t', status) = flash.begin t size m in ((t', log), status);
  write = λ (t, log) offset bytes.
      let (t', status) = flash.write t offset bytes in
      ((t', if is_ok status then log ++ ((offset, bytes) ∷ []) else log), status);
  commit = λ (t, log). let (t', status) = flash.commit t in ((t', log), status);
  abort = λ (t, log). (flash.abort t, log);
}

-- The writes follow one another from `from` to `to`, modulo 2^32 as `uint32_t` offsets do.
abbrev pub AreInSequence : ℕ → List Written → ℕ → Type 0
AreInSequence from [] to = from ≡ to
AreInSequence from ((offset, bytes) ∷ log) to =
    (offset ≡ from) × AreInSequence (u32 (from + u32 (length bytes))) log to

AreInSequence-append :
    (from to : ℕ) (log : List Written) (bytes : List ℕ)
    → AreInSequence from log to
    → AreInSequence from (log ++ ((to, bytes) ∷ [])) (u32 (to + u32 (length bytes)))
AreInSequence-append from to [] bytes w = (sym w, ap (λ (n : ℕ). u32 (n + u32 (length bytes))) w)
AreInSequence-append from to ((offset, b) ∷ log) bytes w =
    (w.0, AreInSequence-append (u32 (from + u32 (length b))) to log bytes w.1)

-- The writes follow one another from `from` to `to`, without a gap or an overlap.
abbrev pub IsContiguous : ℕ → List Written → ℕ → Type 0
IsContiguous from [] to = from ≡ to
IsContiguous from ((offset, bytes) ∷ log) to =
    (offset ≡ from) × IsContiguous (from + length bytes) log to

-- The bytes of the writes.
abbrev pub amount : List Written → ℕ
amount [] = 0
amount ((offset, bytes) ∷ log) = length bytes + amount log

AreInSequence-IsContiguous :
    (from to : ℕ) (log : List Written)
    → from + amount log < 4294967296
    → AreInSequence from log to
    → IsContiguous from log to
AreInSequence-IsContiguous from to [] small w = w
AreInSequence-IsContiguous from to ((offset, bytes) ∷ log) small (here, w) =
    let exact : u32 (from + u32 (length bytes)) ≡ from + length bytes = omega arith in
    (
      here,
      AreInSequence-IsContiguous (from + length bytes) to log (omega arith)
          (subst (λ (n : ℕ). AreInSequence n log to) exact w),
    )

module _ {T : Type 0} (flash : FlashTarget T) (base : ImageReader) (from : ℕ) where
  abbrev pub Sink : Type 0
  Sink = FlashTargetByteSink (T × List Written)

  abbrev pub IsSequential : Sink → Type 0
  IsSequential s = AreInSequence from s.target.1 s.offset

  sink_write-IsSequential :
      (s : Sink) (bytes : List ℕ)
      → IsSequential s
      → IsSequential (sink_write (recorded flash) s bytes).0
  unfolding sink_write
  sink_write-IsSequential s bytes w =
      elim (Bool-cases (is_ok (flash.write s.target.0 s.offset bytes).1)) [
        | inl done ↦ rw done (AreInSequence-append from s.offset s.target.1 bytes w)
        | inr failed ↦ rw failed w
      ]

  from_read-sink :
      (c : ApplyCtx Sink) (size : ℕ)
      → (cb_from_read base (sink_write (recorded flash)) c size).0.sink ≡ c.sink
  unfolding cb_from_read
  from_read-sink c size = elim (Option-cases (base c.base_pos size)) [
    | inl failed ↦ rw (cb_from_read, failed)
    | inr (bytes, done) ↦ rw (cb_from_read, done)
  ]

  from_seek-sink :
      (c : ApplyCtx Sink) (offset : ℤ)
      → (cb_from_seek base (sink_write (recorded flash)) c offset).0.sink ≡ c.sink
  unfolding cb_from_seek
  from_seek-sink c offset = go (pos c.base_pos +ℤ offset)
    where
      go : (p : ℤ) → (seek_to base (sink_write (recorded flash)) c p).0.sink ≡ c.sink
      go (pos n) = unfold seek_to in refl
      go (negsuc n) = unfold seek_to in refl

  -- Modulo 2^32, the writes accepted follow one another, whatever the decoder does.
  run-IsSequential :
      (d : Decoder) (c : ApplyCtx Sink)
      → IsSequential c.sink
      → IsSequential (run base (sink_write (recorded flash)) d c).0.sink
  unfolding run
  run-IsSequential (finish code) c w = w
  run-IsSequential (from_read size next) c w =
      let (c', code, bytes) = cb_from_read base (sink_write (recorded flash)) c size in
      run-IsSequential (next code bytes) c' (subst IsSequential (sym (from_read-sink c size)) w)
  run-IsSequential (from_seek offset next) c w =
      let (c', code) = cb_from_seek base (sink_write (recorded flash)) c offset in
      run-IsSequential (next code) c' (subst IsSequential (sym (from_seek-sink c offset)) w)
  run-IsSequential (patch_read size next) c w =
      let (c', code, bytes) = cb_patch_read base (sink_write (recorded flash)) c size in
      run-IsSequential (next code bytes) c' (unfold cb_patch_read in w)
  run-IsSequential (to_write bytes next) c w =
      let (c', code) = cb_to_write base (sink_write (recorded flash)) c bytes in
      run-IsSequential (next code) c' (unfold cb_to_write in sink_write-IsSequential c.sink bytes w)

  -- Whatever the decoder does, and whatever the target answers, the writes that the target accepted
  -- follow one another without a gap or an overlap from the offset at the start on, and end at the
  -- offset that the sink counts, if the writes before did modulo 2^32, and if this offset at the start
  -- and the lengths of all accepted writes add up to less than 2^32.
  pub run-IsContiguous :
      (d : Decoder) (c : ApplyCtx Sink)
      → IsSequential c.sink
      → let s = (run base (sink_write (recorded flash)) d c).0.sink in
        from + amount s.target.1 < 4294967296 → IsContiguous from s.target.1 s.offset
  run-IsContiguous d c w small = AreInSequence-IsContiguous from _ _ small (run-IsSequential d c w)
