-- ===== src/DetoolsApply/Patch.antt =====
-- What the decoder reads of the patch.
use ota_common.Common.{
  ℕ, ◌+◌, ◌-◌, ◌%◌, ◌^◌, ◌≤◌, ◌<◌, ◌≡◌, refl, sym, ap, ◌∙◌, arith, inl, inr, ℤ, pos, negsuc, ◌+ℤ◌,
  subst, u64, List, [], ◌++◌, append_assoc, length, take, drop, slice, ltb, Bool-cases,
  Option-cases, ltb-false, length-append, length-drop, take_left, take-append-drop, drop-drop,
}
use ota_common.EspImage.{ImageReader}
use ota_common.DetoolsApply.{
  Decoder, finish, from_read, from_seek, patch_read, to_write, ByteSink, PatchPos, ApplyCtx,
  read_patch, start_ctx, cb_from_read, cb_from_seek, seek_to, cb_patch_read, cb_to_write, run,
  detools_apply,
}

-- The position lies in the patch.
pub record IsWithin (p : PatchPos) : Type 0 where
  pub within : p.patch_pos ≤ p.patch_len
  pub whole : length p.patch ≡ p.patch_len
  pub small : p.patch_len < 2 ^ 64

-- From `p` to `p'` the bytes were read, in order.
pub record Reads (p p' : PatchPos) (bytes : List ℕ) : Type 0 where
  pub same : p'.patch ≡ p.patch
  pub inside : IsWithin p'
  pub taken : bytes ++ drop p'.patch_pos p.patch ≡ drop p.patch_pos p.patch

pub Reads-nothing : (p : PatchPos) → IsWithin p → Reads p p []
Reads-nothing p w = record { same = refl; inside = w; taken = refl }

pub read_patch-Reads :
    (p : PatchPos) (size : ℕ) → IsWithin p → Reads p (read_patch p size).0 (read_patch p size).2
unfolding read_patch
read_patch-Reads p size w =
    elim (Bool-cases (ltb ((p.patch_len + 2 ^ 64 - p.patch_pos) % 2 ^ 64) size)) [
      | inl short ↦ rw short (Reads-nothing p w)
      | inr enough ↦
          let fits : p.patch_pos + size ≤ p.patch_len = omega (arith, ltb-false _ size enough) in
          let next : u64 (p.patch_pos + size) ≡ p.patch_pos + size = omega arith in
          rw enough (record {
            same = refl;
            inside = record { within = omega arith; whole = w.whole; small = w.small };
            taken =
                ap (λ (k : ℕ). slice p.patch_pos size p.patch ++ drop k p.patch) next
                ∙ (ap (λ t. slice p.patch_pos size p.patch ++ t)
                      (sym (drop-drop p.patch_pos size (p.patch_pos + size) p.patch refl))
                    ∙ take-append-drop size (drop p.patch_pos p.patch));
          })
    ]

prefix_of_rest :
    (xs patch : List ℕ) (k : ℕ) → k ≤ length patch → xs ++ drop k patch ≡ patch → xs ≡ take k patch
prefix_of_rest xs patch k h e =
    sym (
      take_left k xs (drop k patch)
        (omega (arith, ap length e, length-append xs (drop k patch), length-drop k patch)))
    ∙ ap (take k) e

-- Bytes read from the start are a prefix.
pub Reads-prefix :
    {p p' : PatchPos} {bytes : List ℕ}
    → Reads p p' bytes
    → p.patch_pos ≡ 0
    → (p'.patch_pos ≤ length p.patch) × (bytes ≡ take p'.patch_pos p.patch)
Reads-prefix {p} {p'} {bytes} r start =
    let inside : p'.patch_pos ≤ length p.patch =
      omega (arith, r.inside.within, r.inside.whole, ap length r.same) in
    (
      inside,
      prefix_of_rest bytes p.patch p'.patch_pos inside
          (r.taken ∙ ap (λ (k : ℕ). drop k p.patch) start),
    )

pub Reads-append :
    {p p' p″ : PatchPos} {xs ys : List ℕ} → Reads p p' xs → Reads p' p″ ys → Reads p p″ (xs ++ ys)
Reads-append {p} {p'} {p″} {xs} {ys} a b = record {
  same = b.same ∙ a.same;
  inside = b.inside;
  taken =
      append_assoc xs ys (drop p″.patch_pos p.patch)
      ∙ (ap (λ t. xs ++ t)
            (ap (λ t. ys ++ drop p″.patch_pos t) (sym a.same)
              ∙ (b.taken ∙ ap (drop p'.patch_pos) a.same))
          ∙ a.taken);
}

module _ {S : Type 0} (base : ImageReader) (write : ByteSink S) where
  -- The bytes that a run reads of the patch, in the order of the calls.
  pub patch_bytes : Decoder → ApplyCtx S → List ℕ
  patch_bytes (finish code) c = []
  patch_bytes (from_read size next) c =
      let (c', code, bytes) = cb_from_read base write c size in patch_bytes (next code bytes) c'
  patch_bytes (from_seek offset next) c =
      let (c', code) = cb_from_seek base write c offset in patch_bytes (next code) c'
  patch_bytes (patch_read size next) c =
      let (c', code, bytes) = cb_patch_read base write c size in
      bytes ++ patch_bytes (next code bytes) c'
  patch_bytes (to_write bytes next) c =
      let (c', code) = cb_to_write base write c bytes in patch_bytes (next code) c'

  from_read-source :
      (c : ApplyCtx S) (size : ℕ) → (cb_from_read base write c size).0.source ≡ c.source
  unfolding cb_from_read
  from_read-source c size = elim (Option-cases (base c.base_pos size)) [
    | inl failed ↦ rw (cb_from_read, failed)
    | inr (bytes, done) ↦ rw (cb_from_read, done)
  ]

  from_seek-source :
      (c : ApplyCtx S) (offset : ℤ) → (cb_from_seek base write c offset).0.source ≡ c.source
  unfolding cb_from_seek
  from_seek-source c offset = go (pos c.base_pos +ℤ offset)
    where
      go : (p : ℤ) → (seek_to base write c p).0.source ≡ c.source
      go (pos n) = unfold seek_to in refl
      go (negsuc n) = unfold seek_to in refl

  -- A step that leaves the patch alone, before a run that reads `bytes`.
  carry :
      (p q r : PatchPos) (bytes : List ℕ)
      → q ≡ p
      → IsWithin p
      → (IsWithin q → Reads q r bytes)
      → Reads p r bytes
  carry p q r bytes e w go = subst (λ t. Reads t r bytes) e (go (subst IsWithin (sym e) w))

  -- Whatever the decoder does, and however its reads, seeks and writes end, what it reads of the
  -- patch is the patch itself, in order and without a gap, from the position of the context to that
  -- of the final one, which lies in the patch.
  pub run-Reads :
      (d : Decoder) (c : ApplyCtx S)
      → IsWithin c.source
      → Reads c.source (run base write d c).0.source (patch_bytes d c)
  unfolding run patch_bytes
  run-Reads (finish code) c w = Reads-nothing c.source w
  run-Reads (from_read size next) c w =
      let (c', code, bytes) = cb_from_read base write c size in
      carry c.source c'.source _ _ (from_read-source c size) w (run-Reads (next code bytes) c')
  run-Reads (from_seek offset next) c w =
      let (c', code) = cb_from_seek base write c offset in
      carry c.source c'.source _ _ (from_seek-source c offset) w (run-Reads (next code) c')
  run-Reads (patch_read size next) c w =
      let (c', code, bytes) = cb_patch_read base write c size in
      let step : Reads c.source c'.source bytes =
        unfold cb_patch_read in read_patch-Reads c.source size w in
      Reads-append step (run-Reads (next code bytes) c' step.inside)
  run-Reads (to_write bytes next) c w =
      let (c', code) = cb_to_write base write c bytes in
      carry c.source c'.source _ _ (unfold cb_to_write in refl) w (run-Reads (next code) c')

  -- Whatever the decoder does, and whatever the base image and the sink answer, what it reads of the
  -- patch in the order of its calls is a prefix of the patch, and no read goes past its end; a patch
  -- has fewer than 2^64 bytes.
  pub detools_apply-prefix :
      (decoder : ℕ → Decoder) (patch : List ℕ) (sink : S)
      → length patch < 2 ^ 64
      → let read = patch_bytes (decoder (length patch)) (start_ctx patch sink) in
        let last = (detools_apply base write decoder patch sink).0.source in
        (last.patch_pos ≤ length patch) × (read ≡ take last.patch_pos patch)
  unfolding detools_apply
  detools_apply-prefix decoder patch sink small =
      let r =
        run-Reads (decoder (length patch)) (start_ctx patch sink)
          (record { within = omega arith; whole = refl; small = small }) in
      Reads-prefix r refl
