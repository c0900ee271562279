-- ===== src/Receiver/Had.antt =====
-- The frames of a block that the store has already.
use ota_common.Common.{
  ℕ, zero, suc, ◌+◌, ◌<◌, ◌≡◌, ap, ◌∙◌, arith, inl, inr, true, Option, some, List, length, ltb,
  ltb→lt, ltb-false, Bool-cases,
}
use ota_common.Wire.{block}
use ota_common.Wire.Frame.{IsHeader}
use ota_common.Package.{SignatureVerifier}
use ota_common.BlockStore.{BlockStore}
use ota_common.Transfer.{fragment_header, fragments, block_frames, take_all_frames}
use ota_common.Transfer.Fragments.{fragments-zero, fragments-past, fragments-more}
use ota_common.Receiver.{Receiver, handle_block, receive, dispatch, on_frame}
use ota_common.Receiver.Frames.{on_frame-pack}

module _ {S : Type 0} (ops : BlockStore S) (verifier : Option SignatureVerifier)
    (session index : ℕ) where
  -- The frames of a block that the store has are ignored.
  receive-had :
      (off total : ℕ) (p : List ℕ) (r : Receiver S)
      → ops.has_block r.store index ≡ true
      → receive ops verifier (some (fragment_header block session index total off)) p r ≡ r
  unfolding receive dispatch handle_block
  receive-had off total p r had = ground (arith, had)

  fragments-had :
      (unit : List ℕ) (frag fuel off : ℕ) (r : Receiver S)
      → session < 256
      → index < 65536
      → length unit < 65536
      → ops.has_block r.store index ≡ true
      → take_all_frames (on_frame ops verifier) (fragments block session index unit frag fuel off) r
        ≡ r
  unfolding take_all_frames
  fragments-had unit frag zero off r sf xf small had =
      ap (λ fs. take_all_frames (on_frame ops verifier) fs r)
        (fragments-zero block session index unit frag off)
  fragments-had unit frag (suc fuel) off r sf xf small had =
      elim (Bool-cases (ltb off (length unit))) [
        | inr past ↦
            ap (λ fs. take_all_frames (on_frame ops verifier) fs r)
              (fragments-past block session index unit frag (suc fuel) off
                (ltb-false off (length unit) past))
        | inl more ↦
            let inside = ltb→lt off (length unit) more in
            let header : IsHeader (fragment_header block session index (length unit) off) = record {
              of_type = tt;
              session_fits = sf;
              index_fits = xf;
              off_fits = omega (arith, inside, small);
              total_fits = small;
            } in
            ap (λ fs. take_all_frames (on_frame ops verifier) fs r)
              (fragments-more block session index unit frag fuel off inside)
            ∙ ap
                (take_all_frames (on_frame ops verifier)
                  (fragments block session index unit frag fuel (off + frag)))
                (on_frame-pack ops verifier (fragment_header block session index (length unit) off)
                    _ r header
                  ∙ receive-had off (length unit) _ r had)
            ∙ fragments-had unit frag fuel (off + frag) r sf xf small had
      ]

  pub block_frames-had :
      (input : List ℕ) (frag : ℕ) (r : Receiver S)
      → session < 256
      → index < 65536
      → length input < 65536
      → ops.has_block r.store index ≡ true
      → take_all_frames (on_frame ops verifier) (block_frames session index input frag) r ≡ r
  unfolding block_frames
  block_frames-had input frag r sf xf small had =
      fragments-had input frag (length input) 0 r sf xf small had
