-- ===== src/Receiver/Started.antt =====
-- A receiver that waits for the manifest, before and after a START.
use ota_common.Common.{
  ℕ, ◌<◌, ◌≡◌, sym, ap, ◌∙◌, arith, inr, true, none, some, Option, [], ◌++◌, append-nil, subst,
}
use ota_common.Wire.{OtaStartInfo, frame_header_pack, start_info_pack, start_info_unpack}
use ota_common.Wire.Info.{IsStartInfo, start_info_unpack-pack}
use ota_common.Manifest.{Manifest}
use ota_common.Package.{SignatureVerifier}
use ota_common.BlockStore.{BlockStore}
use ota_common.Receiver.{Receiver, set_geometry, handle_start, dispatch, on_frame}
use ota_common.Seeder.Opening.{start_header}
use ota_common.Receiver.Units.{Unsigned, on_frame-dispatch}
use ota_common.Receiver.Kept.{Agrees}
use ota_common.Receiver.Frames.{request_next-SameBut, request_next-unready}

module _ {S : Type 0} (ops : BlockStore S) (verifier : Option SignatureVerifier) where
  -- The manifest is wanted, any START agreed with it, and no block is kept outside the store.
  pub record IsWaiting (session : ℕ) (m : Manifest) (r : Receiver S) : Type 0 where
    pub unsigned : Unsigned ops verifier session r
    pub agrees : Agrees ops verifier m r
    pub cleared : (i : ℕ) → r.ready_blocks i ≡ none

  -- The geometry of a START is the manifest's.
  pub record Announces (m : Manifest) (s : OtaStartInfo) : Type 0 where
    pub fits : IsStartInfo s
    pub size : m.block_size ≡ s.block_size
    pub count : m.block_count ≡ s.block_count
    pub len : m.payload_length ≡ s.payload_length

  -- A START with the manifest's geometry leaves the receiver waiting, over the same store.
  pub on_frame-IsWaiting :
      (session : ℕ) (m : Manifest) (s : OtaStartInfo) (r : Receiver S)
      → session < 256
      → Announces m s
      → Unsigned ops verifier session r
      → ((i : ℕ) → r.ready_blocks i ≡ none)
      → let r' =
          on_frame ops verifier (frame_header_pack (start_header session) ++ start_info_pack s) r in
        IsWaiting session m r' × (r'.store ≡ r.store)
  unfolding dispatch handle_start set_geometry
  on_frame-IsWaiting session m s r fits a w cleared =
      let q = record r {
        block_size = s.block_size;
        block_count = s.block_count;
        payload_length = s.payload_length;
        manifest_len = s.manifest_len;
        sig_len = s.sig_len;
        have_geometry = true;
      } in
      let unpacked =
        ap (λ p. start_info_unpack (some p)) (sym (append-nil (start_info_pack s)))
        ∙ start_info_unpack-pack s [] a.fits in
      let taken =
        on_frame-dispatch ops verifier (start_header session) (start_info_pack s) r
          (record {
            of_type = tt;
            session_fits = fits;
            index_fits = omega arith;
            off_fits = omega arith;
            total_fits = omega arith;
          })
          w.opened
        ∙ ap (λ o. set_geometry ops verifier o r) unpacked in
      let same = request_next-SameBut ops verifier q in
      subst (λ r'. IsWaiting session m r' × (r'.store ≡ r.store)) (sym taken)
        (
          record {
            unsigned = record {
              opened = record {
                ours = same.session ∙ w.opened.ours;
                live = same.aborted ∙ w.opened.live;
                running = request_next-unready ops verifier q w.unready ∙ w.opened.running;
              };
              unready = same.manifest_ready ∙ w.unready;
            };
            agrees = inr (record {
              size = a.size ∙ sym same.block_size;
              count = a.count ∙ sym same.block_count;
              len = a.len ∙ sym same.payload_length;
              few = subst (λ (n : ℕ). n < 65536) (sym a.count) a.fits.block_count_fits;
            });
            cleared = λ i. ap (λ f. f i) same.ready_blocks ∙ cleared i;
          },
          same.store,
        )
