-- ===== src/Transfer/Opening.antt =====
-- The start of a transfer: nothing, or the START of the seeder.
use ota_common.Common.{
  ℕ, ◌<◌, ◌≡◌, refl, sym, ap, ◌∙◌, Bool, true, false, Option, List, [], ◌∷◌, length, drop,
  drop_left, inl, append-nil,
}
use ota_common.Manifest.{Manifest}
use ota_common.Package.{SignatureVerifier}
use ota_common.BlockStore.{BlockStore}
use ota_common.Seeder.{Seeder, begin}
use ota_common.Seeder.Answer.{sending}
use ota_common.Seeder.Opening.{announced, start_frame, begin-start_frame}
use ota_common.Receiver.{Receiver, on_frame, new_receiver}
use ota_common.Receiver.Started.{IsWaiting, Announces, on_frame-IsWaiting}
use ota_common.Transfer.{take_all_frames}

-- The frames sent by a seeder that opens the transfer, if it does.
abbrev pub opening_frames : Bool → Seeder → List (List ℕ)
opening_frames false s = []
opening_frames true s = start_frame s ∷ []

module _ {S : Type 0} (ops : BlockStore S) (verifier : Option SignatureVerifier) where
  -- The seeder begins, or does not, and the frames that this adds to what it sent are given to the
  -- receiver.
  unfoldable pub opening : Bool → Seeder × Receiver S → Seeder × Receiver S
  opening false p = p
  opening true (s, r) =
      let s' = begin s in
      (s', take_all_frames (on_frame ops verifier) (drop (length s.out) s'.out) r)

  pub opening-frames :
      (started : Bool) (s : Seeder) (r : Receiver S)
      → s.valid ≡ true
      → opening started (s, r) ≡ (
        sending s (opening_frames started s),
        take_all_frames (on_frame ops verifier) (opening_frames started s) r,
      )
  unfolding opening take_all_frames
  opening-frames false s r valid = ap (λ o. (record s { out = o }, r)) (sym (append-nil s.out))
  opening-frames true s r valid =
      ap (λ s'. (s', take_all_frames (on_frame ops verifier) (drop (length s.out) s'.out) r))
        (begin-start_frame s valid)
      ∙ ap (λ fs. (sending s (start_frame s ∷ []), take_all_frames (on_frame ops verifier) fs r))
          (drop_left (length s.out) s.out (start_frame s ∷ []) refl)

  -- A receiver just made waits for the manifest, also after a START with the manifest's geometry.
  pub opening-IsWaiting :
      (started : Bool) (m : Manifest) (s : Seeder) (store : S)
      → s.session < 256
      → (started ≡ true → Announces ops verifier m (announced s))
      → let r =
          take_all_frames
            (on_frame ops verifier)
            (opening_frames started s)
            (new_receiver store s.session) in
        IsWaiting ops verifier s.session m r × (r.store ≡ store)
  unfolding take_all_frames
  opening-IsWaiting false m s store fits a = (
    record {
      unsigned = record {
        opened = record { ours = refl; live = refl; running = refl };
        unready = refl;
      };
      agrees = inl refl;
      cleared = λ i. refl;
    },
    refl,
  )
  opening-IsWaiting true m s store fits a =
      on_frame-IsWaiting ops verifier s.session m (announced s) (new_receiver store s.session) fits
        (a refl)
        (record { opened = record { ours = refl; live = refl; running = refl }; unready = refl })
        (λ i. refl)
