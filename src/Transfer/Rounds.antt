-- ===== src/Transfer/Rounds.antt =====
-- The rounds of a transfer: a poll of the receiver, what it sends, and the seeder's answer, over a
-- store of which an interface says what it keeps.
use ota_common.Common.{
  ℕ, zero, suc, ◌<◌, ◌≡◌, refl, sym, ap, ◌∙◌, inl, inr, true, false, Option, List, [], ◌∷◌, length,
  get_or, drop, drop_left, if◌then◌else◌, Bool-cases,
}
use ota_common.Package.{SignatureVerifier}
use ota_common.BlockStore.{BlockStore}
use ota_common.Seeder
use ota_common.Seeder.{Seeder}
use ota_common.Seeder.Answer.{sending}
use ota_common.Receiver
use ota_common.Receiver.{Receiver, poll}
use ota_common.Receiver.Frames.{request_frame, asking}
use ota_common.Transfer.{take_all_frames}

-- What a store promises for the blocks of a transfer, in states of its own invariant, when they come
-- in order.
pub record Stores {S : Type 0} (ops : BlockStore S) (blocks : List (List ℕ)) : Type 1 where
  pub IsGood : S → Type 0
  pub put_good :
      (st : S) (i : ℕ)
      → IsGood st
      → i < length blocks
      → ops.has_block st i ≡ false
      → ((j : ℕ) → j < i → ops.has_block st j ≡ true)
      → let st' = (ops.put_block st i (get_or blocks i [])).0 in
        IsGood st'
        × ((ops.has_block st' i ≡ true)
            × ((j : ℕ) → ops.has_block st j ≡ true → ops.has_block st' j ≡ true))

module _ {S : Type 0} (ops : BlockStore S) (verifier : Option SignatureVerifier) where
  -- The receiver's timer polls it, the frames that it sends then are given to the seeder, and the
  -- frames that the seeder sends then are given to the receiver.
  unfoldable pub round : Seeder × Receiver S → Seeder × Receiver S
  round (s, r) =
      let q = poll ops verifier r in
      let s' = take_all_frames Seeder.on_frame (drop (length r.out) q.out) s in
      (s', take_all_frames (Receiver.on_frame ops verifier) (drop (length s.out) s'.out) q)

  -- Rounds until the receiver is done.
  unfoldable pub rounds : ℕ → Seeder × Receiver S → Seeder × Receiver S
  rounds zero p = p
  rounds (suc n) p = let rest = rounds n (round p) in if p.1.complete then p else rest

  pub rounds-done : (n : ℕ) (p : Seeder × Receiver S) → p.1.complete ≡ true → rounds (suc n) p ≡ p
  unfolding rounds
  rounds-done n p over = ap (λ b. if b then p else rounds n (round p)) over

  pub rounds-running :
      (n : ℕ) (p : Seeder × Receiver S)
      → p.1.complete ≡ false
      → rounds (suc n) p ≡ rounds n (round p)
  unfolding rounds
  rounds-running n p running = ap (λ b. if b then p else rounds n (round p)) running

  -- More rounds change nothing once the receiver is done.
  pub rounds_more :
      (n : ℕ) (p : Seeder × Receiver S)
      → (rounds n p).1.complete ≡ true
      → rounds (suc n) p ≡ rounds n p
  unfolding rounds
  rounds_more zero p over = rounds-done 0 p over
  rounds_more (suc n) p over = elim (Bool-cases p.1.complete) [
    | inl done ↦ rounds-done (suc n) p done ∙ sym (rounds-done n p done)
    | inr running ↦
        let step = rounds-running n p running in
        rounds-running (suc n) p running
        ∙ rounds_more n (round p) (ap (λ q. q.1.complete) (sym step) ∙ over)
        ∙ sym step
  ]

  -- A round in which the receiver asks for a unit.
  pub round-frames :
      (s : Seeder) (r : Receiver S) (index : ℕ) (frames : List (List ℕ))
      → r.session ≡ s.session
      → poll ops verifier r ≡ asking index r
      → Seeder.on_frame (request_frame s.session index) s ≡ sending s frames
      → round (s, r) ≡ (
        sending s frames,
        take_all_frames (Receiver.on_frame ops verifier) frames (asking index r),
      )
  unfolding round take_all_frames
  round-frames s r index frames ours polled sent =
      let back : Seeder → Receiver S → Seeder × Receiver S = λ s' q.
        (s', take_all_frames (Receiver.on_frame ops verifier) (drop (length s.out) s'.out) q) in
      let asked : drop (length r.out) (asking index r).out ≡ request_frame s.session index ∷ [] =
        drop_left (length r.out) r.out (request_frame r.session index ∷ []) refl
        ∙ ap (λ (n : ℕ). request_frame n index ∷ []) ours in
      ap (λ q. back (take_all_frames Seeder.on_frame (drop (length r.out) q.out) s) q) polled
      ∙ ap (λ fs. back (take_all_frames Seeder.on_frame fs s) (asking index r)) asked
      ∙ ap (λ s'. back s' (asking index r)) sent
      ∙ ap
          (λ fs. (
            sending s frames,
            take_all_frames (Receiver.on_frame ops verifier) fs (asking index r),
          ))
          (drop_left (length s.out) s.out frames refl)
