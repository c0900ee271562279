-- ===== src/Receiver/Runs.antt =====
-- Whole transfers: the states that any series of frames and polls leads to.
use ota_common.Common.{
  ℕ, ◌≡◌, refl, ◌∙◌, arith, true, false, inl, inr, Option, List, [], ◌∷◌, Bool-cases,
}
use ota_common.Package.{SignatureVerifier}
use ota_common.Merkle.{Hash256, merkle_verify_block}
use ota_common.BlockStore.{BlockStore}
use ota_common.Receiver.{Receiver, new_receiver, on_frame, poll}
use ota_common.Transfer.{take_all_frames}
use ota_common.Receiver.Authentic.{StoreStep, kept, put, on_frame-StoreStep}
use ota_common.Receiver.Complete.{Accepted, AllStored, Inv}
use ota_common.Receiver.Invariant.{new_receiver-Inv, on_frame-Inv, poll-Inv}
use ota_common.Receiver.Rooted.{SameRoot, on_frame-SameRoot, poll-SameRoot, poll-store}

module _ {S : Type 0} (ops : BlockStore S) (verifier : Option SignatureVerifier) (initial : S) where
  -- The states of a receiver constructed over the store.
  pub data Reachable (session : ℕ) : Receiver S → Type 0 where
    created : Reachable session (new_receiver initial session)
    received :
        (frame : List ℕ) (r : Receiver S)
        → Reachable session r
        → Reachable session (on_frame ops verifier frame r)
    polled : (r : Receiver S) → Reachable session r → Reachable session (poll ops verifier r)

  pub Reachable-take_all_frames :
      (session : ℕ) (frames : List (List ℕ)) (r : Receiver S)
      → Reachable session r
      → Reachable session (take_all_frames (on_frame ops verifier) frames r)
  unfolding take_all_frames
  Reachable-take_all_frames session [] r way = way
  Reachable-take_all_frames session (f ∷ fs) r way =
      Reachable-take_all_frames session fs (on_frame ops verifier f r) (received f r way)

  pub Reachable-Inv : (session : ℕ) (r : Receiver S) → Reachable session r → Inv ops verifier r
  Reachable-Inv session _ created = new_receiver-Inv ops verifier initial session
  Reachable-Inv session _ (received frame r way) =
      on_frame-Inv ops verifier frame r (Reachable-Inv session r way)
  Reachable-Inv session _ (polled r way) = poll-Inv ops verifier r (Reachable-Inv session r way)

  -- The stores that puts of blocks tied to one root lead to.
  pub data PutUnder (root : Hash256) : S → Type 0 where
    untouched : PutUnder root initial
    next :
        (index count : ℕ) (input : List ℕ) (path : List Hash256) (s : S)
        → merkle_verify_block input index count path root ≡ true
        → PutUnder root s
        → PutUnder root (ops.put_block s index input).0

  -- Before the manifest the store is untouched; after it the root is the only one there ever was.
  pub record Tied (r : Receiver S) : Type 0 where
    pub before : r.manifest_ready ≡ false → r.store ≡ initial
    pub after : r.manifest_ready ≡ true → PutUnder r.merkle_root r.store

  StoreStep-Tied :
      (IsGood : Type 0) (r r' : Receiver S)
      → StoreStep ops verifier IsGood r r'.store
      → (r.manifest_ready ≡ true → SameRoot r r')
      → Tied r
      → Tied r'
  StoreStep-Tied IsGood r r' step same tied = elim (Bool-cases r.manifest_ready) [
    | inl ready ↦
        let open_still = (same ready).ready ∙ ready in
        record {
          before = λ unready. ground arith;
          after = λ e. rw (same ready).root (moved ready step);
        }
    | inr unready ↦
        let store = still unready step ∙ tied.before unready in
        record { before = λ e. store; after = λ e. rw store untouched }
  ]
    where
      moved :
          r.manifest_ready ≡ true
          → StoreStep ops verifier IsGood r r'.store
          → PutUnder r.merkle_root r'.store
      moved ready (kept e) = rw e (tied.after ready)
      moved ready (put index input path opened ok octets e) =
          rw e (next index r.block_count input path r.store ok (tied.after ready))

      still :
          r.manifest_ready ≡ false → StoreStep ops verifier IsGood r r'.store → r'.store ≡ r.store
      still unready (kept e) = e
      still unready (put index input path opened ok octets e) = ground arith

  Reachable-Tied : (session : ℕ) (r : Receiver S) → Reachable session r → Tied r
  Reachable-Tied session _ created = record { before = λ e. refl; after = λ e. ground arith }
  Reachable-Tied session _ (received frame r way) =
      StoreStep-Tied _ r (on_frame ops verifier frame r) (on_frame-StoreStep ops verifier frame r)
        (on_frame-SameRoot ops verifier frame r) (Reachable-Tied session r way)
  Reachable-Tied session _ (polled r way) =
      StoreStep-Tied (Unit {0}) r (poll ops verifier r) (kept (poll-store ops verifier r))
        (λ ready. poll-SameRoot ops verifier r) (Reachable-Tied session r way)

  -- What any series of frames and polls leads to, whatever the bytes of the frames. Until a manifest
  -- is accepted the store is as it was. From then on the manifest passed the checks of magic, format
  -- and signature, and every block put into the store was tied by its proof to the root of that
  -- manifest. A transfer that is complete misses no block below the block count.
  pub Reachable-verified :
      (session : ℕ) (r : Receiver S)
      → Reachable session r
      → (r.manifest_ready ≡ false → r.store ≡ initial)
        × ((r.manifest_ready ≡ true
              → Accepted ops verifier r.manifest_copy r.merkle_root
                × PutUnder r.merkle_root r.store)
            × (r.complete ≡ true → AllStored ops verifier r.block_count r.store))
  Reachable-verified session r way =
      let w = Reachable-Inv session r way in
      let tied = Reachable-Tied session r way in
      (tied.before, (λ ready. (w.accepted ready, tied.after ready), w.finished))
