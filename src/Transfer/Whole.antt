-- ===== src/Transfer/Whole.antt =====
-- A transfer from its start: the manifest, then the blocks.
use ota_common.Common.{
  ℕ, suc, ◌+◌, ◌<◌, ◌≡◌, sym, ap, subst, ◌∙◌, arith, inl, inr, Option, List, ◌++◌, length, u16,
  Bool, true,
}
use ota_common.Wire
use ota_common.Manifest.{Manifest, manifest_at}
use ota_common.Package.{SignatureVerifier}
use ota_common.BlockStore.{BlockStore}
use ota_common.Merkle.{merkle_root}
use ota_common.Merkle.Digests.{leaves_of}
use ota_common.Seeder.{Seeder}
use ota_common.Seeder.Answer.{
  IsServing, sending, still-IsServing, on_frame-request, answer-manifest_frames,
}
use ota_common.Receiver.{Receiver, new_receiver}
use ota_common.Receiver.Frames.{asking, poll-unready}
use ota_common.Receiver.Units.{Unsigned}
use ota_common.Receiver.Started.{IsWaiting, Announces}
use ota_common.Seeder.Opening.{announced}
use ota_common.Transfer.Opening.{opening, opening_frames, opening-frames, opening-IsWaiting}
use ota_common.Receiver.Kept.{IsSound, Agrees, manifest-IsKept}
use ota_common.Transfer.{fragments}
use ota_common.Transfer.Rounds.{Stores, round, rounds, round-frames}
use ota_common.Transfer.Session.{Fetches, IsDone, rounds-IsDone}

-- The seeder has the manifest and its signature, which speak of the blocks.
pub record IsPublishing (verifier : Option SignatureVerifier) (blocks : List (List ℕ)) (s : Seeder)
    : Type 0 where
  pub raw : List ℕ
  pub rest : List ℕ
  pub held : s.manifest_bytes ≡ raw ++ rest
  pub size : length raw ≡ 192 + s.sig_len
  pub small : length raw < 65536
  pub sound : IsSound verifier raw
  pub rooted : (manifest_at raw).payload_merkle_root ≡ (merkle_root (leaves_of blocks)).bytes
  pub counted : u16 (manifest_at raw).block_count ≡ length blocks

module _ {S : Type 0} (ops : BlockStore S) (verifier : Option SignatureVerifier)
    (blocks : List (List ℕ)) (laws : Stores ops blocks) where
  open laws use {IsGood}

  -- A request changes nothing of the wait.
  asking-Agrees :
      (index : ℕ) (m : Manifest) (r : Receiver S)
      → Agrees ops verifier m r
      → Agrees ops verifier m (asking index r)
  asking-Agrees index m r (inl unknown) = inl unknown
  asking-Agrees index m r (inr g) =
      inr (record { size = g.size; count = g.count; len = g.len; few = g.few })

  asking-Unsigned :
      (session index : ℕ) (r : Receiver S)
      → Unsigned ops verifier session r
      → Unsigned ops verifier session (asking index r)
  asking-Unsigned session index r w = record {
    opened = record { ours = w.opened.ours; live = w.opened.live; running = w.opened.running };
    unready = w.unready;
  }

  still-IsPublishing :
      (frames : List (List ℕ)) (s : Seeder)
      → IsPublishing verifier blocks s
      → IsPublishing verifier blocks (sending s frames)
  still-IsPublishing frames s w = record {
    raw = w.raw;
    rest = w.rest;
    held = w.held;
    size = w.size;
    small = w.small;
    sound = w.sound;
    rooted = w.rooted;
    counted = w.counted;
  }

  -- The round that brings the manifest.
  first_round :
      (s : Seeder) (r : Receiver S)
      → IsServing blocks s
      → (w : IsPublishing verifier blocks s)
      → IsWaiting ops verifier s.session (manifest_at w.raw) r
      → IsGood r.store
      → let p = round ops verifier (s, r) in
        IsServing blocks p.0 × Fetches ops verifier blocks laws p.0.session 0 p.1
  first_round s r serves w waits good =
      let opened = waits.unsigned.opened in
      let frames = fragments Wire.manifest s.session 65535 w.raw s.frag (length w.raw) 0 in
      let sent =
        on_frame-request 65535 s serves.valid serves.session_fits (omega arith)
        ∙ answer-manifest_frames w.raw w.rest s w.held w.size w.small serves.frag_fits in
      let k =
        manifest-IsKept ops verifier s.session s.frag w.raw (asking 65535 r) serves.session_fits
          serves.some_frag w.small w.sound (asking-Unsigned s.session 65535 r waits.unsigned)
          (asking-Agrees 65535 (manifest_at w.raw) r waits.agrees) in
      subst
        (λ (p : Seeder × Receiver S).
          IsServing blocks p.0 × Fetches ops verifier blocks laws p.0.session 0 p.1)
        (sym (
          round-frames ops verifier s r 65535 frames opened.ours
            (poll-unready ops verifier r opened.live opened.running waits.unsigned.unready) sent))
        (
          still-IsServing blocks frames s serves,
          record {
            resumes = record {
              good = subst IsGood (sym k.same_store) good;
              ours = k.ours ∙ waits.unsigned.opened.ours;
              live = k.live ∙ waits.unsigned.opened.live;
              ready = k.ready;
              counted = k.counted ∙ w.counted;
              rooted = ap (λ b. record { bytes = b }) (k.rooted ∙ w.rooted);
              ends = k.ends;
              had = λ j h. absurd (omega arith);
            };
            cleared = λ i. ap (λ f. f i) k.same_blocks ∙ waits.cleared i;
          },
        )

  waiting-IsDone :
      (s : Seeder) (r : Receiver S)
      → IsServing blocks s
      → (w : IsPublishing verifier blocks s)
      → IsWaiting ops verifier s.session (manifest_at w.raw) r
      → IsGood r.store
      → IsDone ops verifier blocks laws (rounds ops verifier (suc (length blocks)) (s, r))
  unfolding rounds
  waiting-IsDone s r serves w waits good =
      let p = round ops verifier (s, r) in
      let (serves', w') = first_round s r serves w waits good in
      simp waits.unsigned.opened.running
        (rounds-IsDone ops verifier blocks laws (length blocks) 0 p.0 p.1 serves' w' (omega arith))

  -- A receiver just made over a store that keeps what it is given of the blocks, and a seeder that
  -- serves the blocks, with a manifest of them that passes the receiver's checks, are done after one
  -- round for the manifest and one for each block: the transfer is complete, and the store has every
  -- block. The seeder may open the transfer with its START, if the manifest has the seeder's geometry.
  -- In a round the receiver is polled, the seeder takes the frames that the poll sends, and the
  -- receiver takes those that the seeder sends then.
  pub transfer-IsDone :
      (started : Bool) (s : Seeder) (store : S)
      → IsServing blocks s
      → (w : IsPublishing verifier blocks s)
      → (started ≡ true → Announces ops verifier (manifest_at w.raw) (announced s))
      → IsGood store
      → IsDone ops verifier blocks laws (
          rounds ops verifier
            (suc (length blocks))
            (opening ops verifier started (s, new_receiver store s.session)))
  unfolding still-IsPublishing
  transfer-IsDone started s store serves w announces good =
      let frames = opening_frames started s in
      let (waits, same) =
        opening-IsWaiting ops verifier started (manifest_at w.raw) s store serves.session_fits
          announces in
      let opened =
        opening-frames ops verifier started s (new_receiver store s.session) serves.valid in
      subst (λ p. IsDone ops verifier blocks laws (rounds ops verifier (suc (length blocks)) p))
        (sym opened)
        (waiting-IsDone (sending s frames) _ (still-IsServing blocks frames s serves)
          (still-IsPublishing frames s w) waits (subst IsGood (sym same) good))
