-- ===== src/Transfer/Session.antt =====
-- A transfer of blocks, round by round.
use ota_common.Common.{
  ℕ, zero, suc, ◌+◌, ◌≤◌, ◌<◌, ◌≡◌, ◌≢◌, refl, sym, ap, subst, ◌∙◌, arith, inl, inr, true, false,
  Option, none, List, [], length, get_or, ◌==◌, ltb, Bool-cases,
}
use ota_common.Wire.{index_manifest}
use ota_common.Package.{SignatureVerifier}
use ota_common.BlockStore.{BlockStore}
use ota_common.Merkle.{merkle_root}
use ota_common.Merkle.Digests.{leaves_of}
use ota_common.Seeder.{Seeder}
use ota_common.Seeder.Answer.{IsServing, still-IsServing}
use ota_common.Receiver.{Receiver, next_needed_block, poll}
use ota_common.Receiver.Complete.{next_needed_block-none, next_needed_block-some}
use ota_common.Receiver.Units.{Wants}
use ota_common.Receiver.Frames.{asking, poll-ready}
use ota_common.Receiver.Delivered.{IsDelivered}
use ota_common.Receiver.Stale.{next_needed-same}
use ota_common.Transfer.Answered.{request-IsDelivered}
use ota_common.Transfer.Rounds.{Stores, round, rounds, round-frames}

module _ {S : Type 0} (ops : BlockStore S) (verifier : Option SignatureVerifier) where
  module _ (blocks : List (List ℕ)) (laws : Stores ops blocks) where
    open laws use {IsGood, put_good}

    -- A receiver that has the manifest and the blocks below `k`, whatever else it keeps.
    pub record Resumes (session k : ℕ) (r : Receiver S) : Type 0 where
      pub good : IsGood r.store
      pub ours : r.session ≡ session
      pub live : r.aborted ≡ false
      pub ready : r.manifest_ready ≡ true
      pub counted : r.block_count ≡ length blocks
      pub rooted : r.merkle_root ≡ merkle_root (leaves_of blocks)
      pub ends : r.complete ≡ (next_needed_block ops verifier r == index_manifest)
      pub had : (j : ℕ) → j < k → ops.has_block r.store j ≡ true

    -- The same, and it keeps no block outside the store.
    pub record Fetches (session k : ℕ) (r : Receiver S) : Type 0 where
      pub resumes : Resumes session k r
      pub cleared : (i : ℕ) → r.ready_blocks i ≡ none

    -- A block at or below `k` other than the first one that lacks.
    had_below :
        (session k index j : ℕ) (r : Receiver S)
        → Resumes session k r
        → ops.has_block r.store index ≡ false
        → ((i : ℕ) → i < index → ops.has_block r.store i ≡ true)
        → j < k + 1
        → j ≢ index
        → ops.has_block r.store j ≡ true
    had_below session k index j r w lacks below h other = elim (Bool-cases (ltb j index)) [
      | inl low ↦ below j (ground arith)
      | inr high ↦ elim (Bool-cases (ltb index k)) [
        | inl early ↦ let had = w.had index (ground arith) in ground (arith, had, lacks)
        | inr late ↦ ground (arith, other)
      ]
    ]

    pub delivered-Resumes :
        (session k index : ℕ) (r r' : Receiver S)
        → Resumes session k r
        → index < length blocks
        → ops.has_block r.store index ≡ false
        → ((j : ℕ) → j < index → ops.has_block r.store j ≡ true)
        → IsDelivered ops verifier session index (get_or blocks index []) r r'
        → Resumes session (k + 1) r'
    delivered-Resumes session k index r r' w inside lacks below d =
        let (good, (has, keeps)) = put_good r.store index w.good inside lacks below in
        record {
          good = subst IsGood (sym d.stored) good;
          ours = d.ongoing.ours;
          live = d.ongoing.live;
          ready = d.ongoing.ready;
          counted = d.ongoing.same_count ∙ w.counted;
          rooted = d.ongoing.same_root ∙ w.rooted;
          ends = d.ongoing.ends;
          had = λ j h. ap (λ st. ops.has_block st j) d.stored ∙ elim (Bool-cases (j == index)) [
            | inl same ↦
                let here : j ≡ index = ground arith in
                ap (ops.has_block (ops.put_block r.store index (get_or blocks index [])).0) here
                ∙ has
            | inr other ↦
                keeps j (had_below session k index j r w lacks below h (ground (arith, other)))
          ];
        }

    -- The block that is asked for next.
    pub needed_next :
        (session k : ℕ) (r : Receiver S)
        → Resumes session k r
        → length blocks < 65536
        → r.complete ≡ false
        → let index = next_needed_block ops verifier r in
          (index < length blocks)
          × ((ops.has_block r.store index ≡ false)
              × ((j : ℕ) → j < index → ops.has_block r.store j ≡ true))
    needed_next session k r w small running =
        let some_needed : next_needed_block ops verifier r ≢ index_manifest =
          ground (arith, w.ends, running) in
        let (within, rest) =
          next_needed_block-some ops verifier r (omega (arith, w.counted, small)) some_needed in
        (omega (arith, within, w.counted), rest)

    pub Resumes-Wants :
        (session k index : ℕ) (r : Receiver S)
        → Resumes session k r
        → r.complete ≡ false
        → ops.has_block r.store index ≡ false
        → Wants ops verifier session index r
    Resumes-Wants session k index r w running lacks = record {
      opened = record { ours = w.ours; live = w.live; running = running };
      ready = w.ready;
      lacks = lacks;
    }

    -- A request changes nothing of it.
    pub asking-Resumes :
        (session k index : ℕ) (r : Receiver S)
        → Resumes session k r
        → Resumes session k (asking index r)
    asking-Resumes session k index r w = record {
      good = w.good;
      ours = w.ours;
      live = w.live;
      ready = w.ready;
      counted = w.counted;
      rooted = w.rooted;
      ends =
          w.ends
          ∙ ap (λ (n : ℕ). n == index_manifest)
              (sym (next_needed-same ops verifier session index r (asking index r) refl refl));
      had = w.had;
    }

    -- While the transfer runs, a poll asks for the next block.
    pub poll-needed :
        (session k : ℕ) (r : Receiver S)
        → Resumes session k r
        → r.complete ≡ false
        → poll ops verifier r ≡ asking (next_needed_block ops verifier r) r
    poll-needed session k r w running =
        poll-ready ops verifier r w.live running w.ready (sym w.ends ∙ running)

    round-Fetches :
        (k : ℕ) (s : Seeder) (r : Receiver S)
        → IsServing blocks s
        → Fetches s.session k r
        → r.complete ≡ false
        → let p = round ops verifier (s, r) in
          IsServing blocks p.0 × Fetches p.0.session (k + 1) p.1
    round-Fetches k s r serves w running =
        let on = w.resumes in
        let index = next_needed_block ops verifier r in
        let (inside, (lacks, below)) = needed_next s.session k r on serves.count_fits running in
        let q = asking index r in
        let after = asking-Resumes s.session k index r on in
        let (frames, sent, delivered) =
          request-IsDelivered ops verifier blocks index s q serves inside
            (Resumes-Wants s.session k index q after running lacks) (w.cleared index) on.counted
            on.rooted in
        subst (λ (p : Seeder × Receiver S). IsServing blocks p.0 × Fetches p.0.session (k + 1) p.1)
          (sym (
            round-frames ops verifier s r index frames on.ours
              (poll-needed s.session k r on running) sent))
          (
            still-IsServing blocks frames s serves,
            record {
              resumes = delivered-Resumes s.session k index q _ after inside lacks below delivered;
              cleared = delivered.ongoing.cleared (λ i other. w.cleared i);
            },
          )

    -- A receiver that is done, and has every block.
    pub record IsDone (p : Seeder × Receiver S) : Type 0 where
      pub complete : p.1.complete ≡ true
      pub all_stored : (i : ℕ) → i < length blocks → ops.has_block p.1.store i ≡ true
      pub good : IsGood p.1.store

    pub complete-IsDone :
        (k : ℕ) (s : Seeder) (r : Receiver S)
        → length blocks < 65536
        → Resumes s.session k r
        → r.complete ≡ true
        → IsDone (s, r)
    complete-IsDone k s r small w over =
        let none_needed : next_needed_block ops verifier r ≡ index_manifest =
          ground (arith, w.ends, over) in
        record {
          complete = over;
          all_stored = λ i h.
              next_needed_block-none ops verifier r (omega (arith, w.counted, small)) none_needed i
                (omega (arith, w.counted, h));
          good = w.good;
        }

    pub had_all-complete :
        (k : ℕ) (s : Seeder) (r : Receiver S)
        → length blocks < 65536
        → Resumes s.session k r
        → length blocks ≤ k
        → r.complete ≡ true
    had_all-complete k s r small w all = elim (Bool-cases r.complete) [
      | inl over ↦ over
      | inr running ↦
          let (within, (lacks, below)) =
            next_needed_block-some ops verifier r (omega (arith, w.counted, small))
              (ground (arith, w.ends, running)) in
          let has =
            w.had (next_needed_block ops verifier r) (omega (arith, within, w.counted, all)) in
          ground (arith, has, lacks)
    ]

    -- A serving seeder, and a receiver that has the manifest of the same blocks and so far the blocks
    -- below `k`, over a store that keeps what it is given, are done after a round for each block from
    -- `k` on: the transfer is complete, and the store has every block.
    pub rounds-IsDone :
        (n k : ℕ) (s : Seeder) (r : Receiver S)
        → IsServing blocks s
        → Fetches s.session k r
        → length blocks ≤ k + n
        → IsDone (rounds ops verifier n (s, r))
    unfolding rounds
    rounds-IsDone zero k s r serves w enough =
        let all : length blocks ≤ k = omega arith in
        complete-IsDone k s r serves.count_fits w.resumes
          (had_all-complete k s r serves.count_fits w.resumes all)
    rounds-IsDone (suc n) k s r serves w enough = elim (Bool-cases r.complete) [
      | inl over ↦ simp over (complete-IsDone k s r serves.count_fits w.resumes over)
      | inr running ↦
          let (serves', w') = round-Fetches k s r serves w running in
          simp running (
            rounds-IsDone n (k + 1) (round ops verifier (s, r)).0 (round ops verifier (s, r)).1
              serves' w' (omega arith))
    ]
