-- ===== src/Transfer/Recovery.antt =====
-- A transfer that goes on from whatever the receiver has kept of blocks and proofs.
use ota_common.Common.{
  ℕ, zero, suc, ◌+◌, ◌*◌, ◌≤◌, ◌≡◌, sym, subst, arith, ◌⊎◌, inl, inr, true, false, Option, List,
  length, Bool-cases,
}
use ota_common.Package.{SignatureVerifier}
use ota_common.BlockStore.{BlockStore}
use ota_common.Seeder.{Seeder}
use ota_common.Seeder.Answer.{IsServing}
use ota_common.Receiver.{Receiver}
use ota_common.Wire.Layout.{AreBytes}
use ota_common.Transfer.Octets.{HasOctets, round-HasOctets}
use ota_common.Transfer.Rounds.{Stores, round, rounds, rounds_more, rounds-done, rounds-running}
use ota_common.Transfer.Session.{Resumes, IsDone, complete-IsDone, had_all-complete}
use ota_common.Transfer.Retained.{Stale, Primes, round-Primes, round-Outcome}

module _ {S : Type 0} (ops : BlockStore S) (verifier : Option SignatureVerifier)
    (blocks : List (List ℕ)) (laws : Stores ops blocks) where
  later-IsDone :
      (n : ℕ) (p : Seeder × Receiver S)
      → IsDone ops verifier blocks laws (rounds ops verifier n p)
      → IsDone ops verifier blocks laws (rounds ops verifier (suc n) p)
  later-IsDone n p w =
      subst (IsDone ops verifier blocks laws) (sym (rounds_more ops verifier n p w.complete)) w

  -- After some rounds, the receiver keeps a block that collides with the published one of its index.
  abbrev pub MeetsCollision : Seeder × Receiver S → Type 0
  MeetsCollision p = (n : ℕ) × Stale blocks (rounds ops verifier n p).1

  abbrev Recovered : ℕ → Seeder × Receiver S → Type 0
  Recovered n p = IsDone ops verifier blocks laws (rounds ops verifier n p) ⊎ MeetsCollision p

  -- A round before.
  earlier-MeetsCollision :
      (p : Seeder × Receiver S)
      → p.1.complete ≡ false
      → MeetsCollision (round ops verifier p)
      → MeetsCollision p
  earlier-MeetsCollision p running (n, stale) = (
    suc n,
    subst (λ (q : Seeder × Receiver S). Stale blocks q.1)
        (sym (rounds-running ops verifier n p running)) stale,
  )

  earlier-Recovered :
      (m : ℕ) (p : Seeder × Receiver S)
      → p.1.complete ≡ false
      → Recovered m (round ops verifier p)
      → Recovered (suc m) p
  earlier-Recovered m p running (inl over) =
      inl (
        subst (IsDone ops verifier blocks laws) (sym (rounds-running ops verifier m p running))
          over)
  earlier-Recovered m p running (inr met) = inr (earlier-MeetsCollision p running met)

  over-Recovered :
      (n k : ℕ) (s : Seeder) (r : Receiver S)
      → IsServing blocks s
      → Resumes ops verifier blocks laws s.session k r
      → r.complete ≡ true
      → Recovered (suc n) (s, r)
  over-Recovered n k s r serves w over = inl (
      subst (IsDone ops verifier blocks laws) (sym (rounds-done ops verifier n (s, r) over))
        (complete-IsDone ops verifier blocks laws k s r serves.count_fits w over))

  later-Recovered : (n : ℕ) (p : Seeder × Receiver S) → Recovered n p → Recovered (suc n) p
  later-Recovered n p (inl done) = inl (later-IsDone n p done)
  later-Recovered n p (inr collision) = inr collision

  -- The second of two rounds.
  primed-Recovered :
      (m k : ℕ) (s : Seeder) (r : Receiver S)
      → IsServing blocks s
      → Primes ops verifier blocks laws s.session k r
      → HasOctets ops verifier (s, r)
      → ((s' : Seeder) (r' : Receiver S)
          → IsServing blocks s'
          → HasOctets ops verifier (s', r')
          → Resumes ops verifier blocks laws s'.session (k + 1) r'
          → Recovered m (s', r'))
      → Recovered (suc m) (s, r)
  primed-Recovered m k s r serves w octets rest = elim (Bool-cases r.complete) [
    | inl over ↦ over-Recovered m k s r serves w.resumes over
    | inr running ↦
        let (still, on) =
          round-Primes ops verifier blocks laws s r serves k w.resumes running w.held in
        let p = round ops verifier (s, r) in
        earlier-Recovered m (s, r) running
          (rest p.0 p.1 still (round-HasOctets ops verifier (s, r) octets) on)
  ]

  -- Two rounds, the first of which may only replace what the receiver keeps.
  running-Recovered :
      (m k : ℕ) (s : Seeder) (r : Receiver S)
      → IsServing blocks s
      → Resumes ops verifier blocks laws s.session k r
      → r.complete ≡ false
      → AreBytes blocks
      → HasOctets ops verifier (s, r)
      → ((s' : Seeder) (r' : Receiver S)
          → IsServing blocks s'
          → HasOctets ops verifier (s', r')
          → Resumes ops verifier blocks laws s'.session (k + 1) r'
          → Recovered m (s', r'))
      → Recovered (suc (suc m)) (s, r)
  running-Recovered m k s r serves w running bytes octets rest =
      let p = round ops verifier (s, r) in
      elim (round-Outcome ops verifier blocks laws s r serves k w running bytes octets.keeper) [
        | inr stale ↦ inr (0, unfold rounds in stale)
        | inl (still, inl on) ↦
            earlier-Recovered (suc m) (s, r) running
              (later-Recovered m p
                (rest p.0 p.1 still (round-HasOctets ops verifier (s, r) octets) on))
        | inl (still, inr primes) ↦
            earlier-Recovered (suc m) (s, r) running
              (primed-Recovered m k p.0 p.1 still primes
                (round-HasOctets ops verifier (s, r) octets) rest)
      ]

  -- A serving seeder and a receiver of its session that is not aborted, has the manifest of the same
  -- blocks and those below `k`, and is complete only if it needs no block, over a store that keeps what
  -- it is given, are done after two rounds for each block from `k` on, whatever blocks and proofs the
  -- receiver keeps from before, and whatever units it has begun with: the transfer is complete, and the
  -- store has every block. Otherwise, after some number of rounds, the receiver keeps a block that
  -- collides with the published one of its index, by the published proof. The blocks are made of bytes,
  -- and so is what the seeder holds and has sent and what the receiver keeps, whose proofs have digests
  -- of 32 bytes. In a round the receiver is polled, the seeder takes the frames that the poll sends,
  -- and the receiver takes those that the seeder sends then.
  pub rounds-recover :
      (n k : ℕ) (s : Seeder) (r : Receiver S)
      → IsServing blocks s
      → Resumes ops verifier blocks laws s.session k r
      → AreBytes blocks
      → HasOctets ops verifier (s, r)
      → length blocks ≤ k + n
      → IsDone ops verifier blocks laws (rounds ops verifier (n * 2) (s, r)) ⊎ MeetsCollision (s, r)
  unfolding rounds
  rounds-recover zero k s r serves w bytes octets enough =
      let none_left : 0 ≡ 0 * 2 = omega arith in
      let all : length blocks ≤ k = omega arith in
      subst (λ (m : ℕ). Recovered m (s, r)) none_left
        (inl (
          complete-IsDone ops verifier blocks laws k s r serves.count_fits w
            (had_all-complete ops verifier blocks laws k s r serves.count_fits w all)))
  rounds-recover (suc n) k s r serves w bytes octets enough =
      let two_more : suc (suc (n * 2)) ≡ suc n * 2 = omega arith in
      subst (λ (m : ℕ). Recovered m (s, r)) two_more
        (elim (Bool-cases r.complete) [
          | inl over ↦ over-Recovered (suc (n * 2)) k s r serves w over
          | inr running ↦
              running-Recovered (n * 2) k s r serves w running bytes octets
                (λ s' r' still octets' on.
                  rounds-recover n (k + 1) s' r' still on bytes octets' (omega (arith, enough)))
        ])
