-- ===== src/Receiver/Delivered.antt =====
-- A block unit that arrives whole after its proof: the block is put and acknowledged.
use ota_common.Common.{
  ℕ, ◌*◌, ◌<◌, ◌≡◌, ◌≢◌, sym, ap, ap₂, subst, ◌∙◌, arith, inl, inr, true, false, Option, none, some,
  List, [], ◌∷◌, ◌++◌, append_assoc, length, ◌==◌, Bool-cases,
}
use ota_common.Wire.{index_manifest, ack, frame_header_pack}
use ota_common.Package.{SignatureVerifier}
use ota_common.Merkle.{Hash256, merkle_verify_block}
use ota_common.Merkle.Digests.{AreHashes}
use ota_common.Reassembler.{Reassembler}
use ota_common.BlockStore.{BlockStore}
use ota_common.Transfer.{proof_frames, block_frames, take_all_frames, take_all_frames-append}
use ota_common.Receiver.{
  Receiver, next_needed_block, update, send_simple, request_next, finish_block, try_parts,
  try_finish_block, feed_block, on_frame,
}
use ota_common.Receiver.Frames.{request_next-SameBut, request_next-out, request_next-ends}
use ota_common.Receiver.Noted.{update_at, HasProof, proof-HasProof}
use ota_common.Receiver.Units.{Wants, block_arrives}

pub update_other :
    {V : Type 0} → (f : ℕ → Option V) (k j : ℕ) (v : Option V) → j ≢ k → update f k v j ≡ f j
update_other f k j v other = ground arith

update-none :
    {V : Type 0} → (f : ℕ → Option V) (k j : ℕ) → (j ≢ k → f j ≡ none) → update f k none j ≡ none
update-none f k j rest = elim (Bool-cases (j == k)) [
  | inl same ↦ rw same
  | inr other ↦ rw other (rest (ground (arith, other)))
]

module _ {S : Type 0} (ops : BlockStore S) (verifier : Option SignatureVerifier)
    (session index : ℕ) where
  abbrev pub acknowledgement : List ℕ
  acknowledgement =
      frame_header_pack
        (record { type = ack; session = session; index = index; off = 0; total = 0 })

  -- The receiver goes on, or has ended because it needs no block any more.
  pub record IsOngoing (r r' : Receiver S) : Type 0 where
    pub ours : r'.session ≡ session
    pub live : r'.aborted ≡ false
    pub ready : r'.manifest_ready ≡ true
    pub same_count : r'.block_count ≡ r.block_count
    pub same_root : r'.merkle_root ≡ r.merkle_root
    pub cleared :
        ((k : ℕ) → k ≢ index → r.ready_blocks k ≡ none) → (k : ℕ) → r'.ready_blocks k ≡ none
    pub ends : r'.complete ≡ (next_needed_block ops verifier r' == index_manifest)

  -- The block comes after its proof: it is put, and acknowledged before the next request.
  pub record IsDelivered (input : List ℕ) (r r' : Receiver S) : Type 0 where
    pub stored : r'.store ≡ (ops.put_block r.store index input).0
    pub ongoing : IsOngoing r r'
    pub last_request : List ℕ
    pub acknowledged : r'.out ≡ r.out ++ (acknowledgement ∷ last_request ∷ [])

  -- The state that `finish_block` leaves to `request_next`.
  abbrev settled : List ℕ → Receiver S → Receiver S
  settled input r = record r {
    store = (ops.put_block r.store index input).0;
    out = r.out ++ (acknowledgement ∷ []);
    ready_blocks = update r.ready_blocks index none;
    proofs = update r.proofs index none;
  }

  answered :
      (input : List ℕ) (r : Receiver S)
      → Wants ops verifier session index r
      → IsDelivered input r (request_next ops verifier (settled input r))
  answered input r w =
      let q = settled input r in
      let (f, out) = request_next-out ops verifier q in
      let same = request_next-SameBut ops verifier q in
      record {
        stored = same.store;
        ongoing = record {
          ours = same.session ∙ w.opened.ours;
          live = same.aborted ∙ w.opened.live;
          ready = same.manifest_ready ∙ w.ready;
          same_count = same.block_count;
          same_root = same.merkle_root;
          cleared = λ rest k.
              ap (λ g. g k) same.ready_blocks ∙ update-none r.ready_blocks index k (rest k);
          ends = request_next-ends ops verifier q w.ready w.opened.running;
        };
        last_request = f;
        acknowledged = out ∙ append_assoc r.out _ (f ∷ []);
      }

  finish_block-settled :
      (input : List ℕ) (path : List Hash256) (r : Receiver S)
      → r.session ≡ session
      → merkle_verify_block input index r.block_count path r.merkle_root ≡ true
      → finish_block ops verifier index input path r ≡ request_next ops verifier (settled input r)
  unfolding finish_block send_simple
  finish_block-settled input path r ours ok = rw ok (
      ap
        (λ (n : ℕ). request_next ops verifier (record (settled input r) {
          out =
              r.out
              ++ (frame_header_pack
                    (record { type = ack; session = n; index = index; off = 0; total = 0 })
                  ∷ []);
        }))
        ours)

  pub finish_block-IsDelivered :
      (input : List ℕ) (path : List Hash256) (r : Receiver S)
      → Wants ops verifier session index r
      → merkle_verify_block input index r.block_count path r.merkle_root ≡ true
      → IsDelivered input r (finish_block ops verifier index input path r)
  finish_block-IsDelivered input path r w ok =
      subst (IsDelivered input r) (sym (finish_block-settled input path r w.opened.ours ok))
        (answered input r w)

  pub both_there :
      (input : List ℕ) (path : List Hash256) (r : Receiver S)
      → r.ready_blocks index ≡ some input
      → r.proofs index ≡ some path
      → try_finish_block ops verifier index r ≡ finish_block ops verifier index input path r
  unfolding try_finish_block try_parts
  both_there input path r e f = ap₂ (λ i p. try_parts ops verifier index i p r) e f

  -- A state that differs at most in the parts of the unit.
  pub record IsLike (r q : Receiver S) : Type 0 where
    pub same_store : q.store ≡ r.store
    pub same_out : q.out ≡ r.out
    pub same_count : q.block_count ≡ r.block_count
    pub same_root : q.merkle_root ≡ r.merkle_root
    pub same_blocks : (k : ℕ) → k ≢ index → q.ready_blocks k ≡ r.ready_blocks k

  pub from_like :
      (input : List ℕ) (r q r' : Receiver S)
      → IsLike r q
      → IsDelivered input q r'
      → IsDelivered input r r'
  from_like input r q r' like w =
      let on = w.ongoing in
      record {
        stored = w.stored ∙ ap (λ s. (ops.put_block s index input).0) like.same_store;
        ongoing = record {
          ours = on.ours;
          live = on.live;
          ready = on.ready;
          same_count = on.same_count ∙ like.same_count;
          same_root = on.same_root ∙ like.same_root;
          cleared = λ rest. on.cleared (λ k other. like.same_blocks k other ∙ rest k other);
          ends = on.ends;
        };
        last_request = w.last_request;
        acknowledged =
            w.acknowledged ∙ ap (λ o. o ++ (acknowledgement ∷ w.last_request ∷ [])) like.same_out;
      }

  -- A block unit that arrives whole after its proof.
  finished :
      (input : List ℕ) (path : List Hash256) (r q : Receiver S) (re : Reassembler)
      → HasProof ops verifier session index path r q
      → merkle_verify_block input index r.block_count path r.merkle_root ≡ true
      → re.buf ≡ input
      → IsDelivered input r (feed_block ops verifier index (re, true) q)
  unfolding feed_block
  finished input path r q re w ok bytes =
      let last = record q {
        block_re = record re { active = false };
        block_in_flight = index;
        ready_blocks = update q.ready_blocks index (some re.buf);
      } in
      let there = update_at q.ready_blocks index (some re.buf) ∙ ap some bytes in
      let wants_last : Wants ops verifier session index last = record {
        opened = record {
          ours = w.wants.opened.ours;
          live = w.wants.opened.live;
          running = w.wants.opened.running;
        };
        ready = w.wants.ready;
        lacks = w.wants.lacks;
      } in
      from_like input r last _
        (record {
          same_store = w.same_store;
          same_out = w.same_out;
          same_count = w.same_count;
          same_root = w.same_root;
          same_blocks = λ k other.
              update_other q.ready_blocks index k (some re.buf) other ∙ ap (λ g. g k) w.same_blocks;
        })
        (subst (IsDelivered input last) (sym (both_there input path last there w.held))
          (finish_block-IsDelivered input path last wants_last (rw (w.same_count, w.same_root) ok)))

  -- An answer of the seeder.
  pub answer-IsDelivered :
      (path : List Hash256) (input : List ℕ) (frag : ℕ) (r : Receiver S)
      → session < 256
      → index < 65536
      → 0 < frag
      → AreHashes path
      → length path * 32 < 65536
      → 0 < length input
      → length input < 65536
      → Wants ops verifier session index r
      → r.ready_blocks index ≡ none
      → merkle_verify_block input index r.block_count path r.merkle_root ≡ true
      → IsDelivered input r (
          take_all_frames
            (on_frame ops verifier)
            (proof_frames session index path frag ++ block_frames session index input frag)
            r)
  unfolding block_frames
  answer-IsDelivered path input frag r sf xf some_frag digests small some_input fits w lacking ok =
      let first =
        proof-HasProof ops verifier session index path frag r sf xf some_frag digests small w
          lacking in
      let (re, bytes, runs) =
        block_arrives ops verifier session index input sf xf fits frag _ some_frag some_input
          first.wants in
      subst (IsDelivered input r)
        (sym (
          take_all_frames-append (on_frame ops verifier) (proof_frames session index path frag)
            (block_frames session index input frag) r
          ∙ runs))
        (finished input path r _ re first ok bytes)
