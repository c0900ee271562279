-- ===== src/Receiver/Units.antt =====
-- The units of a receiver, block and proof, as ports for the fragments of a seeder.
use ota_common.Common.{
  ℕ, ◌<◌, ◌≡◌, refl, sym, ap, ◌∙◌, arith, inl, inr, true, false, ◌||◌, Option, List, [], length,
  ◌++◌, ◌==◌, ◌!=◌, if◌then◌else◌, Bool-cases,
}
use ota_common.Wire.{OtaFrameType, OtaFrameHeader, block, proof, manifest, frame_header_pack}
use ota_common.Wire.Frame.{IsHeader, IsFrameType}
use ota_common.Package.{SignatureVerifier}
use ota_common.Reassembler.{Reassembler, reset, feed}
use ota_common.BlockStore.{BlockStore}
use ota_common.Transfer.{fragment_header, fragments, take_all_frames}
use ota_common.Transfer.Ports.{Port, unit-arrives}
use ota_common.Receiver.{
  Receiver, feed_block, handle_block, keep_proof, feed_proof, empty_proof, handle_proof,
  feed_manifest, handle_manifest, dispatch, on_frame,
}
use ota_common.Receiver.Frames.{on_frame-pack, receive-running}

module _ {S : Type 0} (ops : BlockStore S) (verifier : Option SignatureVerifier) where
  -- The transfer of a session runs.
  pub record IsOpen (session : ℕ) (r : Receiver S) : Type 0 where
    pub ours : r.session ≡ session
    pub live : r.aborted ≡ false
    pub running : r.complete ≡ false

  pub on_frame-dispatch :
      (h : OtaFrameHeader) (p : List ℕ) (r : Receiver S)
      → IsHeader h
      → IsOpen h.session r
      → on_frame ops verifier (frame_header_pack h ++ p) r ≡ dispatch ops verifier h.type h p r
  on_frame-dispatch h p r hw w =
      on_frame-pack ops verifier h p r hw
      ∙ receive-running ops verifier h p r (sym w.ours) w.live w.running

  -- A fragment restarts its reassembler exactly at offset 0.
  start_guard :
      (off flight index : ℕ)
      → (0 < off → flight ≡ index)
      → (off == 0 || flight != index) ≡ (off == 0)
  start_guard off flight index begun = elim (Bool-cases (off == 0)) [
    | inl first ↦ rw first
    | inr later ↦ let same : flight ≡ index = begun (ground arith) in ground (arith, later, same)
  ]

  -- A block of the index is still wanted.
  pub record Wants (session index : ℕ) (r : Receiver S) : Type 0 where
    pub opened : IsOpen session r
    pub ready : r.manifest_ready ≡ true
    pub lacks : ops.has_block r.store index ≡ false

  -- The manifest is still wanted.
  pub record Unsigned (session : ℕ) (r : Receiver S) : Type 0 where
    pub opened : IsOpen session r
    pub unready : r.manifest_ready ≡ false

  module _ (session index : ℕ) (unit : List ℕ) (session_fits : session < 256)
      (index_fits : index < 65536) (small : length unit < 65536) where
    abbrev header : OtaFrameType → ℕ → OtaFrameHeader
    header type off = fragment_header type session index (length unit) off

    header-IsHeader :
        (type : OtaFrameType) (off : ℕ)
        → IsFrameType type
        → off < length unit
        → IsHeader (header type off)
    header-IsHeader type off named inside = record {
      of_type = named;
      session_fits = session_fits;
      index_fits = index_fits;
      off_fits = omega (arith, small);
      total_fits = small;
    }

    handle_block-feed_block :
        (off : ℕ) (p : List ℕ) (r : Receiver S)
        → Wants session index r
        → (0 < off → r.block_in_flight ≡ index)
        → handle_block ops verifier (header block off) p r
          ≡ feed_block ops verifier index
              (feed (if off == 0 then reset (length unit) else r.block_re) off p)
              r
    unfolding handle_block
    handle_block-feed_block off p r w begun =
        rw (w.ready, w.lacks, start_guard off r.block_in_flight index begun) refl

    handle_proof-feed_proof :
        (off : ℕ) (p : List ℕ) (r : Receiver S)
        → Wants session index r
        → 0 < length unit
        → (0 < off → r.proof_in_flight ≡ index)
        → handle_proof ops verifier (header proof off) p r
          ≡ feed_proof ops verifier index
              (feed (if off == 0 then reset (length unit) else r.proof_re) off p)
              r
    unfolding handle_proof
    handle_proof-feed_proof off p r w some_unit begun =
        let more : (length unit == 0) ≡ false = ground arith in
        rw (w.ready, w.lacks, more, start_guard off r.proof_in_flight index begun) refl

    still-Wants :
        (r r' : Receiver S)
        → r'.session ≡ r.session
        → r'.aborted ≡ r.aborted
        → r'.complete ≡ r.complete
        → r'.manifest_ready ≡ r.manifest_ready
        → r'.store ≡ r.store
        → Wants session index r
        → Wants session index r'
    still-Wants r r' a b c d e w = record {
      opened = record {
        ours = a ∙ w.opened.ours;
        live = b ∙ w.opened.live;
        running = c ∙ w.opened.running;
      };
      ready = d ∙ w.ready;
      lacks = ap (λ s. ops.has_block s index) e ∙ w.lacks;
    }

    block_port : Port (Receiver S) (on_frame ops verifier) block session index unit
    unfolding dispatch feed_block
    block_port = record {
      awaits = Wants session index;
      begun = λ r. r.block_in_flight ≡ index;
      held = λ r. r.block_re;
      arrive = λ re complete r. feed_block ops verifier index (re, complete) r;
      takes = λ off part r inside w begun.
          on_frame-dispatch (header block off) part r (header-IsHeader block off tt inside) w.opened
          ∙ handle_block-feed_block off part r w begun;
      awaits_still = λ re r w. still-Wants r _ refl refl refl refl refl w;
      begins = λ re r. refl;
      holds = λ re r. refl;
      completes = λ re re' r. refl;
    }

    proof_port : Port (Receiver S) (on_frame ops verifier) proof session index unit
    unfolding dispatch feed_proof keep_proof
    proof_port = record {
      awaits = Wants session index;
      begun = λ r. r.proof_in_flight ≡ index;
      held = λ r. r.proof_re;
      arrive = λ re complete r. feed_proof ops verifier index (re, complete) r;
      takes = λ off part r inside w begun.
          on_frame-dispatch (header proof off) part r (header-IsHeader proof off tt inside) w.opened
          ∙ handle_proof-feed_proof off part r w (omega arith) begun;
      awaits_still = λ re r w. still-Wants r _ refl refl refl refl refl w;
      begins = λ re r. refl;
      holds = λ re r. refl;
      completes = λ re re' r. refl;
    }

    manifest_port : Port (Receiver S) (on_frame ops verifier) manifest session index unit
    unfolding dispatch handle_manifest feed_manifest
    manifest_port = record {
      awaits = Unsigned session;
      begun = λ r. r ≡ r;
      held = λ r. r.manifest_re;
      arrive = λ re complete r. feed_manifest ops verifier (re, complete) r;
      takes = λ off part r inside w begun.
          on_frame-dispatch (header manifest off) part r (header-IsHeader manifest off tt inside)
            w.opened
          ∙ rw w.unready refl;
      awaits_still = λ re r w. record {
        opened = record { ours = w.opened.ours; live = w.opened.live; running = w.opened.running };
        unready = w.unready;
      };
      begins = λ re r. refl;
      holds = λ re r. refl;
      completes = λ re re' r. refl;
    }

    pub block_arrives :
        (frag : ℕ) (r : Receiver S)
        → 0 < frag
        → 0 < length unit
        → Wants session index r
        → (re : Reassembler) × (re.buf ≡ unit)
          × (take_all_frames
                (on_frame ops verifier)
                (fragments block session index unit frag (length unit) 0)
                r
              ≡ feed_block ops verifier index (re, true) r)
    unfolding block_port
    block_arrives frag r some_frag some_unit w =
        unit-arrives block_port frag some_frag small r some_unit w

    pub proof_arrives :
        (frag : ℕ) (r : Receiver S)
        → 0 < frag
        → 0 < length unit
        → Wants session index r
        → (re : Reassembler) × (re.buf ≡ unit)
          × (take_all_frames
                (on_frame ops verifier)
                (fragments proof session index unit frag (length unit) 0)
                r
              ≡ feed_proof ops verifier index (re, true) r)
    unfolding proof_port
    proof_arrives frag r some_frag some_unit w =
        unit-arrives proof_port frag some_frag small r some_unit w

    pub manifest_arrives :
        (frag : ℕ) (r : Receiver S)
        → 0 < frag
        → 0 < length unit
        → Unsigned session r
        → (re : Reassembler) × (re.buf ≡ unit)
          × (take_all_frames
                (on_frame ops verifier)
                (fragments manifest session index unit frag (length unit) 0)
                r
              ≡ feed_manifest ops verifier (re, true) r)
    unfolding manifest_port
    manifest_arrives frag r some_frag some_unit w =
        unit-arrives manifest_port frag some_frag small r some_unit w

  -- The one frame of an empty path.
  pub empty_proof_arrives :
      (session index : ℕ) (r : Receiver S)
      → session < 256
      → index < 65536
      → Wants session index r
      → on_frame ops verifier (frame_header_pack (fragment_header proof session index 0 0) ++ []) r
        ≡ empty_proof ops verifier index r
  unfolding dispatch handle_proof
  empty_proof_arrives session index r sf xf w =
      on_frame-dispatch (fragment_header proof session index 0 0) [] r
        (record {
          of_type = tt;
          session_fits = sf;
          index_fits = xf;
          off_fits = omega arith;
          total_fits = omega arith;
        })
        w.opened
      ∙ rw (w.ready, w.lacks) refl
