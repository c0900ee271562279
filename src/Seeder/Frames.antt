-- ===== src/Seeder/Frames.antt =====
-- What a seeder sends: frames of its session, each of at most 233 bytes, behind what it sent before.
use ota_common.Common.{
  ℕ, zero, suc, ◌+◌, ◌-◌, ◌*◌, ◌≤◌, arith, inl, inr, Option, none, some, List, [], ◌∷◌, ◌++◌,
  length, take, ltb, leb, ◌==◌, ◌!=◌, if◌then◌else◌, Bool-cases, length-append, length-take,
}
use ota_common.Wire.{
  OtaFrameType, OtaFrameHeader, request, done, abort, frame_header_pack, index_manifest,
}
use ota_common.Wire.Frame.{length-frame_header_pack}
use ota_common.Wire.Info.{length-start_info_pack}
use ota_common.Merkle.{Hash256}
use ota_common.Seeder.{
  Seeder, fragment_size, emit, begin, send_unit, send_manifest, send_block, send_path, send_proof,
  answer, dispatch, receive, on_frame,
}

-- Frames that fit the buffer of `emit`, one Meshtastic data payload.
abbrev pub Fit : List (List ℕ) → Type 0
Fit [] = Unit {0}
Fit (f ∷ fs) = (length f ≤ 233) × Fit fs

Fit-append : (fs : List (List ℕ)) (f : List ℕ) → Fit fs → length f ≤ 233 → Fit (fs ++ (f ∷ []))
Fit-append [] f w h = (h, tt)
Fit-append (g ∷ fs) f w h = (w.0, Fit-append fs f w.1 h)

-- The fragment size is in range, and every frame sent fits.
pub record IsBounded (s : Seeder) : Type 0 where
  pub some_frag : 1 ≤ s.frag
  pub frag_fits : s.frag ≤ 225
  pub sent : Fit s.out

pub fragment_size-range : (size : ℕ) → (1 ≤ fragment_size size) × (fragment_size size ≤ 225)
unfolding fragment_size
fragment_size-range size = ground arith

emit-IsBounded :
    (h : OtaFrameHeader) (p : List ℕ) (n : ℕ) (s : Seeder)
    → n ≤ 225
    → IsBounded s
    → IsBounded (emit h p n s)
unfolding emit
emit-IsBounded h p n s fits w = record {
  some_frag = w.some_frag;
  frag_fits = w.frag_fits;
  sent = Fit-append s.out _ w.sent (
      omega (
        arith,
        length-append (frame_header_pack h) (take n p),
        length-take n p,
        length-frame_header_pack h,
      ));
}

send_unit-IsBounded :
    (cast : ℕ → ℕ) (type : OtaFrameType) (index : ℕ) (unit : List ℕ) (total fuel off : ℕ)
    (s : Seeder)
    → IsBounded s
    → IsBounded (send_unit cast type index unit total fuel off s)
unfolding send_unit
send_unit-IsBounded cast type index unit total zero off s w = w
send_unit-IsBounded cast type index unit total (suc fuel) off s w =
    elim (Bool-cases (ltb off total)) [
      | inr over ↦ rw over w
      | inl more ↦
          rw more (
            send_unit-IsBounded cast type index unit total fuel _ _ (emit-IsBounded _ _ _ s fits w))
    ]
  where
    open w use {frag_fits}

    fits : (if leb (off + s.frag) total then s.frag else total - off) ≤ 225
    fits = ground arith

-- The same of `begin`.
pub begin-IsBounded : (s : Seeder) → IsBounded s → IsBounded (begin s)
unfolding begin
begin-IsBounded s w = elim (Bool-cases s.valid) [
  | inr invalid ↦ simp invalid w
  | inl valid ↦ simp valid (emit-IsBounded _ _ _ s (omega (arith, length-start_info_pack _)) w)
]

send_manifest-IsBounded : (s : Seeder) → IsBounded s → IsBounded (send_manifest s)
unfolding send_manifest
send_manifest-IsBounded s w = send_unit-IsBounded _ _ _ _ _ _ _ s w

send_block-IsBounded : (index : ℕ) (s : Seeder) → IsBounded s → IsBounded (send_block index s)
unfolding send_block
send_block-IsBounded index s w = elim (Bool-cases (leb s.block_count index)) [
  | inl out ↦ rw out w
  | inr in_range ↦ rw in_range (send_unit-IsBounded _ _ _ _ _ _ _ s w)
]

send_path-IsBounded :
    (index : ℕ) (path : List Hash256) (s : Seeder)
    → IsBounded s
    → IsBounded (send_path index path s)
unfolding send_path
send_path-IsBounded index path s w = elim (Bool-cases (length path * 32 == 0)) [
  | inl single ↦ rw single (emit-IsBounded _ _ _ s (omega arith) w)
  | inr more ↦ rw more (send_unit-IsBounded _ _ _ _ _ _ _ s w)
]

send_proof-IsBounded : (index : ℕ) (s : Seeder) → IsBounded s → IsBounded (send_proof index s)
unfolding send_proof
send_proof-IsBounded index s w = send_path-IsBounded index _ s w

answer-IsBounded : (index : ℕ) (s : Seeder) → IsBounded s → IsBounded (answer index s)
unfolding answer
answer-IsBounded index s w = elim (Bool-cases (index == index_manifest)) [
  | inl whole ↦ rw whole (send_manifest-IsBounded s w)
  | inr one ↦ rw one (send_block-IsBounded index _ (send_proof-IsBounded index s w))
]

dispatch-IsBounded :
    (t : OtaFrameType) (h : OtaFrameHeader) (s : Seeder) → IsBounded s → IsBounded (dispatch t h s)
unfolding dispatch
dispatch-IsBounded request h s w = answer-IsBounded h.index s w
dispatch-IsBounded done h s w = record {
  some_frag = w.some_frag;
  frag_fits = w.frag_fits;
  sent = w.sent;
}
dispatch-IsBounded abort h s w = record {
  some_frag = w.some_frag;
  frag_fits = w.frag_fits;
  sent = w.sent;
}
dispatch-IsBounded _ h s w = w

receive-IsBounded : (h : Option OtaFrameHeader) (s : Seeder) → IsBounded s → IsBounded (receive h s)
unfolding receive
receive-IsBounded none s w = w
receive-IsBounded (some h) s w = elim (Bool-cases (h.session != s.session)) [
  | inl foreign ↦ rw foreign w
  | inr ours ↦ rw ours (dispatch-IsBounded h.type h s w)
]

-- A seeder whose fragment size is from 1 to 225, and whose frames so far fit 233 bytes, keeps both
-- whatever frame it receives: no answer is longer than the buffer that `emit` packs it into.
pub on_frame-IsBounded : (frame : List ℕ) (s : Seeder) → IsBounded s → IsBounded (on_frame frame s)
unfolding on_frame
on_frame-IsBounded frame s w = elim (Bool-cases s.valid) [
  | inr invalid ↦ simp invalid w
  | inl valid ↦ simp valid (receive-IsBounded _ s w)
]
