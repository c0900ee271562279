-- ===== src/Seeder/Octets.antt =====
-- Every frame that a seeder sends is made of bytes.
use ota_common.Common.{
  ℕ, zero, suc, ◌*◌, ◌<◌, ◌≡◌, refl, sym, subst, inl, inr, Option, none, some, List, [], ◌∷◌, ◌++◌,
  length, take, ltb, leb, ◌==◌, ◌!=◌, Bool-cases, IsBytes, IsBytes-append, IsBytes-take,
  IsBytes-drop,
}
use ota_common.Wire.{
  OtaFrameType, OtaFrameHeader, start, manifest, block, proof, request, done, abort, type_to_byte,
  frame_header_pack, index_manifest,
}
use ota_common.Wire.Layout.{AreBytes}
use ota_common.Wire.Bytes.{type_to_byte-lt, frame_header_pack-IsBytes, start_info_pack-IsBytes}
use ota_common.Merkle.{Hash256}
use ota_common.Merkle.Octets.{AreOctets, merkle_proof-AreOctets}
use ota_common.Seeder.{
  Seeder, emit, begin, send_unit, send_manifest, send_block, proof_bytes, send_path, send_proof,
  answer, dispatch, receive, on_frame, block_base,
}

-- What the seeder holds and what it has sent is made of bytes.
pub record HasOctets (s : Seeder) : Type 0 where
  pub session_fits : s.session < 256
  pub manifest : IsBytes s.manifest_bytes
  pub payload : IsBytes s.payload
  pub leaves : AreOctets s.leaves
  pub sent : AreBytes s.out

AreBytes-append :
    (fs : List (List ℕ)) (f : List ℕ) → AreBytes fs → IsBytes f → AreBytes (fs ++ (f ∷ []))
AreBytes-append [] f w h = (h, tt)
AreBytes-append (g ∷ fs) f w h = (w.0, AreBytes-append fs f w.1 h)

emit-HasOctets :
    (h : OtaFrameHeader) (p : List ℕ) (n : ℕ) (s : Seeder)
    → type_to_byte h.type < 256
    → h.session ≡ s.session
    → IsBytes p
    → HasOctets s
    → HasOctets (emit h p n s)
unfolding emit
emit-HasOctets h p n s named ours bytes w = record {
  session_fits = w.session_fits;
  manifest = w.manifest;
  payload = w.payload;
  leaves = w.leaves;
  sent = AreBytes-append s.out _ w.sent (
      IsBytes-append (frame_header_pack h) (take n p)
        (frame_header_pack-IsBytes h named (subst (λ (k : ℕ). k < 256) (sym ours) w.session_fits))
        (IsBytes-take n p bytes));
}

send_unit-HasOctets :
    (cast : ℕ → ℕ) (type : OtaFrameType) (index : ℕ) (unit : List ℕ) (total fuel off : ℕ)
    (s : Seeder)
    → type_to_byte type < 256
    → IsBytes unit
    → HasOctets s
    → HasOctets (send_unit cast type index unit total fuel off s)
unfolding send_unit
send_unit-HasOctets cast type index unit total zero off s named bytes w = w
send_unit-HasOctets cast type index unit total (suc fuel) off s named bytes w =
    elim (Bool-cases (ltb off total)) [
      | inr over ↦ rw over w
      | inl more ↦ rw more (
          send_unit-HasOctets cast type index unit total fuel _ _ named bytes
            (emit-HasOctets _ _ _ s named refl (IsBytes-drop off unit bytes) w))
    ]

pub begin-HasOctets : (s : Seeder) → HasOctets s → HasOctets (begin s)
unfolding begin
begin-HasOctets s w = elim (Bool-cases s.valid) [
  | inr invalid ↦ simp invalid w
  | inl valid ↦
      simp valid
        (emit-HasOctets _ _ _ s (type_to_byte-lt start tt) refl (start_info_pack-IsBytes _) w)
]

send_manifest-HasOctets : (s : Seeder) → HasOctets s → HasOctets (send_manifest s)
unfolding send_manifest
send_manifest-HasOctets s w =
    send_unit-HasOctets _ _ _ _ _ _ _ s (type_to_byte-lt manifest tt) w.manifest w

send_block-HasOctets : (index : ℕ) (s : Seeder) → HasOctets s → HasOctets (send_block index s)
unfolding send_block
send_block-HasOctets index s w = elim (Bool-cases (leb s.block_count index)) [
  | inl out ↦ rw out w
  | inr in_range ↦ rw in_range (
      send_unit-HasOctets _ _ _ _ _ _ _ s (type_to_byte-lt block tt)
        (IsBytes-drop (block_base s index) s.payload w.payload) w)
]

proof_bytes-IsBytes : (path : List Hash256) → AreOctets path → IsBytes (proof_bytes path)
unfolding proof_bytes
proof_bytes-IsBytes [] w = tt
proof_bytes-IsBytes (h ∷ hs) w =
    IsBytes-append h.bytes (proof_bytes hs) w.0 (proof_bytes-IsBytes hs w.1)

send_path-HasOctets :
    (index : ℕ) (path : List Hash256) (s : Seeder)
    → AreOctets path
    → HasOctets s
    → HasOctets (send_path index path s)
unfolding send_path
send_path-HasOctets index path s octets w = elim (Bool-cases (length path * 32 == 0)) [
  | inl single ↦ rw single (emit-HasOctets _ _ _ s (type_to_byte-lt proof tt) refl tt w)
  | inr more ↦ rw more (
      send_unit-HasOctets _ _ _ _ _ _ _ s (type_to_byte-lt proof tt)
        (proof_bytes-IsBytes path octets) w)
]

answer-HasOctets : (index : ℕ) (s : Seeder) → HasOctets s → HasOctets (answer index s)
unfolding answer send_proof
answer-HasOctets index s w = elim (Bool-cases (index == index_manifest)) [
  | inl whole ↦ rw whole (send_manifest-HasOctets s w)
  | inr one ↦ rw one (
      send_block-HasOctets index _
        (send_path-HasOctets index _ s (merkle_proof-AreOctets s.leaves index w.leaves) w))
]

dispatch-HasOctets :
    (t : OtaFrameType) (h : OtaFrameHeader) (s : Seeder) → HasOctets s → HasOctets (dispatch t h s)
unfolding dispatch
dispatch-HasOctets request h s w = answer-HasOctets h.index s w
dispatch-HasOctets done h s w = record {
  session_fits = w.session_fits;
  manifest = w.manifest;
  payload = w.payload;
  leaves = w.leaves;
  sent = w.sent;
}
dispatch-HasOctets abort h s w = record {
  session_fits = w.session_fits;
  manifest = w.manifest;
  payload = w.payload;
  leaves = w.leaves;
  sent = w.sent;
}
dispatch-HasOctets _ h s w = w

receive-HasOctets : (h : Option OtaFrameHeader) (s : Seeder) → HasOctets s → HasOctets (receive h s)
unfolding receive
receive-HasOctets none s w = w
receive-HasOctets (some h) s w = elim (Bool-cases (h.session != s.session)) [
  | inl foreign ↦ rw foreign w
  | inr ours ↦ rw ours (dispatch-HasOctets h.type h s w)
]

-- A seeder whose session fits a byte, and whose manifest, payload, leaves and frames so far are made
-- of bytes, stays one whatever frame it receives: every element of every frame that it sends fits a
-- byte.
pub on_frame-HasOctets : (frame : List ℕ) (s : Seeder) → HasOctets s → HasOctets (on_frame frame s)
unfolding on_frame
on_frame-HasOctets frame s w = elim (Bool-cases s.valid) [
  | inr invalid ↦ simp invalid w
  | inl valid ↦ simp valid (receive-HasOctets _ s w)
]
