-- ===== src/Seeder/Delivery.antt =====
-- The fragments that `OtaSeeder` sends of a unit, as a receiver puts them together.
use ota_common.Common.{
  ltb-false, min, ℕ, zero, suc, ◌+◌, ◌-◌, ◌≤◌, ◌<◌, ◌≡◌, sym, ap, subst, ◌∙◌, arith, inl, inr,
  false, Option, none, some, List, [], ◌∷◌, ◌++◌, append_assoc, append-nil, length, take, drop,
  slice, u16, u64, ltb, leb, ◌==◌, if◌then◌else◌, Bool-cases, take-append_le, drop-append_le,
  length-drop, drop_left,
}
use ota_common.Wire.{OtaFrameType, OtaFrameHeader, frame_header_pack, frame_header_unpack}
use ota_common.Wire.Frame.{
  IsHeader, IsFrameType, frame_header_unpack-pack, length-frame_header_pack,
}
use ota_common.Reassembler.{Reassembler, reset, feed}
use ota_common.Reassembler.Fill.{IsFilling, reset-IsFilling, feed-IsFilling, IsFilling-full}
use ota_common.Seeder.{Seeder, emit, send_unit}

-- What a receiver does with a fragment: the first one of a unit resets the reassembler.
pub deliver_part : Option OtaFrameHeader → List ℕ → Reassembler → Reassembler
deliver_part none p r = r
deliver_part (some h) p r = (feed (if h.off == 0 then reset h.total else r) h.off p).0

abbrev pub deliver : List (List ℕ) → Reassembler → Reassembler
deliver [] r = r
deliver (f ∷ fs) r = deliver fs (deliver_part (frame_header_unpack (some f)) (drop 8 f) r)

pub slice-append_le :
    (unit rest : List ℕ) (off n : ℕ)
    → off + n ≤ length unit
    → take n (drop off (unit ++ rest)) ≡ slice off n unit
slice-append_le unit rest off n h =
    ap (take n) (drop-append_le off unit rest (omega arith))
    ∙ take-append_le n (drop off unit) rest (omega (arith, length-drop off unit))

pub started-IsFilling :
    (unit : List ℕ) (off : ℕ) (r : Reassembler)
    → (0 < off → IsFilling unit off r)
    → IsFilling unit off (if off == 0 then reset (length unit) else r)
started-IsFilling unit zero r filling = reset-IsFilling unit
started-IsFilling unit (suc off) r filling =
    subst (λ b. IsFilling unit (suc off) (if b then reset (length unit) else r)) (sym later)
      (filling (omega arith))
  where
    later : (suc off == 0) ≡ false
    later = ground arith

-- One fragment, sent and delivered.
deliver-fragment :
    (h : OtaFrameHeader) (unit : List ℕ) (off n : ℕ) (r : Reassembler)
    → IsHeader h
    → h.off ≡ off
    → h.total ≡ length unit
    → off + n ≤ length unit
    → (0 < off → IsFilling unit off r)
    → IsFilling unit (off + n) (
        deliver_part
          (frame_header_unpack (some (frame_header_pack h ++ slice off n unit)))
          (drop 8 (frame_header_pack h ++ slice off n unit))
          r)
deliver-fragment h unit off n r w here total fits filling =
    rw
      (
        frame_header_unpack-pack h part w,
        drop_left 8 (frame_header_pack h) part (length-frame_header_pack h),
      )
      (unfold deliver_part in
        subst (λ o. Goal o h.total) (sym here) (subst (λ t. Goal off t) (sym total) fed))
  where
    part : List ℕ
    part = slice off n unit

    Goal : ℕ → ℕ → Type 0
    Goal o t = IsFilling unit (off + n) (feed (if o == 0 then reset t else r) o part).0

    fed : Goal off (length unit)
    fed =
        (feed-IsFilling unit off n (if off == 0 then reset (length unit) else r)
          (omega (arith, total, w.total_fits)) fits (started-IsFilling unit off r filling)).0

-- Where the offset has passed the end, the whole unit has arrived.
past :
    (unit : List ℕ) (off : ℕ) (r : Reassembler)
    → 0 < length unit
    → length unit ≤ off
    → (0 < off → IsFilling unit (min off (length unit)) r)
    → IsFilling unit (length unit) r
past unit off r some_unit over filling =
    let end : min off (length unit) ≡ length unit = omega arith in
    subst (λ (k : ℕ). IsFilling unit k r) end (filling (omega arith))

-- The same of a fragment that is cut from a buffer with more behind the unit.
deliver-cut :
    (h : OtaFrameHeader) (unit rest : List ℕ) (off n k : ℕ) (r : Reassembler)
    → IsHeader h
    → h.off ≡ off
    → h.total ≡ length unit
    → off + n ≤ length unit
    → off + n ≡ k
    → (0 < off → IsFilling unit (min off (length unit)) r)
    → let frame = frame_header_pack h ++ take n (drop off (unit ++ rest)) in
      IsFilling unit k (deliver_part (frame_header_unpack (some frame)) (drop 8 frame) r)
deliver-cut h unit rest off n k r w here total fits reach filling =
    let at_off : min off (length unit) ≡ off = omega arith in
    rw (← reach, slice-append_le unit rest off n fits)
      (deliver-fragment h unit off n r w here total fits
        (λ later. subst (λ (k : ℕ). IsFilling unit k r) at_off (filling later)))

-- The fragments behind the first `off` bytes.
send_unit-delivers :
    (type : OtaFrameType) (index : ℕ) (unit rest : List ℕ) (fuel off : ℕ) (s : Seeder)
    → IsFrameType type
    → index < 65536
    → s.session < 256
    → 1 ≤ s.frag
    → s.frag ≤ 225
    → length unit < 65536
    → length unit ≤ off + fuel
    → (fs : List (List ℕ)) × ((send_unit u64 type index (unit ++ rest) (length unit) fuel off s).out
        ≡ s.out ++ fs)
      × ((r : Reassembler)
          → 0 < length unit
          → (0 < off → IsFilling unit (min off (length unit)) r)
          → IsFilling unit (length unit) (deliver fs r))
unfolding send_unit emit
send_unit-delivers type index unit rest zero off s named i ses f₁ f₂ small enough =
    ([], sym (append-nil s.out), λ r inside filling. past unit off r inside (omega arith) filling)
send_unit-delivers type index unit rest (suc fuel) off s named i ses f₁ f₂ small enough =
    elim (Bool-cases (ltb off (length unit))) [
      | inr over ↦ rw over (
        [],
        sym (append-nil s.out),
        λ r inside filling. past unit off r inside (ltb-false off (length unit) over) filling,
      )
      | inl more ↦
          let inside : off < length unit = ground arith in
          let next : u64 (off + s.frag) ≡ off + s.frag = omega arith in
          let fits : off + n ≤ length unit = ground arith in
          let reach : off + n ≡ min (off + s.frag) (length unit) = ground arith in
          let (fs, outs, del) =
            send_unit-delivers type index unit rest fuel (off + s.frag)
              (emit h (drop off (unit ++ rest)) n s) named i ses f₁ f₂ small (omega arith) in
          rw more (
            (frame_header_pack h ++ take n (drop off (unit ++ rest))) ∷ fs,
            ap
                  (λ (o : ℕ).
                    (send_unit u64 type index (unit ++ rest) (length unit) fuel o
                      (emit h (drop off (unit ++ rest)) n s)).out)
                  next
                ∙ (outs ∙ append_assoc s.out _ fs),
            λ r some_unit filling. del _ some_unit (λ later.
                deliver-cut h unit rest off n (min (off + s.frag) (length unit)) r
                  (record {
                    of_type = named;
                    session_fits = ses;
                    index_fits = i;
                    off_fits = omega arith;
                    total_fits = omega arith;
                  })
                  (omega arith) (omega arith) fits reach filling),
          )
    ]
  where
    n : ℕ
    n = if leb (off + s.frag) (length unit) then s.frag else length unit - off

    h : OtaFrameHeader
    h = record {
      type = type;
      session = s.session;
      index = index;
      off = u16 off;
      total = u16 (length unit);
    }

-- A unit of 1 to 65535 bytes, sent in fragments of 1 to 225 bytes from a buffer that may go on behind
-- it, is rebuilt byte for byte by a receiver that unpacks the frames in order and feeds each to its
-- reassembler, whatever that held before.
pub deliver-send_unit :
    (type : OtaFrameType) (index : ℕ) (unit rest : List ℕ) (s : Seeder) (r : Reassembler)
    → IsFrameType type
    → index < 65536
    → s.session < 256
    → 1 ≤ s.frag
    → s.frag ≤ 225
    → 0 < length unit
    → length unit < 65536
    → (fs : List (List ℕ)) × ((send_unit u64 type index
          (unit ++ rest)
          (length unit)
          (length unit)
          0
          s).out
        ≡ s.out ++ fs)
      × ((deliver fs r).buf ≡ unit)
deliver-send_unit type index unit rest s r named i ses f₁ f₂ some_unit small =
    let (fs, outs, del) =
      send_unit-delivers type index unit rest (length unit) 0 s named i ses f₁ f₂ small
        (omega arith) in
    (fs, outs, IsFilling-full unit (deliver fs r) (del r some_unit (λ later. absurd (omega arith))))
