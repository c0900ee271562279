-- ===== src/Transfer/Ports.antt =====
-- A receiver of any kind that feeds the fragments of one unit to a reassembler.
use ota_common.Common.{
  ℕ, zero, suc, ◌+◌, ◌≤◌, ◌<◌, ◌≡◌, ap, subst, ◌∙◌, arith, inl, inr, Bool, true, false, List, ◌++◌,
  length, slice, ltb, ◌==◌, if◌then◌else◌, Bool-cases,
}
use ota_common.Wire.{OtaFrameType, frame_header_pack}
use ota_common.Reassembler.{Reassembler, reset, feed}
use ota_common.Reassembler.Fill.{IsFilling, IsFilling-full, feed-IsFilling}
use ota_common.Seeder.Delivery.{started-IsFilling}
use ota_common.Transfer.{fragment_header, fragment_len, fragments, take_all_frames}
use ota_common.Transfer.Fragments.{fragment_len-le, fragments-more, fragments-past}

-- How states take the fragments of a unit: which states await one, which have begun it, where their
-- reassembler is, and what a fed reassembler, with the flag of `feed`, makes of a state.
pub record Port (R : Type 0) (take_frame : List ℕ → R → R) (type : OtaFrameType) (session index : ℕ)
    (unit : List ℕ) : Type 1 where
  pub awaits : R → Type 0
  pub begun : R → Type 0
  pub held : R → Reassembler
  pub arrive : Reassembler → Bool → R → R
  pub takes :
      (off : ℕ) (part : List ℕ) (r : R)
      → off < length unit
      → awaits r
      → (0 < off → begun r)
      → let fed = feed (if off == 0 then reset (length unit) else held r) off part in
        take_frame
          (frame_header_pack (fragment_header type session index (length unit) off) ++ part)
          r
        ≡ arrive fed.0 fed.1 r
  pub awaits_still : (re : Reassembler) (r : R) → awaits r → awaits (arrive re false r)
  pub begins : (re : Reassembler) (r : R) → begun (arrive re false r)
  pub holds : (re : Reassembler) (r : R) → held (arrive re false r) ≡ re
  pub completes :
      (re re' : Reassembler) (r : R) → arrive re' true (arrive re false r) ≡ arrive re' true r

module _ {R : Type 0} {take_frame : List ℕ → R → R} {type : OtaFrameType} {session index : ℕ}
    {unit : List ℕ} (port : Port R take_frame type session index unit) (frag : ℕ)
    (some_frag : 0 < frag) (small : length unit < 65536) where
  open port use {awaits, begun, held, arrive, takes, awaits_still, begins, holds, completes}

  -- The fragments from an offset on complete the unit.
  fragments-arrive :
      (fuel off : ℕ) (r : R)
      → off < length unit
      → length unit ≤ off + fuel
      → awaits r
      → (0 < off → begun r × IsFilling unit off (held r))
      → (re : Reassembler) × IsFilling unit (length unit) re
        × (take_all_frames take_frame (fragments type session index unit frag fuel off) r
            ≡ arrive re true r)
  unfolding take_all_frames
  fragments-arrive zero off r inside enough w ready = absurd (omega arith)
  fragments-arrive (suc fuel) off r inside enough w ready =
      let n = fragment_len frag (length unit) off in
      let start = if off == 0 then reset (length unit) else held r in
      let fed = feed start off (slice off n unit) in
      let (filled, flag) =
        feed-IsFilling unit off n start small (fragment_len-le frag (length unit) off inside)
          (started-IsFilling unit off (held r) (λ later. (ready later).1)) in
      let taken = takes off (slice off n unit) r inside w (λ later. (ready later).0) in
      let frame =
        frame_header_pack (fragment_header type session index (length unit) off)
        ++ slice off n unit in
      let rest = fragments type session index unit frag fuel (off + frag) in
      let sent =
        ap (λ fs. take_all_frames take_frame fs r)
          (fragments-more type session index unit frag fuel off inside) in
      elim (Bool-cases (ltb (off + frag) (length unit))) [
        | inl on ↦
            let reach : off + n ≡ off + frag = unfold fragment_len in ground arith in
            let unfinished : fed.1 ≡ false = ground (arith, flag) in
            let (re, full, runs) =
              fragments-arrive fuel (off + frag) (arrive fed.0 false r) (ground arith) (omega arith)
                (awaits_still fed.0 r w)
                (λ later. (
                  begins fed.0 r,
                  rw (holds fed.0 r) (subst (λ (k : ℕ). IsFilling unit k fed.0) reach filled),
                )) in
            (
              re,
              full,
              sent
                  ∙ (ap (take_all_frames take_frame rest)
                        (taken ∙ ap (λ b. arrive fed.0 b r) unfinished)
                      ∙ (runs ∙ completes fed.0 re r)),
            )
        | inr end ↦
            let reach : off + n ≡ length unit = unfold fragment_len in ground arith in
            let finished : fed.1 ≡ true = ground (arith, flag) in
            (
              fed.0,
              subst (λ (k : ℕ). IsFilling unit k fed.0) reach filled,
              sent
                  ∙ (ap (λ fs. take_all_frames take_frame fs (take_frame frame r))
                        (fragments-past type session index unit frag fuel (off + frag)
                          (ground arith))
                      ∙ (taken ∙ ap (λ b. arrive fed.0 b r) finished)),
            )
      ]

  -- A whole unit, sent in fragments to a state that awaits it, arrives as one complete reassembler
  -- that holds the unit.
  pub unit-arrives :
      (r : R)
      → 0 < length unit
      → awaits r
      → (re : Reassembler) × (re.buf ≡ unit)
        × (take_all_frames take_frame (fragments type session index unit frag (length unit) 0) r
            ≡ arrive re true r)
  unit-arrives r some_unit w =
      let (re, full, runs) =
        fragments-arrive (length unit) 0 r some_unit (omega arith) w
          (λ later. absurd (omega arith)) in
      (re, IsFilling-full unit re full, runs)
