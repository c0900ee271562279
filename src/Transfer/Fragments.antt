-- ===== src/Transfer/Fragments.antt =====
-- What the seeder's fragment loops send.
use ota_common.Common.{
  ℕ, zero, suc, ◌+◌, ◌≤◌, ◌<◌, ◌≡◌, refl, sym, ap, ap₂, ◌∙◌, arith, inl, inr, List, [], ◌∷◌, ◌++◌,
  append_assoc, append-nil, length, take, drop, slice, u16, ltb, Bool-cases,
}
use ota_common.Wire.{OtaFrameType, frame_header_pack}
use ota_common.Seeder.{Seeder, emit, send_unit}
use ota_common.Seeder.Delivery.{slice-append_le}
use ota_common.Transfer.{fragment_header, fragment_len, fragments}

pub fragment_len-le : (frag total off : ℕ) → off < total → off + fragment_len frag total off ≤ total
unfolding fragment_len
fragment_len-le frag total off h = ground arith

pub fragments-zero :
    (type : OtaFrameType) (session index : ℕ) (unit : List ℕ) (frag off : ℕ)
    → fragments type session index unit frag 0 off ≡ []
unfolding fragments
fragments-zero type session index unit frag off = refl

pub fragments-past :
    (type : OtaFrameType) (session index : ℕ) (unit : List ℕ) (frag fuel off : ℕ)
    → length unit ≤ off
    → fragments type session index unit frag fuel off ≡ []
unfolding fragments
fragments-past type session index unit frag zero off h = refl
fragments-past type session index unit frag (suc fuel) off h = ground arith

pub fragments-more :
    (type : OtaFrameType) (session index : ℕ) (unit : List ℕ) (frag fuel off : ℕ)
    → off < length unit
    → fragments type session index unit frag (suc fuel) off
      ≡ (frame_header_pack (fragment_header type session index (length unit) off)
          ++ slice off (fragment_len frag (length unit) off) unit)
        ∷ fragments type session index unit frag fuel (off + frag)
unfolding fragments
fragments-more type session index unit frag fuel off h = ground arith

-- The header with its casts.
header-narrow :
    (type : OtaFrameType) (session index total off : ℕ)
    → total < 65536
    → off < total
    → fragment_header type session index (u16 total) (u16 off)
      ≡ fragment_header type session index total off
header-narrow type session index total off small inside =
    let t : u16 total ≡ total = omega arith in
    let o : u16 off ≡ off = omega arith in ap₂ (fragment_header type session index) t o

-- The loop appends the fragments to what is sent, and changes nothing else.
pub send_unit-fragments :
    (cast : ℕ → ℕ) (type : OtaFrameType) (index : ℕ) (unit rest : List ℕ) (fuel off : ℕ)
    (s : Seeder)
    → ((x : ℕ) → x < 131072 → cast x ≡ x)
    → s.frag ≤ 225
    → length unit < 65536
    → send_unit cast type index (unit ++ rest) (length unit) fuel off s
      ≡ record s { out = s.out ++ fragments type s.session index unit s.frag fuel off }
unfolding send_unit fragments fragment_len emit
send_unit-fragments cast type index unit rest zero off s exact most small =
    ap (λ o. record s { out = o }) (sym (append-nil s.out))
send_unit-fragments cast type index unit rest (suc fuel) off s exact most small =
    elim (Bool-cases (ltb off (length unit))) [
      | inr over ↦ rw over (ap (λ o. record s { out = o }) (sym (append-nil s.out)))
      | inl more ↦
          let inside : off < length unit = ground arith in
          let n = fragment_len s.frag (length unit) off in
          let next = exact (off + s.frag) (omega arith) in
          let head : frame_header_pack
                  (fragment_header type s.session index (u16 (length unit)) (u16 off))
                ++ take n (drop off (unit ++ rest))
              ≡ frame_header_pack (fragment_header type s.session index (length unit) off)
                ++ slice off n unit =
            ap₂ (λ h p. frame_header_pack h ++ p)
              (header-narrow type s.session index (length unit) off small inside)
              (slice-append_le unit rest off n (fragment_len-le s.frag (length unit) off inside)) in
          rw (more, next)
            (send_unit-fragments cast type index unit rest fuel (off + s.frag) _ exact most small
              ∙ ap (λ o. record s { out = o })
                  (append_assoc s.out _
                      (fragments type s.session index unit s.frag fuel (off + s.frag))
                    ∙ ap
                        (λ f.
                          s.out
                          ++ (f ∷ fragments type s.session index unit s.frag fuel (off + s.frag)))
                        head))
    ]
