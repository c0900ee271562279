-- ===== src/Seeder/Opening.antt =====
-- The START that `begin` sends.
use ota_common.Common.{
  ◌≡◌, ap, ◌∙◌, arith, true, List, [], ◌∷◌, ◌++◌, ℕ, length, take_all, u16, if◌then◌else◌,
}
use ota_common.Wire.{OtaStartInfo, start_info_pack, frame_header_pack, start, OtaFrameHeader}
use ota_common.Manifest.{manifest_size}
use ota_common.Seeder.{Seeder, begin, emit}
use ota_common.Seeder.Answer.{sending}

-- The geometry of the seeder.
abbrev pub announced : Seeder → OtaStartInfo
announced s = record {
  block_size = s.block_size;
  block_count = s.block_count;
  payload_length = s.payload_len;
  manifest_len = manifest_size;
  sig_len = u16 s.sig_len;
}

-- The header of a START.
abbrev pub start_header : ℕ → OtaFrameHeader
start_header session = record { type = start; session = session; index = 0; off = 0; total = 0 }

abbrev pub start_frame : Seeder → List ℕ
start_frame s = frame_header_pack (start_header s.session) ++ start_info_pack (announced s)

begin-emit :
    (s : Seeder)
    → s.valid ≡ true
    → begin s
      ≡ emit
          (start_header s.session)
          (start_info_pack (announced s))
          (length (start_info_pack (announced s)))
          s
unfolding begin
begin-emit s valid =
    ap
      (λ b.
        if b
        then emit (start_header s.session) (start_info_pack (announced s))
            (length (start_info_pack (announced s))) s
        else s)
      valid

emit-sending :
    (s : Seeder) (h : OtaFrameHeader) (body : List ℕ)
    → emit h body (length body) s ≡ sending s ((frame_header_pack h ++ body) ∷ [])
unfolding emit
emit-sending s h body =
    ap (λ (b : List ℕ). sending s ((frame_header_pack h ++ b) ∷ []))
      (take_all (length body) body (omega arith))

-- A valid seeder begins with one START.
pub begin-start_frame : (s : Seeder) → s.valid ≡ true → begin s ≡ sending s (start_frame s ∷ [])
begin-start_frame s valid =
    begin-emit s valid ∙ emit-sending s (start_header s.session) (start_info_pack (announced s))
