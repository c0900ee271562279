-- ===== src/Trailer/Identity.antt =====
-- The soft identity gate over trailers.
use ota_common.Common.{◌≡◌, true, ◌↔◌, arith}
use ota_common.CString.{field_text}
use ota_common.CString.Laws.{field_equal_iff}
use ota_common.Trailer.{OtaTrailer, trailer_identity_equal}

-- What identifies a firmware build: the texts of three fields.
pub record SameBuild (a b : OtaTrailer) : Type 0 where
  pub env : field_text 32 a.env ≡ field_text 32 b.env
  pub version : field_text 48 a.version ≡ field_text 48 b.version
  pub commit : field_text 16 a.commit ≡ field_text 16 b.commit

-- Two trailers are of one identity exactly when the texts of env, version and commit, each read up
-- to its first NUL, are the same.
pub trailer_identity_equal_iff :
    (a b : OtaTrailer) → (trailer_identity_equal a b ≡ true) ↔ SameBuild a b
unfolding trailer_identity_equal
trailer_identity_equal_iff a b = ground (
  arith,
  field_equal_iff 32 a.env b.env,
  field_equal_iff 48 a.version b.version,
  field_equal_iff 16 a.commit b.commit,
)
