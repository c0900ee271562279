-- ===== src/Package/Identity.antt =====
-- The soft identity gate of a package, and the signature check of a parsed package.
use ota_common.Common.{◌≡◌, true, ◌↔◌, arith}
use ota_common.CString.{field_text}
use ota_common.CString.Laws.{field_equal_iff}
use ota_common.Manifest.{Manifest}
use ota_common.Trailer.{OtaTrailer}
use ota_common.Package.{package_identity_matches}

-- The base that a manifest asks for is the build that a trailer describes.
pub record IsBaseOf (running : OtaTrailer) (m : Manifest) : Type 0 where
  pub env : field_text 32 m.env ≡ field_text 32 running.env
  pub version : field_text 48 m.base_version ≡ field_text 48 running.version
  pub commit : field_text 16 m.base_commit ≡ field_text 16 running.commit

-- A package passes the identity gate exactly when the texts of the expected env, version and commit
-- are those of the running firmware.
pub package_identity_matches_iff :
    (m : Manifest) (running : OtaTrailer)
    → (package_identity_matches m running ≡ true) ↔ IsBaseOf running m
unfolding package_identity_matches
package_identity_matches_iff m running = ground (
  arith,
  field_equal_iff 32 m.env running.env,
  field_equal_iff 48 m.base_version running.version,
  field_equal_iff 16 m.base_commit running.commit,
)
