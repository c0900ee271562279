-- ===== src/Wire/Tests.antt =====
-- The codecs run on concrete bytes, and their theorems at inputs that meet the hypotheses.
use ota_common.Common.{ℕ, Option, ◌≡◌, refl, arith, List, [], ◌∷◌, ◌++◌, some, none}
use ota_common.Wire.{
  OtaFrameHeader, block, frame_header_pack, frame_header_unpack, OtaStartInfo, start_info_pack,
  start_info_unpack, OtaLoadInfo,
}
use ota_common.Wire.Frame.{frame_header_unpack-pack, frame_header_pack-unpack}
use ota_common.Wire.Info.{start_info_unpack-pack}

abbrev block_header : OtaFrameHeader
block_header = record { type = block; session = 7; index = 258; off = 200; total = 1024 }

block_header_bytes : frame_header_pack block_header ≡ 3 ∷ 7 ∷ 2 ∷ 1 ∷ 200 ∷ 0 ∷ 0 ∷ 4 ∷ []
unfolding frame_header_pack
block_header_bytes = refl

short_frame : frame_header_unpack (some (1 ∷ 2 ∷ [])) ≡ none
unfolding frame_header_unpack
short_frame = refl

frame_header_unpack-pack_example :
    frame_header_unpack (some (frame_header_pack block_header ++ (9 ∷ []))) ≡ some block_header
frame_header_unpack-pack_example = frame_header_unpack-pack block_header (9 ∷ []) (record {
  of_type = tt;
  session_fits = omega arith;
  index_fits = omega arith;
  off_fits = omega arith;
  total_fits = omega arith;
})

frame_header_pack-unpack_example :
    frame_header_pack block_header ≡ 3 ∷ 7 ∷ 2 ∷ 1 ∷ 200 ∷ 0 ∷ 0 ∷ 4 ∷ []
unfolding frame_header_unpack
frame_header_pack-unpack_example =
    frame_header_pack-unpack 3 7 2 1 200 0 0 4 (5 ∷ []) block_header (omega arith) refl

abbrev geometry : OtaStartInfo
geometry = record {
  block_size = 1024;
  block_count = 3;
  payload_length = 2500;
  manifest_len = 192;
  sig_len = 64;
}

start_info_unpack-pack_example :
    start_info_unpack (some (start_info_pack geometry ++ [])) ≡ some geometry
start_info_unpack-pack_example = start_info_unpack-pack geometry [] (omega arith)

abbrev prefix : OtaLoadInfo
prefix = record { total_len = 70000; offset = 66000 }

abbrev two_bytes : Option (List ℕ)
two_bytes = some (1 ∷ 2 ∷ [])
