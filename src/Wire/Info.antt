-- ===== src/Wire/Info.antt =====
-- The START and LOAD payloads: packing and unpacking are inverse.
use ota_common.Common.{ℕ, ◌<◌, ◌≡◌, refl, arith, List, ◌++◌, length, Option, none, some}
use ota_common.Wire.{
  OtaStartInfo, start_info_pack, start_info_unpack, OtaLoadInfo, load_info_pack, load_info_unpack,
}
use ota_common.Wire.Words.{get16_packed, get32_packed, get16-lt}

pub record IsStartInfo (s : OtaStartInfo) : Type 0 where
  pub block_size_fits : s.block_size < 65536
  pub block_count_fits : s.block_count < 65536
  pub payload_length_fits : s.payload_length < 4294967296
  pub manifest_len_fits : s.manifest_len < 65536
  pub sig_len_fits : s.sig_len < 65536

-- Unpacking a packed START payload, with any bytes behind it, gives the geometry back.
pub start_info_unpack-pack :
    (s : OtaStartInfo) (rest : List ℕ)
    → IsStartInfo s
    → start_info_unpack (some (start_info_pack s ++ rest)) ≡ some s
unfolding start_info_unpack start_info_pack
start_info_unpack-pack s rest w =
    let buf = start_info_pack s ++ rest in
    ground (
      arith,
      get16_packed buf 0 s.block_size refl refl w.block_size_fits,
      get16_packed buf 2 s.block_count refl refl w.block_count_fits,
      get32_packed buf 4 s.payload_length refl refl refl refl w.payload_length_fits,
      get16_packed buf 8 s.manifest_len refl refl w.manifest_len_fits,
      get16_packed buf 10 s.sig_len refl refl w.sig_len_fits,
    )

pub record IsLoadInfo (s : OtaLoadInfo) : Type 0 where
  pub total_len_fits : s.total_len < 4294967296
  pub offset_fits : s.offset < 4294967296

-- Unpacking a packed LOAD prefix, with the chunk behind it, gives the prefix back.
pub load_info_unpack-pack :
    (s : OtaLoadInfo) (chunk : List ℕ)
    → IsLoadInfo s
    → load_info_unpack (some (load_info_pack s ++ chunk)) ≡ some s
unfolding load_info_unpack load_info_pack
load_info_unpack-pack s chunk w =
    let buf = load_info_pack s ++ chunk in
    ground (
      arith,
      get32_packed buf 0 s.total_len refl refl refl refl w.total_len_fits,
      get32_packed buf 4 s.offset refl refl refl refl w.offset_fits,
    )

-- The block count of a START payload is a `uint16_t`.
pub start_info_unpack-narrow :
    (p : Option (List ℕ)) (s : OtaStartInfo) → start_info_unpack p ≡ some s → s.block_count < 65536
unfolding start_info_unpack
start_info_unpack-narrow none s e = ground arith
start_info_unpack-narrow (some buf) s e = ground (arith, get16-lt buf 2)

pub length-start_info_pack : (s : OtaStartInfo) → length (start_info_pack s) ≡ 12
unfolding start_info_pack
length-start_info_pack s = refl
