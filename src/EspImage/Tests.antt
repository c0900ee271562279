-- ===== src/EspImage/Tests.antt =====
-- An image of two segments.
use ota_common.Common.{
  ◌+◌, ◌*◌, ◌/◌, ◌≡◌, refl, arith, some, List, [], ◌∷◌, ◌++◌, length, replicate, u32, if◌then◌else◌,
  ◌!=◌,
}
use ota_common.EspImage.{buffer_read, esp_image_length}
use ota_common.EspImage.Built.{Segment, segments_bytes, image_header, esp_image_length-built}

abbrev two_segments : List Segment
two_segments =
    (record { load_addr = 0x3F400020; input = 1 ∷ 2 ∷ 3 ∷ 4 ∷ [] })
    ∷ (record { load_addr = 0x40080000; input = 5 ∷ 6 ∷ 7 ∷ 8 ∷ [] })
    ∷ []

esp_image_length-built_example :
    let len = 24 + length (segments_bytes two_segments) in
    esp_image_length (
      buffer_read
        (image_header 2 (replicate 21 0) 1 ++ (segments_bytes two_segments ++ (255 ∷ []))))
    ≡ some (u32 ((len / 16 + 1) * 16 + (if 1 != 0 then 32 else 0)))
esp_image_length-built_example =
    esp_image_length-built two_segments (replicate 21 0) (255 ∷ []) 1 (omega arith) refl
