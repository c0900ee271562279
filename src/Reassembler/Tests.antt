-- ===== src/Reassembler/Tests.antt =====
-- A unit that arrives in two fragments.
use ota_common.Common.{◌≡◌, arith, length, slice, leb, ◌+◌}
use ota_common.Reassembler.{reset, feed}
use ota_common.Reassembler.Fill.{IsFilling, reset-IsFilling, feed-IsFilling}
use ota_common.Samples.{payload}

feed-IsFilling_example :
    IsFilling payload (0 + 6) (feed (reset (length payload)) 0 (slice 0 6 payload)).0
    × ((feed (reset (length payload)) 0 (slice 0 6 payload)).1 ≡ leb (length payload) (0 + 6))
feed-IsFilling_example =
    feed-IsFilling payload 0 6 (reset (length payload)) (omega arith) (omega arith)
      (reset-IsFilling payload)
