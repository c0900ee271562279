-- ===== src/Transfer/Octets.antt =====
-- The rounds of a transfer keep both sides to bytes.
use ota_common.Common.{ℕ, zero, suc, Option, List, [], ◌∷◌, drop, length}
use ota_common.Wire.Layout.{AreBytes}
use ota_common.Package.{SignatureVerifier}
use ota_common.BlockStore.{BlockStore}
use ota_common.Seeder
use ota_common.Seeder.{Seeder}
use ota_common.Receiver
use ota_common.Receiver.{Receiver, poll}
use ota_common.Receiver.Installed.{poll-HasOctets}
use ota_common.Transfer.{take_all_frames}
use ota_common.Transfer.Rounds.{round}

AreBytes-drop : (n : ℕ) (fs : List (List ℕ)) → AreBytes fs → AreBytes (drop n fs)
AreBytes-drop zero fs w = w
AreBytes-drop (suc n) [] w = w
AreBytes-drop (suc n) (f ∷ fs) w = AreBytes-drop n fs w.1

sends :
    (frames : List (List ℕ)) (s : Seeder)
    → Seeder.Octets.HasOctets s
    → Seeder.Octets.HasOctets (take_all_frames Seeder.on_frame frames s)
unfolding take_all_frames
sends [] s w = w
sends (f ∷ fs) s w = sends fs (Seeder.on_frame f s) (Seeder.Octets.on_frame-HasOctets f s w)

module _ {S : Type 0} (ops : BlockStore S) (verifier : Option SignatureVerifier) where
  receives :
      (frames : List (List ℕ)) (r : Receiver S)
      → AreBytes frames
      → Receiver.Octets.HasOctets r
      → Receiver.Octets.HasOctets (take_all_frames (Receiver.on_frame ops verifier) frames r)
  unfolding take_all_frames
  receives [] r bytes w = w
  receives (f ∷ fs) r bytes w =
      receives fs (Receiver.on_frame ops verifier f r) bytes.1
        (Receiver.Received.on_frame-HasOctets ops verifier f r bytes.0 w)

  -- What the seeder has and sends, and what the receiver keeps, is made of bytes.
  pub record HasOctets (p : Seeder × Receiver S) : Type 0 where
    pub sender : Seeder.Octets.HasOctets p.0
    pub keeper : Receiver.Octets.HasOctets p.1

  pub round-HasOctets : (p : Seeder × Receiver S) → HasOctets p → HasOctets (round ops verifier p)
  unfolding round
  round-HasOctets (s, r) w =
      let sender = sends _ s w.sender in
      record {
        sender = sender;
        keeper =
            receives (drop (length s.out) _) (poll ops verifier r)
              (AreBytes-drop (length s.out) _ sender.sent) (poll-HasOctets ops verifier r w.keeper);
      }
