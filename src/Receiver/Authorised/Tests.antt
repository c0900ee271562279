-- ===== src/Receiver/Authorised/Tests.antt =====
-- A manifest signed under a held key, received in fragments.
use ota_common.Common.{
  ℕ, ◌+◌, ◌≡◌, refl, ap, ◌∙◌, arith, true, false, Option, none, some, List, [], ◌∷◌, ◌++◌, length,
  take, drop, replicate, ltb, if◌then◌else◌, length-append, length-take, length-drop, le→ltb, inl,
}
use ota_common.Wire.{manifest}
use ota_common.Manifest.{manifest_at, manifest_bytes}
use ota_common.Manifest.Layout.{length-manifest_bytes, manifest_at-manifest_bytes}
use ota_common.Package.{SignatureVerifier}
use ota_common.Xeddsa.{TweetNacl, signing_buffer, xeddsa_verify_raw}
use ota_common.Xeddsa.Raw.{Opens, xeddsa_verify_raw_iff, xeddsa_verify-accepts}
use ota_common.Xeddsa.Buffer.{length-signing_buffer}
use ota_common.AdminKeyVerifier.{AdminKeyVerifier, verify}
use ota_common.AdminKeyVerifier.Accepts.{verify_iff}
use ota_common.BlockStore.{BufferBlockStore, buffer_block_store}
use ota_common.Transfer.{fragments, take_all_frames}
use ota_common.Receiver.{Receiver, new_receiver, on_frame}
use ota_common.Receiver.Kept.{IsSound, manifest-IsKept}
use ota_common.Receiver.Runs.{created, Reachable-take_all_frames}
use ota_common.Receiver.Authorised.{Authorised, Reachable-Authorised}
use ota_common.Samples.{small_manifest, small_manifest-IsManifest, empty_store}

-- A TweetNaCl whose signatures are opened under any key.
abbrev toy : TweetNacl ℕ
toy = record {
  of_limbs = λ limbs. length limbs;
  unpack25519 = λ key. length key;
  sub = λ x y. x;
  add = λ x y. x;
  mul = λ x y. x;
  inv25519 = λ x. x;
  pack25519 = λ x. replicate 32 x;
  crypto_sign_open = λ sm key. if ltb (length sm) 64 then none else some (drop 64 sm);
}

toy-Opens : Opens toy
toy-Opens = record { recovered = λ sm key m e. ground arith }

abbrev one_key : AdminKeyVerifier
one_key = record { keys = replicate 32 1 ∷ [] ∷ [] ∷ []; count = 1 }

toy_accepts :
    (msg sig : List ℕ) → length msg ≡ 192 → length sig ≡ 64 → verify toy one_key msg sig ≡ true
toy_accepts msg sig size len =
    let buffer = signing_buffer 0 0 79 msg in
    let long : ltb (length (take 64 sig ++ buffer)) 64 ≡ false =
      le→ltb (length (take 64 sig ++ buffer)) 64
        (omega (arith, length-append (take 64 sig) buffer, length-take 64 sig, len)) in
    let raw : xeddsa_verify_raw toy (replicate 32 1) buffer sig ≡ 1 =
      (xeddsa_verify_raw_iff toy (replicate 32 1) buffer sig toy-Opens len).1 (
        omega (arith, length-signing_buffer 0 0 79 msg, size),
        (drop 64 (take 64 sig ++ buffer), rw long refl),
      ) in
    (verify_iff toy one_key msg sig).1 (
      len,
      (
        0,
        (omega arith, xeddsa_verify-accepts toy (replicate 32 1) 0 0 79 msg sig (omega arith) raw),
      ),
    )

abbrev signature : List ℕ
signature = replicate 64 1

raw_manifest : List ℕ
raw_manifest = manifest_bytes small_manifest ++ signature

raw_size : length raw_manifest ≡ 256
unfolding raw_manifest
raw_size =
    length-append (manifest_bytes small_manifest) signature
    ∙ ap (λ (n : ℕ). n + 64) (length-manifest_bytes small_manifest small_manifest-IsManifest)

raw_same : manifest_at raw_manifest ≡ small_manifest
unfolding raw_manifest
raw_same = manifest_at-manifest_bytes small_manifest signature small_manifest-IsManifest

abbrev verifier : Option SignatureVerifier
verifier = some (verify toy one_key)

raw-IsSound : IsSound verifier raw_manifest
raw-IsSound = record {
  long_enough = omega (arith, raw_size);
  magic = ap (λ m. m.magic) raw_same;
  format = ap (λ m. m.format) raw_same;
  signed =
      toy_accepts (take 192 raw_manifest) (drop 192 raw_manifest)
        (omega (arith, raw_size, length-take 192 raw_manifest))
        (omega (arith, raw_size, length-drop 192 raw_manifest));
}

abbrev frames : List (List ℕ)
frames = fragments manifest 7 65535 raw_manifest 200 (length raw_manifest) 0

abbrev received_manifest : Receiver BufferBlockStore
received_manifest =
    take_all_frames (on_frame buffer_block_store verifier) frames (new_receiver empty_store 7)

Reachable-Authorised_example :
    Authorised toy one_key buffer_block_store empty_store received_manifest
Reachable-Authorised_example =
    Reachable-Authorised toy one_key buffer_block_store empty_store 7 received_manifest
      (Reachable-take_all_frames buffer_block_store verifier empty_store 7 frames _ created)
      (manifest-IsKept buffer_block_store verifier 7 200 raw_manifest (new_receiver empty_store 7)
        (omega arith) (omega arith) (omega (arith, raw_size)) raw-IsSound
        (record { opened = record { ours = refl; live = refl; running = refl }; unready = refl })
        (inl refl)).ready
