-- ===== src/Lib.antt =====
-- A model of the C++ library ota-common: the point-to-point firmware update transport of a mesh radio,
-- with the package format, the Merkle tree over payload blocks and the self-identity trailer.
--
-- A seeder owns a package (header, signed manifest, signature, payload) and answers the requests of a
-- receiver in frames of at most 233 bytes. The receiver reassembles the manifest unit, checks its
-- signature, then asks for the blocks one by one; each block comes with a Merkle proof, is checked
-- against the root of the manifest and put into a block store.
--
-- Which file models what:
-- - Wire: the frame header, START and LOAD codecs of src/transport.cpp.
-- - Sha256: src/sha256.cpp, the whole digest, executable. Sha256/Spec is the reference, a fold over the
--   blocks of the padded message; Sha256/Refine and Sha256/Digest relate the two.
-- - Merkle: src/merkle.cpp. Merkle/Levels is on one reduction, Merkle/Complete on proofs made by
--   merkle_proof, Merkle/Binding on proofs made by anybody and Merkle/Collisions
--   on what two accepted proofs can collide in, Merkle/Nodes on inner nodes,
--   Merkle/Digests and Merkle/Paths on the sizes of nodes and proofs, Merkle/Octets on their bytes.
-- - CString: the strncmp comparisons of src/trailer.cpp and src/package.cpp.
-- - Manifest: include/ota_common/manifest.h, the struct and its bytes.
-- - Trailer: src/trailer.cpp, with Trailer/Valid and Trailer/Identity. Trailer/Checksum is on crc32_ieee,
--   Trailer/Corrupted on a changed byte.
-- - Package: src/package.cpp, with Package/Parse, Package/Build and Package/Identity.
-- - EspImage: src/esp_image.cpp, with EspImage/Built on the image of given segments.
-- - Reassembler: OtaReceiver::Reassembler of src/transport.cpp. Reassembler/Octets is on its bytes.
-- - BlockStore: IBlockStore, FlashTargetBlockStore and BufferBlockStore of src/transport.cpp.
-- - Receiver: OtaReceiver of src/transport.cpp, over any block store and any signature verifier.
--   Receiver/Frames is on what single frames leave alone, Receiver/Authentic on what enters the store,
--   Receiver/Complete, Receiver/Admission and Receiver/Invariant on the invariant, Receiver/Rooted on
--   the root, Receiver/Runs on any series of frames and polls, Receiver/Authorised on these with the
--   verifier that holds the admin keys, Receiver/LateStart on a late START, Receiver/Octets,
--   Receiver/Installed and Receiver/Received on the bytes that it keeps. Receiver/Cases has the
--   guards of the handlers.
-- - DetoolsApply: src/detools_apply.cpp and include/ota_common/detools_apply.h, over any decoder.
--   DetoolsApply/InPlace is the in-place form, DetoolsApply/Patch on the reads of the patch,
--   DetoolsApply/Sink on the writes.
-- - Xeddsa: src/xeddsa.cpp and src/vendor_tweetnacl.c, over the operations of TweetNaCl.
-- - AdminKeyVerifier: include/ota_common/admin_key_verifier.h.
-- - Seeder: OtaSeeder of src/transport.cpp, with Seeder/Leaves and Seeder/Serving on its constructor,
--   Seeder/Frames, Seeder/Octets, Seeder/Delivery and Seeder/Answer on what it sends.
-- - Transfer: the two of them connected. Transfer/Fragments is on the frames of a unit, Transfer/Ports
--   on how they arrive, Transfer/Answered on a request, Transfer/Session on the rounds of a transfer
--   over a store of which an interface says what it keeps (Transfer/Rounds). In a round the receiver is
--   polled, the seeder takes the frames that the poll sends, and the receiver takes the frames that the
--   seeder sends then; what the receiver sends in between is not delivered, since the next poll asks
--   again. Transfer/Opening is on the START before them, Transfer/Whole on a transfer from its start,
--   Transfer/Retained and Transfer/Recovery on one that goes on with blocks and proofs kept from before,
--   Transfer/Octets on the bytes of both sides in a round. Transfer/Buffered has BufferBlockStore behind
--   that interface and Transfer/Payload what it holds at the end; Transfer/Written and Transfer/Flashed have
--   FlashTargetBlockStore, over a target that takes its image in sequence. Transfer/Released is on a
--   package whose manifest describes its payload, Transfer/Images on such a package from its bytes to
--   the bytes that the store or the target holds. Receiver/Units, Receiver/Noted, Receiver/Delivered,
--   Receiver/Had, Receiver/Stale, Receiver/Kept and Receiver/Started have the receiver's side, Seeder/Chunks and Seeder/Opening the
--   seeder's. The frames of a round arrive in order, and none is lost.
-- - Common: shared tests, list functions, machine words and bitwise operations over the native
--   numbers. Samples: the data that the tests share. A module called Tests has the runs on it.
--
-- How the code corresponds: a byte is a number below 256 and a buffer a list of them; a pointer with a
-- length is a list, and a null pointer is `none`; a pointer into a buffer is the list of the bytes from
-- it to the end. A struct that the code reads from memory by a cast is read little-endian, as on every
-- target of the library. Casts and sums of machine integers are written out as remainders. An object
-- is a record, a method a function from the old record to the new one, and IFrameOut is the list of the
-- frames sent so far. std::map is a function from the index to an optional value. What the caller
-- implements (IBlockStore, IFlashTarget, IByteSink, IFlashMem, IStepJournal, ISignatureVerifier) is a
-- parameter: a record of functions over a state of its own, or a function. A frame handed in is not a
-- null pointer.
--
-- Loops are recursion on fuel: the loops over a level's nodes have its length as fuel, and each round
-- shortens the level or ends the loop; the digest's loop has the length of the input, of which each round
-- takes a byte; the fragment loops of the seeder have the length of the unit, and advance by a byte at
-- least. The leaf loop in the constructor of OtaSeeder has its fuel as an argument and returns `none`
-- without enough of it, since there are packages on which it does not end.
--
-- Not modelled: radio.h has no code; third_party holds copies of other libraries, and
-- src/vendor_detools.c and src/vendor_heatshrink.c only include them. They are parameters: the detools
-- decoder is a tree that says which callback it calls next for each answer, TweetNaCl a record of the
-- functions that are called. tools is a Python packager. Collision resistance of SHA-256 is no
-- hypothesis: the theorems say which data of the run collide.
pub mod Common
pub mod Wire
pub mod Sha256
pub mod Merkle
pub mod CString
pub mod Manifest
pub mod Trailer
pub mod Package
pub mod EspImage
pub mod Reassembler
pub mod BlockStore
pub mod DetoolsApply
pub mod Xeddsa
pub mod AdminKeyVerifier
pub mod Receiver
pub mod Seeder
pub mod Transfer
pub mod Samples
