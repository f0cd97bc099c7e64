-- ===== src/Lib.antt =====
-- The mount protocol of agent-share: how a producer publishes a directory tree, how a consumer
-- follows it without trusting who relays it, and how peers serve each other what they hold.
--
-- The parts, and where the code has them:
--
--   Wire        the byte layouts: little-endian words, UTF-8 paths, counted lists
--               (crates/agent-share-proto/src/manifest.rs, `Cursor` and `encode_path`). A `Codec`
--               pairs a reader and a writer with both round trips, and codecs compose.
--   Manifest    `MountManifest`, `ManifestDelta` and `MountManifest::apply` of the same file.
--   Authorship  crates/agent-share-proto/src/authorship.rs: versions signed by the creator.
--   Framing     crates/agent-share-proto/src/framing.rs: requests, answers, `ManifestSince`.
--   Watch       `apply_since` and `apply_watch_frame` of manifest.rs: the consumer's side. What is
--               held is behind `&mut` there and comes back with the result here.
--   Live        crates/agent-share/src/mount/live.rs: `LiveTree`, the producer's side. `apply` folds a
--               rescan into the state (Live/Rescan) and publishes a signed delta or manifest.
--               `LiveTree::mirrored` is Live/Mirror, and `LiveTree::serving` is Live/Serving.
--   Auth        crates/agent-share-proto/src/auth.rs: `ShareAuth`.
--   Serve       crates/agent-share-mount/src/serve.rs: `serve_stream` over any `ServeSource`.
--               Serve/Consumer puts it and the requests of Remote together.
--   Seed        crates/agent-share-mount/src/seed.rs: `Seeder`, a source that serves a chunk store.
--   Serving     crates/agent-share-proto/src/serving.rs: the field of a peer card that lists the slots a
--               peer serves, as `*`, as runs or as a bitmap in base64 (Serving/Base64). Text has what
--               the code uses of `str`, Sorting and Bits what it uses of slices and of `u32`.
--   Client      crates/agent-share-proto/src/client.rs: `PeerCard` and its JSON form.
--   Roster      crates/agent-share-proto/src/roster.rs: the cards of the peers on a mesh.
--   Remote      crates/agent-share/src/mount/consume.rs: the requests of `RemoteClient`.
--   Sources     crates/agent-share/src/mount/sources.rs: `SourceSet`, who a mount reads from, and its
--               reads (Sources/Reading).
--   Tests       concrete runs, and each theorem applied to one.
--
-- The producer's `apply` makes a frame that the consumer's `apply_watch_frame` reads: Live/Sync
-- proves what the two agree on. `serve_stream` reads the requests that Framing writes and asks a
-- source; `Seeder` is such a source. A mount reads through a `SourceSet`, which asks the origin and the
-- peers whose cards vouch for a slot by the requests of Remote, and feeds its own `Seeder`; what it
-- serves goes into its card by `encode_serving`, where the others read it by `decode_serving`.
--
-- Conventions. Numbers are natural numbers; a `u64` that the code lets wrap is written out (`% 2 ^ 64`),
-- and fields within their types are the `…Fits` records. A byte string, a `String` (its UTF-8 bytes)
-- and a `[u8; N]` are lists; the length of an array is a hypothesis. An error is a `Result`, whose
-- `panicked` is an `expect` that fails. A `HashMap` is an association list with the last insertion
-- first. Interior state comes back with the result; a lock is that passing of the state.
--
-- Fuel. Only the loops of a seeder's read and of a mount's read by chunks run on fuel, the length of the
-- range. Every turn takes at least one byte, so it is enough; the answer for spent fuel is never given.
--
-- The network of a mount is a function from a peer's endpoint to its connection, and a connection is a
-- function from the bytes of a request to the bytes that come back. Any function is allowed, so a peer
-- may answer anything. Reads are taken one at a time, with the network fixed while a read runs.
--
-- Parameters. ed25519 (`Scheme`): a signature has 64 bytes, and a key verifies what its holder
-- signed. fofoca-chunks (`ChunkLibrary`) and fofoca-protocol (`TokenLibrary`) without laws; a
-- theorem that needs one has it as a hypothesis. serde_json (`JsonLibrary`) with what its
-- documentation says of it (`JsonLaws`) as a hypothesis of the one theorem on the JSON form. A
-- signature that verifies for one manifest only is a hypothesis of the two theorems that need it.
--
-- Not modelled: the directory walk and the file system watcher, dialling and its retries, reads of
-- one mount at the same time, tickets and tokens as text, timers and channels that fill up, BLAKE3
-- fingerprints, the NFS adapter, the browser client and the user interfaces.
pub mod Prelude
pub mod Sorting
pub mod Bits
pub mod Text
pub mod Wire
pub mod Manifest
pub mod Framing
pub mod Authorship
pub mod Watch
pub mod Live
pub mod Chunks
pub mod Auth
pub mod Serve
pub mod Seed
pub mod Serving
pub mod Json
pub mod Client
pub mod Roster
pub mod Remote
pub mod Sources
pub mod Tests
