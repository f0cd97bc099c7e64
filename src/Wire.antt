-- ===== src/Wire.antt =====
-- The byte level of the wire format, shared by every message: little-endian words
-- (`to_le_bytes`/`from_le_bytes`), UTF-8 (`String::from_utf8`), the bounds-checked `Cursor` of
-- crates/agent-share-proto/src/manifest.rs, and what it is for a reader to invert a writer.
pub mod Words
pub mod Utf8
pub mod Cursor
pub mod Writer
pub mod Codec
