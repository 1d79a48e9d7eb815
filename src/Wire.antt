-- ===== src/Wire.antt =====
-- rust/src/wire.rs: the serialization primitives under every layer.
pub mod Writer
pub mod Reader
pub mod CompactSize
pub mod VarInt
pub mod Strings
mod Runs
pub mod Fresh
pub mod Reads
pub mod Cursor
