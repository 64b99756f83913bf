-- ===== src/Serializer.antt =====
-- yellowdb/core/serializer.py: the record format, its writer, and its two readers.
-- `zlib` is not part of the repository: it is the parameter `Zlib`, with the one law that the
-- format relies on.
pub mod Struct
pub mod Defs
pub mod KeyCache
pub mod Write
pub mod Fields
pub mod Deserialize
pub mod Reader
pub mod Read
pub mod Agree
pub mod RoundTrip
pub mod Truncation
pub mod File
pub mod StructCache
