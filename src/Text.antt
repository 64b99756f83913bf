-- ===== src/Text.antt =====
-- Python's `str` and `bytes`: a key is the list of its code points, bytes are numbers below 256.
-- `Order` has the comparison of keys, `Utf8` the codec, `RoundTrip` the proof about it.
mod Defs
pub mod Order
pub mod Utf8
pub mod RoundTrip
pub mod Literal
pub mod Decimal
pub mod Padded
pub use Defs.{Key, Bytes}
