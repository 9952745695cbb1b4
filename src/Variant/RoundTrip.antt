-- ===== src/Variant/RoundTrip.antt =====
-- `fromJson` reads back what `toJson` writes.
pub mod Strings
pub mod Readable
pub mod Json
pub mod Text
pub mod Scalars
pub mod Values
pub mod Numbers
pub mod Cursor
