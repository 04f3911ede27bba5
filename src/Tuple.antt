-- ===== src/Tuple.antt =====
-- The tuple layer: src/tuple.
pub mod Values
pub mod Encode
pub mod Decode
pub mod Escaped
pub mod Magnitude
pub mod Integer
pub mod Float
pub mod Valid
pub mod Steps
pub mod Written
pub mod RoundTrip
pub mod Total
mod Tests
