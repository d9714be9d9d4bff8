-- ===== src/Punyenc.antt =====
-- crates/punyenc/src/lib.rs: the Punycode encoder. A code point and an output character are numbers,
-- a string is the list of its code points. The parts: `Bootstring` has the digits, the bias and the
-- variable-length integers, `Encoder` the two nested loops of `encode` over a Fenwick tree that is a
-- parameter (the `ftree` crate), `Rfc` a decoder written from RFC 3492.
pub mod Bootstring
pub mod Fenwick
pub mod Encoder
pub mod Rfc
pub mod Integers
pub mod Bias
pub mod Below
pub mod Sorted
pub mod Reads
pub mod Occurrence
pub mod Group
pub mod Placing
pub mod Round
pub mod Values
pub mod RoundTrip
mod Tests
