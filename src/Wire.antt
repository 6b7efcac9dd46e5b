-- ===== src/Wire.antt =====
-- libs/planten_9p/src: the 9P messages as bytes. The children hold the codecs, the frames, and the
-- proofs about them.
pub mod Messages
pub mod Bytes
pub mod Utf8
pub mod Types
pub mod Encode
pub mod Decode
pub mod Frame
pub mod RoundTrip
pub mod Framing
pub mod Truncated
mod Examples
