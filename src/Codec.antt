-- ===== src/Codec.antt =====
-- src/npb/_codec.py: the encoder and the decoders.
pub mod Manifest
pub mod Encode
pub mod Restore
pub mod Decode
pub mod RoundTrip
