-- ===== src/Codec/RoundTrip.antt =====
-- decode_auto and decode of src/npb/_codec.py read back what encode wrote, where no array is
-- externalized.
pub mod Trees
mod Inline
pub mod Setting
mod Walk
mod Leaves
pub mod Induction
pub mod Analyzed
pub mod Inlined
pub mod Stored
pub mod External
pub mod Images
pub mod Containers
