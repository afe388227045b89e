-- ===== src/ByteRanges.antt =====
-- integrations/llama_cpp/kv_byte_ranges.py: the check that the key and value rows of the staged
-- blocks cover their bytes, and lie within the tensors of llama.cpp.
pub mod Range
pub mod Blocks
pub mod Mapping
pub mod Verify
pub mod RowSizes
pub mod Built
pub mod Tile
pub mod Bounds
pub mod Reassemble
pub mod Invert
pub mod Mapped
pub mod Sound
