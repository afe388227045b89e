-- ===== src/SsdLayout.antt =====
-- core/movement_plan.py: `SSDRange` and `SSDFileLayout`, the aligned byte ranges of the blocks in
-- the backing file.
pub mod Align
pub mod Chain
use solid_attention.Base.{
  ℕ, ◌+◌, ◌-◌, ◌%◌, Bool, Option, none, some, List, [], ◌∷◌, ◌==◌, Result, ok, err, value_error,
  key_error, ◌>>=◌, ◌>>◌, raise_if, if◌then◌else◌, max,
}
use solid_attention.Base.Int.{ℤ, pos, pos_part, ltb_ℤ, leb_ℤ}
use solid_attention.Base.Dict.{Dict, get, contains, set, values}
use solid_attention.Block.{KvBlock, BlockKey, key, key_discrete}

pub record SsdRange : Type 0 where
  pub layer_id : ℕ
  pub block_id : ℕ
  pub offset : ℕ
  pub size_bytes : ℕ

-- `SSDRange(layer_id, block_id, offset, size_bytes)`
unfoldable pub ssd_range : ℤ → ℤ → ℤ → ℤ → Result SsdRange
ssd_range layer_id block_id offset size_bytes = do
  raise_if (ltb_ℤ layer_id (pos 0)) (value_error "layer_id must be non-negative")
  raise_if (ltb_ℤ block_id (pos 0)) (value_error "block_id must be non-negative")
  raise_if (ltb_ℤ offset (pos 0)) (value_error "offset must be non-negative")
  raise_if (leb_ℤ size_bytes (pos 0)) (value_error "size_bytes must be positive")
  ok (record {
    layer_id = pos_part layer_id;
    block_id = pos_part block_id;
    offset = pos_part offset;
    size_bytes = pos_part size_bytes;
  })

abbrev pub range_end : SsdRange → ℕ
range_end r = r.offset + r.size_bytes

abbrev pub range_key : SsdRange → BlockKey
range_key r = (r.layer_id, r.block_id)

pub record SsdFileLayout : Type 0 where
  pub base_offset : ℕ
  pub alignment : ℕ
  pub ranges : Dict BlockKey SsdRange

-- `SSDFileLayout(base_offset=..., alignment=...)`
unfoldable pub ssd_file_layout : ℤ → ℤ → Result SsdFileLayout
ssd_file_layout base_offset alignment = do
  raise_if (ltb_ℤ base_offset (pos 0)) (value_error "base_offset must be non-negative")
  raise_if (leb_ℤ alignment (pos 0)) (value_error "alignment must be positive")
  ok (record { base_offset = pos_part base_offset; alignment = pos_part alignment; ranges = [] })

-- `max(item.end_offset for item in ...)`, from the first one on.
unfoldable pub max_range_end : ℕ → List SsdRange → ℕ
max_range_end m [] = m
max_range_end m (r ∷ rs) = max_range_end (max m (range_end r)) rs

-- `_next_offset`
unfoldable pub next_range_offset : SsdFileLayout → ℕ
unfolding max_range_end
next_range_offset t = elim (values t.ranges) [
  | [] ↦ t.base_offset
  | r ∷ rs ↦ max_range_end (range_end r) rs
]

-- `total_size_bytes`
unfoldable pub layout_size : SsdFileLayout → ℕ
unfolding max_range_end
layout_size t = elim (values t.ranges) [
  | [] ↦ 0
  | r ∷ rs ↦ max_range_end (range_end r) rs - t.base_offset
]

-- `_align`
unfoldable pub align : ℕ → ℕ → ℕ
align alignment offset =
    let remainder = offset % alignment in
    if remainder == 0 then offset else offset + alignment - remainder

module _ {Fl : Type 0} where
  -- `SSDFileLayout.add_block`: the new range, and the table that now has it.
  unfoldable pub add_range : KvBlock Fl → SsdFileLayout → Result (SsdRange × SsdFileLayout)
  add_range block t = do
    raise_if (contains key_discrete (key block) t.ranges)
        (key_error "SSD range already exists for block")
    raise_if (block.size_bytes == 0)
        (value_error "block size_bytes must be positive for SSD layout")
    let offset = align t.alignment (next_range_offset t)
    r ← ssd_range (pos block.layer_id) (pos block.block_id) (pos offset) (pos block.size_bytes)
    ok (r, record t { ranges = set key_discrete (key block) r t.ranges })

unfoldable pub get_range : ℕ → ℕ → SsdFileLayout → Result SsdRange
get_range layer_id block_id t = elim (get key_discrete (layer_id, block_id) t.ranges) [
  | none ↦ err (key_error "unknown SSD range")
  | some r ↦ ok r
]
