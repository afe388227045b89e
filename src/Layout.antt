-- ===== src/Layout.antt =====
-- core/kv_layout.py: token-level interleaving of keys and values as byte ranges. A layout reads
-- only those attributes of its block that never change, so it holds the block itself.
pub mod Extents
pub mod Packing
pub mod Disjoint
use solid_attention.Base.{
  ℕ, ◌+◌, ◌*◌, String, str_eq, Bool, true, false, not, ◌||◌, Option, none, some, List, [], ◌∷◌,
  Result, ok, err, value_error, key_error, ◌>>=◌, ◌>>◌, raise_if, if◌then◌else◌, max,
}
use solid_attention.Base.Int.{ℤ, pos, pos_part, ltb_ℤ, leb_ℤ, ◌+ℤ◌, ◌-ℤ◌, ◌*ℤ◌}
use solid_attention.Base.Dict.{Dict, get, contains, set, values}
use solid_attention.Block.{KvBlock, BlockKey, key, key_discrete, contains_token, token_count}

pub record KvExtent : Type 0 where
  pub kind : String
  pub token_id : ℕ
  pub offset : ℕ
  pub size_bytes : ℕ

-- `KVExtent(kind, token_id, offset, size_bytes)`
unfoldable pub kv_extent : String → ℤ → ℤ → ℤ → Result KvExtent
kv_extent kind token_id offset size_bytes = do
  raise_if (not (str_eq kind "k" || str_eq kind "v")) (value_error "kind must be 'k' or 'v'")
  raise_if (ltb_ℤ token_id (pos 0)) (value_error "token_id must be non-negative")
  raise_if (ltb_ℤ offset (pos 0)) (value_error "offset must be non-negative")
  raise_if (leb_ℤ size_bytes (pos 0)) (value_error "size_bytes must be positive")
  ok (record {
    kind = kind;
    token_id = pos_part token_id;
    offset = pos_part offset;
    size_bytes = pos_part size_bytes;
  })

abbrev pub extent_end : KvExtent → ℕ
extent_end e = e.offset + e.size_bytes

pub record BlockLayout (Fl : Type 0) : Type 0 where
  pub block : KvBlock Fl
  pub base_offset : ℕ
  pub key_size_bytes : ℕ
  pub value_size_bytes : ℕ

-- The checks that `BlockLayout` and `InterleavedKVLayout` both make.
unfoldable pub check_sizes : ℤ → ℤ → ℤ → Result (Unit {0})
check_sizes base_offset key_size_bytes value_size_bytes = do
  raise_if (ltb_ℤ base_offset (pos 0)) (value_error "base_offset must be non-negative")
  raise_if (leb_ℤ key_size_bytes (pos 0)) (value_error "key_size_bytes must be positive")
  raise_if (leb_ℤ value_size_bytes (pos 0)) (value_error "value_size_bytes must be positive")

module _ {Fl : Type 0} where
  -- `BlockLayout(...)`
  unfoldable pub block_layout : KvBlock Fl → ℤ → ℤ → ℤ → Result (BlockLayout Fl)
  unfolding check_sizes
  block_layout block base_offset key_size_bytes value_size_bytes = do
    check_sizes base_offset key_size_bytes value_size_bytes
    ok (record {
      block = block;
      base_offset = pos_part base_offset;
      key_size_bytes = pos_part key_size_bytes;
      value_size_bytes = pos_part value_size_bytes;
    })

  abbrev pub token_stride_bytes : BlockLayout Fl → ℕ
  token_stride_bytes l = l.key_size_bytes + l.value_size_bytes

  abbrev pub total_size_bytes : BlockLayout Fl → ℕ
  total_size_bytes l = token_count l.block * token_stride_bytes l

  abbrev pub end_offset : BlockLayout Fl → ℕ
  end_offset l = l.base_offset + total_size_bytes l

  -- `_token_index`
  unfoldable pub token_index : BlockLayout Fl → ℤ → ℤ
  token_index l token_id = token_id -ℤ pos l.block.start_token

  -- `_check_token`
  unfoldable pub check_token : BlockLayout Fl → ℤ → Result (Unit {0})
  check_token l token_id =
      raise_if (not (contains_token l.block token_id)) (value_error "token is outside block range")

  unfoldable pub key_extent : BlockLayout Fl → ℤ → Result KvExtent
  key_extent l token_id = do
    check_token l token_id
    let offset = pos l.base_offset +ℤ token_index l token_id *ℤ pos (token_stride_bytes l)
    kv_extent "k" token_id offset (pos l.key_size_bytes)

  unfoldable pub value_extent : BlockLayout Fl → ℤ → Result KvExtent
  value_extent l token_id = do
    check_token l token_id
    let offset =
        pos l.base_offset
        +ℤ token_index l token_id *ℤ pos (token_stride_bytes l)
        +ℤ pos l.key_size_bytes
    kv_extent "v" token_id offset (pos l.value_size_bytes)

  unfoldable pub token_extents : BlockLayout Fl → ℤ → Result (KvExtent × KvExtent)
  unfolding key_extent value_extent
  token_extents l token_id = do k ← key_extent l token_id; v ← value_extent l token_id; ok (k, v)

pub record InterleavedKvLayout (Fl : Type 0) : Type 0 where
  pub key_size_bytes : ℕ
  pub value_size_bytes : ℕ
  pub base_offset : ℕ
  pub layouts : Dict BlockKey (BlockLayout Fl)

module _ {Fl : Type 0} where
  -- `InterleavedKVLayout(key_size_bytes, value_size_bytes, base_offset)`
  unfoldable pub interleaved_layout : ℤ → ℤ → ℤ → Result (InterleavedKvLayout Fl)
  unfolding check_sizes
  interleaved_layout key_size_bytes value_size_bytes base_offset = do
    check_sizes base_offset key_size_bytes value_size_bytes
    ok (record {
      key_size_bytes = pos_part key_size_bytes;
      value_size_bytes = pos_part value_size_bytes;
      base_offset = pos_part base_offset;
      layouts = [];
    })

  -- `max(layout.end_offset for layout in ...)`, from the first one on.
  unfoldable pub max_end : ℕ → List (BlockLayout Fl) → ℕ
  max_end m [] = m
  max_end m (l ∷ ls) = max_end (max m (end_offset l)) ls

  -- `_next_offset`
  unfoldable pub next_offset : InterleavedKvLayout Fl → ℕ
  unfolding max_end
  next_offset t = elim (values t.layouts) [
    | [] ↦ t.base_offset
    | l ∷ ls ↦ max_end (end_offset l) ls
  ]

  -- `InterleavedKVLayout.add_block`: the new layout, and the table that now has it.
  unfoldable pub add_block :
      KvBlock Fl → InterleavedKvLayout Fl → Result (BlockLayout Fl × InterleavedKvLayout Fl)
  add_block block t = do
    raise_if (contains key_discrete (key block) t.layouts)
        (key_error "layout already exists for block")
    let offset = next_offset t
    layout ← block_layout block (pos offset) (pos t.key_size_bytes) (pos t.value_size_bytes)
    ok (layout, record t { layouts = set key_discrete (key block) layout t.layouts })

  unfoldable pub get_block_layout : ℕ → ℕ → InterleavedKvLayout Fl → Result (BlockLayout Fl)
  get_block_layout layer_id block_id t = elim (get key_discrete (layer_id, block_id) t.layouts) [
    | none ↦ err (key_error "unknown block layout")
    | some l ↦ ok l
  ]

  -- `InterleavedKVLayout.token_extents`
  unfoldable pub find_extents : ℕ → ℕ → ℤ → InterleavedKvLayout Fl → Result (KvExtent × KvExtent)
  unfolding get_block_layout
  find_extents layer_id block_id token_id t = do
    l ← get_block_layout layer_id block_id t
    token_extents l token_id

  unfoldable pub block_span : ℕ → ℕ → InterleavedKvLayout Fl → Result (ℕ × ℕ)
  unfolding get_block_layout
  block_span layer_id block_id t = do
    l ← get_block_layout layer_id block_id t
    ok (l.base_offset, end_offset l)
