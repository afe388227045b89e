-- ===== src/Examples/Layouts.antt =====
-- The theorems on the two layouts at concrete inputs.
use solid_attention.Base.{
  ℕ_discrete, ℕ, ◌+◌, ◌-◌, ◌%◌, ◌≤◌, ◌<◌, ◌≡◌, refl, ◌⊎◌, false, [], ◌∷◌, ok, arith, sum_by,
}
use solid_attention.Base.Int.{pos, ◌+ℤ◌, ◌-ℤ◌, ◌*ℤ◌}
use solid_attention.Base.Dict.{get, values}
use solid_attention.Block.{contains_token, interval_contains, KvBlock, key_discrete}
use solid_attention.Block.Checks.{IsWellFormed}
use solid_attention.Layout.{
  check_token, kv_extent, token_index, KvExtent, BlockLayout, InterleavedKvLayout, extent_end,
  next_offset, max_end, token_extents, add_block, find_extents,
}
use solid_attention.Layout.Extents.{
  IsLayout, ExtentsOutcome, token_extents-ExtentsOutcome, key_range, value_range, Tiles,
  extents_tile,
}
use solid_attention.Layout.Packing.{IsPacked, AddOutcome, add_block-AddOutcome}
use solid_attention.Layout.Disjoint.{find_extents-apart}
use solid_attention.SsdLayout.{
  SsdRange, SsdFileLayout, range_end, next_range_offset, max_range_end, layout_size, align,
  add_range, get_range,
}
use solid_attention.SsdLayout.Align.{align_lem}
use solid_attention.SsdLayout.Chain.{
  IsChained, layout_size_bounds, get_range-apart, add_range-AddOutcome,
}
use solid_attention.SsdLayout.Chain
use solid_attention.Examples.{ssd_block, dram_block}

abbrev first_layout : BlockLayout ℕ
first_layout = record {
  block = ssd_block;
  base_offset = 100;
  key_size_bytes = 16;
  value_size_bytes = 8;
}

abbrev packed : InterleavedKvLayout ℕ
packed = record {
  base_offset = 100;
  key_size_bytes = 16;
  value_size_bytes = 8;
  layouts = ((0, 0), first_layout) ∷ [];
}

first_layout-IsLayout : IsLayout first_layout
first_layout-IsLayout = record {
  block = record { start_agrees = refl; end_agrees = refl; nonempty = omega arith };
  key_positive = omega arith;
  value_positive = omega arith;
}

token_extents-ExtentsOutcome_example :
    ExtentsOutcome first_layout first_layout-IsLayout (pos 3) (token_extents first_layout (pos 3))
token_extents-ExtentsOutcome_example =
    token_extents-ExtentsOutcome first_layout first_layout-IsLayout (pos 3)

extents_tile_example : Tiles first_layout first_layout-IsLayout 100 0 4
extents_tile_example = extents_tile first_layout first_layout-IsLayout

packed-IsPacked : IsPacked packed
unfolding next_offset max_end
packed-IsPacked = record {
  key_positive = omega arith;
  value_positive = omega arith;
  layouts_valid = (first_layout-IsLayout, tt);
  tiles = (refl, refl);
  keyed = (refl, tt);
}

dram_block-IsWellFormed : IsWellFormed dram_block
dram_block-IsWellFormed = record { start_agrees = refl; end_agrees = refl; nonempty = omega arith }

add_block-AddOutcome_example : AddOutcome dram_block packed false (add_block dram_block packed)
unfolding get key_discrete ℕ_discrete
add_block-AddOutcome_example =
    add_block-AddOutcome dram_block packed dram_block-IsWellFormed packed-IsPacked

abbrev key_of : ℕ → KvExtent
key_of t = key_range first_layout first_layout-IsLayout t

abbrev value_of : ℕ → KvExtent
value_of t = value_range first_layout first_layout-IsLayout t

find_extents-first : find_extents 0 0 (pos 0) packed ≡ ok (key_of 0, value_of 0)
unfolding find_extents get key_discrete ℕ_discrete token_extents check_token contains_token
    interval_contains kv_extent ◌+ℤ◌ ◌*ℤ◌ token_index ◌-ℤ◌
find_extents-first = refl

find_extents-last : find_extents 0 0 (pos 3) packed ≡ ok (key_of 3, value_of 3)
unfolding find_extents get key_discrete ℕ_discrete token_extents check_token contains_token
    interval_contains kv_extent ◌+ℤ◌ ◌*ℤ◌ token_index ◌-ℤ◌
find_extents-last = refl

find_extents-apart_example :
    (extent_end (key_of 0) ≡ (value_of 0).offset)
    × (extent_end (key_of 3) ≡ (value_of 3).offset)
    × ((extent_end (value_of 0) ≤ (key_of 3).offset)
        ⊎ (extent_end (value_of 3) ≤ (key_of 0).offset))
find_extents-apart_example =
    find_extents-apart packed 0 0 0 0 (pos 0) (pos 3) (key_of 0) (value_of 0) (key_of 3)
      (value_of 3) packed-IsPacked find_extents-first find_extents-last (λ e. ground arith)

abbrev ranged : SsdFileLayout
ranged = record {
  base_offset = 10;
  alignment = 64;
  ranges =
      ((0, 0), record { layer_id = 0; block_id = 0; offset = 64; size_bytes = 96 })
      ∷ ((0, 1), record { layer_id = 0; block_id = 1; offset = 192; size_bytes = 50 })
      ∷ [];
}

ranged-IsChained : IsChained ranged
unfolding next_range_offset max_range_end
ranged-IsChained = record {
  positive = omega arith;
  chain = (
    omega arith,
    omega arith,
    refl,
    omega arith,
    (omega arith, omega arith, refl, omega arith, refl),
  );
  keyed = (refl, (refl, tt));
}

align_lem_example : (align 64 160 % 64 ≡ 0) × (160 ≤ align 64 160) × (align 64 160 < 160 + 64)
align_lem_example = align_lem 64 160 (omega arith)

layout_size_bounds_example :
    (sum_by (λ r. r.size_bytes) (values ranged.ranges) ≤ layout_size ranged)
    × (layout_size ranged
        ≤ sum_by (λ r. r.size_bytes + (ranged.alignment - 1)) (values ranged.ranges))
layout_size_bounds_example = layout_size_bounds ranged ranged-IsChained

abbrev first_range : SsdRange
first_range = record { layer_id = 0; block_id = 0; offset = 64; size_bytes = 96 }

abbrev second_range : SsdRange
second_range = record { layer_id = 0; block_id = 1; offset = 192; size_bytes = 50 }

get_range-first : get_range 0 0 ranged ≡ ok first_range
unfolding get_range get key_discrete ℕ_discrete
get_range-first = refl

get_range-second : get_range 0 1 ranged ≡ ok second_range
unfolding get_range get key_discrete ℕ_discrete
get_range-second = refl

get_range-apart_example :
    (first_range.offset % 64 ≡ 0)
    × (second_range.offset % 64 ≡ 0)
    × ((range_end first_range ≤ second_range.offset)
        ⊎ (range_end second_range ≤ first_range.offset))
get_range-apart_example =
    get_range-apart ranged 0 0 0 1 first_range second_range ranged-IsChained get_range-first
      get_range-second (λ e. ground arith)

abbrev third_block : KvBlock ℕ
third_block = record dram_block { block_id = 2 }

add_range-AddOutcome_example :
    Chain.AddOutcome third_block ranged false false (add_range third_block ranged)
unfolding get key_discrete ℕ_discrete
add_range-AddOutcome_example = add_range-AddOutcome third_block ranged ranged-IsChained
