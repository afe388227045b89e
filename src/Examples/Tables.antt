-- ===== src/Examples/Tables.antt =====
-- The theorems on blocks and the store at concrete inputs.
use solid_attention.Base.{
  ℕ_discrete, ℕ, ◌+◌, ◌≡◌, refl, ◌↔◌, none, some, List, [], ◌∷◌, ok, arith, length,
}
use solid_attention.Base.Int.{pos}
use solid_attention.Base.Dict.{get, values}
use solid_attention.Base.Sort.{IsSorted}
use solid_attention.Block.{
  BlockLocation, BlockArgs, resolve_interval, block_interval, block_role, kv_block, key,
  key_discrete, block_location, location_value,
}
use solid_attention.Block.Checks.{IsWellFormed, Describes, kv_block_iff}
use solid_attention.World.{Ref}
use solid_attention.Store.{move_block, list_blocks, location_stats, total_size_bytes, entry, key_lt}
use solid_attention.Store.Moves.{
  IsConsistent, StoreCall, after_calls, after_calls-IsConsistent, MoveOutcome,
  move_block-MoveOutcome,
}
use solid_attention.Store.Stats.{
  residents, list_blocks-IsSorted, location_stats-agrees, location_stats_total,
}
use mathlib.Core.List.{Perm}
use solid_attention.Examples.{ssd_block, small_world}

abbrev args : BlockArgs ℕ
args = record {
  block_id = pos 0;
  layer_id = pos 0;
  start_token = some (pos 0);
  end_token = some (pos 4);
  size_bytes = pos 96;
  location = "ssd";
  role = "current";
  representative = none;
  metadata = [];
  interval = none;
}

kv_block-args : kv_block args ≡ ok ssd_block
unfolding kv_block resolve_interval block_interval block_location block_role
kv_block-args = refl

kv_block_iff_example :
    (kv_block args ≡ ok ssd_block) ↔ (IsWellFormed ssd_block × Describes args ssd_block)
kv_block_iff_example = kv_block_iff args ssd_block (λ j h. absurd (ground arith))

small_world-IsConsistent : IsConsistent small_world
small_world-IsConsistent = record {
  keyed = (refl, (refl, tt));
  distinct = (((λ e. ground arith), tt), (tt, tt));
}

abbrev calls : List StoreCall
calls =
    StoreCall.add 0 ∷ StoreCall.move 0 1 "vram" ∷ StoreCall.move 3 3 "ssd" ∷ StoreCall.upsert 1 ∷ []

after_calls-IsConsistent_example : IsConsistent (after_calls calls small_world)
after_calls-IsConsistent_example =
    after_calls-IsConsistent calls small_world small_world-IsConsistent

move_block-MoveOutcome_example :
    MoveOutcome (some 0) (ok BlockLocation.dram) small_world (move_block 0 0 "dram" small_world)
unfolding get key_discrete ℕ_discrete block_location
move_block-MoveOutcome_example = move_block-MoveOutcome 0 0 "dram" small_world

list_blocks-IsSorted_example :
    (rs : List Ref) × (list_blocks none (some (location_value BlockLocation.ssd)) small_world
      ≡ (ok rs, small_world))
    × Perm rs (residents small_world BlockLocation.ssd)
    × IsSorted (λ p q. key_lt (key (small_world.heap p)) (key (small_world.heap q))) rs
list_blocks-IsSorted_example = list_blocks-IsSorted BlockLocation.ssd small_world

location_stats-agrees_example :
    (rs : List Ref) × (list_blocks none (some (location_value BlockLocation.dram)) small_world
      ≡ (ok rs, small_world))
    × (length rs ≡ (entry BlockLocation.dram (location_stats small_world)).block_count)
    × (total_size_bytes (some (location_value BlockLocation.dram)) small_world
        ≡ (ok (entry BlockLocation.dram (location_stats small_world)).size_bytes, small_world))
location_stats-agrees_example = location_stats-agrees BlockLocation.dram small_world

location_stats_total_example :
    let s = location_stats small_world in
    (total_size_bytes none small_world
      ≡ (ok (s.in_ssd.size_bytes + s.in_dram.size_bytes + s.in_vram.size_bytes), small_world))
    × (length (values small_world.blocks)
        ≡ s.in_ssd.block_count + s.in_dram.block_count + s.in_vram.block_count)
location_stats_total_example = location_stats_total small_world
