-- ===== src/MovementPlan.antt =====
-- core/movement_plan.py: `MovementOp` and `build_movement_plan`, which turns the timeline of the
-- scheduler into operations on the byte ranges of the backing file. Python's `str` of a metadata
-- value that is no text is a parameter, `show`.
pub mod Convert
pub mod Entries
pub mod Names
pub mod Exact
pub mod Ranges
pub mod Build
use solid_attention.Base.{
  ℕ, ◌<◌, ◌≡◌, arith, String, str_eq, Bool, true, false, not, ◌&&◌, ◌||◌, ◌==◌, Option, none, some,
  List, [], ◌∷◌, Result, ok, err, value_error, key_error, ◌>>=◌, ◌>>◌, raise_if, if◌then◌else◌,
}
use solid_attention.Base.Int.{ℤ, pos, pos_part, ltb_ℤ, leb_ℤ, eqb_ℤ}
use solid_attention.Base.Dict.{Dict, get}
use solid_attention.Base.Fill.{put_all}
use solid_attention.Base.Sort.{sorted}
use solid_attention.Base.Unique.{dedupe}
use solid_attention.Float.{FloatOps}
use solid_attention.Block.{Value, Metadata, KvBlock, BlockKey, key, key_discrete}
use solid_attention.Residency.{put}
use solid_attention.Scheduler.{ScheduleOp, ScheduleResult}
use solid_attention.SsdLayout.{SsdRange, SsdFileLayout, ssd_file_layout, add_range, get_range}
use solid_attention.Store.{key_lt}

pub record MovementOp (Fl : Type 0) : Type 0 where
  pub op : String
  pub layer_id : ℕ
  pub block_id : ℕ
  pub source : String
  pub target : String
  pub ssd_offset : ℕ
  pub size_bytes : ℕ
  pub start_token : ℕ
  pub end_token : ℕ
  pub start_ms : Fl
  pub end_ms : Fl
  pub blocking : Bool
  pub metadata : Metadata Fl

-- `op in _VALID_MOVEMENT_OPS`
unfoldable pub is_movement_op : String → Bool
is_movement_op op =
    str_eq op "kv_evict" || str_eq op "kv_load" || str_eq op "kv_prefetch" || str_eq op "kv_compute"

-- `metadata.get(name)`
unfoldable pub lookup : {Fl : Type 0} → String → Metadata Fl → Option (Value Fl)
lookup name [] = none
lookup name ((n, v) ∷ m) = let rest = lookup name m in if str_eq name n then some v else rest

pub record MovementPlan (Fl : Type 0) : Type 0 where
  pub ops : List (MovementOp Fl)
  pub layout : SsdFileLayout

module _ {Fl : Type 0} where
  -- `_dedupe_blocks`
  unfoldable pub dedupe_blocks : List (KvBlock Fl) → List (KvBlock Fl)
  dedupe_blocks blocks = sorted (λ p q. key_lt (key p) (key q)) (dedupe key_discrete key blocks)

  -- The loop of `build_movement_plan` that gives each block a range.
  unfoldable pub add_ranges : List (KvBlock Fl) → SsdFileLayout → Result SsdFileLayout
  add_ranges [] t = ok t
  add_ranges (b ∷ blocks) t = add_range b t >>= λ q. add_ranges blocks q.1

  -- `{block.key: block for block in unique_blocks}`
  unfoldable pub blocks_from : List (KvBlock Fl) → Dict BlockKey (KvBlock Fl)
  unfolding put_all
  blocks_from = put_all key_discrete key []

  -- `blocks_by_key[key]`
  unfoldable pub block_at : BlockKey → Dict BlockKey (KvBlock Fl) → Result (KvBlock Fl)
  block_at k d = elim (get key_discrete k d) [
    | none ↦ err (key_error "blocks_by_key")
    | some b ↦ ok b
  ]

module _ {Fl : Type 0} ⦃fl : FloatOps Fl⦄ where
  -- The checks of `MovementOp.__post_init__`, for numbers that are not negative.
  unfoldable pub movement_op : MovementOp Fl → Result (MovementOp Fl)
  unfolding is_movement_op
  movement_op m = do
    raise_if (not (is_movement_op m.op)) (value_error "unsupported movement op")
    raise_if (leb_ℤ (pos m.size_bytes) (pos 0)) (value_error "size_bytes must be positive")
    raise_if (leb_ℤ (pos m.end_token) (pos m.start_token))
        (value_error "end_token must be greater than start_token")
    raise_if (fl.lt m.end_ms m.start_ms) (value_error "end_ms must be >= start_ms")
    ok m

  -- `bool(value)`
  unfoldable pub truth : Value Fl → Bool
  truth Value.null = false
  truth (Value.flag b) = b
  truth (Value.int n) = not (eqb_ℤ n (pos 0))
  truth (Value.num x) = not (fl.eq x fl.zero)
  truth (Value.text s) = not (str_eq s "")

  module _ (show : Value Fl → String) where
    -- `str(metadata.get(name, default))`
    unfoldable pub text_or : String → String → Metadata Fl → String
    unfolding lookup
    text_or name default m = elim (lookup name m) [ none ↦ default | some v ↦ show v ]

    -- `bool(metadata.get("blocking", False))`
    unfoldable pub is_blocking : Metadata Fl → Bool
    unfolding lookup truth
    is_blocking m = elim (lookup "blocking" m) [ none ↦ false | some v ↦ truth v ]

    -- The chain of tests on the operation's name: the movement, its source and its target.
    unfoldable pub movement_of : String → Metadata Fl → Result (String × (String × String))
    unfolding text_or
    movement_of name m =
        if str_eq name "schedule_ssd_read"
        then ok ("kv_load", (text_or "from_location" "ssd" m, text_or "to_location" "dram" m))
        else if str_eq name "schedule_dram_to_vram"
        then ok ("kv_load", (text_or "from_location" "dram" m, text_or "to_location" "vram" m))
        else if str_eq name "schedule_compute"
        then ok ("kv_compute", (text_or "location" "vram" m, text_or "location" "vram" m))
        else if str_eq name "prefetch_move"
        then ok ("kv_prefetch", (text_or "from_location" "ssd" m, text_or "to_location" "dram" m))
        else if str_eq name "evict_to_ssd"
        then ok ("kv_evict", (text_or "from_location" "vram" m, text_or "to_location" "ssd" m))
        else err (value_error "unsupported scheduler op for movement plan")

    -- `_movement_from_schedule_op`
    unfoldable pub movement_from_schedule_op :
        ScheduleOp Fl → SsdRange → KvBlock Fl → Result (MovementOp Fl)
    unfolding movement_of movement_op
    movement_from_schedule_op s r b = do
      let metadata = put "scheduler_op" (Value.text s.op) s.metadata
      names ← movement_of s.op metadata
      movement_op (record {
        op = names.0;
        layer_id = s.layer_id;
        block_id = s.block_id;
        source = names.1.0;
        target = names.1.1;
        ssd_offset = r.offset;
        size_bytes = r.size_bytes;
        start_token = b.start_token;
        end_token = b.end_token;
        start_ms = s.start_ms;
        end_ms = s.end_ms;
        blocking = is_blocking metadata;
        metadata = metadata;
      })

    -- The loop of `build_movement_plan` over the operations of the schedule.
    unfoldable pub convert_loop :
        SsdFileLayout
        → Dict BlockKey (KvBlock Fl)
        → List (ScheduleOp Fl)
        → Result (List (MovementOp Fl))
    convert_loop t blocks_by_key [] = ok []
    convert_loop t blocks_by_key (s ∷ ops) =
        let rest = convert_loop t blocks_by_key ops in
        get_range s.layer_id s.block_id t >>= λ r.
        block_at (s.layer_id, s.block_id) blocks_by_key >>= λ b.
        movement_from_schedule_op s r b >>= λ m. rest >>= λ ms. ok (m ∷ ms)

    -- `build_movement_plan`
    unfoldable pub build_movement_plan :
        List (KvBlock Fl) → ScheduleResult Fl → ℤ → ℤ → Result (MovementPlan Fl)
    unfolding convert_loop
    build_movement_plan blocks result base_offset alignment = do
      empty ← ssd_file_layout base_offset alignment
      let unique = dedupe_blocks blocks
      t ← add_ranges unique empty
      ops ← convert_loop t (blocks_from unique) result.ops
      ok (record { ops = ops; layout = t })
