-- ===== src/Commands.antt =====
-- integrations/llama_cpp/runtime_commands.py: a movement plan, read back from its JSON, as the
-- commands that the llama.cpp side is to run. The plan is a value of known shape: the type checks
-- and the missing fields of JSON are not in its domain, signs and texts are.
pub mod Check
pub mod Rows
pub mod Accept
pub mod Plan
pub mod Pipeline
pub mod Export
pub mod Summary
use solid_attention.Base.{
  ℕ, ◌+◌, ◌-◌, ◌==◌, str_eq, String, Bool, true, false, not, ◌&&◌, ◌||◌, Option, none, some, List,
  [], ◌∷◌, map, Result, ok, err, value_error, key_error, ◌>>=◌, ◌>>◌, raise_if, if◌then◌else◌,
  length, filter_by, sum_by,
}
use solid_attention.Base.Int.{ℤ, pos, pos_part, ltb_ℤ, leb_ℤ, eqb_ℤ, ℤ_discrete}
use solid_attention.Base.Dict.{Dict, get, contains, set, values}
use solid_attention.Base.Sort.{sorted}
use solid_attention.Base.Texts.{string_discrete}
use solid_attention.Float.{FloatOps}
use solid_attention.Block.{Value, Metadata}
use solid_attention.MovementPlan.{MovementOp, MovementPlan}
use solid_attention.Residency.{put}
use solid_attention.SsdLayout.{SsdRange, SsdFileLayout, range_key}
use solid_attention.Store.{key_lt}

-- One entry of `plan["ops"]`.
pub record PlanOp (Fl : Type 0) : Type 0 where
  pub op : String
  pub layer_id : ℤ
  pub block_id : ℤ
  pub start_token : ℤ
  pub end_token : ℤ
  pub size_bytes : ℤ
  pub source : String
  pub target : String
  pub ssd_offset : ℤ
  pub start_ms : Value Fl
  pub end_ms : Value Fl
  pub duration_ms : Value Fl
  pub blocking : Bool
  pub metadata : Metadata Fl

-- One entry of `plan["layout"]["blocks"]`.
pub record PlanRange : Type 0 where
  pub layer_id : ℤ
  pub block_id : ℤ
  pub offset : ℤ
  pub size_bytes : ℤ

pub record PlanJson (Fl : Type 0) : Type 0 where
  pub blocks : List PlanRange
  pub ops : List (PlanOp Fl)

-- `MovementOp.to_dict`
abbrev pub op_json : {Fl : Type 0} ⦃fl : FloatOps Fl⦄ → MovementOp Fl → PlanOp Fl
op_json ⦃fl⦄ m = record {
  op = m.op;
  layer_id = pos m.layer_id;
  block_id = pos m.block_id;
  start_token = pos m.start_token;
  end_token = pos m.end_token;
  size_bytes = pos m.size_bytes;
  source = m.source;
  target = m.target;
  ssd_offset = pos m.ssd_offset;
  start_ms = Value.num m.start_ms;
  end_ms = Value.num m.end_ms;
  duration_ms = Value.num (fl.sub m.end_ms m.start_ms);
  blocking = m.blocking;
  metadata = m.metadata;
}

-- `SSDRange.to_dict`
abbrev pub range_json : SsdRange → PlanRange
range_json r = record {
  layer_id = pos r.layer_id;
  block_id = pos r.block_id;
  offset = pos r.offset;
  size_bytes = pos r.size_bytes;
}

-- `SSDFileLayout.to_list`
abbrev pub layout_rows : SsdFileLayout → List PlanRange
layout_rows t =
    map range_json (sorted (λ p q. key_lt (range_key p) (range_key q)) (values t.ranges))

-- `MovementPlan.to_dict`
abbrev pub plan_json : {Fl : Type 0} ⦃fl : FloatOps Fl⦄ → MovementPlan Fl → PlanJson Fl
plan_json p = record { blocks = layout_rows p.layout; ops = map op_json p.ops }

pub record LlamaKvCommand (Fl : Type 0) : Type 0 where
  pub op : String
  pub layer_id : ℕ
  pub block_id : ℕ
  pub start_token : ℕ
  pub end_token : ℕ
  pub size_bytes : ℕ
  pub source : String
  pub target : String
  pub ssd_offset : ℕ
  pub blocking : Bool
  pub metadata : Metadata Fl

-- `op in MOVEMENT_COMMAND_OPS`
unfoldable pub is_command_op : String → Bool
is_command_op op =
    str_eq op "kv_load" || str_eq op "kv_prefetch" || str_eq op "kv_evict" || str_eq op "kv_compute"

-- `location in STORAGE_LOCATIONS`
unfoldable pub is_storage : String → Bool
is_storage s = str_eq s "ssd" || str_eq s "dram" || str_eq s "vram"

-- `op in {"kv_load", "kv_prefetch"}`
abbrev pub is_load : String → Bool
is_load op = str_eq op "kv_load" || str_eq op "kv_prefetch"

-- The checks of `LlamaKVCommand.__post_init__` on the names.
unfoldable pub check_places : String → String → String → Result (Unit {0})
unfolding is_storage
check_places op source target = do
  raise_if (str_eq op "kv_compute" && (not (str_eq source "vram") || not (str_eq target "vram")))
      (value_error "kv_compute commands must run on vram")
  raise_if (str_eq op "kv_evict" && not (str_eq target "ssd"))
      (value_error "kv_evict commands must target ssd")
  raise_if (is_load op && str_eq source target)
      (value_error "commands must move between different locations")
  ok tt

module _ {Fl : Type 0} where
  -- `metadata` of `_command_from_op`
  abbrev pub command_metadata : PlanOp Fl → Metadata Fl
  command_metadata o = put "movement_duration_ms" o.duration_ms (
      put "movement_end_ms" o.end_ms (
        put "movement_start_ms" o.start_ms (
          put "runtime_contract" (Value.text "solidattention.llama_cpp.kv_command.v1") o.metadata)))

  -- The arguments of the command that `_command_from_op` makes, once they are known to be valid.
  abbrev pub command_of : PlanOp Fl → LlamaKvCommand Fl
  command_of o = record {
    op = o.op;
    layer_id = pos_part o.layer_id;
    block_id = pos_part o.block_id;
    start_token = pos_part o.start_token;
    end_token = pos_part o.end_token;
    size_bytes = pos_part o.size_bytes;
    source = o.source;
    target = o.target;
    ssd_offset = pos_part o.ssd_offset;
    blocking = o.blocking;
    metadata = command_metadata o;
  }

  -- `_command_from_op`, with the checks of the constructor that it calls.
  unfoldable pub command_from_op : PlanOp Fl → Result (LlamaKvCommand Fl)
  unfolding is_command_op is_storage check_places
  command_from_op o = do
    raise_if (not (is_command_op o.op)) (value_error "unsupported command op")
    raise_if (ltb_ℤ o.layer_id (pos 0)) (value_error "layer_id must be non-negative")
    raise_if (ltb_ℤ o.block_id (pos 0)) (value_error "block_id must be non-negative")
    raise_if (ltb_ℤ o.start_token (pos 0)) (value_error "start_token must be non-negative")
    raise_if (leb_ℤ o.end_token o.start_token)
        (value_error "end_token must be greater than start_token")
    raise_if (leb_ℤ o.size_bytes (pos 0)) (value_error "size_bytes must be positive")
    raise_if (not (is_storage o.source)) (value_error "unsupported source location")
    raise_if (not (is_storage o.target)) (value_error "unsupported target location")
    raise_if (ltb_ℤ o.ssd_offset (pos 0)) (value_error "ssd_offset must be non-negative")
    check_places o.op o.source o.target
    ok (command_of o)

  -- `token_count`
  abbrev pub command_tokens : LlamaKvCommand Fl → ℕ
  command_tokens c = c.end_token - c.start_token

abbrev pub RowKey : Type 0
RowKey = ℤ × ℤ

unfoldable pub row_key_discrete : Discrete RowKey
row_key_discrete (a, b) (c, d) = elim (ℤ_discrete a c) [
  | yes p ↦ elim (ℤ_discrete b d) [
    | yes q ↦ yes (λ i. (p i, q i))
    | no n ↦ no (λ e. n (λ i. (e i).1))
  ]
  | no n ↦ no (λ e. n (λ i. (e i).0))
]

-- `p < q` of two keys, as tuples.
abbrev pub row_key_lt : RowKey → RowKey → Bool
row_key_lt (a, b) (c, d) = ltb_ℤ a c || (eqb_ℤ a c && ltb_ℤ b d)

abbrev pub row_key : PlanRange → RowKey
row_key r = (r.layer_id, r.block_id)

-- `_layout_ranges`, from the ranges of the rows before on.
unfoldable pub layout_ranges :
    Dict RowKey PlanRange → List PlanRange → Result (Dict RowKey PlanRange)
layout_ranges d [] = ok d
layout_ranges d (r ∷ rows) =
    raise_if (contains row_key_discrete (row_key r) d) (value_error "duplicate layout block")
    >> layout_ranges (set row_key_discrete (row_key r) r d) rows

module _ {Fl : Type 0} where
  -- The bytes of a command against the row of its block.
  unfoldable pub check_row : LlamaKvCommand Fl → PlanRange → Result (Unit {0})
  check_row c r = do
    raise_if (not (eqb_ℤ (pos c.ssd_offset) r.offset))
        (value_error "command SSD offset does not match layout")
    raise_if (not (eqb_ℤ (pos c.size_bytes) r.size_bytes))
        (value_error "command size does not match layout")
    ok tt

  -- The checks of `commands_from_movement_plan` on one command.
  unfoldable pub check_range : Dict RowKey PlanRange → LlamaKvCommand Fl → Result (Unit {0})
  unfolding check_row
  check_range d c = elim (get row_key_discrete (pos c.layer_id, pos c.block_id) d) [
    | none ↦ err (value_error "command references unknown layout block")
    | some r ↦ check_row c r
  ]

  -- The loop of `commands_from_movement_plan`.
  unfoldable pub command_loop :
      Dict RowKey PlanRange → List (PlanOp Fl) → Result (List (LlamaKvCommand Fl))
  command_loop d [] = ok []
  command_loop d (o ∷ ops) =
      let rest = command_loop d ops in
      command_from_op o >>= λ c. check_range d c >>= λ _. rest >>= λ cs. ok (c ∷ cs)

  -- `commands_from_movement_plan`
  unfoldable pub commands_from_movement_plan : PlanJson Fl → Result (List (LlamaKvCommand Fl))
  unfolding layout_ranges command_loop
  commands_from_movement_plan p = layout_ranges [] p.blocks >>= λ d. command_loop d p.ops
