-- ===== src/Intents.antt =====
-- integrations/llama_cpp/movement_intents.py: the events of a bridge trace as a movement plan. An
-- event has the fields that the code reads, with their types; Python's `str.strip` and `str.lower`
-- are a parameter, `lowered`, and what is written to files is left out.
pub mod Plan
pub mod Counts
use solid_attention.Base.{
  ℕ, ◌+◌, ◌==◌, String, str_eq, Bool, true, false, not, ◌&&◌, ◌||◌, Option, none, some, List, [],
  ◌∷◌, ◌++◌, Result, ok, err, value_error, ◌>>=◌, ◌>>◌, raise_if, if◌then◌else◌, length,
}
use solid_attention.Base.Int.{ℤ, pos, pos_part, ltb_ℤ, leb_ℤ, eqb_ℤ, ◌+ℤ◌, ◌-ℤ◌}
use solid_attention.Base.Dict.{Dict, get, set, values}
use solid_attention.Base.Sort.{sorted}
use solid_attention.Base.Texts.{string_discrete, str_lt}
use solid_attention.Float.{FloatOps}
use solid_attention.Block.{Value, Metadata}
use solid_attention.MovementPlan.{truth}
use solid_attention.Residency.{put}
use solid_attention.Commands.{
  PlanOp, PlanRange, RowKey, row_key, row_key_lt, row_key_discrete, is_load,
}

-- One event of the trace; `metadata` is the whole dictionary, with the fields before it in it.
pub record IntentEvent (Fl : Type 0) : Type 0 where
  pub op : String
  pub layer_id : ℤ
  pub block_id : ℤ
  pub start_token : ℤ
  pub end_token : ℤ
  pub movement_intent : Option (Value Fl)
  pub command_op : String
  pub command_source : String
  pub command_target : String
  pub command_size_bytes : ℤ
  pub ssd_offset : Option ℤ
  pub command_start_token : Option ℤ
  pub command_end_token : Option ℤ
  pub blocking : Option (Value Fl)
  pub intent_kind : Option String
  pub metadata : Metadata Fl

-- `infer_intent_kind`
unfoldable pub infer_intent_kind : String → String → String → String
infer_intent_kind command_op source target =
    if is_load command_op && str_eq source "ssd" && str_eq target "dram"
    then "ssd_read"
    else if is_load command_op && str_eq source "dram" && str_eq target "vram"
    then "dram_to_vram"
    else if str_eq command_op "kv_compute"
    then "compute"
    else if str_eq command_op "kv_evict" && str_eq target "ssd"
    then "ssd_write"
    else "metadata"

-- `mapping.get(name, default)`
abbrev pub or_default : {A : Type 0} → A → Option A → A
or_default default none = default
or_default default (some a) = a

-- `lowered in {"1", "true", "yes", "y"}`
abbrev pub is_yes : String → Bool
is_yes s = str_eq s "1" || str_eq s "true" || str_eq s "yes" || str_eq s "y"

-- `lowered in {"0", "false", "no", "n", ""}`
abbrev pub is_no : String → Bool
is_no s = str_eq s "0" || str_eq s "false" || str_eq s "no" || str_eq s "n" || str_eq s ""

-- The row that `_upsert_layout_range` makes of an operation; its end is `row_end`.
abbrev pub row_of : {Fl : Type 0} → PlanOp Fl → PlanRange
row_of o = record {
  layer_id = o.layer_id;
  block_id = o.block_id;
  offset = o.ssd_offset;
  size_bytes = o.size_bytes;
}

abbrev pub row_end : PlanRange → ℤ
row_end r = r.offset +ℤ r.size_bytes

-- `_upsert_layout_range`
unfoldable pub upsert_layout_range :
    PlanRange → Dict RowKey PlanRange → Result (Dict RowKey PlanRange)
upsert_layout_range r d = elim (get row_key_discrete (row_key r) d) [
  | none ↦ ok (set row_key_discrete (row_key r) r d)
  | some e ↦
      raise_if (not (eqb_ℤ e.offset r.offset) || not (eqb_ℤ e.size_bytes r.size_bytes))
        (value_error "conflicting SSD range for movement intent block")
      >> ok d
]

-- `max(item["end_offset"] for item in blocks)`, from the first one on.
abbrev pub max_row_end : ℤ → List PlanRange → ℤ
max_row_end m [] = m
max_row_end m (r ∷ rows) = max_row_end (if ltb_ℤ m (row_end r) then row_end r else m) rows

-- `blocks` of `_layout_payload`
abbrev pub layout_blocks : Dict RowKey PlanRange → List PlanRange
layout_blocks d = sorted (λ p q. row_key_lt (row_key p) (row_key q)) (values d)

-- `total_size_bytes` of `_layout_payload`
abbrev pub blocks_size : ℤ → List PlanRange → ℤ
blocks_size base_offset [] = pos 0
blocks_size base_offset (r ∷ rows) = max_row_end (row_end r) rows -ℤ base_offset

-- The plan that is written.
pub record IntentPlan (Fl : Type 0) : Type 0 where
  pub base_offset : ℤ
  pub alignment : ℤ
  pub total_size_bytes : ℤ
  pub blocks : List PlanRange
  pub ops : List (PlanOp Fl)

-- The local variables of the loop over the events.
pub record Exporting (Fl : Type 0) : Type 0 where
  pub ops : List (PlanOp Fl)
  pub layout_ranges : Dict RowKey PlanRange
  pub skipped : ℕ

module _ {Fl : Type 0} ⦃fl : FloatOps Fl⦄ (lowered : String → String) where
  -- `_as_bool`
  unfoldable pub as_bool : Value Fl → Bool
  unfolding truth
  as_bool (Value.flag b) = b
  as_bool (Value.text s) =
      if is_yes (lowered s) then true else if is_no (lowered s) then false else not (str_eq s "")
  as_bool v = truth v

  -- The operation of `_movement_op_from_event`, for an offset that is there.
  abbrev pub intent_op : ℕ → IntentEvent Fl → ℤ → PlanOp Fl
  intent_op index e ssd_offset =
      let kind =
        or_default (infer_intent_kind e.command_op e.command_source e.command_target)
          e.intent_kind in
      record {
        op = e.command_op;
        layer_id = e.layer_id;
        block_id = e.block_id;
        start_token = or_default e.start_token e.command_start_token;
        end_token = or_default e.end_token e.command_end_token;
        size_bytes = e.command_size_bytes;
        source = e.command_source;
        target = e.command_target;
        ssd_offset = ssd_offset;
        start_ms = Value.num (fl.of_nat index);
        end_ms = Value.num (fl.of_nat index);
        duration_ms = Value.num fl.zero;
        blocking = as_bool (or_default (Value.flag false) e.blocking);
        metadata =
            put "movement_intent_contract"
              (Value.text "solidattention.llama_cpp.movement_intent_plan.v1")
              (put "intent_kind" (Value.text kind) (
                put "bridge_trace_op" (Value.text e.op)
                  (put "bridge_event_index" (Value.int (pos index)) e.metadata)));
      }

  -- `_movement_op_from_event`
  unfoldable pub movement_op_from_event : ℕ → IntentEvent Fl → Result (PlanOp Fl)
  movement_op_from_event index e = elim e.ssd_offset [
    | none ↦ err (value_error "bridge movement intent missing metadata fields")
    | some offset ↦
        let o = intent_op index e offset in
        raise_if (leb_ℤ o.size_bytes (pos 0)) (value_error "command_size_bytes must be positive")
        >> (raise_if (ltb_ℤ offset (pos 0)) (value_error "ssd_offset must be non-negative")
            >> (raise_if (leb_ℤ o.end_token o.start_token)
                  (value_error "movement intent end_token must be greater than start_token")
                >> ok o))
  ]

  -- The loop of `export_movement_intent_plan`, from the number of an event on.
  unfoldable pub export_loop : ℕ → List (IntentEvent Fl) → Exporting Fl → Result (Exporting Fl)
  unfolding movement_op_from_event upsert_layout_range as_bool
  export_loop index [] s = ok s
  export_loop index (e ∷ events) s =
      if as_bool (or_default (Value.flag true) e.movement_intent)
      then (movement_op_from_event index e >>= λ o.
          upsert_layout_range (row_of o) s.layout_ranges >>= λ ranges.
          export_loop (index + 1) events
            (record s { ops = s.ops ++ o ∷ []; layout_ranges = ranges }))
      else export_loop (index + 1) events (record s { skipped = s.skipped + 1 })

  -- `export_movement_intent_plan`: the plan and the number of events that are skipped.
  unfoldable pub export_movement_intent_plan :
      List (IntentEvent Fl) → ℤ → ℤ → Result (IntentPlan Fl × ℕ)
  unfolding export_loop
  export_movement_intent_plan events base_offset alignment = do
    raise_if (ltb_ℤ base_offset (pos 0)) (value_error "base_offset must be non-negative")
    raise_if (leb_ℤ alignment (pos 0)) (value_error "alignment must be positive")
    s ← export_loop 0 events (record { ops = []; layout_ranges = []; skipped = 0 })
    let blocks = layout_blocks s.layout_ranges
    ok (
      record {
        base_offset = base_offset;
        alignment = alignment;
        total_size_bytes = blocks_size base_offset blocks;
        blocks = blocks;
        ops = s.ops;
      },
      s.skipped,
    )
