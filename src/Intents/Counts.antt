-- ===== src/Intents/Counts.antt =====
-- integrations/llama_cpp/movement_intents.py: `_summarize_export`, the counters over the operations
-- of an exported plan, and how they add up. Python's `str` of a metadata value is `show`.
use solid_attention.Base.{
  ℕ, ◌+◌, ◌≡◌, refl, String, str_eq, ◌&&◌, ◌||◌, Option, Option-cases, inl, inr, List, [], ◌∷◌,
  arith, ◌∙◌, ap, length, sum_by, sum_by-append, suc, subst, if◌then◌else◌,
}
use solid_attention.Base.Int.{ℤ, pos, ◌+ℤ◌}
use solid_attention.Base.Dict.{Dict, get, set, values, set_absent, sum_by-set}
use solid_attention.Base.Sort.{sorted, sorted-sum_by}
use solid_attention.Base.Texts.{string_discrete, str_lt}
use solid_attention.Float.{FloatOps}
use solid_attention.Block.{Value}
use solid_attention.MovementPlan.{text_or}
use solid_attention.Commands.{PlanOp, is_load}
use solid_attention.Intents.{IntentPlan, infer_intent_kind, or_default}

-- The local variables of the loop.
pub record IntentCounts : Type 0 where
  pub command_counts : Dict String ℕ
  pub intent_counts : Dict String ℕ
  pub intent_bytes : Dict String ℤ
  pub blocking_count : ℕ
  pub nonblocking_count : ℕ
  pub ssd_read_count : ℕ
  pub ssd_write_count : ℕ
  pub ssd_read_bytes : ℤ
  pub ssd_write_bytes : ℤ

pub record MovementIntentPlanExport : Type 0 where
  pub trace_path : String
  pub movement_intent_count : ℕ
  pub skipped_non_intent_count : ℕ
  pub command_counts_by_op : Dict String ℕ
  pub intent_counts_by_kind : Dict String ℕ
  pub intent_bytes_by_kind : Dict String ℤ
  pub blocking_movement_intent_count : ℕ
  pub nonblocking_movement_intent_count : ℕ
  pub ssd_read_intent_count : ℕ
  pub ssd_read_bytes : ℤ
  pub ssd_write_intent_count : ℕ
  pub ssd_write_bytes : ℤ
  pub unique_block_count : ℕ
  pub total_size_bytes : ℤ
  pub plan_path : Option String
  pub summary_path : Option String

-- `counts[name] = counts.get(name, 0) + 1`
abbrev pub bump : String → Dict String ℕ → Dict String ℕ
bump name d = set string_discrete name (or_default 0 (get string_discrete name d) + 1) d

-- `sizes[name] = sizes.get(name, 0) + size`
abbrev pub enlarge : String → ℤ → Dict String ℤ → Dict String ℤ
enlarge name size d =
    set string_discrete name (or_default (pos 0) (get string_discrete name d) +ℤ size) d

-- `dict(sorted(d.items()))`
abbrev pub by_name {ℓ} : {A : Type ℓ} → Dict String A → Dict String A
by_name = sorted (λ p q. str_lt p.0 q.0)

-- The counters at the start of the loop.
abbrev pub no_intents : IntentCounts
no_intents = record {
  command_counts = [];
  intent_counts = [];
  intent_bytes = [];
  blocking_count = 0;
  nonblocking_count = 0;
  ssd_read_count = 0;
  ssd_write_count = 0;
  ssd_read_bytes = pos 0;
  ssd_write_bytes = pos 0;
}

module _ {Fl : Type 0} ⦃fl : FloatOps Fl⦄ (show : Value Fl → String) where
  -- The body of the loop over the operations.
  unfoldable pub count_op : PlanOp Fl → IntentCounts → IntentCounts
  unfolding text_or
  count_op o c =
      let kind = text_or show "intent_kind" (infer_intent_kind o.op o.source o.target) o.metadata in
      let reads = str_eq kind "ssd_read" || (is_load o.op && str_eq o.source "ssd") in
      let writes = str_eq kind "ssd_write" || (str_eq o.op "kv_evict" && str_eq o.target "ssd") in
      record {
        command_counts = bump o.op c.command_counts;
        intent_counts = bump kind c.intent_counts;
        intent_bytes = enlarge kind o.size_bytes c.intent_bytes;
        blocking_count = if o.blocking then c.blocking_count + 1 else c.blocking_count;
        nonblocking_count = if o.blocking then c.nonblocking_count else c.nonblocking_count + 1;
        ssd_read_count = if reads then c.ssd_read_count + 1 else c.ssd_read_count;
        ssd_write_count = if writes then c.ssd_write_count + 1 else c.ssd_write_count;
        ssd_read_bytes = if reads then c.ssd_read_bytes +ℤ o.size_bytes else c.ssd_read_bytes;
        ssd_write_bytes = if writes then c.ssd_write_bytes +ℤ o.size_bytes else c.ssd_write_bytes;
      }

  unfoldable pub intent_count_loop : List (PlanOp Fl) → IntentCounts → IntentCounts
  unfolding count_op
  intent_count_loop [] c = c
  intent_count_loop (o ∷ ops) c = intent_count_loop ops (count_op o c)

  -- `_summarize_export`
  unfoldable pub summarize_export :
      String → IntentPlan Fl → ℕ → Option String → Option String → MovementIntentPlanExport
  unfolding intent_count_loop
  summarize_export trace_path p skipped plan_path summary_path =
      let c = intent_count_loop p.ops no_intents in
      record {
        trace_path = trace_path;
        movement_intent_count = length p.ops;
        skipped_non_intent_count = skipped;
        command_counts_by_op = by_name c.command_counts;
        intent_counts_by_kind = by_name c.intent_counts;
        intent_bytes_by_kind = by_name c.intent_bytes;
        blocking_movement_intent_count = c.blocking_count;
        nonblocking_movement_intent_count = c.nonblocking_count;
        ssd_read_intent_count = c.ssd_read_count;
        ssd_read_bytes = c.ssd_read_bytes;
        ssd_write_intent_count = c.ssd_write_count;
        ssd_write_bytes = c.ssd_write_bytes;
        unique_block_count = length p.blocks;
        total_size_bytes = p.total_size_bytes;
        plan_path = plan_path;
        summary_path = summary_path;
      }

-- The counts of a dictionary together.
abbrev pub total_count : Dict String ℕ → ℕ
total_count = sum_by (λ e. e.1)

total-values : (d : Dict String ℕ) → total_count d ≡ sum_by (λ n. n) (values d)
total-values [] = refl
total-values ((s, n) ∷ d) = ap (λ x. n + x) (total-values d)

bump-total : (name : String) (d : Dict String ℕ) → total_count (bump name d) ≡ total_count d + 1
bump-total name d = elim (Option-cases (get string_discrete name d)) [
  | inl new ↦ rw new (
      ap total_count (set_absent string_discrete name (0 + 1) d new)
      ∙ sum_by-append (λ e. e.1) d ((name, 0 + 1) ∷ [])
      ∙ omega arith)
  | inr (n, old) ↦ rw old (
      omega (
        arith,
        sum_by-set string_discrete (λ x. x) name (n + 1) d n old,
        total-values d,
        total-values (set string_discrete name (n + 1) d),
      ))
]

-- Each operation is counted once under its name, once under its kind, and once as blocking or not.
record CountsAll (n : ℕ) (c : IntentCounts) : Type 0 where
  pub commands : total_count c.command_counts ≡ n
  pub intents : total_count c.intent_counts ≡ n
  pub blocking : c.blocking_count + c.nonblocking_count ≡ n

module _ {Fl : Type 0} ⦃fl : FloatOps Fl⦄ (show : Value Fl → String) where
  count_op-CountsAll :
      (n : ℕ) (o : PlanOp Fl) (c : IntentCounts)
      → CountsAll n c
      → CountsAll (n + 1) (count_op show o c)
  unfolding count_op
  count_op-CountsAll n o c h = record {
    commands = bump-total o.op c.command_counts ∙ ap (λ x. x + 1) h.commands;
    intents = bump-total _ c.intent_counts ∙ ap (λ x. x + 1) h.intents;
    blocking = let before = h.blocking in ground arith;
  }

  loop-CountsAll :
      (n : ℕ) (ops : List (PlanOp Fl)) (c : IntentCounts)
      → CountsAll n c
      → CountsAll (n + length ops) (intent_count_loop show ops c)
  unfolding intent_count_loop
  loop-CountsAll n [] c h = let end : n ≡ n + 0 = omega arith in subst (λ m. CountsAll m c) end h
  loop-CountsAll n (o ∷ ops) c h =
      let count : n + 1 + length ops ≡ n + suc (length ops) = omega arith in
      subst (λ m. CountsAll m (intent_count_loop show ops (count_op show o c))) count
        (loop-CountsAll (n + 1) ops (count_op show o c) (count_op-CountsAll n o c h))

  -- In the summary of a plan the counts by name, the counts by kind, and the blocking and
  -- nonblocking counts each add up to the number of operations.
  pub summarize_export_totals :
      (trace_path : String) (p : IntentPlan Fl) (skipped : ℕ)
      (plan_path summary_path : Option String)
      → let e = summarize_export show trace_path p skipped plan_path summary_path in
        (total_count e.command_counts_by_op ≡ length p.ops)
        × (total_count e.intent_counts_by_kind ≡ length p.ops)
        × (e.blocking_movement_intent_count + e.nonblocking_movement_intent_count ≡ length p.ops)
  unfolding summarize_export
  summarize_export_totals trace_path p skipped plan_path summary_path =
      let c =
        loop-CountsAll 0 p.ops no_intents
          (record { commands = refl; intents = refl; blocking = refl }) in
      (
        sorted-sum_by _ (λ e. e.1) _ ∙ c.commands ∙ from_none,
        sorted-sum_by _ (λ e. e.1) _ ∙ c.intents ∙ from_none,
        c.blocking ∙ from_none,
      )
    where
      from_none : 0 + length p.ops ≡ length p.ops
      from_none = omega arith
