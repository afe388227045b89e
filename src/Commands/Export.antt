-- ===== src/Commands/Export.antt =====
-- integrations/llama_cpp/runtime_commands.py: `_summarize_commands`, the counts of an export.
use solid_attention.Base.{
  ℕ, ◌+◌, ◌==◌, str_eq, String, Bool, not, ◌&&◌, Option, none, some, List, [], ◌∷◌, Result, ok, err,
  key_error, ◌>>=◌, length, filter_by, sum_by,
}
use solid_attention.Base.Dict.{Dict, get, set}
use solid_attention.Base.Texts.{string_discrete}
use solid_attention.Commands.{LlamaKvCommand, is_load}

pub record RuntimeCommandExport : Type 0 where
  pub plan_path : String
  pub command_count : ℕ
  pub command_counts_by_op : Dict String ℕ
  pub ssd_read_command_count : ℕ
  pub ssd_write_command_count : ℕ
  pub ssd_read_bytes : ℕ
  pub ssd_write_bytes : ℕ
  pub jsonl_path : Option String
  pub summary_path : Option String

-- `{op: 0 for op in sorted(MOVEMENT_COMMAND_OPS)}`
abbrev pub no_counts : Dict String ℕ
no_counts = ("kv_compute", 0) ∷ ("kv_evict", 0) ∷ ("kv_load", 0) ∷ ("kv_prefetch", 0) ∷ []

module _ {Fl : Type 0} where
  -- `for command in commands: counts[command.op] += 1`
  unfoldable pub count_loop : Dict String ℕ → List (LlamaKvCommand Fl) → Result (Dict String ℕ)
  count_loop d [] = ok d
  count_loop d (c ∷ cs) = elim (get string_discrete c.op d) [
    | none ↦ err (key_error "counts")
    | some n ↦ count_loop (set string_discrete c.op (n + 1) d) cs
  ]

  abbrev pub is_ssd_read : LlamaKvCommand Fl → Bool
  is_ssd_read c = is_load c.op && str_eq c.source "ssd"

  abbrev pub is_ssd_write : LlamaKvCommand Fl → Bool
  is_ssd_write c = str_eq c.op "kv_evict" && str_eq c.target "ssd"

  -- The record that `_summarize_commands` returns, from the counts.
  abbrev pub export_of :
      String
      → List (LlamaKvCommand Fl)
      → Option String
      → Option String
      → Dict String ℕ
      → RuntimeCommandExport
  export_of plan_path commands jsonl_path summary_path counts =
      let ssd_reads = filter_by is_ssd_read commands in
      let ssd_writes = filter_by is_ssd_write commands in
      record {
        plan_path = plan_path;
        command_count = length commands;
        command_counts_by_op = filter_by (λ e. not (e.1 == 0)) counts;
        ssd_read_command_count = length ssd_reads;
        ssd_write_command_count = length ssd_writes;
        ssd_read_bytes = sum_by (λ c. c.size_bytes) ssd_reads;
        ssd_write_bytes = sum_by (λ c. c.size_bytes) ssd_writes;
        jsonl_path = jsonl_path;
        summary_path = summary_path;
      }

  -- `_summarize_commands`
  unfoldable pub summarize_commands :
      String
      → List (LlamaKvCommand Fl)
      → Option String
      → Option String
      → Result RuntimeCommandExport
  unfolding count_loop
  summarize_commands plan_path commands jsonl_path summary_path =
      count_loop no_counts commands >>= λ counts.
      ok (export_of plan_path commands jsonl_path summary_path counts)
