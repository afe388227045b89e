-- ===== src/Metrics.antt =====
-- harness/metrics.py: the collector of the fixed metrics. Counts and sizes are never negative.
use solid_attention.Base.{ℕ, ◌+◌, ◌==◌, if◌then◌else◌}
use solid_attention.Float.{FloatOps}

-- The ten fields of the collector; an increment of `add` has the same shape.
pub record Metrics (Fl : Type 0) : Type 0 where
  pub total_latency_ms : Fl
  pub gpu_wait_time_ms : Fl
  pub load_blocking_latency_ms : Fl
  pub ssd_read_bytes : ℕ
  pub ssd_write_bytes : ℕ
  pub io_op_count : ℕ
  pub selected_block_count : ℕ
  pub prefetch_hit_count : ℕ
  pub prefetch_miss_count : ℕ
  pub wrong_prefetch_count : ℕ

module _ {Fl : Type 0} ⦃fl : FloatOps Fl⦄ where
  -- The default of every argument of `add`, and the state of a new collector.
  abbrev pub no_metrics : Metrics Fl
  no_metrics = record {
    total_latency_ms = fl.zero;
    gpu_wait_time_ms = fl.zero;
    load_blocking_latency_ms = fl.zero;
    ssd_read_bytes = 0;
    ssd_write_bytes = 0;
    io_op_count = 0;
    selected_block_count = 0;
    prefetch_hit_count = 0;
    prefetch_miss_count = 0;
    wrong_prefetch_count = 0;
  }

  unfoldable pub add : Metrics Fl → Metrics Fl → Metrics Fl
  add m d = record {
    total_latency_ms = fl.add m.total_latency_ms d.total_latency_ms;
    gpu_wait_time_ms = fl.add m.gpu_wait_time_ms d.gpu_wait_time_ms;
    load_blocking_latency_ms = fl.add m.load_blocking_latency_ms d.load_blocking_latency_ms;
    ssd_read_bytes = m.ssd_read_bytes + d.ssd_read_bytes;
    ssd_write_bytes = m.ssd_write_bytes + d.ssd_write_bytes;
    io_op_count = m.io_op_count + d.io_op_count;
    selected_block_count = m.selected_block_count + d.selected_block_count;
    prefetch_hit_count = m.prefetch_hit_count + d.prefetch_hit_count;
    prefetch_miss_count = m.prefetch_miss_count + d.prefetch_miss_count;
    wrong_prefetch_count = m.wrong_prefetch_count + d.wrong_prefetch_count;
  }

  abbrev pub prefetch_attempt_count : Metrics Fl → ℕ
  prefetch_attempt_count m = m.prefetch_hit_count + m.prefetch_miss_count

  -- `_rate`
  unfoldable pub rate : ℕ → ℕ → Fl
  rate count total = if total == 0 then fl.zero else fl.div (fl.of_nat count) (fl.of_nat total)

  abbrev pub prefetch_hit_rate : Metrics Fl → Fl
  prefetch_hit_rate m = rate m.prefetch_hit_count (prefetch_attempt_count m)

  abbrev pub prefetch_miss_rate : Metrics Fl → Fl
  prefetch_miss_rate m = rate m.prefetch_miss_count (prefetch_attempt_count m)

  abbrev pub wrong_prefetch_rate : Metrics Fl → Fl
  wrong_prefetch_rate m = rate m.wrong_prefetch_count (prefetch_attempt_count m)
