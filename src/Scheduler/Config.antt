-- ===== src/Scheduler/Config.antt =====
-- core/scheduler.py: `SchedulerConfig`, `ScheduleOp` and the events of the three operations.
use solid_attention.Base.{
  String, true, false, [], ◌∷◌, Result, ok, value_error, ◌>>=◌, ◌>>◌, raise_if,
}
use solid_attention.Base.Int.{pos}
use solid_attention.Float.{FloatOps}
use solid_attention.Block.{BlockLocation, location_value, block_location, Value, KvBlock}
use solid_attention.Metrics.{Metrics, no_metrics}
use solid_attention.Trace.{TraceEvent}

pub record SchedulerConfig (Fl : Type 0) : Type 0 where
  pub ssd_read_latency_ms : Fl
  pub dram_to_vram_latency_ms : Fl
  pub compute_latency_ms : Fl
  pub compute_location : BlockLocation

-- A `ScheduleOp` has the fields of a trace event.
abbrev pub ScheduleOp : Type 0 → Type 0
ScheduleOp = TraceEvent

module _ {Fl : Type 0} ⦃fl : FloatOps Fl⦄ where
  -- `SchedulerConfig(...)`
  unfoldable pub scheduler_config : Fl → Fl → Fl → String → Result (SchedulerConfig Fl)
  scheduler_config ssd_read dram_to_vram compute location = do
    l ← block_location location
    raise_if (fl.lt ssd_read fl.zero) (value_error "ssd_read_latency_ms must be non-negative")
    raise_if (fl.lt dram_to_vram fl.zero)
        (value_error "dram_to_vram_latency_ms must be non-negative")
    raise_if (fl.lt compute fl.zero) (value_error "compute_latency_ms must be non-negative")
    ok (record {
      ssd_read_latency_ms = ssd_read;
      dram_to_vram_latency_ms = dram_to_vram;
      compute_latency_ms = compute;
      compute_location = l;
    })

  module _ (cfg : SchedulerConfig Fl) where
    -- The operation that `_schedule_ssd_read` makes of the block.
    abbrev pub ssd_read_op : KvBlock Fl → Fl → ScheduleOp Fl
    ssd_read_op b start_ms = record {
      op = "schedule_ssd_read";
      layer_id = b.layer_id;
      block_id = b.block_id;
      device = "ssd";
      start_ms = start_ms;
      end_ms = fl.add start_ms cfg.ssd_read_latency_ms;
      metadata =
          ("from_location", Value.text "ssd")
          ∷ ("to_location", Value.text "dram")
          ∷ ("blocking", Value.flag true)
          ∷ ("size_bytes", Value.int (pos b.size_bytes))
          ∷ [];
    }

    -- The increments that `_schedule_ssd_read` adds to the metrics.
    abbrev pub ssd_read_metrics : KvBlock Fl → Metrics Fl
    ssd_read_metrics b = record no_metrics {
      total_latency_ms = cfg.ssd_read_latency_ms;
      gpu_wait_time_ms = cfg.ssd_read_latency_ms;
      load_blocking_latency_ms = cfg.ssd_read_latency_ms;
      ssd_read_bytes = b.size_bytes;
      io_op_count = 1;
    }

    -- The operation that `_schedule_dram_to_vram` makes; `before` is where the block was.
    abbrev pub dram_to_vram_op : BlockLocation → KvBlock Fl → Fl → ScheduleOp Fl
    dram_to_vram_op before b start_ms = record {
      op = "schedule_dram_to_vram";
      layer_id = b.layer_id;
      block_id = b.block_id;
      device = "dram";
      start_ms = start_ms;
      end_ms = fl.add start_ms cfg.dram_to_vram_latency_ms;
      metadata =
          ("from_location", Value.text (location_value before))
          ∷ ("to_location", Value.text "vram")
          ∷ ("blocking", Value.flag true)
          ∷ ("size_bytes", Value.int (pos b.size_bytes))
          ∷ [];
    }

    abbrev pub dram_to_vram_metrics : Metrics Fl
    dram_to_vram_metrics = record no_metrics {
      total_latency_ms = cfg.dram_to_vram_latency_ms;
      gpu_wait_time_ms = cfg.dram_to_vram_latency_ms;
      load_blocking_latency_ms = cfg.dram_to_vram_latency_ms;
    }

    -- The operation that `_schedule_compute` makes of the block.
    abbrev pub compute_op : KvBlock Fl → Fl → ScheduleOp Fl
    compute_op b start_ms = record {
      op = "schedule_compute";
      layer_id = b.layer_id;
      block_id = b.block_id;
      device = location_value cfg.compute_location;
      start_ms = start_ms;
      end_ms = fl.add start_ms cfg.compute_latency_ms;
      metadata =
          ("location", Value.text (location_value b.location))
          ∷ ("blocking", Value.flag false)
          ∷ ("simulated_attention", Value.flag false)
          ∷ [];
    }

    abbrev pub compute_metrics : Metrics Fl
    compute_metrics = record no_metrics { total_latency_ms = cfg.compute_latency_ms }
