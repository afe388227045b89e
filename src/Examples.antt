-- ===== src/Examples.antt =====
-- Concrete inputs for the tests and the instances of the theorems: whole milliseconds in place of
-- Python's floats, and a store with one block on the SSD and one in DRAM.
mod Tables
mod Layouts
mod Runs
mod Choices
mod Commands
mod Ranges
mod Plans
use solid_attention.Base.{
  ℕ, ◌+◌, ◌-◌, ◌*◌, ◌/◌, ◌==◌, ltb, false, ◌≡◌, arith, none, some, [], ◌∷◌, if◌then◌else◌,
}
use solid_attention.Float.{FloatOps, FloatLaws, FloatOrder}
use solid_attention.Block.{BlockLocation, BlockRole, KvBlock}
use solid_attention.Metrics.{no_metrics}
use solid_attention.World.{World}
use solid_attention.Scheduler.{SchedulerConfig}

instance abbrev pub whole_ms : FloatOps ℕ
whole_ms = record {
  zero = 0;
  of_nat = λ n. n;
  add = λ a b. a + b;
  sub = λ a b. a - b;
  mul = λ a b. a * b;
  div = λ a b. a / b;
  neg = λ a. 0;
  sqrt = λ a. a;
  lt = ltb;
  eq = λ a b. a == b;
}

pub whole_ms-laws : FloatLaws whole_ms
whole_ms-laws = record { lt_irrefl = λ a. ground arith; add_grows = λ a b h. ground arith }

pub whole_ms-order : FloatOrder whole_ms
whole_ms-order = record { lt_asym = λ a b h. ground arith; eq_sym = λ a b. ground arith }

abbrev pub ssd_block : KvBlock ℕ
ssd_block = record {
  block_id = 0;
  layer_id = 0;
  start_token = 0;
  end_token = 4;
  size_bytes = 96;
  location = BlockLocation.ssd;
  role = BlockRole.current;
  representative = none;
  metadata = [];
  interval = record { start_token = 0; end_token = 4 };
}

abbrev pub dram_block : KvBlock ℕ
dram_block = record ssd_block {
  block_id = 1;
  start_token = 4;
  end_token = 6;
  size_bytes = 50;
  location = BlockLocation.dram;
  interval = record { start_token = 4; end_token = 6 };
}

-- Reference 0 is the block on the SSD, reference 1 the one in DRAM.
abbrev pub small_world : World ℕ
small_world = record {
  heap = λ q. if q == 0 then ssd_block else dram_block;
  blocks = ((0, 0), 0) ∷ ((0, 1), 1) ∷ [];
  trace = some [];
  metrics = some no_metrics;
}

-- The same, but reference 0 is a copy of the block that the store holds as reference 2.
abbrev pub stale_world : World ℕ
stale_world = record small_world {
  heap = λ q. if q == 1 then dram_block else ssd_block;
  blocks = ((0, 0), 2) ∷ ((0, 1), 1) ∷ [];
}

abbrev pub vram_config : SchedulerConfig ℕ
vram_config = record {
  ssd_read_latency_ms = 10;
  dram_to_vram_latency_ms = 2;
  compute_latency_ms = 1;
  compute_location = BlockLocation.vram;
}

abbrev pub dram_config : SchedulerConfig ℕ
dram_config = record vram_config { compute_location = BlockLocation.dram }
