-- ===== src/Scheduler/Reads.antt =====
-- core/scheduler.py: what a schedule adds to the metrics.
use solid_attention.Base.{
  ℕ, ◌+◌, ◌≡◌, refl, ◌≢◌, some, List, [], ◌∷◌, arith, ◌∙◌, ap, sym, All, AllPairs, AllPairs-imp,
  sum_by, sum_by-append, if◌then◌else◌,
}
use mathlib.Core.Path.{ap₂}
use solid_attention.Base.Unique.{dedupe-distinct}
use solid_attention.Float.{FloatOps, FloatLaws}
use solid_attention.Block.{ssd, vram, same_location, KvBlock, key, key_discrete, move_to}
use solid_attention.Metrics.{Metrics, add}
use solid_attention.World.{Ref, World, update}
use solid_attention.World.Effects.{charged, update_ne}
use solid_attention.Scheduler.{SchedulerConfig, schedule}
use solid_attention.Store.Placed.{unique}
use solid_attention.Store.Held.{Stored}
use solid_attention.Scheduler.Steps.{IsConfig}
use solid_attention.Scheduler.Resident.{block_metrics}
use solid_attention.Scheduler.Timeline.{loop_metrics, schedule_lem}

module _ {Fl : Type 0} where
  -- What a block adds to the bytes read from the SSD, and to the I/O operations.
  abbrev pub read_bytes : KvBlock Fl → ℕ
  read_bytes b = if same_location b.location ssd then b.size_bytes else 0

  abbrev pub read_count : KvBlock Fl → ℕ
  read_count b = if same_location b.location ssd then 1 else 0

  sum_by-elsewhere :
      (f : KvBlock Fl → ℕ) (r : Ref) (b : KvBlock Fl) (h : Ref → KvBlock Fl) (rs : List Ref)
      → All (λ q. r ≢ q) rs
      → sum_by (λ q. f (update r b h q)) rs ≡ sum_by (λ q. f (h q)) rs
  sum_by-elsewhere f r b h [] n = refl
  sum_by-elsewhere f r b h (q ∷ rs) n =
      ap₂ (λ x y. f x + y) (update_ne r q b h (λ e. n.0 (sym e))) (sum_by-elsewhere f r b h rs n.1)

module _ {Fl : Type 0} ⦃fl : FloatOps Fl⦄ (cfg : SchedulerConfig Fl) where
  block_metrics-reads :
      (b : KvBlock Fl)
      → (sum_by (λ d. d.ssd_read_bytes) (block_metrics cfg b.location b) ≡ read_bytes b)
        × (sum_by (λ d. d.io_op_count) (block_metrics cfg b.location b) ≡ read_count b)
  block_metrics-reads b = ground arith

  loop_metrics-reads :
      (rs : List Ref) (h : Ref → KvBlock Fl)
      → AllPairs (λ p q. p ≢ q) rs
      → (sum_by (λ d. d.ssd_read_bytes) (loop_metrics cfg rs h) ≡ sum_by (λ r. read_bytes (h r)) rs)
        × (sum_by (λ d. d.io_op_count) (loop_metrics cfg rs h) ≡ sum_by (λ r. read_count (h r)) rs)
  loop_metrics-reads [] h d = (refl, refl)
  loop_metrics-reads (r ∷ rs) h d =
      let h' = update r (move_to vram (h r)) h in
      let ds = block_metrics cfg (h r).location (h r) in
      omega (
        arith,
        sum_by-append (λ d. d.ssd_read_bytes) ds (loop_metrics cfg rs h'),
        sum_by-append (λ d. d.io_op_count) ds (loop_metrics cfg rs h'),
        block_metrics-reads (h r),
        loop_metrics-reads rs h' d.1,
        sum_by-elsewhere read_bytes r (move_to vram (h r)) h rs d.0,
        sum_by-elsewhere read_count r (move_to vram (h r)) h rs d.0,
      )

module _ {Fl : Type 0} ⦃fl : FloatOps Fl⦄ where
  charged-reads :
      (ds : List (Metrics Fl)) (m : Metrics Fl)
      → (m' : Metrics Fl) × (charged ds (some m) ≡ some m')
        × (m'.ssd_read_bytes ≡ m.ssd_read_bytes + sum_by (λ d. d.ssd_read_bytes) ds)
        × (m'.io_op_count ≡ m.io_op_count + sum_by (λ d. d.io_op_count) ds)
  unfolding add
  charged-reads [] m = (m, refl, omega arith, omega arith)
  charged-reads (d ∷ ds) m =
      let (m', e, bytes, count) = charged-reads ds (add m d) in (m', e, omega arith, omega arith)

module _ {Fl : Type 0} ⦃fl : FloatOps Fl⦄ (laws : FloatLaws fl) (cfg : SchedulerConfig Fl)
    (c : IsConfig cfg) (in_vram : cfg.compute_location ≡ vram) (blocks : List Ref) (step : ℕ)
    (start : Fl) (w : World Fl) (stored : All (Stored w) blocks) where
  -- With no negative latency and compute in VRAM, blocks that the store holds and a collector:
  -- after `schedule` its bytes read have grown by the sizes of the distinct blocks that were on
  -- the SSD, and its I/O operations by their number.
  pub schedule_reads :
      (m : Metrics Fl)
      → w.metrics ≡ some m
      → (m' : Metrics Fl) × ((schedule cfg blocks step start w).1.metrics ≡ some m')
        × (m'.ssd_read_bytes
            ≡ m.ssd_read_bytes + sum_by (λ r. read_bytes (w.heap r)) (unique blocks w))
        × (m'.io_op_count ≡ m.io_op_count + sum_by (λ r. read_count (w.heap r)) (unique blocks w))
  schedule_reads m collected =
      let rs = unique blocks w in
      let distinct = dedupe-distinct key_discrete (λ r. key (w.heap r)) blocks in
      let apart = AllPairs-imp _ _ (λ p q n e. n (ap (λ r. key (w.heap r)) e)) rs distinct in
      let (m', e, bytes, count) = charged-reads (loop_metrics cfg rs w.heap) m in
      let reads = loop_metrics-reads cfg rs w.heap apart in
      (
        m',
        ap (λ q. q.1.metrics) (schedule_lem cfg laws c in_vram blocks step start w stored)
            ∙ ap (charged (loop_metrics cfg rs w.heap)) collected
            ∙ e,
        omega arith,
        omega arith,
      )
