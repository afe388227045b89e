-- ===== src/Scheduler/Resident.antt =====
-- core/scheduler.py: the loop over blocks that the store holds, with compute in VRAM.
use solid_attention.Base.{
  ◌≡◌, refl, false, List, [], ◌∷◌, ◌++◌, ok, arith, ◌∙◌, sym, ap, append_assoc,
}
use mathlib.Core.Path.{ap₂}
use solid_attention.Float.{FloatOps, FloatLaws}
use solid_attention.Block.{BlockLocation, ssd, dram, vram, same_location, KvBlock, move_to}
use solid_attention.Metrics.{Metrics}
use solid_attention.World.{Ref, World, update, Action, ◌>>=◌, then_ok}
use solid_attention.World.Effects.{traced, charged, update_self, update_same}
use solid_attention.Scheduler.{
  SchedulerConfig, ScheduleOp, ssd_read_op, ssd_read_metrics, dram_to_vram_op, dram_to_vram_metrics,
  compute_op, compute_metrics, Progress, load_from_ssd, load_from_dram, compute_or_raise,
  schedule_block,
}
use solid_attention.Store.Held.{Stored, after_op, after_op_twice, Stored-after_op}
use solid_attention.Scheduler.Steps.{
  IsConfig, schedule_ssd_read_lem, schedule_dram_to_vram_lem, schedule_compute_lem,
}

module _ {Fl : Type 0} ⦃fl : FloatOps Fl⦄ (cfg : SchedulerConfig Fl) where
  abbrev pub compute_ops : KvBlock Fl → Fl → List (ScheduleOp Fl)
  compute_ops b now = compute_op cfg (move_to vram b) now ∷ []

  abbrev pub copy_ops : KvBlock Fl → Fl → List (ScheduleOp Fl)
  copy_ops b now = let copy = dram_to_vram_op cfg dram b now in copy ∷ compute_ops b copy.end_ms

  -- What is to be done for a block that is at the location: it is read, copied and computed on,
  -- each from the end of the one before.
  abbrev pub block_ops : BlockLocation → KvBlock Fl → Fl → List (ScheduleOp Fl)
  block_ops ssd b now = let read = ssd_read_op cfg b now in read ∷ copy_ops b read.end_ms
  block_ops dram b now = copy_ops b now
  block_ops vram b now = compute_ops b now

  abbrev pub block_metrics : BlockLocation → KvBlock Fl → List (Metrics Fl)
  block_metrics ssd b = ssd_read_metrics cfg b ∷ dram_to_vram_metrics cfg ∷ compute_metrics cfg ∷ []
  block_metrics dram b = dram_to_vram_metrics cfg ∷ compute_metrics cfg ∷ []
  block_metrics vram b = compute_metrics cfg ∷ []

-- The time at which the operations are done.
abbrev pub end_of : {Fl : Type 0} → Fl → List (ScheduleOp Fl) → Fl
end_of now [] = now
end_of now (op ∷ ops) = end_of op.end_ms ops

abbrev pub finish : {Fl : Type 0} → Progress Fl → List (ScheduleOp Fl) → Progress Fl
finish (done, now) ops = (done ++ ops, end_of now ops)

module _ {Fl : Type 0} where
  end_of-append :
      (now : Fl) (ops more : List (ScheduleOp Fl))
      → end_of (end_of now ops) more ≡ end_of now (ops ++ more)
  end_of-append now [] more = refl
  end_of-append now (op ∷ ops) more = end_of-append op.end_ms ops more

  pub finish-finish :
      (p : Progress Fl) (ops more : List (ScheduleOp Fl))
      → finish (finish p ops) more ≡ finish p (ops ++ more)
  finish-finish (done, now) ops more =
      λ i. (append_assoc done ops more i, end_of-append now ops more i)

module _ {Fl : Type 0} ⦃fl : FloatOps Fl⦄ (laws : FloatLaws fl) (cfg : SchedulerConfig Fl)
    (c : IsConfig cfg) (r : Ref) where
  pub stays : (l : BlockLocation) (b : KvBlock Fl) → b.location ≡ l → move_to l b ≡ b
  stays l b here = λ i. record b { location = sym here i }

  pub copy_here :
      (p : Progress Fl) (w : World Fl)
      → Stored w r
      → (w.heap r).location ≡ dram
      → load_from_dram cfg r p w ≡ (
          let op = dram_to_vram_op cfg dram (w.heap r) p.1 in
          (ok (finish p (op ∷ [])), after_op r vram (op ∷ []) (dram_to_vram_metrics cfg ∷ []) w))
  unfolding load_from_dram
  copy_here p w stored here = ground (arith, schedule_dram_to_vram_lem laws cfg c r p.1 w stored)

  pub read_here :
      (p : Progress Fl) (w : World Fl)
      → Stored w r
      → (w.heap r).location ≡ ssd
      → load_from_ssd cfg r p w ≡ (
          let op = ssd_read_op cfg (w.heap r) p.1 in
          (
            ok (finish p (op ∷ [])),
            after_op r dram (op ∷ []) (ssd_read_metrics cfg (w.heap r) ∷ []) w,
          ))
  unfolding load_from_ssd
  read_here p w stored here = ground (arith, schedule_ssd_read_lem laws cfg c r p.1 w stored)

  pub skip_ssd :
      (p : Progress Fl) (w : World Fl)
      → same_location (w.heap r).location ssd ≡ false
      → load_from_ssd cfg r p w ≡ (ok p, w)
  unfolding load_from_ssd
  skip_ssd p w h = ground arith

  pub skip_dram :
      (p : Progress Fl) (w : World Fl)
      → same_location (w.heap r).location dram ≡ false
      → load_from_dram cfg r p w ≡ (ok p, w)
  unfolding load_from_dram
  skip_dram p w h = ground arith

module _ {Fl : Type 0} ⦃fl : FloatOps Fl⦄ (laws : FloatLaws fl) (cfg : SchedulerConfig Fl)
    (c : IsConfig cfg) (in_vram : cfg.compute_location ≡ vram) (r : Ref) where
  compute_here :
      (p : Progress Fl) (w : World Fl)
      → (w.heap r).location ≡ vram
      → compute_or_raise cfg r p w ≡ (
        ok (finish p (compute_op cfg (w.heap r) p.1 ∷ [])),
        record w {
          trace = traced (compute_op cfg (w.heap r) p.1 ∷ []) w.trace;
          metrics = charged (compute_metrics cfg ∷ []) w.metrics;
        },
      )
  unfolding compute_or_raise
  compute_here p w here = ground (arith, schedule_compute_lem laws cfg c r p.1 w)

  -- The compute of a block that is in VRAM.
  compute_resident :
      (p : Progress Fl) (w : World Fl)
      → (w.heap r).location ≡ vram
      → compute_or_raise cfg r p w ≡ (
        ok (finish p (compute_ops cfg (w.heap r) p.1)),
        after_op r vram (compute_ops cfg (w.heap r) p.1) (compute_metrics cfg ∷ []) w,
      )
  compute_resident p w here =
      let q = stays laws cfg c r vram (w.heap r) here in
      let unmoved = sym (ap (λ b. update r b w.heap) q ∙ update_same r w.heap) in
      compute_here p w here ∙ λ i. (
        ok (finish p (compute_op cfg (sym q i) p.1 ∷ [])),
        record w {
          heap = unmoved i;
          trace = traced (compute_op cfg (sym q i) p.1 ∷ []) w.trace;
          metrics = charged (compute_metrics cfg ∷ []) w.metrics;
        },
      )

  -- The part of a round behind the read: the copy, unless the block is there already.
  unfoldable from_dram : Progress Fl → Action Fl (Progress Fl)
  from_dram p = load_from_dram cfg r p >>= compute_or_raise cfg r

  from_dram_lem :
      (p : Progress Fl) (w : World Fl)
      → Stored w r
      → (w.heap r).location ≡ dram
      → from_dram p w ≡ (
        ok (finish p (copy_ops cfg (w.heap r) p.1)),
        after_op r vram (copy_ops cfg (w.heap r) p.1) (block_metrics cfg dram (w.heap r)) w,
      )
  unfolding from_dram
  from_dram_lem p w stored here =
      let op = dram_to_vram_op cfg dram (w.heap r) p.1 in
      let w1 = after_op r vram (op ∷ []) (dram_to_vram_metrics cfg ∷ []) w in
      let at_r = update_self r (move_to vram (w.heap r)) w.heap in
      let p1 = finish p (op ∷ []) in
      then_ok (load_from_dram cfg r p) (compute_or_raise cfg r) w
        (copy_here laws cfg c r p w stored here)
      ∙ compute_resident p1 w1 (ap (λ b. b.location) at_r)
      ∙ (λ i. (
        ok (finish p1 (compute_ops cfg (at_r i) p1.1)),
        after_op r vram (compute_ops cfg (at_r i) p1.1) (compute_metrics cfg ∷ []) w1,
      ))
      ∙ ap₂ (λ x y. (ok x, y)) (finish-finish p (op ∷ []) (compute_ops cfg (w.heap r) p1.1))
          (after_op_twice r vram vram (op ∷ []) (compute_ops cfg (w.heap r) p1.1)
            (dram_to_vram_metrics cfg ∷ []) (compute_metrics cfg ∷ []) w)

  -- One round: the block is loaded as far as it needs, computed on, and left in VRAM.
  pub schedule_block_lem :
      (l : BlockLocation) (p : Progress Fl) (w : World Fl)
      → Stored w r
      → (w.heap r).location ≡ l
      → schedule_block cfg r p w ≡ (
        ok (finish p (block_ops cfg l (w.heap r) p.1)),
        after_op r vram (block_ops cfg l (w.heap r) p.1) (block_metrics cfg l (w.heap r)) w,
      )
  unfolding schedule_block from_dram
  schedule_block_lem BlockLocation.vram p w stored here =
      then_ok (load_from_ssd cfg r p) from_dram w
        (skip_ssd laws cfg c r p w (ap (λ l. same_location l ssd) here))
      ∙ then_ok (load_from_dram cfg r p) (compute_or_raise cfg r) w
          (skip_dram laws cfg c r p w (ap (λ l. same_location l dram) here))
      ∙ compute_resident p w here
  schedule_block_lem BlockLocation.dram p w stored here =
      then_ok (load_from_ssd cfg r p) from_dram w
        (skip_ssd laws cfg c r p w (ap (λ l. same_location l ssd) here))
      ∙ from_dram_lem p w stored here
  schedule_block_lem BlockLocation.ssd p w stored here =
      let op = ssd_read_op cfg (w.heap r) p.1 in
      let w1 = after_op r dram (op ∷ []) (ssd_read_metrics cfg (w.heap r) ∷ []) w in
      let at_r = update_self r (move_to dram (w.heap r)) w.heap in
      let p1 = finish p (op ∷ []) in
      then_ok (load_from_ssd cfg r p) from_dram w (read_here laws cfg c r p w stored here)
      ∙ from_dram_lem p1 w1
          (Stored-after_op r r dram (op ∷ []) (ssd_read_metrics cfg (w.heap r) ∷ []) w stored)
          (ap (λ b. b.location) at_r)
      ∙ (λ i. (
        ok (finish p1 (copy_ops cfg (at_r i) p1.1)),
        after_op r vram (copy_ops cfg (at_r i) p1.1) (block_metrics cfg dram (w.heap r)) w1,
      ))
      ∙ ap₂ (λ x y. (ok x, y)) (finish-finish p (op ∷ []) (copy_ops cfg (w.heap r) p1.1))
          (after_op_twice r dram vram (op ∷ []) (copy_ops cfg (w.heap r) p1.1)
            (ssd_read_metrics cfg (w.heap r) ∷ []) (block_metrics cfg dram (w.heap r)) w)
