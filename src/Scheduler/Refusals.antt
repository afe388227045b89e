-- ===== src/Scheduler/Refusals.antt =====
-- core/scheduler.py: when a block is refused.
use solid_attention.Base.{
  ℕ, ◌≡◌, ◌≢◌, false, some, List, [], ◌∷◌, Result, err, value_error, arith, ◌∙◌, ap, sym, ok, refl,
}
use mathlib.Core.Path.{ap₂}
use solid_attention.Base.Dict.{get}
use solid_attention.Base.Unique.{dedupe, dedupe_from, mem}
use solid_attention.Float.{FloatOps, FloatLaws}
use solid_attention.Block.{
  BlockLocation, ssd, dram, vram, same_location, key, key_discrete, move_to, location_value,
}
use solid_attention.Block.Checks.{location_roundtrip}
use solid_attention.Store.{move_block}
use solid_attention.Store.Moves.{move_block_moves}
use solid_attention.World.{Ref, World, update, pure, then_ok, then_raises, ◌>>=◌}
use solid_attention.World.Effects.{traced, update_self, update_ne, add_metrics_lem}
use solid_attention.Scheduler.{
  SchedulerConfig, ssd_read_op, ssd_read_metrics, dram_to_vram_op, dram_to_vram_metrics, Progress,
  schedule_ssd_read, load_from_ssd, load_from_dram, compute_or_raise, schedule_block, schedule_loop,
  schedule,
}
use solid_attention.Store.Held.{Stored, after_op, Stored-after_op}
use solid_attention.Scheduler.Steps.{IsConfig, make_op_timely}
use solid_attention.Scheduler.Resident.{finish, copy_here, read_here, skip_ssd, skip_dram}

abbrev pub refused : {A : Type 0} → Result A
refused = err (value_error "block is not at the compute location before compute")

module _ {Fl : Type 0} ⦃fl : FloatOps Fl⦄ (laws : FloatLaws fl) (cfg : SchedulerConfig Fl)
    (c : IsConfig cfg) (r : Ref) where
  compute_refused :
      (p : Progress Fl) (w : World Fl)
      → same_location (w.heap r).location cfg.compute_location ≡ false
      → compute_or_raise cfg r p w ≡ (refused, w)
  unfolding compute_or_raise
  compute_refused p w h = ground arith

  module _ (elsewhere : cfg.compute_location ≢ vram) where
    vram_refused :
        (p : Progress Fl) (w : World Fl)
        → (w.heap r).location ≡ vram
        → (compute_or_raise cfg r p w).0 ≡ refused
    vram_refused p w here = ap (λ q. q.0) (compute_refused p w (ground arith))

    dram_refused :
        (p : Progress Fl) (w : World Fl)
        → Stored w r
        → (w.heap r).location ≡ dram
        → ((load_from_dram cfg r p >>= compute_or_raise cfg r) w).0 ≡ refused
    dram_refused p w stored here =
        let op = dram_to_vram_op cfg dram (w.heap r) p.1 in
        ap (λ q. q.0)
          (then_ok (load_from_dram cfg r p) (compute_or_raise cfg r) w
            (copy_here laws cfg c r p w stored here))
        ∙ vram_refused (finish p (op ∷ []))
            (after_op r vram (op ∷ []) (dram_to_vram_metrics cfg ∷ []) w)
            (ap (λ b. b.location) (update_self r (move_to vram (w.heap r)) w.heap))

    block_refused :
        (l : BlockLocation) (p : Progress Fl) (w : World Fl)
        → Stored w r
        → (w.heap r).location ≡ l
        → (schedule_block cfg r p w).0 ≡ refused
    unfolding schedule_block
    block_refused BlockLocation.vram p w stored here =
        ap (λ q. q.0)
          (then_ok (load_from_ssd cfg r p) (λ n. load_from_dram cfg r n >>= compute_or_raise cfg r)
              w (skip_ssd laws cfg c r p w (ap (λ l. same_location l ssd) here))
            ∙ then_ok (load_from_dram cfg r p) (compute_or_raise cfg r) w
                (skip_dram laws cfg c r p w (ap (λ l. same_location l dram) here)))
        ∙ vram_refused p w here
    block_refused BlockLocation.dram p w stored here =
        ap (λ q. q.0)
          (then_ok (load_from_ssd cfg r p) (λ n. load_from_dram cfg r n >>= compute_or_raise cfg r)
            w (skip_ssd laws cfg c r p w (ap (λ l. same_location l ssd) here)))
        ∙ dram_refused p w stored here
    block_refused BlockLocation.ssd p w stored here =
        let op = ssd_read_op cfg (w.heap r) p.1 in
        let ds = ssd_read_metrics cfg (w.heap r) ∷ [] in
        ap (λ q. q.0)
          (then_ok (load_from_ssd cfg r p) (λ n. load_from_dram cfg r n >>= compute_or_raise cfg r)
            w (read_here laws cfg c r p w stored here))
        ∙ dram_refused (finish p (op ∷ [])) (after_op r dram (op ∷ []) ds w)
            (Stored-after_op r r dram (op ∷ []) ds w stored)
            (ap (λ b. b.location) (update_self r (move_to dram (w.heap r)) w.heap))

    -- With no negative latency and any other compute location than VRAM, which the configuration
    -- accepts, a call whose first block is held by the store raises: the loads always go on to
    -- VRAM.
    pub schedule_elsewhere :
        (rs : List Ref) (step : ℕ) (start : Fl) (w : World Fl)
        → Stored w r
        → (schedule cfg (r ∷ rs) step start w).0 ≡ refused
    unfolding schedule dedupe dedupe_from mem
    schedule_elsewhere rs step start w stored =
        let rest = dedupe_from key_discrete (λ q. key (w.heap q)) (key (w.heap r) ∷ []) rs in
        then_raises (schedule_loop cfg (r ∷ rest) ([], start))
          (λ q. pure (record { step = step; ops = q.0 })) w
          (then_raises (schedule_block cfg r ([], start)) (schedule_loop cfg rest) w
            (block_refused (w.heap r).location ([], start) w stored refl))

-- A block on the SSD that is not the object that the store has under its key.
module _ {Fl : Type 0} ⦃fl : FloatOps Fl⦄ (laws : FloatLaws fl) (cfg : SchedulerConfig Fl)
    (c : IsConfig cfg) (in_vram : cfg.compute_location ≡ vram) (r s : Ref) (w : World Fl)
    (here : (w.heap r).location ≡ ssd) (other : s ≢ r)
    (held : get key_discrete (key (w.heap r)) w.blocks ≡ some s) where
  stale_moved :
      move_block (w.heap r).layer_id (w.heap r).block_id (location_value dram) w
      ≡ (ok s, record w { heap = update s (move_to dram (w.heap s)) w.heap })
  stale_moved = move_block_moves _ _ (location_value dram) w s dram held (location_roundtrip dram)

  stale_read :
      (now : Fl)
      → let op = ssd_read_op cfg (w.heap r) now in
        schedule_ssd_read cfg r now w
        ≡ (ok op, after_op s dram (op ∷ []) (ssd_read_metrics cfg (w.heap r) ∷ []) w)
  unfolding schedule_ssd_read
  stale_read now =
      let w1 = record w { heap = update s (move_to dram (w.heap s)) w.heap } in
      let op = ssd_read_op cfg (w.heap r) now in
      let w2 = record w1 { trace = traced (op ∷ []) w.trace } in
      ground (
        arith,
        stale_moved,
        update_ne s r (move_to dram (w.heap s)) w.heap (λ e. other (sym e)),
        make_op_timely op w1 (laws.add_grows now _ c.ssd_read),
        add_metrics_lem (ssd_read_metrics cfg (w.heap r)) w2,
      )

  stale_read_here :
      (p : Progress Fl)
      → let op = ssd_read_op cfg (w.heap r) p.1 in
        load_from_ssd cfg r p w ≡ (
          ok (finish p (op ∷ [])),
          after_op s dram (op ∷ []) (ssd_read_metrics cfg (w.heap r) ∷ []) w,
        )
  unfolding load_from_ssd
  stale_read_here p = ground (arith, stale_read p.1)

  -- With no negative latency and compute in VRAM, a block on the SSD is refused when the store has
  -- another object under its key, and its read is not undone: the store's block is in DRAM, the
  -- one that was passed is still on the SSD.
  pub schedule_block_stale :
      (p : Progress Fl)
      → let (result, w') = schedule_block cfg r p w in
        (result ≡ refused) × (w'.heap s ≡ move_to dram (w.heap s)) × (w'.heap r ≡ w.heap r)
  unfolding schedule_block
  schedule_block_stale p =
      let op = ssd_read_op cfg (w.heap r) p.1 in
      let w1 = after_op s dram (op ∷ []) (ssd_read_metrics cfg (w.heap r) ∷ []) w in
      let p1 = finish p (op ∷ []) in
      let still = update_ne s r (move_to dram (w.heap s)) w.heap (λ e. other (sym e)) in
      let on_ssd : (w1.heap r).location ≡ ssd = ap (λ b. b.location) still ∙ here in
      let ends =
        then_ok (load_from_ssd cfg r p) (λ n. load_from_dram cfg r n >>= compute_or_raise cfg r) w
          (stale_read_here p)
        ∙ then_ok (load_from_dram cfg r p1) (compute_or_raise cfg r) w1
            (skip_dram laws cfg c r p1 w1 (ap (λ l. same_location l dram) on_ssd))
        ∙ compute_refused laws cfg c r p1 w1 (ap₂ same_location on_ssd in_vram) in
      (
        ap (λ q. q.0) ends,
        ap (λ q. q.1.heap s) ends ∙ update_self s _ w.heap,
        ap (λ q. q.1.heap r) ends ∙ still,
      )
