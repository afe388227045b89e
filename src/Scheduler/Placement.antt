-- ===== src/Scheduler/Placement.antt =====
-- core/scheduler.py: where a schedule leaves the blocks.
use solid_attention.Base.{ℕ, ◌≡◌, refl, List, ok, ◌∙◌, ap, All, if◌then◌else◌}
use solid_attention.Float.{FloatOps, FloatLaws}
use solid_attention.Block.{vram, move_to}
use solid_attention.World.{Ref, World}
use solid_attention.World.Effects.{traced}
use solid_attention.Scheduler.{SchedulerConfig, ScheduleResult, schedule}
use solid_attention.Store.Placed.{member, moved_heap-member, member-unique, unique}
use solid_attention.Store.Held.{Stored}
use solid_attention.Scheduler.Steps.{IsConfig}
use solid_attention.Scheduler.Timeline.{timeline, after_loop, schedule_lem}

module _ {Fl : Type 0} ⦃fl : FloatOps Fl⦄ (laws : FloatLaws fl) (cfg : SchedulerConfig Fl)
    (c : IsConfig cfg) (in_vram : cfg.compute_location ≡ vram) (blocks : List Ref) (step : ℕ)
    (start : Fl) (w : World Fl) (stored : All (Stored w) blocks) where
  -- With no negative latency and compute in VRAM, and blocks that the store holds, `schedule`
  -- returns; every block of the call is then in VRAM and otherwise unchanged, every other block
  -- and the store's table are as before, and the trace, if there is one, has exactly the
  -- operations of the result added.
  pub schedule_placement :
      (result : ScheduleResult Fl) × (w' : World Fl) × (schedule cfg blocks step start w
        ≡ (ok result, w'))
      × ((q : Ref) → w'.heap q ≡ (if member q blocks then move_to vram (w.heap q) else w.heap q))
      × (w'.blocks ≡ w.blocks)
      × (w'.trace ≡ traced result.ops w.trace)
  schedule_placement =
      let rs = unique blocks w in
      (
        record { step = step; ops = timeline cfg rs w.heap start },
        after_loop cfg rs start w,
        schedule_lem cfg laws c in_vram blocks step start w stored,
        (λ q.
            moved_heap-member vram rs w.heap q
            ∙ ap (λ b. if b then move_to vram (w.heap q) else w.heap q)
                (member-unique w q blocks stored)),
        refl,
        refl,
      )
