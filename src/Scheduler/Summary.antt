-- ===== src/Scheduler/Summary.antt =====
-- core/scheduler.py: the order of a schedule's operations.
use solid_attention.Base.{
  ℕ, ◌≡◌, refl, Bool, List, [], ◌∷◌, ◌++◌, map, ok, arith, ◌∙◌, ap, sym, subst, ◌≢◌, All, AllPairs,
  Any, All-imp, All-member, Any-imp, Any-map, AllPairs-map, str_eq, filter_by,
}
use mathlib.Core.Path.{fun_ext}
use mathlib.Core.List.{map-append}
use solid_attention.Base.Unique.{dedupe-distinct, dedupe-Any}
use solid_attention.Float.{FloatOps, FloatLaws}
use solid_attention.Block.{BlockLocation, vram, KvBlock, BlockKey, key, key_discrete, move_to}
use solid_attention.Store.Moves.{key-update_move}
use solid_attention.Trace.{IsTimely}
use solid_attention.World.{Ref, World, update}
use solid_attention.Scheduler.{SchedulerConfig, ScheduleOp, ScheduleResult, schedule}
use solid_attention.Store.Placed.{unique}
use solid_attention.Store.Held.{Stored}
use solid_attention.Scheduler.Steps.{IsConfig}
use solid_attention.Scheduler.Resident.{block_ops, end_of}
use solid_attention.Scheduler.Timeline.{timeline, after_loop, schedule_lem}

-- The keys of the blocks that are computed on, in order.
abbrev pub computed : {Fl : Type 0} → List (ScheduleOp Fl) → List BlockKey
computed ops =
    map (λ op. (op.layer_id, op.block_id)) (filter_by (λ op. str_eq op.op "schedule_compute") ops)

filter_by-append {ℓ} :
    {A : Type ℓ} (p : A → Bool) (xs ys : List A)
    → filter_by p (xs ++ ys) ≡ filter_by p xs ++ filter_by p ys
filter_by-append p [] ys = refl
filter_by-append p (x ∷ xs) ys = ground (arith, filter_by-append p xs ys)

module _ {Fl : Type 0} ⦃fl : FloatOps Fl⦄ where
  -- Each operation starts when the one before it ends, and none ends before it starts.
  abbrev pub Contiguous : Fl → List (ScheduleOp Fl) → Type 0
  Contiguous now [] = Unit
  Contiguous now (op ∷ ops) = (op.start_ms ≡ now) × IsTimely op × Contiguous op.end_ms ops

  Contiguous-append :
      (now : Fl) (ops more : List (ScheduleOp Fl))
      → Contiguous now ops
      → Contiguous (end_of now ops) more
      → Contiguous now (ops ++ more)
  Contiguous-append now [] more h k = k
  Contiguous-append now (op ∷ ops) more h k = (h.0, h.1, Contiguous-append op.end_ms ops more h.2 k)

module _ {Fl : Type 0} ⦃fl : FloatOps Fl⦄ (laws : FloatLaws fl) (cfg : SchedulerConfig Fl)
    (c : IsConfig cfg) where
  block_ops-Contiguous :
      (l : BlockLocation) (b : KvBlock Fl) (now : Fl) → Contiguous now (block_ops cfg l b now)
  block_ops-Contiguous BlockLocation.ssd b now = (
    refl,
    laws.add_grows _ _ c.ssd_read,
    (refl, laws.add_grows _ _ c.dram_to_vram, (refl, laws.add_grows _ _ c.compute, tt)),
  )
  block_ops-Contiguous BlockLocation.dram b now =
      (refl, laws.add_grows _ _ c.dram_to_vram, (refl, laws.add_grows _ _ c.compute, tt))
  block_ops-Contiguous BlockLocation.vram b now = (refl, laws.add_grows _ _ c.compute, tt)

  timeline-Contiguous :
      (rs : List Ref) (h : Ref → KvBlock Fl) (now : Fl) → Contiguous now (timeline cfg rs h now)
  timeline-Contiguous [] h now = tt
  timeline-Contiguous (r ∷ rs) h now =
      Contiguous-append now _ _ (block_ops-Contiguous (h r).location (h r) now)
        (timeline-Contiguous rs _ _)

  block_ops-computed :
      (l : BlockLocation) (b : KvBlock Fl) (now : Fl)
      → computed (block_ops cfg l b now) ≡ key b ∷ []
  block_ops-computed BlockLocation.ssd b now = refl
  block_ops-computed _ b now = refl

  timeline-computed :
      (rs : List Ref) (h : Ref → KvBlock Fl) (now : Fl)
      → computed (timeline cfg rs h now) ≡ map (λ r. key (h r)) rs
  timeline-computed [] h now = refl
  timeline-computed (r ∷ rs) h now =
      let ops = block_ops cfg (h r).location (h r) now in
      let h' = update r (move_to vram (h r)) h in
      ap (map (λ op. (op.layer_id, op.block_id))) (
        filter_by-append (λ op. str_eq op.op "schedule_compute") ops
          (timeline cfg rs h' (end_of now ops)))
      ∙ map-append _ _ _
      ∙ ap (λ k. k ++ computed (timeline cfg rs h' (end_of now ops)))
          (block_ops-computed (h r).location (h r) now)
      ∙ ap (◌∷◌ (key (h r))) (
          timeline-computed rs h' (end_of now ops)
          ∙ ap (λ f. map f rs) (fun_ext (λ q. key-update_move vram r q h)))

module _ {Fl : Type 0} ⦃fl : FloatOps Fl⦄ (laws : FloatLaws fl) (cfg : SchedulerConfig Fl)
    (c : IsConfig cfg) (in_vram : cfg.compute_location ≡ vram) (blocks : List Ref) (step : ℕ)
    (start : Fl) (w : World Fl) (stored : All (Stored w) blocks) where
  -- The keys that `unique` keeps are different, and no key of the call is lost.
  unique_keys :
      AllPairs (λ j k. j ≢ k) (map (λ r. key (w.heap r)) (unique blocks w))
      × All
          (λ r. Any (λ k. key (w.heap r) ≡ k) (map (λ q. key (w.heap q)) (unique blocks w)))
          blocks
  unique_keys =
      let key_of : Ref → BlockKey = λ r. key (w.heap r) in
      let kept = unique blocks w in
      (
        AllPairs-map key_of (λ j k. j ≢ k) kept (dedupe-distinct key_discrete key_of blocks),
        All-imp _ _
            (λ r member.
              Any-map key_of (λ k. key_of r ≡ k) kept
                (dedupe-Any key_discrete key_of (key_of r) blocks
                  (Any-imp blocks member (λ q same. ap key_of (sym same)))))
            blocks (All-member blocks),
      )

  -- With no negative latency and compute in VRAM, and blocks that the store holds, `schedule`
  -- returns; the operations follow one another from the start without a gap, none ends before it
  -- starts, and each distinct block is computed on exactly once, in the order of first appearance:
  -- no key is computed on twice, and every key of the call is.
  pub schedule_order :
      (result : ScheduleResult Fl) × (w' : World Fl) × (schedule cfg blocks step start w
        ≡ (ok result, w'))
      × (result.step ≡ step)
      × Contiguous start result.ops
      × (computed result.ops ≡ map (λ r. key (w.heap r)) (unique blocks w))
      × AllPairs (λ j k. j ≢ k) (computed result.ops)
      × All (λ r. Any (λ k. key (w.heap r) ≡ k) (computed result.ops)) blocks
  schedule_order =
      let rs = unique blocks w in
      let in_order = timeline-computed laws cfg c rs w.heap start in
      let (distinct, complete) = unique_keys in
      (
        record { step = step; ops = timeline cfg rs w.heap start },
        after_loop cfg rs start w,
        schedule_lem cfg laws c in_vram blocks step start w stored,
        refl,
        timeline-Contiguous laws cfg c rs w.heap start,
        in_order,
        subst (AllPairs (λ j k. j ≢ k)) (sym in_order) distinct,
        subst (λ ks. All (λ r. Any (λ k. key (w.heap r) ≡ k) ks) blocks) (sym in_order) complete,
      )
