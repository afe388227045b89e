-- ===== src/MovementPlan/Build.antt =====
-- core/movement_plan.py: `build_movement_plan` over blocks with bytes and tokens.
use solid_attention.Base.{
  ℕ, ◌<◌, ◌≡◌, refl, ◌≢◌, false, some, List, [], ◌∷◌, ok, Result, Returns, arith, All, All-imp,
  All-and, All-member, Any-imp, subst, All-and, subst, Any, Any-All, Pairwise, ◌∙◌, ap, sym, String,
}
use solid_attention.Base.Int.{pos}
use solid_attention.Base.Dict.{Dict, get, contains, DistinctKeys}
use solid_attention.Base.Fill.{get-put_all}
use solid_attention.Base.Sort.{sorted-All, sorted-Any, sorted-AllPairs}
use solid_attention.Base.Unique.{dedupe-All, dedupe-Any, dedupe-distinct}
use solid_attention.Float.{FloatOps}
use solid_attention.Block.{Value, KvBlock, BlockKey, key, key_discrete}
use solid_attention.Residency.{put}
use solid_attention.Scheduler.{ScheduleOp, ScheduleResult}
use solid_attention.SsdLayout.{
  SsdRange, SsdFileLayout, ssd_file_layout, next_range_offset, get_range,
}
use solid_attention.SsdLayout.Chain.{IsChained}
use solid_attention.MovementPlan.{
  MovementOp, dedupe_blocks, blocks_from, block_at, movement_of, movement_from_schedule_op,
  convert_loop, build_movement_plan,
}
use solid_attention.MovementPlan.Ranges.{Ranged, Nonempty, add_ranges-IsFilled}
use solid_attention.MovementPlan.Convert.{ConvertOutcome, movement_from_schedule_op-ConvertOutcome}

abbrev empty_layout : ℕ → ℕ → SsdFileLayout
empty_layout base_offset alignment = record {
  base_offset = base_offset;
  alignment = alignment;
  ranges = [];
}

empty_layout_made :
    (base_offset alignment : ℕ)
    → 0 < alignment
    → ssd_file_layout (pos base_offset) (pos alignment) ≡ ok (empty_layout base_offset alignment)
unfolding ssd_file_layout
empty_layout_made base_offset alignment h = ground arith

empty_layout-IsChained :
    (base_offset alignment : ℕ) → 0 < alignment → IsChained (empty_layout base_offset alignment)
unfolding next_range_offset
empty_layout-IsChained base_offset alignment h = record { positive = h; chain = refl; keyed = tt }

module _ {Fl : Type 0} where
  none_yet :
      (blocks : List (KvBlock Fl))
      → All (λ b. contains {V = SsdRange} key_discrete (key b) [] ≡ false) blocks
  unfolding get
  none_yet [] = tt
  none_yet (b ∷ blocks) = (refl, none_yet blocks)

  -- What holds of every block holds of those that `_dedupe_blocks` keeps.
  kept :
      (P : KvBlock Fl → Type 0) (blocks : List (KvBlock Fl))
      → All P blocks
      → All P (dedupe_blocks blocks)
  unfolding dedupe_blocks
  kept P blocks h = sorted-All _ P _ (dedupe-All key_discrete key P blocks h)

module _ {Fl : Type 0} ⦃fl : FloatOps Fl⦄ (show : Value Fl → String) where
  -- The name of an operation of the schedule as a movement, with its source and its target.
  abbrev pub names_of : ScheduleOp Fl → Result (String × (String × String))
  names_of s = movement_of show s.op (put "scheduler_op" (Value.text s.op) s.metadata)

  -- What the conversion asks of an operation of the schedule.
  pub record IsPlannable (blocks : List (KvBlock Fl)) (s : ScheduleOp Fl) : Type 0 where
    pub block : Any (λ b. (s.layer_id, s.block_id) ≡ key b) blocks
    pub timely : fl.lt s.end_ms s.start_ms ≡ false
    pub known : (n : String × (String × String)) × (names_of s ≡ ok n)

  -- The operation of the plan is that of the schedule, on the block's range of the layout.
  pub record Carries (blocks : List (KvBlock Fl)) (t : SsdFileLayout) (s : ScheduleOp Fl)
      (m : MovementOp Fl) : Type 0 where
    pub layer_id : m.layer_id ≡ s.layer_id
    pub block_id : m.block_id ≡ s.block_id
    pub names : names_of s ≡ ok (m.op, (m.source, m.target))
    pub start_ms : m.start_ms ≡ s.start_ms
    pub end_ms : m.end_ms ≡ s.end_ms
    pub range :
        (r : SsdRange) × (get_range s.layer_id s.block_id t ≡ ok r)
        × (m.ssd_offset ≡ r.offset)
        × (m.size_bytes ≡ r.size_bytes)
    pub block :
        Any
          (λ b.
            ((s.layer_id, s.block_id) ≡ key b)
            × (m.size_bytes ≡ b.size_bytes)
            × (m.start_token ≡ b.start_token)
            × (m.end_token ≡ b.end_token))
          blocks
    pub bytes : 0 < m.size_bytes
    pub tokens : m.start_token < m.end_token

  -- A block that the loop over the operations finds, with its range.
  record IsReady (blocks : List (KvBlock Fl)) (t : SsdFileLayout) (d : Dict BlockKey (KvBlock Fl))
      (b : KvBlock Fl) : Type 0 where
    ranged : Ranged t b
    found : get key_discrete (key b) d ≡ some b
    nonempty : Nonempty b
    listed : Any (λ x. x ≡ b) blocks

  module _ (blocks : List (KvBlock Fl)) (t : SsdFileLayout) (d : Dict BlockKey (KvBlock Fl)) where
    range_found :
        (s : ScheduleOp Fl) (b : KvBlock Fl) (r : SsdRange)
        → (s.layer_id, s.block_id) ≡ key b
        → get key_discrete (key b) t.ranges ≡ some r
        → get_range s.layer_id s.block_id t ≡ ok r
    unfolding get_range
    range_found s b r e h = rw (ap (λ k. get key_discrete k t.ranges) e ∙ h, get_range) refl

    block_found :
        (s : ScheduleOp Fl) (b : KvBlock Fl)
        → (s.layer_id, s.block_id) ≡ key b
        → get key_discrete (key b) d ≡ some b
        → block_at (s.layer_id, s.block_id) d ≡ ok b
    unfolding block_at
    block_found s b e h = rw (ap (λ k. get key_discrete k d) e ∙ h, block_at) refl

    converted :
        (s : ScheduleOp Fl) (b : KvBlock Fl)
        → (s.layer_id, s.block_id) ≡ key b
        → IsReady blocks t d b
        → IsPlannable blocks s
        → (r : SsdRange) × (get_range s.layer_id s.block_id t ≡ ok r)
          × (block_at (s.layer_id, s.block_id) d ≡ ok b)
          × Returns (Carries blocks t s) (movement_from_schedule_op show s r b)
    converted s b e q p =
        let (r, at, size) = q.ranged in
        let range = range_found s b r e at in
        let ((op, (source, target)), known) = p.known in
        let (m, made, layer_id, block_id, o, f, g, offset, bytes, start, end, start_ms, end_ms) =
          subst (λ n. ConvertOutcome show s r b n (movement_from_schedule_op show s r b)) known
            (movement_from_schedule_op-ConvertOutcome show s r b (rw size q.nonempty.0) q.nonempty.1
              p.timely) in
        let size_of_block = bytes ∙ size in
        (
          r,
          range,
          block_found s b e q.found,
          (
            m,
            made,
            record {
              layer_id = layer_id;
              block_id = block_id;
              names = known ∙ (λ i. ok (sym o i, (sym f i, sym g i)));
              start_ms = start_ms;
              end_ms = end_ms;
              range = (r, range, offset, bytes);
              block = Any-imp blocks q.listed (λ x same. (
                e ∙ ap key (sym same),
                size_of_block ∙ ap (λ y. y.size_bytes) (sym same),
                start ∙ ap (λ y. y.start_token) (sym same),
                end ∙ ap (λ y. y.end_token) (sym same),
              ));
              bytes = rw size_of_block q.nonempty.0;
              tokens = rw (start, end) q.nonempty.1;
            },
          ),
        )

    convert_loop-Carries :
        (unique : List (KvBlock Fl)) (ops : List (ScheduleOp Fl))
        → All (IsReady blocks t d) unique
        → All (λ s. IsPlannable blocks s × Any (λ b. (s.layer_id, s.block_id) ≡ key b) unique) ops
        → Returns (Pairwise (Carries blocks t) ops) (convert_loop show t d ops)
    unfolding convert_loop
    convert_loop-Carries unique [] ready plannable = ([], refl, tt)
    convert_loop-Carries unique (s ∷ ops) ready plannable =
        let (p, member) = plannable.0 in
        Any-All unique member ready (λ b e q.
          let (r, range, block, (m, made, carries)) = converted s b e q p in
          let (ms, rest, more) = convert_loop-Carries unique ops ready plannable.1 in
          (m ∷ ms, rw (range, block, made, rest) refl, (carries, more)))

  -- Over blocks that have bytes and tokens, with a layout that the constructor accepts, and for a
  -- schedule whose operations are on those blocks, do not end before they start and have known
  -- names, `build_movement_plan` returns: one operation for each of the schedule, in order, with
  -- its own names and times, the bytes and tokens of its block, and the range of the layout for it;
  -- and the layout is chained, with each key once.
  pub build_movement_plan-Carries :
      (blocks : List (KvBlock Fl)) (result : ScheduleResult Fl) (base_offset alignment : ℕ)
      → 0 < alignment
      → All Nonempty blocks
      → All (IsPlannable blocks) result.ops
      → Returns
          (λ p.
            Pairwise (Carries blocks p.layout) result.ops p.ops
            × IsChained p.layout
            × DistinctKeys key_discrete p.layout.ranges)
          (build_movement_plan show blocks result (pos base_offset) (pos alignment))
  unfolding build_movement_plan ssd_file_layout dedupe_blocks blocks_from
  build_movement_plan-Carries blocks result base_offset alignment positive nonempty plannable =
      let t = empty_layout base_offset alignment in
      let unique = dedupe_blocks blocks in
      let apart =
        sorted-AllPairs _ (λ p q. key p ≢ key q) (λ p q n e. n (sym e)) _
          (dedupe-distinct key_discrete key blocks) in
      let sizes = kept Nonempty blocks nonempty in
      let (u, filled, f) =
        add_ranges-IsFilled unique t (empty_layout-IsChained base_offset alignment positive) tt
          sizes apart (none_yet unique) in
      let d = blocks_from unique in
      let ready =
        All-imp _ _
          (λ b h. record { ranged = h.0; found = h.1.0; nonempty = h.1.1.0; listed = h.1.1.1 })
          unique
          (All-and _ _ unique f.ranged (
            All-and _ _ unique (get-put_all key_discrete key [] unique apart) (
              All-and _ _ unique sizes
                (kept (λ b. Any (λ x. x ≡ b) blocks) blocks (All-member blocks))))) in
      let members =
        All-imp _ _
          (λ s p. (
            p,
            sorted-Any _ _ _ (dedupe-Any key_discrete key (s.layer_id, s.block_id) blocks p.block),
          ))
          result.ops plannable in
      let (ms, converts, carries) =
        convert_loop-Carries blocks u d unique result.ops ready members in
      (
        record { ops = ms; layout = u },
        rw (empty_layout_made base_offset alignment positive, filled, converts) refl,
        (carries, f.chained, f.distinct),
      )
