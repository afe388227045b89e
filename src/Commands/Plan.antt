-- ===== src/Commands/Plan.antt =====
-- integrations/llama_cpp/runtime_commands.py, from the other end: the plans that
-- core/movement_plan.py builds become commands.
use solid_attention.Base.{
  ℕ, ◌≡◌, refl, ◌≢◌, List, [], ◌∷◌, map, ok, Returns, String, All, Any, Any-imp, Any-map,
  AllPairs-map, Pairwise, AllPairs-imp, ◌∙◌, ap, sym, subst, ok_inj,
}
use solid_attention.Base.Int.{pos, pos_part}
use solid_attention.Base.Dict.{values, DistinctKeys, get-All, get-Any, values-AllPairs}
use solid_attention.Base.Sort.{sorted-Any, sorted-AllPairs}
use solid_attention.Float.{FloatOps}
use solid_attention.Block.{Value, KvBlock, key_discrete}
use solid_attention.Scheduler.{ScheduleOp}
use solid_attention.SsdLayout.{SsdRange, SsdFileLayout, range_key, get_range}
use solid_attention.SsdLayout.Chain.{IsChained, get_range-ok}
use solid_attention.MovementPlan.{MovementOp, MovementPlan}
use solid_attention.MovementPlan.Build.{names_of, Carries}
use solid_attention.Commands.{
  PlanRange, LlamaKvCommand, op_json, range_json, layout_rows, plan_json, row_key, command_of,
  commands_from_movement_plan,
}
use solid_attention.Commands.Check.{IsMove, IsCommandOf}
use solid_attention.Commands.Rows.{DistinctRows}
use solid_attention.Commands.Accept.{IsRowOf, commands_from_movement_plan_iff}

module _ (t : SsdFileLayout) (c : IsChained t) where
  layout_rows-distinct : DistinctKeys key_discrete t.ranges → DistinctRows (layout_rows t)
  layout_rows-distinct d =
      AllPairs-map range_json (λ p q. row_key p ≢ row_key q) _
        (AllPairs-imp (λ p q. range_key p ≢ range_key q) _
          (λ p q n e. n (λ i. (pos_part ((e i).0), pos_part ((e i).1)))) _
          (sorted-AllPairs _ (λ p q. range_key p ≢ range_key q) (λ p q n e. n (sym e))
            (values t.ranges) (values-AllPairs range_key t.ranges c.keyed d)))

  layout_rows-Any :
      (P : PlanRange → Type 0) (a b : ℕ) (r : SsdRange)
      → get_range a b t ≡ ok r
      → (range_key r ≡ (a, b) → P (range_json r))
      → Any P (layout_rows t)
  layout_rows-Any P a b r found f =
      let at = get_range-ok t a b r found in
      let keyed = get-All key_discrete (λ e. range_key e.1 ≡ e.0) (a, b) t.ranges r c.keyed at in
      Any-map range_json P _ (
        sorted-Any _ (λ q. P (range_json q)) (values t.ranges)
          (Any-imp (values t.ranges) (get-Any key_discrete (a, b) t.ranges r at)
            (λ q e. subst (λ x. P (range_json x)) (sym e) (f keyed))))

module _ {Fl : Type 0} ⦃fl : FloatOps Fl⦄ (show : Value Fl → String) where
  -- The name of the operation of the schedule stands for a command that may run.
  abbrev pub IsRunnable : ScheduleOp Fl → Type 0
  IsRunnable s =
      (n : String × (String × String)) × (names_of show s ≡ ok n) × IsMove n.0 n.1.0 n.1.1

  -- The command does what the operation of the schedule stands for, on the range of its block.
  pub record Serves (t : SsdFileLayout) (s : ScheduleOp Fl) (c : LlamaKvCommand Fl) : Type 0 where
    pub layer_id : c.layer_id ≡ s.layer_id
    pub block_id : c.block_id ≡ s.block_id
    pub names : names_of show s ≡ ok (c.op, (c.source, c.target))
    pub range :
        (r : SsdRange) × (get_range s.layer_id s.block_id t ≡ ok r)
        × (c.ssd_offset ≡ r.offset)
        × (c.size_bytes ≡ r.size_bytes)

  module _ (blocks : List (KvBlock Fl)) (t : SsdFileLayout) (chained : IsChained t) where
    abbrev made : MovementOp Fl → LlamaKvCommand Fl
    made m = command_of (op_json m)

    made-IsCommandOf :
        (s : ScheduleOp Fl) (m : MovementOp Fl)
        → Carries show blocks t s m
        → IsRunnable s
        → IsCommandOf (op_json m) (made m)
          × Any (IsRowOf (made m)) (layout_rows t)
          × Serves t s (made m)
    made-IsCommandOf s m h (n, known, moves) =
        let (r, found, offset, size) = h.range in
        let same : n ≡ (m.op, (m.source, m.target)) = ok_inj (sym known ∙ h.names) in
        (
          record {
            op = refl;
            layer_id = refl;
            block_id = refl;
            start_token = refl;
            end_token = refl;
            size_bytes = refl;
            source = refl;
            target = refl;
            ssd_offset = refl;
            blocking = refl;
            metadata = refl;
            moves = subst (λ q. IsMove q.0 q.1.0 q.1.1) same moves;
            tokens = h.tokens;
            bytes = h.bytes;
          },
          layout_rows-Any t chained (IsRowOf (made m)) s.layer_id s.block_id r found (λ keyed.
              record {
                key = λ i. (
                  pos ((keyed ∙ λ j. (sym h.layer_id j, sym h.block_id j)) i).0,
                  pos ((keyed ∙ λ j. (sym h.layer_id j, sym h.block_id j)) i).1,
                );
                offset = ap pos offset;
                size_bytes = ap pos size;
              }),
          record {
            layer_id = h.layer_id;
            block_id = h.block_id;
            names = h.names;
            range = (r, found, offset, size);
          },
        )

    plan_pairs :
        (ops : List (ScheduleOp Fl)) (ms : List (MovementOp Fl))
        → Pairwise (Carries show blocks t) ops ms
        → All IsRunnable ops
        → Pairwise
            (λ o c. IsCommandOf o c × Any (IsRowOf c) (layout_rows t))
            (map op_json ms)
            (map made ms)
          × Pairwise (Serves t) ops (map made ms)
    plan_pairs [] [] h run = (tt, tt)
    plan_pairs (s ∷ ops) (m ∷ ms) h run =
        let (command, row, serves) = made-IsCommandOf s m h.0 run.0 in
        let (more, rest) = plan_pairs ops ms h.1 run.1 in (((command, row), more), (serves, rest))
    plan_pairs [] (m ∷ ms) h run = absurd h
    plan_pairs (s ∷ ops) [] h run = absurd h

  -- A plan with a chained layout that carries runnable operations of a schedule becomes commands,
  -- one for each of them in order.
  pub plan-Serves :
      (blocks : List (KvBlock Fl)) (p : MovementPlan Fl) (ops : List (ScheduleOp Fl))
      → IsChained p.layout
      → DistinctKeys key_discrete p.layout.ranges
      → Pairwise (Carries show blocks p.layout) ops p.ops
      → All IsRunnable ops
      → Returns (Pairwise (Serves p.layout) ops) (commands_from_movement_plan (plan_json p))
  plan-Serves blocks p ops chained distinct carries run =
      let (pairs, serves) = plan_pairs blocks p.layout chained ops p.ops carries run in
      (
        _,
        (commands_from_movement_plan_iff (plan_json p) _).1
            (record { rows = layout_rows-distinct p.layout chained distinct; commands = pairs }),
        serves,
      )
