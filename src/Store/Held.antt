-- ===== src/Store/Held.antt =====
-- core/block_store.py: references that the store holds, and what is left behind by an operation
-- that moves one of them, records an event and counts.
use solid_attention.Base.{◌≡◌, some, List, ◌++◌, ◌∙◌, ap}
use solid_attention.Base.Dict.{get}
use solid_attention.Float.{FloatOps}
use solid_attention.Block.{BlockLocation, key, key_discrete, move_to}
use solid_attention.Metrics.{Metrics}
use solid_attention.Store.Moves.{key-update_move}
use solid_attention.Trace.{TraceEvent}
use solid_attention.World.{Ref, World, update}
use solid_attention.World.Effects.{
  traced, charged, update_self, update-update, traced-append, charged-append,
}

-- The reference is the one that the store has under the key of its block.
abbrev pub Stored : {Fl : Type 0} → World Fl → Ref → Type 0
Stored w r = get key_discrete (key (w.heap r)) w.blocks ≡ some r

module _ {Fl : Type 0} ⦃fl : FloatOps Fl⦄ where
  -- The world after an operation that put the block at a location.
  abbrev pub after_op :
      Ref → BlockLocation → List (TraceEvent Fl) → List (Metrics Fl) → World Fl → World Fl
  after_op r l ops ds w = record w {
    heap = update r (move_to l (w.heap r)) w.heap;
    trace = traced ops w.trace;
    metrics = charged ds w.metrics;
  }

  -- Two operations on one block, as one.
  pub after_op_twice :
      (r : Ref) (l m : BlockLocation) (ops ops' : List (TraceEvent Fl)) (ds ds' : List (Metrics Fl))
      (w : World Fl)
      → after_op r m ops' ds' (after_op r l ops ds w) ≡ after_op r m (ops ++ ops') (ds ++ ds') w
  after_op_twice r l m ops ops' ds ds' w = λ i. record {
    heap =
        (ap (λ b. update r (move_to m b) (update r (move_to l (w.heap r)) w.heap))
              (update_self r (move_to l (w.heap r)) w.heap)
            ∙ update-update r _ _ w.heap)
          i;
    blocks = w.blocks;
    trace = traced-append ops ops' w.trace i;
    metrics = charged-append ds ds' w.metrics i;
  }

  -- A move leaves every stored reference where the store has it.
  pub Stored-after_op :
      (r q : Ref) (l : BlockLocation) (ops : List (TraceEvent Fl)) (ds : List (Metrics Fl))
      (w : World Fl)
      → Stored w q
      → Stored (after_op r l ops ds w) q
  Stored-after_op r q l ops ds w h =
      ap (λ k. get key_discrete k w.blocks) (key-update_move l r q w.heap) ∙ h
