-- ===== src/Selector.antt =====
-- core/block_selector.py: the init, local and selected blocks of one layer and decode step.
mod Score
mod Ranking
pub mod Picks
pub mod Ranks
pub mod Groups
pub mod Marks
pub mod Select
unfoldable pub use Score.*
unfoldable pub use Ranking.*
use solid_attention.Base.{
  ℕ, ◌+◌, ◌-◌, ◌==◌, String, Bool, true, false, not, ◌&&◌, Option, none, some, List, [], ◌∷◌, ◌++◌,
  map, Result, ok, err, value_error, key_error, if◌then◌else◌, length, take, drop, filter_by,
}
use solid_attention.Base.Int.{ℤ, pos, pos_part, ltb_ℤ, leb_ℤ}
use solid_attention.Base.Dict.{Dict, get, set}
use solid_attention.Base.Sort.{sorted}
use solid_attention.Base.Unique.{mem, dedupe}
use solid_attention.Float.{FloatOps}
use solid_attention.Block.{
  BlockRole, location_value, role_value, Value, KvBlock, BlockKey, key, key_discrete, mark_role,
}
use solid_attention.Store.{key_lt}
use solid_attention.World.{
  Ref, World, Action, pure, raise, gets, lift, deref, mutate, record_trace, ◌>>=◌, ◌>>◌,
}

module _ {Fl : Type 0} ⦃fl : FloatOps Fl⦄ where
  -- `_trace`
  unfoldable pub trace_block : String → String → Fl → Fl → Ref → Action Fl (Unit {0})
  trace_block op reason score start_ms r = do
    b ← deref r
    record_trace (record {
      op = op;
      layer_id = b.layer_id;
      block_id = b.block_id;
      device = location_value b.location;
      start_ms = start_ms;
      end_ms = start_ms;
      metadata =
          ("role", Value.text (role_value b.role))
          ∷ ("reason", Value.text reason)
          ∷ ("score", Value.num score)
          ∷ ("start_token", Value.int (pos b.start_token))
          ∷ ("end_token", Value.int (pos b.end_token))
          ∷ [];
    })

  -- The first two loops of `select`, each block with the score 1.
  unfoldable pub mark_loop : BlockRole → String → String → Fl → List Ref → Action Fl (Unit {0})
  mark_loop role op reason start_ms [] = pure tt
  mark_loop role op reason start_ms (r ∷ rs) = do
    mutate r (mark_role role)
    trace_block op reason (fl.of_nat 1) start_ms r
    mark_loop role op reason start_ms rs

  -- `selected_scores[key]`
  unfoldable pub score_of : BlockKey → Dict BlockKey Fl → Result Fl
  score_of k scores = elim (get key_discrete k scores) [
    | none ↦ err (key_error "selected_scores")
    | some score ↦ ok score
  ]

  unfoldable pub mark_selected_loop : Dict BlockKey Fl → Fl → List Ref → Action Fl (Unit {0})
  unfolding score_of
  mark_selected_loop scores start_ms [] = pure tt
  mark_selected_loop scores start_ms (r ∷ rs) = do
    mutate r (mark_role BlockRole.selected)
    b ← deref r
    score ← lift (score_of (key b) scores)
    trace_block "select_representative" "selected" score start_ms r
    mark_selected_loop scores start_ms rs

  -- `BlockSelector.select`
  unfoldable pub select :
      SelectionConfig → List Ref → ℕ → ℤ → Option (List Fl) → Fl → Action Fl SelectionResult
  unfolding mark_loop mark_selected_loop
  select cfg blocks layer_id current_token query start_ms = do
    rs ← gets (λ w. layer_blocks w blocks layer_id current_token)
    init ← gets (λ w. init_of w cfg rs)
    local ← gets (λ w. local_of w cfg rs)
    candidates ← gets (λ w. selected_candidates w cfg rs)
    ranked ← (λ w. (rank_by_representative w query candidates, w))
    let chosen : List Ref = map (λ q. q.0) (take cfg.selected_block_count ranked)
    scores ← gets (λ w. scores_from w [] ranked)
    mark_loop BlockRole.init "select_init" "init" start_ms init
    mark_loop BlockRole.local "select_local" "local" start_ms local
    mark_selected_loop scores start_ms chosen
    pure (record { init_blocks = init; local_blocks = local; selected_blocks = chosen })
