-- ===== src/Selector/Ranking.antt =====
-- core/block_selector.py: the groups that `select` forms, and the ranking by score.
use solid_attention.Base.{
  ℕ, ◌-◌, ◌==◌, Bool, not, ◌&&◌, Option, List, [], ◌∷◌, ◌++◌, map, Result, ok, value_error, ◌>>=◌,
  ◌>>◌, raise_if, if◌then◌else◌, length, take, drop, filter_by,
}
use solid_attention.Base.Int.{ℤ, pos, pos_part, ltb_ℤ, leb_ℤ}
use solid_attention.Base.Dict.{Dict, set}
use solid_attention.Base.Sort.{sorted}
use solid_attention.Base.Unique.{mem, dedupe}
use solid_attention.Float.{FloatOps}
use solid_attention.Block.{BlockKey, key, key_discrete}
use solid_attention.Store.{key_lt}
use solid_attention.World.{Ref, World}
use solid_attention.Selector.Score.{representative_score}

pub record SelectionConfig : Type 0 where
  pub init_block_count : ℕ
  pub local_block_count : ℕ
  pub selected_block_count : ℕ

-- `SelectionConfig(...)`
unfoldable pub selection_config : ℤ → ℤ → ℤ → Result SelectionConfig
selection_config init local selected = do
  raise_if (ltb_ℤ init (pos 0)) (value_error "init_block_count must be non-negative")
  raise_if (ltb_ℤ local (pos 0)) (value_error "local_block_count must be non-negative")
  raise_if (ltb_ℤ selected (pos 0)) (value_error "selected_block_count must be non-negative")
  ok (record {
    init_block_count = pos_part init;
    local_block_count = pos_part local;
    selected_block_count = pos_part selected;
  })

pub record SelectionResult : Type 0 where
  pub init_blocks : List Ref
  pub local_blocks : List Ref
  pub selected_blocks : List Ref

-- `candidates[-n:] if n else ()`
unfoldable pub last_ones : ℕ → List Ref → List Ref
last_ones n rs = if n == 0 then [] else drop (length rs - n) rs

module _ {Fl : Type 0} (w : World Fl) where
  abbrev pub key_of : Ref → BlockKey
  key_of r = key (w.heap r)

  -- `all_blocks`
  unfoldable pub all_blocks : SelectionResult → List Ref
  all_blocks s = dedupe key_discrete key_of (s.init_blocks ++ s.local_blocks ++ s.selected_blocks)

  -- `block.layer_id == layer_id and block.end_token <= current_token`
  abbrev pub is_eligible : ℕ → ℤ → Ref → Bool
  is_eligible layer_id current_token r =
      let b = w.heap r in b.layer_id == layer_id && leb_ℤ (pos b.end_token) current_token

  -- The order by `(block.start_token, block.block_id)`.
  abbrev pub by_start : Ref → Ref → Bool
  by_start p q =
      key_lt ((w.heap p).start_token, (w.heap p).block_id)
        ((w.heap q).start_token, (w.heap q).block_id)

  -- `block.key not in {other.key for other in rs}`
  abbrev pub is_outside : List Ref → Ref → Bool
  is_outside rs r = not (mem key_discrete key_of (key_of r) (map key_of rs))

  unfoldable pub layer_blocks : List Ref → ℕ → ℤ → List Ref
  layer_blocks blocks layer_id current_token =
      sorted by_start (filter_by (is_eligible layer_id current_token) blocks)

  unfoldable pub init_of : SelectionConfig → List Ref → List Ref
  init_of cfg rs = take cfg.init_block_count rs

  unfoldable pub local_of : SelectionConfig → List Ref → List Ref
  unfolding last_ones
  local_of cfg rs = last_ones cfg.local_block_count (filter_by (is_outside (init_of cfg rs)) rs)

  unfoldable pub selected_candidates : SelectionConfig → List Ref → List Ref
  selected_candidates cfg rs =
      filter_by (λ r. is_outside (init_of cfg rs) r && is_outside (local_of cfg rs) r) rs

  module _ ⦃fl : FloatOps Fl⦄ where
    -- The order by `(-score, block.start_token, block.block_id)`.
    abbrev pub by_rank : Ref × Fl → Ref × Fl → Bool
    by_rank p q =
        if fl.eq (fl.neg p.1) (fl.neg q.1)
        then by_start p.0 q.0
        else fl.lt (fl.neg p.1) (fl.neg q.1)

    -- The loop of `_rank_by_representative`.
    unfoldable pub score_all : Option (List Fl) → List Ref → Result (List (Ref × Fl))
    score_all query [] = ok []
    score_all query (r ∷ rs) =
        let rest = score_all query rs in
        representative_score (w.heap r) query >>= λ score.
        rest >>= λ scored. ok ((r, score) ∷ scored)

    -- `_rank_by_representative`
    unfoldable pub rank_by_representative : Option (List Fl) → List Ref → Result (List (Ref × Fl))
    unfolding score_all
    rank_by_representative query rs = score_all query rs >>= λ scored. ok (sorted by_rank scored)

    -- `{block.key: score for block, score in ranked}`, from a dictionary on.
    unfoldable pub scores_from : Dict BlockKey Fl → List (Ref × Fl) → Dict BlockKey Fl
    scores_from d [] = d
    scores_from d ((r, score) ∷ ranked) = scores_from (set key_discrete (key_of r) score d) ranked
