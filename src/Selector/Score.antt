-- ===== src/Selector/Score.antt =====
-- core/block_selector.py: `representative_score`, the cosine similarity of two vectors.
use solid_attention.Base.{
  ◌==◌, not, ◌||◌, Option, none, some, List, ◌∷◌, Result, ok, err, value_error, if◌then◌else◌,
  length,
}
use solid_attention.Float.{FloatOps}
use solid_attention.Block.{KvBlock}

module _ {Fl : Type 0} ⦃fl : FloatOps Fl⦄ where
  -- `sum(left * right for left, right in zip(...))`, from a partial sum on.
  abbrev pub dot_from : Fl → List Fl → List Fl → Fl
  dot_from total (a ∷ us) (b ∷ vs) = dot_from (fl.add total (fl.mul a b)) us vs
  dot_from total _ _ = total

  abbrev pub dot : List Fl → List Fl → Fl
  dot = dot_from fl.zero

  abbrev pub norm : List Fl → Fl
  norm v = fl.sqrt (dot v v)

  unfoldable pub representative_score : KvBlock Fl → Option (List Fl) → Result Fl
  representative_score b none = ok fl.zero
  representative_score b (some query) = elim b.representative [
    | none ↦ ok fl.zero
    | some representative ↦
        if not (length query == length representative)
        then err (value_error "query_vector and representative must have the same length")
        else if fl.eq (norm query) fl.zero || fl.eq (norm representative) fl.zero
        then ok fl.zero
        else ok (fl.div (dot query representative) (fl.mul (norm query) (norm representative)))
  ]
