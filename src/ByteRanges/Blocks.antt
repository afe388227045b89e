-- ===== src/ByteRanges/Blocks.antt =====
-- integrations/llama_cpp/kv_byte_ranges.py: `_unique_blocks`, the blocks of a plan's operations.
use solid_attention.Base.{
  Bool, false, not, ◌&&◌, ◌||◌, Option, none, some, List, [], ◌∷◌, Result, ok, value_error, ◌>>=◌,
  ◌>>◌, raise_if,
}
use solid_attention.Base.Int.{ℤ, eqb_ℤ}
use solid_attention.Base.Dict.{Dict, get, set, values}
use solid_attention.Base.Sort.{sorted}
use solid_attention.Commands.{PlanOp, RowKey, row_key_lt, row_key_discrete}

-- The dictionary that `_unique_blocks` makes of an operation.
pub record PlanBlock : Type 0 where
  pub layer_id : ℤ
  pub block_id : ℤ
  pub start_token : ℤ
  pub end_token : ℤ
  pub ssd_offset : ℤ
  pub size_bytes : ℤ

-- (layer_id, block_id) and (start_token, end_token)
abbrev pub PlanKey : Type 0
PlanKey = RowKey × RowKey

unfoldable pub plan_key_discrete : Discrete PlanKey
plan_key_discrete (a, b) (c, d) = elim (row_key_discrete a c) [
  | yes p ↦ elim (row_key_discrete b d) [
    | yes q ↦ yes (λ i. (p i, q i))
    | no n ↦ no (λ e. n (λ i. (e i).1))
  ]
  | no n ↦ no (λ e. n (λ i. (e i).0))
]

abbrev pub plan_key : PlanBlock → PlanKey
plan_key b = ((b.layer_id, b.block_id), (b.start_token, b.end_token))

abbrev row_key_eq : RowKey → RowKey → Bool
row_key_eq (a, b) (c, d) = eqb_ℤ a c && eqb_ℤ b d

-- `p < q` of two keys, as tuples.
abbrev pub plan_key_lt : PlanKey → PlanKey → Bool
plan_key_lt (a, b) (c, d) = row_key_lt a c || (row_key_eq a c && row_key_lt b d)

abbrev pub block_of : {Fl : Type 0} → PlanOp Fl → PlanBlock
block_of o = record {
  layer_id = o.layer_id;
  block_id = o.block_id;
  start_token = o.start_token;
  end_token = o.end_token;
  ssd_offset = o.ssd_offset;
  size_bytes = o.size_bytes;
}

-- The test on the block that the dictionary has under the key.
abbrev pub inconsistent : Option PlanBlock → PlanBlock → Bool
inconsistent none b = false
inconsistent (some p) b =
    not (eqb_ℤ p.ssd_offset b.ssd_offset) || not (eqb_ℤ p.size_bytes b.size_bytes)

module _ {Fl : Type 0} where
  -- The loop of `_unique_blocks`.
  unfoldable pub block_loop :
      Dict PlanKey PlanBlock → List (PlanOp Fl) → Result (Dict PlanKey PlanBlock)
  block_loop d [] = ok d
  block_loop d (o ∷ ops) =
      let b = block_of o in
      raise_if (inconsistent (get plan_key_discrete (plan_key b) d) b)
        (value_error "inconsistent byte range for block")
      >> block_loop (set plan_key_discrete (plan_key b) b d) ops

  -- `_unique_blocks`
  unfoldable pub unique_blocks : List (PlanOp Fl) → Result (List PlanBlock)
  unfolding block_loop
  unique_blocks ops = do
    by_key ← block_loop [] ops
    ok (values (sorted (λ p q. plan_key_lt p.0 q.0) by_key))
