-- ===== src/Commands/Rows.antt =====
-- integrations/llama_cpp/runtime_commands.py: what `_layout_ranges` makes of the rows of a layout.
use solid_attention.Base.{
  ◌≡◌, refl, ◌≢◌, inl, inr, false, none, some, List, [], ◌∷◌, ok, arith, All, AllPairs, Any,
  >>-eq-ok, skip_raise, ◌∙◌, ap, sym,
}
use solid_attention.Base.Dict.{
  Dict, get, contains, set, get-set_self, get-set_ne, contains-eq-false,
}
use solid_attention.Base.Fill.{put_all, get-put_all, get-put_all-some}
use solid_attention.Commands.{PlanRange, RowKey, row_key, row_key_discrete, layout_ranges}

-- No row has the key of another.
abbrev pub DistinctRows : List PlanRange → Type 0
DistinctRows = AllPairs (λ p q. row_key p ≢ row_key q)

-- A dictionary with the rows under their keys, and nothing else.
abbrev pub Finds : Dict RowKey PlanRange → List PlanRange → Type 0
Finds d rows =
    All (λ r. get row_key_discrete (row_key r) d ≡ some r) rows
    × ((k : RowKey) (r : PlanRange)
        → get row_key_discrete k d ≡ some r
        → Any (λ q. (q ≡ r) × (row_key q ≡ k)) rows)

abbrev NewTo : Dict RowKey PlanRange → List PlanRange → Type 0
NewTo d rows = All (λ r. get row_key_discrete (row_key r) d ≡ none) rows

abbrev put_rows : Dict RowKey PlanRange → List PlanRange → Dict RowKey PlanRange
put_rows = put_all row_key_discrete row_key

absent :
    (k : RowKey) (d : Dict RowKey PlanRange)
    → get row_key_discrete k d ≡ none
    → contains row_key_discrete k d ≡ false
absent k d h = ground arith

still_new :
    (r : PlanRange) (d : Dict RowKey PlanRange) (rows : List PlanRange)
    → All (λ q. row_key r ≢ row_key q) rows
    → NewTo d rows
    → NewTo (set row_key_discrete (row_key r) r d) rows
still_new r d [] n h = tt
still_new r d (q ∷ rows) n h = (
  get-set_ne row_key_discrete (row_key q) (row_key r) r d (λ e. n.0 (sym e)) ∙ h.0,
  still_new r d rows n.1 h.1,
)

were_new :
    (r : PlanRange) (d : Dict RowKey PlanRange) (rows : List PlanRange)
    → NewTo (set row_key_discrete (row_key r) r d) rows
    → All (λ q. row_key r ≢ row_key q) rows × NewTo d rows
were_new r d [] h = (tt, tt)
were_new r d (q ∷ rows) h =
    let apart : row_key r ≢ row_key q = λ e.
      let both =
        sym (get-set_self row_key_discrete (row_key r) r d)
        ∙ ap (λ k. get row_key_discrete k (set row_key_discrete (row_key r) r d)) e
        ∙ h.0 in
      cc in
    let (more, rest) = were_new r d rows h.1 in
    (
      (apart, more),
      (
        sym (get-set_ne row_key_discrete (row_key q) (row_key r) r d (λ e. apart (sym e))) ∙ h.0,
        rest,
      ),
    )

layout_ranges-fills :
    (d : Dict RowKey PlanRange) (rows : List PlanRange)
    → DistinctRows rows
    → NewTo d rows
    → layout_ranges d rows ≡ ok (put_rows d rows)
unfolding layout_ranges put_all
layout_ranges-fills d [] n h = refl
layout_ranges-fills d (r ∷ rows) n h =
    skip_raise _ _ (absent (row_key r) d h.0)
    ∙ layout_ranges-fills (set row_key_discrete (row_key r) r d) rows n.1
        (still_new r d rows n.0 h.1)

layout_ranges-ok :
    (d : Dict RowKey PlanRange) (rows : List PlanRange) (out : Dict RowKey PlanRange)
    → layout_ranges d rows ≡ ok out
    → DistinctRows rows × NewTo d rows
unfolding layout_ranges
layout_ranges-ok d [] out h = (tt, tt)
layout_ranges-ok d (r ∷ rows) out h =
    let (new, h') = >>-eq-ok (contains row_key_discrete (row_key r) d) _ _ h in
    let (distinct, later) = layout_ranges-ok (set row_key_discrete (row_key r) r d) rows out h' in
    let (apart, before) = were_new r d rows later in
    ((apart, distinct), (contains-eq-false row_key_discrete (row_key r) d new, before))

no_row : (k : RowKey) (r : PlanRange) → get row_key_discrete k [] ≢ some r
unfolding get
no_row k r h = cc

all_new : (rows : List PlanRange) → NewTo [] rows
unfolding get
all_new [] = tt
all_new (r ∷ rows) = (refl, all_new rows)

-- `_layout_ranges` returns exactly when no two rows have one key, and then finds each row under its
-- key and nothing else.
pub layout_ranges-Finds :
    (rows : List PlanRange)
    → DistinctRows rows
    → (d : Dict RowKey PlanRange) × (layout_ranges [] rows ≡ ok d) × Finds d rows
layout_ranges-Finds rows n = (
  put_rows [] rows,
  layout_ranges-fills [] rows n (all_new rows),
  (
    get-put_all row_key_discrete row_key [] rows n,
    λ k r h. elim (get-put_all-some row_key_discrete row_key k [] rows r h) [
      | inl before ↦ absurd (no_row k r before)
      | inr at ↦ at
    ],
  ),
)

pub layout_ranges-distinct :
    (rows : List PlanRange) (d : Dict RowKey PlanRange)
    → layout_ranges [] rows ≡ ok d
    → DistinctRows rows
layout_ranges-distinct rows d h = (layout_ranges-ok [] rows d h).0
