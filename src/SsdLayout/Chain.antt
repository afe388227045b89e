-- ===== src/SsdLayout/Chain.antt =====
-- core/movement_plan.py: the ranges of an `SSDFileLayout` are aligned, in order and apart.
use solid_attention.Base.{
  ℕ, ◌+◌, ◌-◌, ◌%◌, ◌≤◌, ◌<◌, ◌≡◌, refl, ◌≢◌, ◌⊎◌, inl, inr, Bool, true, false, some, Result, ok,
  err, value_error, key_error, Bool-cases, arith, List, [], ◌∷◌, ◌++◌, All, AllPairs, All-imp,
  sum_by, ap, ◌∙◌, max, ◌==◌,
}
use solid_attention.Base.Dict.{
  get, contains, set, values, values-append, set_absent, set-All, get-set_self, contains-eq-false,
  AllPairs-get, get-values-All,
}
use solid_attention.Block.{KvBlock, BlockKey, key, key_discrete}
use solid_attention.SsdLayout.{
  SsdRange, ssd_range, range_end, range_key, SsdFileLayout, max_range_end, next_range_offset,
  layout_size, align, add_range, get_range,
}
use solid_attention.SsdLayout.Align.{align_lem}

-- From `a` on: each range begins at the first multiple of the alignment that is not before the
-- end of the range before, and the last one ends at `z`.
abbrev pub Chain : ℕ → ℕ → List SsdRange → ℕ → Type 0
Chain n a [] z = a ≡ z
Chain n a (r ∷ rs) z =
    (a ≤ r.offset)
    × (r.offset < a + n)
    × (r.offset % n ≡ 0)
    × (0 < r.size_bytes)
    × Chain n (range_end r) rs z

-- What the table keeps under its calls.
pub record IsChained (t : SsdFileLayout) : Type 0 where
  pub positive : 0 < t.alignment
  pub chain : Chain t.alignment t.base_offset (values t.ranges) (next_range_offset t)
  pub keyed : All (λ e. range_key e.1 ≡ e.0) t.ranges

module _ (n : ℕ) where
  Chain-le : (a : ℕ) (rs : List SsdRange) (z : ℕ) → Chain n a rs z → a ≤ z
  Chain-le a [] z h = omega arith
  Chain-le a (r ∷ rs) z h = omega (arith, Chain-le (range_end r) rs z h.4)

  max_range_end-Chain :
      (a : ℕ) (rs : List SsdRange) (z : ℕ) → Chain n a rs z → max_range_end a rs ≡ z
  unfolding max_range_end
  max_range_end-Chain a [] z h = h
  max_range_end-Chain a (r ∷ rs) z h =
      let at_end : max a (range_end r) ≡ range_end r = omega arith in
      rw at_end (max_range_end-Chain (range_end r) rs z h.4)

  Chain-append :
      (a : ℕ) (rs : List SsdRange) (z : ℕ) (r : SsdRange)
      → Chain n a rs z
      → Chain n z (r ∷ []) (range_end r)
      → Chain n a (rs ++ r ∷ []) (range_end r)
  Chain-append a [] z r h k = rw h k
  Chain-append a (x ∷ rs) z r h k = (h.0, h.1, h.2, h.3, Chain-append (range_end x) rs z r h.4 k)

  pub Chain-apart :
      (a : ℕ) (rs : List SsdRange) (z : ℕ)
      → Chain n a rs z
      → AllPairs (λ p q. range_end p ≤ q.offset) rs × All (λ q. a ≤ q.offset) rs
  Chain-apart a [] z h = (tt, tt)
  Chain-apart a (r ∷ rs) z h =
      let (apart, above) = Chain-apart (range_end r) rs z h.4 in
      ((above, apart), (h.0, All-imp _ _ (λ q k. omega arith) rs above))

  pub Chain-aligned :
      (a : ℕ) (rs : List SsdRange) (z : ℕ) → Chain n a rs z → All (λ q. q.offset % n ≡ 0) rs
  Chain-aligned a [] z h = tt
  Chain-aligned a (r ∷ rs) z h = (h.2, Chain-aligned (range_end r) rs z h.4)

  Chain-size :
      (a : ℕ) (rs : List SsdRange) (z : ℕ)
      → Chain n a rs z
      → (sum_by (λ r. r.size_bytes) rs ≤ z - a) × (z - a ≤ sum_by (λ r. r.size_bytes + (n - 1)) rs)
  Chain-size a [] z h = omega arith
  Chain-size a (r ∷ rs) z h =
      let le = Chain-le (range_end r) rs z h.4 in omega (arith, Chain-size (range_end r) rs z h.4)

next_range_offset-Chain :
    (t : SsdFileLayout) (z : ℕ)
    → Chain t.alignment t.base_offset (values t.ranges) z
    → next_range_offset t ≡ z
unfolding next_range_offset
next_range_offset-Chain t z h = from_values (values t.ranges) h
  where
    from_values :
        (rs : List SsdRange)
        → Chain t.alignment t.base_offset rs z
        → elim rs as (λ x. ℕ) [ [] ↦ t.base_offset | r ∷ s ↦ max_range_end (range_end r) s ] ≡ z
    from_values [] k = k
    from_values (r ∷ rs) k = max_range_end-Chain t.alignment (range_end r) rs z k.4

-- What `total_size_bytes` computes, from the next offset.
layout_size-next : (t : SsdFileLayout) → layout_size t ≡ next_range_offset t - t.base_offset
unfolding layout_size next_range_offset
layout_size-next t = from_values (values t.ranges)
  where
    from_values :
        (rs : List SsdRange)
        → elim rs as (λ x. ℕ) [ [] ↦ 0 | r ∷ s ↦ max_range_end (range_end r) s - t.base_offset ]
          ≡ elim rs as (λ x. ℕ) [ [] ↦ t.base_offset | r ∷ s ↦ max_range_end (range_end r) s ]
            - t.base_offset
    from_values [] = omega arith
    from_values (r ∷ rs) = refl

-- The size of the file of a chained table is that of the blocks, and less than one alignment
-- unit of padding for each.
pub layout_size_bounds :
    (t : SsdFileLayout)
    → IsChained t
    → (sum_by (λ r. r.size_bytes) (values t.ranges) ≤ layout_size t)
      × (layout_size t ≤ sum_by (λ r. r.size_bytes + (t.alignment - 1)) (values t.ranges))
layout_size_bounds t c =
    rw (layout_size-next t) (Chain-size t.alignment t.base_offset (values t.ranges) _ c.chain)

pub get_range-ok :
    (t : SsdFileLayout) (a b : ℕ) (r : SsdRange)
    → get_range a b t ≡ ok r
    → get key_discrete (a, b) t.ranges ≡ some r
unfolding get_range
get_range-ok t a b r h = ground arith

-- In a chained table, the ranges that `get_range` returns for two keys are aligned and have no
-- byte in common.
pub get_range-apart :
    (t : SsdFileLayout) (a b a' b' : ℕ) (r r' : SsdRange)
    → IsChained t
    → get_range a b t ≡ ok r
    → get_range a' b' t ≡ ok r'
    → ◌≢◌ {A = BlockKey} (a, b) (a', b')
    → (r.offset % t.alignment ≡ 0)
      × (r'.offset % t.alignment ≡ 0)
      × ((range_end r ≤ r'.offset) ⊎ (range_end r' ≤ r.offset))
get_range-apart t a b a' b' r r' c h h' n =
    let e = get_range-ok t a b r h in
    let e' = get_range-ok t a' b' r' h' in
    let aligned = Chain-aligned t.alignment t.base_offset (values t.ranges) _ c.chain in
    let apart = (Chain-apart t.alignment t.base_offset (values t.ranges) _ c.chain).0 in
    (
      get-values-All key_discrete (λ q. q.offset % t.alignment ≡ 0) (a, b) t.ranges r aligned e,
      get-values-All key_discrete (λ q. q.offset % t.alignment ≡ 0) (a', b') t.ranges r' aligned e',
      AllPairs-get key_discrete (λ p q. range_end p ≤ q.offset) (a, b) (a', b') t.ranges r r' apart
          e e' n,
    )

module _ {Fl : Type 0} (b : KvBlock Fl) (t : SsdFileLayout) where
  -- The range that a block is given.
  abbrev pub given_range : SsdRange
  given_range = record {
    layer_id = b.layer_id;
    block_id = b.block_id;
    offset = align t.alignment (next_range_offset t);
    size_bytes = b.size_bytes;
  }

  abbrev pub with_range : SsdFileLayout
  with_range = record t { ranges = set key_discrete (key b) given_range t.ranges }

  -- How `add_block` ends, by whether the key is known and whether the block is empty.
  abbrev pub AddOutcome : Bool → Bool → Result (SsdRange × SsdFileLayout) → Type 0
  AddOutcome true empty out = out ≡ err (key_error "SSD range already exists for block")
  AddOutcome false true out =
      out ≡ err (value_error "block size_bytes must be positive for SSD layout")
  AddOutcome false false out =
      (out ≡ ok (given_range, with_range))
      × IsChained with_range
      × (next_range_offset with_range ≡ range_end given_range)
      × (get_range b.layer_id b.block_id with_range ≡ ok given_range)

  add_range_new :
      contains key_discrete (key b) t.ranges ≡ false
      → (b.size_bytes == 0) ≡ false
      → add_range b t ≡ ok (given_range, with_range)
  unfolding add_range ssd_range
  add_range_new new nonempty = rw (new, nonempty) (ground arith)

  module _ (c : IsChained t) (new : contains key_discrete (key b) t.ranges ≡ false)
      (nonempty : (b.size_bytes == 0) ≡ false) where
    values-with_range : values with_range.ranges ≡ values t.ranges ++ given_range ∷ []
    values-with_range =
        ap values (
          set_absent key_discrete (key b) given_range t.ranges
            (contains-eq-false key_discrete (key b) t.ranges new))
        ∙ values-append t.ranges _

    with_range-Chain :
        Chain t.alignment t.base_offset (values with_range.ranges) (range_end given_range)
    with_range-Chain =
        let rounded = align_lem t.alignment (next_range_offset t) c.positive in
        rw values-with_range (
          Chain-append t.alignment t.base_offset _ _ given_range c.chain
            (rounded.1, rounded.2, rounded.0, ground arith, refl))

    next-with_range : next_range_offset with_range ≡ range_end given_range
    next-with_range = next_range_offset-Chain with_range (range_end given_range) with_range-Chain

    with_range-IsChained : IsChained with_range
    with_range-IsChained = record {
      positive = c.positive;
      chain = rw next-with_range with_range-Chain;
      keyed = set-All key_discrete _ (key b) given_range t.ranges (λ j e. e) c.keyed;
    }

  get_range-with_range : get_range b.layer_id b.block_id with_range ≡ ok given_range
  unfolding get_range
  get_range-with_range = rw (get-set_self key_discrete (key b) given_range t.ranges, get_range) refl

  -- In a chained table, a block that has a range, or has no bytes, is refused; any other gets the
  -- first aligned offset behind all the ranges, where `get_range` finds it, and the table stays
  -- chained.
  pub add_range-AddOutcome :
      IsChained t
      → AddOutcome (contains key_discrete (key b) t.ranges) (b.size_bytes == 0) (add_range b t)
  add_range-AddOutcome c = elim (Bool-cases (contains key_discrete (key b) t.ranges)) [
    | inl known ↦ rw known (unfold add_range in rw known refl)
    | inr new ↦ elim (Bool-cases (b.size_bytes == 0)) [
      | inl empty ↦ rw (new, empty) (unfold add_range in rw (new, empty) refl)
      | inr nonempty ↦
          rw (new, nonempty)
            (
              add_range_new new nonempty,
              with_range-IsChained c new nonempty,
              next-with_range c new nonempty,
              get_range-with_range,
            )
    ]
  ]
