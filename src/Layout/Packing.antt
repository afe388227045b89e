-- ===== src/Layout/Packing.antt =====
-- core/kv_layout.py: the blocks of an interleaved layout follow one another without a gap.
use solid_attention.Base.{
  ℕ, ◌≤◌, ◌<◌, ◌≡◌, refl, ◌≢◌, Bool, true, false, some, Result, ok, err, key_error, Bool-cases, inl,
  inr, arith, List, [], ◌∷◌, ◌++◌, All, AllPairs, All-append, All-imp, sym, ap, ◌∙◌, max,
}
use solid_attention.Base.Dict.{
  get, contains, set, values, values-append, set_absent, set-All, get-set_self, get-set_ne,
  contains-eq-false,
}
use solid_attention.Block.{KvBlock, BlockKey, key, key_discrete}
use solid_attention.Block.Checks.{IsWellFormed}
use solid_attention.Layout.{
  BlockLayout, block_layout, end_offset, InterleavedKvLayout, max_end, next_offset, add_block,
}
use solid_attention.Layout.Extents.{IsLayout}

module _ {Fl : Type 0} where
  -- The layouts fill the bytes from `a` to `z`, one behind the other.
  abbrev pub Tiles : ℕ → List (BlockLayout Fl) → ℕ → Type 0
  Tiles a [] z = a ≡ z
  Tiles a (l ∷ ls) z = (l.base_offset ≡ a) × Tiles (end_offset l) ls z

  -- What the table keeps under its calls.
  pub record IsPacked (t : InterleavedKvLayout Fl) : Type 0 where
    pub key_positive : 0 < t.key_size_bytes
    pub value_positive : 0 < t.value_size_bytes
    pub layouts_valid : All IsLayout (values t.layouts)
    pub tiles : Tiles t.base_offset (values t.layouts) (next_offset t)
    pub keyed : All (λ e. key (e.1).block ≡ e.0) t.layouts

  Tiles-le : (a : ℕ) (ls : List (BlockLayout Fl)) (z : ℕ) → Tiles a ls z → a ≤ z
  Tiles-le a [] z h = omega arith
  Tiles-le a (l ∷ ls) z h = omega (arith, Tiles-le (end_offset l) ls z h.1)

  max_end-Tiles : (a : ℕ) (ls : List (BlockLayout Fl)) (z : ℕ) → Tiles a ls z → max_end a ls ≡ z
  unfolding max_end
  max_end-Tiles a [] z h = h
  max_end-Tiles a (l ∷ ls) z h =
      let at_end : max a (end_offset l) ≡ end_offset l = omega arith in
      rw at_end (max_end-Tiles (end_offset l) ls z h.1)

  next_offset-Tiles :
      (t : InterleavedKvLayout Fl) (z : ℕ)
      → Tiles t.base_offset (values t.layouts) z
      → next_offset t ≡ z
  unfolding next_offset
  next_offset-Tiles t z h = from_values (values t.layouts) h
    where
      from_values :
          (ls : List (BlockLayout Fl))
          → Tiles t.base_offset ls z
          → elim ls as (λ x. ℕ) [ [] ↦ t.base_offset | l ∷ ls ↦ max_end (end_offset l) ls ] ≡ z
      from_values [] k = k
      from_values (l ∷ ls) k = max_end-Tiles (end_offset l) ls z k.1

  Tiles-append :
      (a : ℕ) (ls : List (BlockLayout Fl)) (z : ℕ) (l : BlockLayout Fl)
      → Tiles a ls z
      → l.base_offset ≡ z
      → Tiles a (ls ++ l ∷ []) (end_offset l)
  Tiles-append a [] z l h e = (e ∙ sym h, refl)
  Tiles-append a (x ∷ ls) z l h e = (h.0, Tiles-append (end_offset x) ls z l h.1 e)

  -- How `add_block` ends.
  abbrev pub AddOutcome :
      KvBlock Fl
      → InterleavedKvLayout Fl
      → Bool
      → Result (BlockLayout Fl × InterleavedKvLayout Fl)
      → Type 0
  AddOutcome b t true out = out ≡ err (key_error "layout already exists for block")
  AddOutcome b t false out =
      (l : BlockLayout Fl) × (t' : InterleavedKvLayout Fl) × (out ≡ ok (l, t'))
      × IsPacked t'
      × (l.base_offset ≡ next_offset t)
      × (next_offset t' ≡ end_offset l)
      × (get key_discrete (key b) t'.layouts ≡ some l)
      × ((k : BlockKey) → k ≢ key b → get key_discrete k t'.layouts ≡ get key_discrete k t.layouts)

  module _ (b : KvBlock Fl) (t : InterleavedKvLayout Fl) (v : IsWellFormed b) (p : IsPacked t) where
    abbrev laid_out : BlockLayout Fl
    laid_out = record {
      block = b;
      base_offset = next_offset t;
      key_size_bytes = t.key_size_bytes;
      value_size_bytes = t.value_size_bytes;
    }

    abbrev extended : InterleavedKvLayout Fl
    extended = record t { layouts = set key_discrete (key b) laid_out t.layouts }

    laid_out-IsLayout : IsLayout laid_out
    laid_out-IsLayout = record {
      block = v;
      key_positive = p.key_positive;
      value_positive = p.value_positive;
    }

    add_block_known :
        contains key_discrete (key b) t.layouts ≡ true
        → add_block b t ≡ err (key_error "layout already exists for block")
    unfolding add_block
    add_block_known h = rw h refl

    add_block_new :
        contains key_discrete (key b) t.layouts ≡ false → add_block b t ≡ ok (laid_out, extended)
    unfolding add_block block_layout
    add_block_new h = rw h (ground arith)

    module _ (new : contains key_discrete (key b) t.layouts ≡ false) where
      values-extended : values extended.layouts ≡ values t.layouts ++ laid_out ∷ []
      values-extended =
          ap values (
            set_absent key_discrete (key b) laid_out t.layouts
              (contains-eq-false key_discrete (key b) t.layouts new))
          ∙ values-append t.layouts _

      extended-Tiles : Tiles t.base_offset (values extended.layouts) (end_offset laid_out)
      extended-Tiles = rw values-extended (Tiles-append t.base_offset _ _ laid_out p.tiles refl)

      next_offset-extended : next_offset extended ≡ end_offset laid_out
      next_offset-extended = next_offset-Tiles extended (end_offset laid_out) extended-Tiles

      extended-IsPacked : IsPacked extended
      extended-IsPacked = record {
        key_positive = p.key_positive;
        value_positive = p.value_positive;
        layouts_valid =
            rw values-extended (All-append IsLayout _ _ p.layouts_valid (laid_out-IsLayout, tt));
        tiles = rw next_offset-extended extended-Tiles;
        keyed = set-All key_discrete _ (key b) laid_out t.layouts (λ j e. e) p.keyed;
      }

  -- In a packed table, a well-formed block that is laid out already is refused; any other is put
  -- right behind the last one, the other layouts stay, and the table stays packed.
  pub add_block-AddOutcome :
      (b : KvBlock Fl) (t : InterleavedKvLayout Fl)
      → IsWellFormed b
      → IsPacked t
      → AddOutcome b t (contains key_discrete (key b) t.layouts) (add_block b t)
  add_block-AddOutcome b t v p = elim (Bool-cases (contains key_discrete (key b) t.layouts)) [
    | inl known ↦ rw (known, add_block_known b t v p known) refl
    | inr new ↦
        rw (new, add_block_new b t v p new)
          (
            laid_out b t v p,
            extended b t v p,
            refl,
            extended-IsPacked b t v p new,
            refl,
            next_offset-extended b t v p new,
            get-set_self key_discrete (key b) _ t.layouts,
            λ k n. get-set_ne key_discrete k (key b) _ t.layouts n,
          )
  ]

  -- The spans of two blocks have no byte in common.
  pub spans_apart :
      (a : ℕ) (ls : List (BlockLayout Fl)) (z : ℕ)
      → Tiles a ls z
      → AllPairs (λ p q. end_offset p ≤ q.base_offset) ls × All (λ q. a ≤ q.base_offset) ls
  spans_apart a [] z h = (tt, tt)
  spans_apart a (l ∷ ls) z h =
      let (apart, above) = spans_apart (end_offset l) ls z h.1 in
      ((above, apart), (omega arith, All-imp _ _ (λ q k. omega arith) ls above))
