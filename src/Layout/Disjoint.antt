-- ===== src/Layout/Disjoint.antt =====
-- core/kv_layout.py: no byte of an interleaved layout serves two tokens, in one block or in two.
use solid_attention.Base.{
  ℕ, ◌≤◌, ◌<◌, ◌≡◌, refl, ◌≢◌, ◌⊎◌, inl, inr, some, ok, Option-cases, some_inj, arith, subst, sym,
  ap, ◌∙◌,
}
use mathlib.Core.Path.{ap₂}
use solid_attention.Base.Int.{ℤ, pos, negsuc}
use solid_attention.Base.Dict.{get, AllPairs-get, get-values-All}
use solid_attention.Block.{BlockKey, key_discrete}
use solid_attention.Layout.{
  KvExtent, extent_end, BlockLayout, end_offset, InterleavedKvLayout, token_extents, find_extents,
  next_offset,
}
use solid_attention.Layout.Extents.{
  IsLayout, Holds, key_range, value_range, token_extents-ExtentsOutcome, ExtentsOutcome,
  pairs_apart, pair_within,
}
use solid_attention.Layout.Packing.{IsPacked, spans_apart}

-- What a successful `token_extents` has returned.
record Found {Fl : Type 0} (l : BlockLayout Fl) (v : IsLayout l) (x : ℤ) (k u : KvExtent)
    : Type 0 where
  token : ℕ
  is_token : x ≡ pos token
  held : Holds l v token
  key_found : k ≡ key_range l v token
  value_found : u ≡ value_range l v token

module _ {Fl : Type 0} where
  found :
      (l : BlockLayout Fl) (v : IsLayout l) (x : ℤ) (k u : KvExtent)
      → ExtentsOutcome l v x (token_extents l x)
      → token_extents l x ≡ ok (k, u)
      → Found l v x k u
  found l v (negsuc n) k u out e = absurd (ground arith)
  found l v (pos t) k u (inr o) e = absurd (ground arith)
  found l v (pos t) k u (inl o) e = record {
    token = t;
    is_token = refl;
    held = o.0;
    key_found = ground arith;
    value_found = ground arith;
  }

  find_extents-ok :
      (t : InterleavedKvLayout Fl) (a b : ℕ) (x : ℤ) (k u : KvExtent)
      → find_extents a b x t ≡ ok (k, u)
      → (l : BlockLayout Fl) × (get key_discrete (a, b) t.layouts ≡ some l)
        × (token_extents l x ≡ ok (k, u))
  unfolding find_extents
  find_extents-ok t a b x k u h = elim (Option-cases (get key_discrete (a, b) t.layouts)) [
    | inl unknown ↦ absurd (ground arith)
    | inr (l, known) ↦ (l, known, ground arith)
  ]

  -- Two tokens of one block.
  tokens_apart :
      (l : BlockLayout Fl) (v : IsLayout l) (x x' : ℤ) (k u k' u' : KvExtent)
      → x ≢ x'
      → Found l v x k u
      → Found l v x' k' u'
      → (extent_end u ≤ k'.offset) ⊎ (extent_end u' ≤ k.offset)
  tokens_apart l v x x' k u k' u' n f f' =
      let apart : f.token ≢ f'.token = λ e. n (f.is_token ∙ ap pos e ∙ sym f'.is_token) in
      rw (f.key_found, f.value_found, f'.key_found, f'.value_found) (ordered (omega (arith, apart)))
    where
      ordered :
          (f.token < f'.token) ⊎ (f'.token < f.token)
          → (extent_end (value_range l v f.token) ≤ (key_range l v f'.token).offset)
            ⊎ (extent_end (value_range l v f'.token) ≤ (key_range l v f.token).offset)
      ordered (inl lt) = inl (pairs_apart l v f.token f'.token f.held f'.held lt)
      ordered (inr gt) = inr (pairs_apart l v f'.token f.token f'.held f.held gt)

  -- Tokens of two blocks whose spans do not meet.
  blocks_apart :
      (l l' : BlockLayout Fl) (v : IsLayout l) (v' : IsLayout l') (x x' : ℤ) (k u k' u' : KvExtent)
      → (end_offset l ≤ l'.base_offset) ⊎ (end_offset l' ≤ l.base_offset)
      → Found l v x k u
      → Found l' v' x' k' u'
      → (extent_end u ≤ k'.offset) ⊎ (extent_end u' ≤ k.offset)
  blocks_apart l l' v v' x x' k u k' u' apart f f' =
      let w = pair_within l v f.token f.held in
      let w' = pair_within l' v' f'.token f'.held in
      rw (f.key_found, f.value_found, f'.key_found, f'.value_found) (omega arith)

  adjacent :
      (l : BlockLayout Fl) (v : IsLayout l) (x : ℤ) (k u : KvExtent)
      → Found l v x k u
      → extent_end k ≡ u.offset
  adjacent l v x k u f = rw (f.key_found, f.value_found) refl

  -- In a packed table, two tokens that differ in layer, block or number, and for each of which
  -- `token_extents` returns a key and a value range, have no byte in common:
  -- each key range ends where its value range begins, and one pair ends before the other begins.
  pub find_extents-apart :
      (t : InterleavedKvLayout Fl) (a b a' b' : ℕ) (x x' : ℤ) (k u k' u' : KvExtent)
      → IsPacked t
      → find_extents a b x t ≡ ok (k, u)
      → find_extents a' b' x' t ≡ ok (k', u')
      → ◌≢◌ {A = BlockKey × ℤ} ((a, b), x) ((a', b'), x')
      → (extent_end k ≡ u.offset)
        × (extent_end k' ≡ u'.offset)
        × ((extent_end u ≤ k'.offset) ⊎ (extent_end u' ≤ k.offset))
  find_extents-apart t a b a' b' x x' k u k' u' p h h' other =
      let (l, known, e) = find_extents-ok t a b x k u h in
      let (l', known', e') = find_extents-ok t a' b' x' k' u' h' in
      let v = get-values-All key_discrete IsLayout (a, b) t.layouts l p.layouts_valid known in
      let v' = get-values-All key_discrete IsLayout (a', b') t.layouts l' p.layouts_valid known' in
      let f = found l v x k u (token_extents-ExtentsOutcome l v x) e in
      let f' = found l' v' x' k' u' (token_extents-ExtentsOutcome l' v' x') e' in
      (
        adjacent l v x k u f,
        adjacent l' v' x' k' u' f',
        elim (key_discrete (a, b) (a', b')) [
          | yes same ↦
              let one : l' ≡ l =
                some_inj (sym known' ∙ ap (λ q. get key_discrete q t.layouts) (sym same) ∙ known) in
              let g = subst (λ m. token_extents m x' ≡ ok (k', u')) one e' in
              tokens_apart l v x x' k u k' u' (λ q. other (ap₂ (λ i j. (i, j)) same q)) f
                (found l v x' k' u' (token_extents-ExtentsOutcome l v x') g)
          | no n ↦
              blocks_apart l l' v v' x x' k u k' u'
                (AllPairs-get key_discrete (λ c d. end_offset c ≤ d.base_offset) (a, b) (a', b')
                  t.layouts l l' (spans_apart t.base_offset _ (next_offset t) p.tiles).0 known
                  known' n)
                f f'
        ],
      )
