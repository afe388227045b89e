-- ===== src/Selector/Groups.antt =====
-- core/block_selector.py: which blocks the groups that `select` returns have.
use solid_attention.Base.{
  ℕ, zero, suc, ◌-◌, ◌≡◌, refl, subst, Bool, Error, Any, true, false, Option, List, [], ◌∷◌, map,
  ok, err, arith, All, Bool-cases, inl, inr, length, take, drop, filter_by, ◌==◌, min, ◌++◌,
  append-nil, sym, ap, ◌∙◌,
}
use mathlib.Core.List.{Perm}
use solid_attention.Selector.Picks.{
  Picks, IsOutside, filter_by-Picks, IsOutside-decided, both-decided,
}
use solid_attention.Float.{FloatOps}
use solid_attention.World.{Ref, World}
use solid_attention.Selector.{
  SelectionConfig, SelectionResult, is_outside, init_of, local_of, last_ones, selected_candidates,
  by_rank, rank_by_representative, representative_score,
}
use solid_attention.Selector.Ranks.{IsRanking, unranked, rank_lem}

module _ {A : Type 0} where
  length-drop : (n : ℕ) (xs : List A) → length (drop n xs) ≡ length xs - n
  length-drop zero xs = omega arith
  length-drop (suc n) [] = omega arith
  length-drop (suc n) (x ∷ xs) = omega (arith, length-drop n xs)

take-drop : {A : Type 0} (n : ℕ) (xs : List A) → take n xs ++ drop n xs ≡ xs
take-drop zero xs = refl
take-drop (suc n) [] = refl
take-drop (suc n) (x ∷ xs) = ap (◌∷◌ x) (take-drop n xs)

length-take : {A : Type 0} (n : ℕ) (xs : List A) → length (take n xs) ≡ min n (length xs)
length-take zero xs = omega arith
length-take (suc n) [] = omega arith
length-take (suc n) (x ∷ xs) = omega (arith, length-take n xs)

-- The last ones stand at the end of the list, and are as many as asked for if there are so many.
last_ones_lem :
    (n : ℕ) (rs : List Ref)
    → (earlier : List Ref) × (rs ≡ earlier ++ last_ones n rs)
      × (length (last_ones n rs) ≡ min n (length rs))
unfolding last_ones
last_ones_lem n rs = elim (Bool-cases (n == 0)) [
  | inl empty ↦ rw empty (rs, sym (append-nil rs), ground arith)
  | inr some_left ↦ rw some_left (
    take (length rs - n) rs,
    sym (take-drop (length rs - n) rs),
    length-drop (length rs - n) rs ∙ (omega arith),
  )
]

module _ {Fl : Type 0} (w : World Fl) (cfg : SelectionConfig) (rs : List Ref) where
  module _ ⦃fl : FloatOps Fl⦄ (query : Option (List Fl)) where
    -- What the groups taken from the blocks `rs` of a layer are: `init_blocks` are the first of
    -- them, `local_blocks` the last of the others, `selected_blocks` the best of those left.
    pub record AreGroups (s : SelectionResult) : Type 0 where
      pub behind : List Ref
      pub init_first : rs ≡ s.init_blocks ++ behind
      pub init_length : length s.init_blocks ≡ min cfg.init_block_count (length rs)
      pub others : List Ref
      pub not_init : Picks (IsOutside w s.init_blocks) rs others
      pub earlier : List Ref
      pub local_last : others ≡ earlier ++ s.local_blocks
      pub local_length : length s.local_blocks ≡ min cfg.local_block_count (length others)
      pub candidates : List Ref
      pub not_taken :
          Picks (λ r. IsOutside w s.init_blocks r × IsOutside w s.local_blocks r) rs candidates
      pub best : List (Ref × Fl)
      pub worse : List (Ref × Fl)
      pub ranking : IsRanking w query (best ++ worse)
      pub all_ranked : Perm (map (λ q. q.0) (best ++ worse)) candidates
      pub selected_best : s.selected_blocks ≡ map (λ q. q.0) best
      pub selected_length :
          length s.selected_blocks ≡ min cfg.selected_block_count (length (best ++ worse))

    -- The groups that `select` forms of the blocks of the layer.
    abbrev pub groups_of : List (Ref × Fl) → SelectionResult
    groups_of ranked = record {
      init_blocks = init_of w cfg rs;
      local_blocks = local_of w cfg rs;
      selected_blocks = map (λ q. q.0) (take cfg.selected_block_count ranked);
    }

    pub map-All :
        (P : Ref → Type 0) (ranked : List (Ref × Fl))
        → All (λ q. P q.0) ranked
        → All P (map (λ q. q.0) ranked)
    map-All P [] h = tt
    map-All P (q ∷ ranked) h = (h.0, map-All P ranked h.1)

    length-firsts : (ranked : List (Ref × Fl)) → length (map (λ q. q.0) ranked) ≡ length ranked
    length-firsts [] = refl
    length-firsts (q ∷ ranked) = ground (arith, length-firsts ranked)

    Any-filter_by :
        (P : Ref → Type 0) (test : Ref → Bool) (qs : List Ref)
        → Any P (filter_by test qs)
        → Any P qs
    Any-filter_by P test [] h = h
    Any-filter_by P test (q ∷ qs) h = elim (Bool-cases (test q)) [
      | inl kept ↦ elim (rw kept at h) [
        | inl here ↦ inl here
        | inr later ↦ inr (Any-filter_by P test qs later)
      ]
      | inr dropped ↦ inr (Any-filter_by P test qs (rw dropped at h))
    ]

    -- If the candidates cannot be ranked, the score of one of the blocks cannot be computed.
    pub rank_fails :
        (e : Error)
        → rank_by_representative w query (selected_candidates w cfg rs) ≡ err e
        → Any (λ q. representative_score (w.heap q) query ≡ err e) rs
    unfolding selected_candidates
    rank_fails e h = Any-filter_by _ _ rs (unranked w query (selected_candidates w cfg rs) e h)

    pub groups_of-AreGroups :
        ((p q : Ref × Fl) → by_rank w p q ≡ true → by_rank w q p ≡ false)
        → (ranked : List (Ref × Fl))
        → rank_by_representative w query (selected_candidates w cfg rs) ≡ ok ranked
        → AreGroups (groups_of ranked)
    unfolding init_of local_of selected_candidates
    groups_of-AreGroups asym ranked e =
        let n = cfg.selected_block_count in
        let first = init_of w cfg rs in
        let others = filter_by (is_outside w first) rs in
        let (earlier, local_last, local_length) = last_ones_lem cfg.local_block_count others in
        let (ranking, perm) = rank_lem w query asym (selected_candidates w cfg rs) ranked e in
        let whole = sym (take-drop n ranked) in
        record {
          behind = drop cfg.init_block_count rs;
          init_first = sym (take-drop cfg.init_block_count rs);
          init_length = length-take cfg.init_block_count rs;
          others = others;
          not_init = filter_by-Picks _ _ (IsOutside-decided w first) rs;
          earlier = earlier;
          local_last = local_last;
          local_length = local_length;
          candidates = selected_candidates w cfg rs;
          not_taken = filter_by-Picks _ _ (both-decided w first (local_of w cfg rs)) rs;
          best = take n ranked;
          worse = drop n ranked;
          ranking = subst (IsRanking w query) whole ranking;
          all_ranked =
              subst (λ r. Perm (map (λ q. q.0) r) (selected_candidates w cfg rs)) whole perm;
          selected_best = refl;
          selected_length =
              length-firsts (take n ranked)
              ∙ length-take n ranked
              ∙ ap (λ r. min n (length r)) whole;
        }
