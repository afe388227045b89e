-- ===== src/Prefetcher/Evaluate.antt =====
-- core/prefetcher.py: hits, misses and wrong prefetches of `evaluate`.
use solid_attention.Base.{
  All-and, ◌+◌, ◌≡◌, refl, ◌≢◌, true, false, not, ◌||◌, none, List, [], ◌∷◌, ◌++◌, map, arith, ◌∙◌,
  ap, sym, All, All-imp, AllPairs, append-nil, append_assoc, Bool-cases, inl, inr, length,
  filter_by,
}
use solid_attention.Base.Dict.{
  Dict, get, set, contains, values, set_absent, get-set_ne, contains-set,
}
use solid_attention.Base.Unique.{dedupe-distinct, dedupe-All, find}
use solid_attention.Block.{BlockKey, key, key_discrete, is_resident, BlockLocation, same_location}
use solid_attention.Store.Held.{Stored}
use solid_attention.Store.Placed.{member, member-found, found}
use solid_attention.World.{Ref, World}
use solid_attention.Prefetcher.{
  PrefetchPlan, distinct, keyed_from, blocks_by_key, is_hit, is_miss, rate_blocks,
}

module _ {Fl : Type 0} (w : World Fl) where
  -- The entries of `{block.key: block for block in blocks}` when no key comes twice.
  abbrev pub entries : List Ref → Dict BlockKey Ref
  entries = map (λ r. (key (w.heap r), r))

  keyed_from-distinct :
      (d : Dict BlockKey Ref) (rs : List Ref)
      → AllPairs (λ p q. key (w.heap p) ≢ key (w.heap q)) rs
      → All (λ r. get key_discrete (key (w.heap r)) d ≡ none) rs
      → keyed_from w d rs ≡ d ++ entries rs
  unfolding keyed_from
  keyed_from-distinct d [] apart absent = sym (append-nil d)
  keyed_from-distinct d (r ∷ rs) apart absent =
      let k = key (w.heap r) in
      let d1 = set key_discrete k r d in
      let later : All (λ q. get key_discrete (key (w.heap q)) d1 ≡ none) rs =
        All-imp (λ q. (k ≢ key (w.heap q)) × (get key_discrete (key (w.heap q)) d ≡ none)) _
          (λ q h. get-set_ne key_discrete (key (w.heap q)) k r d (λ e. h.0 (sym e)) ∙ h.1) rs
          (All-and _ _ rs apart.0 absent.1) in
      keyed_from-distinct d1 rs apart.1 later
      ∙ ap (λ x. x ++ entries rs) (set_absent key_discrete k r d absent.0)
      ∙ append_assoc d ((k, r) ∷ []) (entries rs)

  nothing_known :
      (rs : List Ref) → All (λ r. get {V = Ref} key_discrete (key (w.heap r)) [] ≡ none) rs
  nothing_known [] = tt
  nothing_known (r ∷ rs) = (unfold get in refl, nothing_known rs)

  required_entries :
      (required : List Ref) → blocks_by_key w (distinct w required) ≡ entries (distinct w required)
  unfolding blocks_by_key
  required_entries required =
      let rs = distinct w required in
      keyed_from-distinct [] rs (dedupe-distinct key_discrete (λ r. key (w.heap r)) required)
        (nothing_known rs)

  hit_or_miss :
      (plan : PrefetchPlan) (planned : Dict BlockKey Ref) (e : BlockKey × Ref)
      → is_miss plan planned w e ≡ not (is_hit plan planned w e)
  unfolding is_hit is_miss
  hit_or_miss plan planned e = ground arith

  split_lengths :
      (plan : PrefetchPlan) (planned d : Dict BlockKey Ref)
      → length (values (filter_by (is_hit plan planned w) d))
          + length (values (filter_by (is_miss plan planned w) d))
        ≡ length d
  split_lengths plan planned [] = refl
  split_lengths plan planned (e ∷ d) =
      ground (arith, hit_or_miss plan planned e, split_lengths plan planned d)

  length-entries : (rs : List Ref) → length (entries rs) ≡ length rs
  length-entries [] = refl
  length-entries (r ∷ rs) = ground (arith, length-entries rs)

  -- A key is in the dictionary of a list if it was there before or is the key of an element.
  contains-keyed_from :
      (q : Ref) (d : Dict BlockKey Ref) (rs : List Ref)
      → contains key_discrete (key (w.heap q)) (keyed_from w d rs)
        ≡ (contains key_discrete (key (w.heap q)) d || found w q rs)
  unfolding keyed_from find
  contains-keyed_from q d [] = ground arith
  contains-keyed_from q d (r ∷ rs) = ground (
    arith,
    contains-keyed_from q (set key_discrete (key (w.heap r)) r d) rs,
    contains-set key_discrete (key (w.heap q)) (key (w.heap r)) r d,
  )

  no_key : (k : BlockKey) → contains {V = Ref} key_discrete k [] ≡ false
  unfolding get
  no_key k = refl

  -- A stored block has a planned key exactly when it is itself in the plan.
  planned_member :
      (q : Ref) (rs : List Ref)
      → Stored w q
      → All (Stored w) rs
      → contains key_discrete (key (w.heap q)) (blocks_by_key w rs) ≡ member q rs
  unfolding blocks_by_key
  planned_member q rs sq s =
      contains-keyed_from q [] rs
      ∙ ap (λ b. b || found w q rs) (no_key (key (w.heap q)))
      ∙ sym (member-found w q rs sq s)

  same_location_self : (l : BlockLocation) → same_location l l ≡ true
  same_location_self BlockLocation.ssd = refl
  same_location_self BlockLocation.dram = refl
  same_location_self BlockLocation.vram = refl

  module _ (plan : PrefetchPlan)
      (there : (q : Ref) → member q plan.blocks ≡ true → (w.heap q).location ≡ plan.target_location)
      (stored : All (Stored w) plan.blocks) where
    hit_member :
        (q : Ref)
        → Stored w q
        → is_hit plan (blocks_by_key w plan.blocks) w (key (w.heap q), q) ≡ member q plan.blocks
    unfolding is_hit is_resident
    hit_member q sq =
        rw (planned_member q plan.blocks sq stored) (elim (Bool-cases (member q plan.blocks)) [
          | inl planned ↦ rw (planned, there q planned) (same_location_self plan.target_location)
          | inr other ↦ rw other refl
        ])

    filter_entries :
        (rs : List Ref)
        → All (Stored w) rs
        → (values (filter_by (is_hit plan (blocks_by_key w plan.blocks) w) (entries rs))
            ≡ filter_by (λ q. member q plan.blocks) rs)
          × (values (filter_by (is_miss plan (blocks_by_key w plan.blocks) w) (entries rs))
              ≡ filter_by (λ q. not (member q plan.blocks)) rs)
    filter_entries [] s = (refl, refl)
    filter_entries (r ∷ rs) s =
        let planned = blocks_by_key w plan.blocks in
        ground (
          arith,
          hit_member r s.0,
          hit_or_miss plan planned (key (w.heap r), r),
          filter_entries rs s.1,
        )

    -- At a time when every planned block is stored and at the target, of the stored required
    -- blocks, each key once, exactly the planned ones are hits and the others are misses.
    pub rated :
        (required : List Ref)
        → All (Stored w) required
        → ((rate_blocks plan required w).hits
            ≡ filter_by (λ q. member q plan.blocks) (distinct w required))
          × ((rate_blocks plan required w).misses
              ≡ filter_by (λ q. not (member q plan.blocks)) (distinct w required))
    unfolding rate_blocks
    rated required s = rw (required_entries required) (
        filter_entries (distinct w required)
          (dedupe-All key_discrete (λ r. key (w.heap r)) (Stored w) required s))

  -- Hits and misses together are the required blocks, each key once.
  pub rated_all :
      (plan : PrefetchPlan) (required : List Ref)
      → length (rate_blocks plan required w).hits + length (rate_blocks plan required w).misses
        ≡ length (distinct w required)
  unfolding rate_blocks
  rated_all plan required =
      split_lengths plan (blocks_by_key w plan.blocks) (blocks_by_key w (distinct w required))
      ∙ ap length (required_entries required)
      ∙ length-entries (distinct w required)
