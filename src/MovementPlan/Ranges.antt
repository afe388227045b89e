-- ===== src/MovementPlan/Ranges.antt =====
-- core/movement_plan.py: the loop of `build_movement_plan` that gives each block a range.
use solid_attention.Base.{
  ◌<◌, ◌≡◌, refl, ◌≢◌, true, false, none, some, List, [], ◌∷◌, ok, Returns, arith, All, AllPairs,
  All-imp, All-and, subst, Bool, ◌∙◌, ap, sym, ◌==◌,
}
use solid_attention.Base.Dict.{
  Dict, get, contains, set, DistinctKeys, set-DistinctKeys, get-set_self, get-set_ne,
  contains-eq-false,
}
use solid_attention.Block.{KvBlock, BlockKey, key, key_discrete}
use solid_attention.SsdLayout.{SsdRange, SsdFileLayout, add_range}
use solid_attention.SsdLayout.Chain.{
  IsChained, given_range, with_range, AddOutcome, add_range-AddOutcome,
}
use solid_attention.MovementPlan.{add_ranges}

still_out :
    (k j : BlockKey) (r : SsdRange) (d : Dict BlockKey SsdRange)
    → k ≢ j
    → contains key_discrete k d ≡ false
    → contains key_discrete k (set key_discrete j r d) ≡ false
still_out k j r d n h =
    ap (λ o. elim o as (λ x. Bool) [ none ↦ false | some _ ↦ true ])
      (get-set_ne key_discrete k j r d n)
    ∙ h

still_in :
    (k j : BlockKey) (r q : SsdRange) (d : Dict BlockKey SsdRange)
    → contains key_discrete j d ≡ false
    → get key_discrete k d ≡ some q
    → get key_discrete k (set key_discrete j r d) ≡ some q
still_in k j r q d out h =
    let apart : k ≢ j = λ e.
      (let missing = contains-eq-false key_discrete j d out in
        let both = sym missing ∙ ap (λ i. get key_discrete i d) (sym e) ∙ h in cc) in
    get-set_ne key_discrete k j r d apart ∙ h

module _ {Fl : Type 0} where
  -- The block has a range of its own size.
  abbrev pub Ranged : SsdFileLayout → KvBlock Fl → Type 0
  Ranged t b =
      (r : SsdRange) × (get key_discrete (key b) t.ranges ≡ some r) × (r.size_bytes ≡ b.size_bytes)

  abbrev pub Nonempty : KvBlock Fl → Type 0
  Nonempty b = (0 < b.size_bytes) × (b.start_token < b.end_token)

  -- What the loop over the blocks makes of a layout.
  pub record IsFilled (blocks : List (KvBlock Fl)) (t u : SsdFileLayout) : Type 0 where
    pub chained : IsChained u
    pub distinct : DistinctKeys key_discrete u.ranges
    pub kept :
        (k : BlockKey) (r : SsdRange)
        → get key_discrete k t.ranges ≡ some r
        → get key_discrete k u.ranges ≡ some r
    pub ranged : All (Ranged u) blocks

  add_new :
      (b : KvBlock Fl) (t : SsdFileLayout)
      → IsChained t
      → 0 < b.size_bytes
      → contains key_discrete (key b) t.ranges ≡ false
      → (add_range b t ≡ ok (given_range b t, with_range b t)) × IsChained (with_range b t)
  add_new b t c bytes new =
      let size : (b.size_bytes == 0) ≡ false = ground arith in
      let out =
        subst {A = Bool × Bool} (λ q. AddOutcome b t q.0 q.1 (add_range b t)) (λ i. (new i, size i))
          (add_range-AddOutcome b t c) in
      (out.0, out.1)

  pub add_ranges-IsFilled :
      (blocks : List (KvBlock Fl)) (t : SsdFileLayout)
      → IsChained t
      → DistinctKeys key_discrete t.ranges
      → All Nonempty blocks
      → AllPairs (λ p q. key p ≢ key q) blocks
      → All (λ b. contains key_discrete (key b) t.ranges ≡ false) blocks
      → Returns (IsFilled blocks t) (add_ranges blocks t)
  unfolding add_ranges
  add_ranges-IsFilled [] t c d sizes apart new =
      (t, refl, record { chained = c; distinct = d; kept = λ k r h. h; ranged = tt })
  add_ranges-IsFilled (b ∷ blocks) t c d sizes apart new =
      let (added, chained) = add_new b t c sizes.0.0 new.0 in
      let r = given_range b t in
      let t1 = with_range b t in
      let (u, filled, f) =
        add_ranges-IsFilled blocks t1 chained (set-DistinctKeys key_discrete (key b) r t.ranges d)
          sizes.1 apart.1
          (All-imp _ _ (λ q (n, out). still_out (key q) (key b) r t.ranges (λ e. n (sym e)) out)
            blocks (All-and _ _ blocks apart.0 new.1)) in
      (
        u,
        rw added filled,
        record {
          chained = f.chained;
          distinct = f.distinct;
          kept = λ k q h. f.kept k q (still_in k (key b) r q t.ranges new.0 h);
          ranged = (
            (r, f.kept (key b) r (get-set_self key_discrete (key b) r t.ranges), refl),
            f.ranged,
          );
        },
      )
