-- ===== src/Selector/Select.antt =====
-- core/block_selector.py: how `select` ends.
use solid_attention.Base.{
  ℕ, ◌≡◌, refl, ◌∙◌, ap, true, false, Option, List, [], ◌∷◌, ◌++◌, Result, ok, err, arith, Error,
  All, AllPairs, Any, Pairwise, All-imp, All-take, Result-cases, inl, inr, take, ◌⊎◌, Bool-cases,
  ◌==◌, ==_iff, filter_by,
}
use mathlib.Core.List.{Perm}
use solid_attention.Base.Int.{ℤ, pos, leb_ℤ}
use solid_attention.Base.Dict.{Dict, set, contains, contains-set}
use solid_attention.Base.Sort.{sorted-perm, sorted-IsSorted}
use solid_attention.Float.{FloatOps, FloatLaws, FloatOrder}
use solid_attention.Block.{BlockRole, BlockKey, key, key_discrete}
use solid_attention.Store.Stats.{key_lt_asym, key_lt_trans}
use solid_attention.Trace.{TraceEvent}
use solid_attention.World.{Ref, World}
use solid_attention.Selector.{
  SelectionConfig, SelectionResult, is_eligible, layer_blocks, selected_candidates, by_start,
  by_rank, representative_score, rank_by_representative, scores_from, select,
}
use solid_attention.Selector.Picks.{Picks, Decides, filter_by-Picks}
use solid_attention.Selector.Ranks.{NotBefore}
use solid_attention.Selector.Groups.{AreGroups, groups_of, groups_of-AreGroups, map-All, rank_fails}
use solid_attention.Selector.Marks.{
  role_in, IsMarked, IsMarked-trans, marked_key, IsMarkEvent, events_before, mark_loop_lem,
  mark_selected_loop_lem,
}

module _ {Fl : Type 0} ⦃fl : FloatOps Fl⦄ (w : World Fl) where
  scores_from-keeps :
      (k : BlockKey) (d : Dict BlockKey Fl) (ranked : List (Ref × Fl))
      → contains key_discrete k d ≡ true
      → contains key_discrete k (scores_from w d ranked) ≡ true
  unfolding scores_from
  scores_from-keeps k d [] h = h
  scores_from-keeps k d (q ∷ ranked) h =
      scores_from-keeps k (set key_discrete (key (w.heap q.0)) q.1 d) ranked
        (ground (arith, contains-set key_discrete k (key (w.heap q.0)) q.1 d, h))

  -- Every ranked block has a score.
  scored :
      (d : Dict BlockKey Fl) (ranked : List (Ref × Fl))
      → All (λ q. contains key_discrete (key (w.heap q.0)) (scores_from w d ranked) ≡ true) ranked
  unfolding scores_from
  scored d [] = tt
  scored d ((r, score) ∷ ranked) =
      let k = key (w.heap r) in
      let d1 = set key_discrete k score d in
      (
        scores_from-keeps k d1 ranked (ground (arith, contains-set key_discrete k k score d)),
        scored d1 ranked,
      )

module _ {Fl : Type 0} ⦃fl : FloatOps Fl⦄ (laws : FloatLaws fl) (order : FloatOrder fl)
    (cfg : SelectionConfig) (blocks : List Ref) (layer_id : ℕ) (current_token : ℤ)
    (query : Option (List Fl)) (start : Fl) (w : World Fl) where
  -- The block is of the layer and ends by the current token.
  abbrev pub IsEligible : Ref → Type 0
  IsEligible r =
      ((w.heap r).layer_id ≡ layer_id) × (leb_ℤ (pos (w.heap r).end_token) current_token ≡ true)

  -- The eligible blocks of the call, by their start.
  pub record IsLayer (layer : List Ref) : Type 0 where
    pub eligible : List Ref
    pub picked : Picks IsEligible blocks eligible
    pub same_blocks : Perm layer eligible
    pub by_start : AllPairs (λ p q. NotBefore w q p) layer

  -- The roles that the groups give, the later groups over the earlier ones.
  abbrev pub role_after : SelectionResult → Ref → BlockRole → BlockRole
  role_after s q old =
      role_in BlockRole.selected s.selected_blocks q
        (role_in BlockRole.local s.local_blocks q (role_in BlockRole.init s.init_blocks q old))

  -- What `select` does when it returns.
  pub record Chosen (layer : List Ref) (s : SelectionResult) (w' : World Fl) : Type 0 where
    pub groups : AreGroups w cfg layer query s
    pub init_events : List (TraceEvent Fl)
    pub local_events : List (TraceEvent Fl)
    pub selected_events : List (TraceEvent Fl)
    pub marked : IsMarked (role_after s) ((init_events ++ local_events) ++ selected_events) w w'
    pub init_traced :
        Pairwise
          (IsMarkEvent laws start w BlockRole.init "select_init" "init")
          s.init_blocks
          init_events
    pub local_traced :
        Pairwise
          (IsMarkEvent laws start w BlockRole.local "select_local" "local")
          s.local_blocks
          local_events
    pub selected_traced :
        Pairwise
          (IsMarkEvent laws start w BlockRole.selected "select_representative" "selected")
          s.selected_blocks
          selected_events

  -- How `select` ends.
  abbrev pub SelectOutcome : Result SelectionResult × World Fl → Type 0
  SelectOutcome out =
      (layer : List Ref) × IsLayer layer
      × (((e : Error) × (out ≡ (err e, w))
            × Any (λ r. representative_score (w.heap r) query ≡ err e) layer)
          ⊎ ((s : SelectionResult) × (w' : World Fl) × (out ≡ (ok s, w')) × Chosen layer s w'))

  IsEligible-decided : Decides IsEligible (is_eligible w layer_id current_token)
  IsEligible-decided r = elim (Bool-cases ((w.heap r).layer_id == layer_id)) [
    | inl here ↦ elim (Bool-cases (leb_ℤ (pos (w.heap r).end_token) current_token)) [
      | inl by_now ↦ inl (((==_iff _ layer_id).0 here, by_now), rw (here, by_now) refl)
      | inr later ↦ inr (λ h. (let k = h.1 in cc), rw (here, later) refl)
    ]
    | inr elsewhere ↦
        inr (λ h. (let k = (==_iff (w.heap r).layer_id layer_id).1 h.0 in cc), rw elsewhere refl)
  ]

  abbrev layer_of : List Ref
  layer_of = layer_blocks w blocks layer_id current_token

  layer_of-IsLayer : IsLayer layer_of
  unfolding layer_blocks
  layer_of-IsLayer =
      let place : Ref → BlockKey = λ r. ((w.heap r).start_token, (w.heap r).block_id) in
      record {
        eligible = filter_by (is_eligible w layer_id current_token) blocks;
        picked =
            filter_by-Picks IsEligible (is_eligible w layer_id current_token) IsEligible-decided
              blocks;
        same_blocks = sorted-perm (by_start w) _;
        by_start =
            sorted-IsSorted (by_start w) (λ p q. key_lt_asym (place p) (place q))
              (λ p q r. key_lt_trans (place p) (place q) (place r)) _;
      }

  abbrev place : Ref → BlockKey
  place r = ((w.heap r).start_token, (w.heap r).block_id)

  by_rank_asym : (p q : Ref × Fl) → by_rank w p q ≡ true → by_rank w q p ≡ false
  by_rank_asym (p, a) (q, b) h =
      let turned = order.eq_sym (fl.neg b) (fl.neg a) in
      elim (Bool-cases (fl.eq (fl.neg a) (fl.neg b))) [
        | inl same ↦ rw (turned, same) (key_lt_asym (place p) (place q) (rw same at h))
        | inr other ↦ rw (turned, other) (order.lt_asym _ _ (rw other at h))
      ]

  select_fails :
      (e : Error)
      → rank_by_representative w query (selected_candidates w cfg layer_of) ≡ err e
      → select cfg blocks layer_id current_token query start w ≡ (err e, w)
  unfolding select
  select_fails e h = ground (arith, h)

  select_returns :
      (ranked : List (Ref × Fl))
      → (h : rank_by_representative w query (selected_candidates w cfg layer_of) ≡ ok ranked)
      → (w' : World Fl) × (select cfg blocks layer_id current_token query start w
          ≡ (ok (groups_of w cfg layer_of query ranked), w'))
        × Chosen layer_of (groups_of w cfg layer_of query ranked) w'
  unfolding select
  select_returns ranked h =
      let s = groups_of w cfg layer_of query ranked in
      let scores = scores_from w [] ranked in
      let chosen = s.selected_blocks in
      let has_score : World Fl → Ref → Type 0 =
        λ v r. contains key_discrete (key (v.heap r)) scores ≡ true in
      let (w1, es1, run1, m1, t1) =
        mark_loop_lem laws start BlockRole.init "select_init" "init" s.init_blocks w in
      let (w2, es2, run2, m2, t2) =
        mark_loop_lem laws start BlockRole.local "select_local" "local" s.local_blocks w1 in
      let m = IsMarked-trans _ _ es1 es2 w w1 w2 m1 m2 in
      let known : All (has_score w) chosen =
        map-All w cfg layer_of query (has_score w) (take cfg.selected_block_count ranked)
          (All-take _ cfg.selected_block_count ranked (scored w [] ranked)) in
      let kept : All (has_score w2) chosen =
        All-imp (has_score w) (has_score w2)
          (λ q x. ap (λ k. contains key_discrete k scores) (marked_key _ _ w w2 m q) ∙ x) chosen
          known in
      let (w3, es3, run3, m3, t3) = mark_selected_loop_lem laws start scores chosen w2 kept in
      (
        w3,
        ground (arith, h, run1, run2, run3),
        record {
          groups = groups_of-AreGroups w cfg layer_of query by_rank_asym ranked h;
          init_events = es1;
          local_events = es2;
          selected_events = es3;
          marked = IsMarked-trans _ _ (es1 ++ es2) es3 w w2 w3 m m3;
          init_traced = t1;
          local_traced =
              events_before laws start _ es1 w w1 m1 BlockRole.local "select_local" "local"
                s.local_blocks es2 t2;
          selected_traced =
              events_before laws start _ (es1 ++ es2) w w2 m BlockRole.selected
                "select_representative" "selected" chosen es3 t3;
        },
      )

  -- For floats with the laws `FloatLaws` and `FloatOrder`, which IEEE 754 numbers have: `select` works
  -- on the layer, which are the blocks of the call that are of the layer and end by the current
  -- token, by their start. Either it raises the error of a block's score and changes nothing, or it
  -- returns three groups: the first blocks of the layer, the last ones of those with other keys,
  -- and of those with keys of neither group the first ones of a ranking, in which each block has
  -- its score and none belongs before the one in front of it. Each group is as long as its limit,
  -- or as there are blocks. The blocks of the groups get the role of their group, all else of every
  -- block, the table and the metrics are as before, and the trace, if there is one, grows by one event
  -- for each block of the groups, in order.
  pub select-SelectOutcome : SelectOutcome (select cfg blocks layer_id current_token query start w)
  select-SelectOutcome = (
    layer_of,
    layer_of-IsLayer,
    elim (Result-cases (rank_by_representative w query (selected_candidates w cfg layer_of))) [
      | inr (e, failed) ↦ inl (e, select_fails e failed, rank_fails w cfg layer_of query e failed)
      | inl (ranked, made) ↦
          let (w', run, done) = select_returns ranked made in
          inr (groups_of w cfg layer_of query ranked, w', run, done)
    ],
  )
