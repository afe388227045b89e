-- ===== src/Selector/Ranks.antt =====
-- core/block_selector.py: what the ranking by score is.
use solid_attention.Base.{
  ◌≡◌, refl, subst, Error, Any, true, false, ◌⊎◌, Option, List, [], ◌∷◌, map, Result, ok, err, All,
  Bool-cases, inl, inr, ap, ◌∙◌, Result-cases, >>=-eq-ok, ok_inj,
}
use solid_attention.Base.Sort.{sorted, sorted-All, sorted-perm, Linked, IsLinked, sorted-IsLinked}
use mathlib.Core.List.{Perm}
use mathlib.Core.List.Perm
use solid_attention.Float.{FloatOps}
use solid_attention.Store.{key_lt}
use solid_attention.World.{Ref, World}
use solid_attention.Selector.{by_rank, score_all, rank_by_representative, representative_score}

-- The block does not stand before the other by `(start_token, block_id)`.
abbrev pub NotBefore : {Fl : Type 0} → World Fl → Ref → Ref → Type 0
NotBefore w q p =
    key_lt ((w.heap q).start_token, (w.heap q).block_id)
      ((w.heap p).start_token, (w.heap p).block_id)
    ≡ false

module _ {Fl : Type 0} ⦃fl : FloatOps Fl⦄ (w : World Fl) (query : Option (List Fl)) where
  -- The entry does not belong before the other: its score is not better, or the scores are equal
  -- and its block does not start before the other's.
  abbrev pub NotBetter : Ref × Fl → Ref × Fl → Type 0
  NotBetter (q, b) (p, a) =
      ((fl.eq (fl.neg b) (fl.neg a) ≡ true) × NotBefore w q p)
      ⊎ ((fl.eq (fl.neg b) (fl.neg a) ≡ false) × (fl.lt (fl.neg b) (fl.neg a) ≡ false))

  abbrev pub RankedFrom : Ref × Fl → List (Ref × Fl) → Type 0
  RankedFrom p [] = Unit
  RankedFrom p (q ∷ ranked) = NotBetter q p × RankedFrom q ranked

  -- The blocks with their scores, none of which belongs before the one in front of it.
  abbrev pub IsRanking : List (Ref × Fl) → Type 0
  IsRanking [] = Unit
  IsRanking (q ∷ ranked) =
      All (λ p. representative_score (w.heap p.0) query ≡ ok p.1) (q ∷ ranked) × RankedFrom q ranked

  by_rank-NotBetter : (q p : Ref × Fl) → by_rank w q p ≡ false → NotBetter q p
  by_rank-NotBetter (q, b) (p, a) h = elim (Bool-cases (fl.eq (fl.neg b) (fl.neg a))) [
    | inl same ↦ inl (same, rw same at h)
    | inr other ↦ inr (other, rw other at h)
  ]

  Linked-RankedFrom :
      (p : Ref × Fl) (ranked : List (Ref × Fl)) → Linked (by_rank w) p ranked → RankedFrom p ranked
  Linked-RankedFrom p [] l = tt
  Linked-RankedFrom p (q ∷ ranked) l = (by_rank-NotBetter q p l.0, Linked-RankedFrom q ranked l.1)

  Linked-IsRanking :
      (ranked : List (Ref × Fl))
      → All (λ p. representative_score (w.heap p.0) query ≡ ok p.1) ranked
      → IsLinked (by_rank w) ranked
      → IsRanking ranked
  Linked-IsRanking [] scores l = tt
  Linked-IsRanking (q ∷ ranked) scores l = (scores, Linked-RankedFrom q ranked l)

  -- A list of scores is complete, if there is one.
  abbrev ScoreOutcome : List Ref → Result (List (Ref × Fl)) → Type 0
  ScoreOutcome qs (err e) = Unit
  ScoreOutcome qs (ok scored) =
      All (λ q. representative_score (w.heap q.0) query ≡ ok q.1) scored
      × (map (λ q. q.0) scored ≡ qs)

  score_all-ScoreOutcome : (qs : List Ref) → ScoreOutcome qs (score_all w query qs)
  unfolding score_all
  score_all-ScoreOutcome [] = (tt, refl)
  score_all-ScoreOutcome (q ∷ qs) = elim (Result-cases (representative_score (w.heap q) query)) [
    | inr (e, failed) ↦ rw failed tt
    | inl (score, made) ↦ rw made (elim (Result-cases (score_all w query qs)) [
      | inr (e, failed) ↦ rw failed tt
      | inl (scored, rest) ↦
          let (all, same) = subst (ScoreOutcome qs) rest (score_all-ScoreOutcome qs) in
          rw rest ((made, all), ap (◌∷◌ q) same)
    ])
  ]

  score_all-fails :
      (qs : List Ref) (e : Error)
      → score_all w query qs ≡ err e
      → Any (λ q. representative_score (w.heap q) query ≡ err e) qs
  unfolding score_all
  score_all-fails [] e h = cc
  score_all-fails (q ∷ qs) e h = elim (Result-cases (representative_score (w.heap q) query)) [
    | inr (x, failed) ↦ inl (let k = (rw failed at h) in cc)
    | inl (score, made) ↦ inr (
        score_all-fails qs e (elim (Result-cases (score_all w query qs)) [
          | inr (x, failed) ↦ (let k = (rw (made, failed) at h) in cc)
          | inl (scored, rest) ↦ (let k = (rw (made, rest) at h) in cc)
        ]))
  ]

  -- If the blocks cannot be ranked, the score of one of them cannot be computed.
  pub unranked :
      (qs : List Ref) (e : Error)
      → rank_by_representative w query qs ≡ err e
      → Any (λ q. representative_score (w.heap q) query ≡ err e) qs
  unfolding rank_by_representative
  unranked qs e h = score_all-fails qs e (elim (Result-cases (score_all w query qs)) [
    | inr (x, failed) ↦ failed ∙ (rw failed at h)
    | inl (scored, made) ↦ (let k = (rw made at h) in cc)
  ])

  -- A ranking has the blocks with their scores, none of which belongs before the one in front.
  pub rank_lem :
      ((p q : Ref × Fl) → by_rank w p q ≡ true → by_rank w q p ≡ false)
      → (qs : List Ref) (ranked : List (Ref × Fl)) → rank_by_representative w query qs ≡ ok ranked
      → IsRanking ranked × Perm (map (λ q. q.0) ranked) qs
  unfolding rank_by_representative
  rank_lem asym qs ranked h =
      let (scored, made, same) = >>=-eq-ok (score_all w query qs) _ h in
      let (all, names) = subst (ScoreOutcome qs) made (score_all-ScoreOutcome qs) in
      let in_order = sorted-IsLinked (by_rank w) asym scored in
      let perm = Perm.map (λ q. q.0) (sorted-perm (by_rank w) scored) in
      subst (λ r. IsRanking r × Perm (map (λ q. q.0) r) qs) (ok_inj same)
        (
          Linked-IsRanking _ (sorted-All (by_rank w) _ scored all) in_order,
          subst (λ l. Perm (map (λ q. q.0) (sorted (by_rank w) scored)) l) names perm,
        )
