-- ===== src/Selector/Marks.antt =====
-- core/block_selector.py: the loops of `select` that mark and trace, as steps.
use solid_attention.Base.{
  ◌≡◌, refl, ◌∙◌, ap, sym, subst, true, List, [], ◌∷◌, ◌++◌, Pairwise, Result, if◌then◌else◌, ok,
  arith, All, All-imp, String, Option-cases, inl, inr, ◌==◌, ==_iff, Bool-cases,
}
use solid_attention.Base.Int.{pos}
use solid_attention.Base.Dict.{Dict, get, contains}
use solid_attention.Float.{FloatOps, FloatLaws}
use solid_attention.Block.{
  BlockRole, location_value, role_value, Value, KvBlock, BlockKey, key, key_discrete, mark_role,
}
use solid_attention.Trace.{TraceEvent}
use solid_attention.World.{Ref, World, update}
use solid_attention.World.Effects.{
  traced, traced-nil, traced-append, update_self, record_trace-timely,
}
use solid_attention.Selector.{trace_block, mark_loop, mark_selected_loop, score_of}

-- The role of a block after the blocks of the list were given the role.
abbrev pub role_in : BlockRole → List Ref → Ref → BlockRole → BlockRole
role_in role [] q old = old
role_in role (r ∷ rs) q old = role_in role rs q (if q == r then role else old)

module _ {Fl : Type 0} where
  -- Only the roles and the trace differ: the roles by `f`, the trace by the events at its end.
  pub record IsMarked (f : Ref → BlockRole → BlockRole) (es : List (TraceEvent Fl))
      (w w' : World Fl) : Type 0 where
    pub same_table : w'.blocks ≡ w.blocks
    pub same_metrics : w'.metrics ≡ w.metrics
    pub blocks : (q : Ref) → w'.heap q ≡ record (w.heap q) { role = f q (w.heap q).role }
    pub events : w'.trace ≡ traced es w.trace

  pub IsMarked-refl : (w : World Fl) → IsMarked (λ q old. old) [] w w
  IsMarked-refl w = record {
    same_table = refl;
    same_metrics = refl;
    blocks = λ q. refl;
    events = sym (traced-nil w.trace);
  }

  pub IsMarked-trans :
      (f g : Ref → BlockRole → BlockRole) (es fs : List (TraceEvent Fl)) (w w1 w2 : World Fl)
      → IsMarked f es w w1
      → IsMarked g fs w1 w2
      → IsMarked (λ q old. g q (f q old)) (es ++ fs) w w2
  IsMarked-trans f g es fs w w1 w2 m n = record {
    same_table = n.same_table ∙ m.same_table;
    same_metrics = n.same_metrics ∙ m.same_metrics;
    blocks = λ q.
        let again : KvBlock Fl → KvBlock Fl = λ b. record b { role = g q b.role } in
        n.blocks q ∙ ap again (m.blocks q);
    events = n.events ∙ ap (traced fs) m.events ∙ traced-append es fs w.trace;
  }

  pub marked_key :
      (f : Ref → BlockRole → BlockRole) (es : List (TraceEvent Fl)) (w w' : World Fl)
      → IsMarked f es w w'
      → (q : Ref) → key (w'.heap q) ≡ key (w.heap q)
  marked_key f es w w' m q = ap key (m.blocks q)

module _ {Fl : Type 0} ⦃fl : FloatOps Fl⦄ (laws : FloatLaws fl) (start : Fl) where
  -- The event of `_trace`.
  abbrev pub mark_event : String → String → Fl → KvBlock Fl → TraceEvent Fl
  mark_event op reason score b = record {
    op = op;
    layer_id = b.layer_id;
    block_id = b.block_id;
    device = location_value b.location;
    start_ms = start;
    end_ms = start;
    metadata =
        ("role", Value.text (role_value b.role))
        ∷ ("reason", Value.text reason)
        ∷ ("score", Value.num score)
        ∷ ("start_token", Value.int (pos b.start_token))
        ∷ ("end_token", Value.int (pos b.end_token))
        ∷ [];
  }

  -- The world after a block was given a role and traced.
  abbrev marked : BlockRole → String → String → Fl → Ref → World Fl → World Fl
  marked role op reason score r w =
      let b = mark_role role (w.heap r) in
      record w {
        heap = update r b w.heap;
        trace = traced (mark_event op reason score b ∷ []) w.trace;
      }

  trace_block_lem :
      (role : BlockRole) (op reason : String) (score : Fl) (r : Ref) (w : World Fl)
      → trace_block op reason score start r
          (record w { heap = update r (mark_role role (w.heap r)) w.heap })
        ≡ (ok tt, marked role op reason score r w)
  unfolding trace_block
  trace_block_lem role op reason score r w =
      let b = mark_role role (w.heap r) in
      let w1 = record w { heap = update r b w.heap } in
      ground (
        arith,
        update_self r b w.heap,
        record_trace-timely (mark_event op reason score b) w1 (laws.lt_irrefl start),
      )

  -- An event for a block that was given the role, and is otherwise as it was in `w`.
  abbrev pub IsMarkEvent : World Fl → BlockRole → String → String → Ref → TraceEvent Fl → Type 0
  IsMarkEvent w role op reason r e =
      (score : Fl) × (e ≡ mark_event op reason score (record (w.heap r) { role = role }))

  -- Marking blocks before does not change the events.
  pub events_before :
      (f : Ref → BlockRole → BlockRole) (es : List (TraceEvent Fl)) (w w1 : World Fl)
      → IsMarked f es w w1
      → (role : BlockRole) (op reason : String) (rs : List Ref) (fs : List (TraceEvent Fl))
      → Pairwise (IsMarkEvent w1 role op reason) rs fs
      → Pairwise (IsMarkEvent w role op reason) rs fs
  events_before f es w w1 m role op reason [] [] h = h
  events_before f es w w1 m role op reason [] (e ∷ fs) h = h
  events_before f es w w1 m role op reason (r ∷ rs) [] h = h
  events_before f es w w1 m role op reason (r ∷ rs) (e ∷ fs) ((score, h), hs) = (
    (score, h ∙ ap (λ b. mark_event op reason score (record b { role = role })) (m.blocks r)),
    events_before f es w w1 m role op reason rs fs hs,
  )

  marked-IsMarked :
      (role : BlockRole) (op reason : String) (score : Fl) (r : Ref) (w : World Fl)
      → IsMarked
          (λ q old. if q == r then role else old)
          (mark_event op reason score (record (w.heap r) { role = role }) ∷ [])
          w
          (marked role op reason score r w)
  marked-IsMarked role op reason score r w = record {
    same_table = refl;
    same_metrics = refl;
    blocks = λ q. elim (Bool-cases (q == r)) [
      | inl here ↦ rw (here, (==_iff q r).0 here) refl
      | inr other ↦ rw other refl
    ];
    events = refl;
  }

  -- What a loop that marks the blocks does.
  abbrev pub Marks :
      BlockRole → String → String → List Ref → World Fl → Result (Unit {0}) × World Fl → Type 0
  Marks role op reason rs w out =
      (w' : World Fl) × (es : List (TraceEvent Fl)) × (out ≡ (ok tt, w'))
      × IsMarked (role_in role rs) es w w'
      × Pairwise (IsMarkEvent w role op reason) rs es

  -- The first block is marked, then the others.
  Marks-first :
      (role : BlockRole) (op reason : String) (score : Fl) (r : Ref) (rs : List Ref) (w : World Fl)
      (out : Result (Unit {0}) × World Fl)
      → Marks role op reason rs (marked role op reason score r w) out
      → Marks role op reason (r ∷ rs) w out
  Marks-first role op reason score r rs w out (w', es, run, m, events) =
      let e = mark_event op reason score (record (w.heap r) { role = role }) in
      let first = marked-IsMarked role op reason score r w in
      let w1 = marked role op reason score r w in
      let f : Ref → BlockRole → BlockRole = λ q old. if q == r then role else old in
      (
        w',
        e ∷ es,
        run,
        IsMarked-trans f (role_in role rs) (e ∷ []) es w w1 w' first m,
        ((score, refl), events_before f (e ∷ []) w w1 first role op reason rs es events),
      )

  pub mark_loop_lem :
      (role : BlockRole) (op reason : String) (rs : List Ref) (w : World Fl)
      → Marks role op reason rs w (mark_loop role op reason start rs w)
  unfolding mark_loop
  mark_loop_lem role op reason [] w = (w, [], refl, IsMarked-refl w, tt)
  mark_loop_lem role op reason (r ∷ rs) w =
      let w1 = marked role op reason (fl.of_nat 1) r w in
      let later = mark_loop_lem role op reason rs w1 in
      subst (Marks role op reason (r ∷ rs) w)
        (sym (ground (arith, trace_block_lem role op reason (fl.of_nat 1) r w)))
        (Marks-first role op reason (fl.of_nat 1) r rs w (mark_loop role op reason start rs w1)
          later)

  pub mark_selected_loop_lem :
      (scores : Dict BlockKey Fl) (rs : List Ref) (w : World Fl)
      → All (λ r. contains key_discrete (key (w.heap r)) scores ≡ true) rs
      → Marks BlockRole.selected "select_representative" "selected" rs w
          (mark_selected_loop scores start rs w)
  unfolding mark_selected_loop score_of
  mark_selected_loop_lem scores [] w known = (w, [], refl, IsMarked-refl w, tt)
  mark_selected_loop_lem scores (r ∷ rs) w known =
      elim (Option-cases (get key_discrete (key (w.heap r)) scores)) [
        | inl absent ↦ absurd (ground (arith, known.0))
        | inr (score, found) ↦
            let role = BlockRole.selected in
            let op : String = "select_representative" in
            let w1 = marked role op "selected" score r w in
            let step = marked-IsMarked role op "selected" score r w in
            let kept =
              All-imp (λ q. contains key_discrete (key (w.heap q)) scores ≡ true)
                (λ q. contains key_discrete (key (w1.heap q)) scores ≡ true)
                (λ q h. ap (λ k. contains key_discrete k scores) (marked_key _ _ w w1 step q) ∙ h)
                rs known.1 in
            let later = mark_selected_loop_lem scores rs w1 kept in
            let b = mark_role role (w.heap r) in
            subst (Marks role op "selected" (r ∷ rs) w)
              (sym (
                ground (
                  arith,
                  found,
                  update_self r b w.heap,
                  trace_block_lem role op "selected" score r w,
                )))
              (Marks-first role op "selected" score r rs w (mark_selected_loop scores start rs w1)
                later)
      ]
