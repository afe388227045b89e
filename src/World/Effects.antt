-- ===== src/World/Effects.antt =====
-- What recording, counting and updating do to the shared objects, as equations.
use solid_attention.Base.{
  ◌≡◌, refl, ap, ◌≢◌, Option, none, some, List, [], ◌∷◌, ◌++◌, ◌==◌, ==_iff, ok, Bool-cases, inl,
  inr, arith, append_assoc, append-nil,
}
use mathlib.Core.Path.{fun_ext}
use solid_attention.Float.{FloatOps}
use solid_attention.Block.{KvBlock}
use solid_attention.Trace.{TraceEvent, IsTimely, record_event-timely}
use solid_attention.Metrics.{Metrics, add}
use solid_attention.World.{Ref, World, update, record_trace, add_metrics}

module _ {Fl : Type 0} where
  -- The trace after some events, if there is a recorder.
  abbrev pub traced :
      List (TraceEvent Fl) → Option (List (TraceEvent Fl)) → Option (List (TraceEvent Fl))
  traced es none = none
  traced es (some old) = some (old ++ es)

  pub traced-nil : (t : Option (List (TraceEvent Fl))) → traced [] t ≡ t
  traced-nil none = refl
  traced-nil (some old) = ap some (append-nil old)

  pub traced-append :
      (es fs : List (TraceEvent Fl)) (t : Option (List (TraceEvent Fl)))
      → traced fs (traced es t) ≡ traced (es ++ fs) t
  traced-append es fs none = refl
  traced-append es fs (some old) = ap some (append_assoc old es fs)

  pub update_self : (r : Ref) (b : KvBlock Fl) (h : Ref → KvBlock Fl) → update r b h r ≡ b
  update_self r b h = ground arith

  pub update_ne : (r q : Ref) (b : KvBlock Fl) (h : Ref → KvBlock Fl) → q ≢ r → update r b h q ≡ h q
  update_ne r q b h n = ground arith

  pub update-update :
      (r : Ref) (b c : KvBlock Fl) (h : Ref → KvBlock Fl) → update r c (update r b h) ≡ update r c h
  update-update r b c h = fun_ext (λ q. ground arith)

  pub update_same : (r : Ref) (h : Ref → KvBlock Fl) → update r (h r) h ≡ h
  update_same r h = fun_ext (λ q. elim (Bool-cases (q == r)) [
    | inl here ↦ rw (here, (==_iff q r).0 here) refl
    | inr there ↦ rw there refl
  ])

module _ {Fl : Type 0} ⦃fl : FloatOps Fl⦄ where
  -- The metrics after some increments, if there is a collector.
  abbrev pub charged : List (Metrics Fl) → Option (Metrics Fl) → Option (Metrics Fl)
  charged [] m = m
  charged (d ∷ ds) none = none
  charged (d ∷ ds) (some m) = charged ds (some (add m d))

  pub charged-append :
      (ds es : List (Metrics Fl)) (m : Option (Metrics Fl))
      → charged es (charged ds m) ≡ charged (ds ++ es) m
  charged-append [] es m = refl
  charged-append (d ∷ ds) [] none = refl
  charged-append (d ∷ ds) (e ∷ es) none = refl
  charged-append (d ∷ ds) es (some m) = charged-append ds es (some (add m d))

  record_traced :
      (e : TraceEvent Fl) (w : World Fl) (t : Option (List (TraceEvent Fl)))
      → IsTimely e
      → record_trace e (record w { trace = t }) ≡ (ok tt, record w { trace = traced (e ∷ []) t })
  unfolding record_trace
  record_traced e w none h = refl
  record_traced e w (some old) h = rw (record_event-timely old e h, record_trace) refl

  -- An event that ends no earlier than it starts is recorded.
  pub record_trace-timely :
      (e : TraceEvent Fl) (w : World Fl)
      → IsTimely e
      → record_trace e w ≡ (ok tt, record w { trace = traced (e ∷ []) w.trace })
  record_trace-timely e w h = record_traced e w w.trace h

  added :
      (d : Metrics Fl) (w : World Fl) (m : Option (Metrics Fl))
      → add_metrics d (record w { metrics = m })
        ≡ (ok tt, record w { metrics = charged (d ∷ []) m })
  unfolding add_metrics
  added d w none = refl
  added d w (some m) = refl

  pub add_metrics_lem :
      (d : Metrics Fl) (w : World Fl)
      → add_metrics d w ≡ (ok tt, record w { metrics = charged (d ∷ []) w.metrics })
  add_metrics_lem d w = added d w w.metrics
