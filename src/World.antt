-- ===== src/World.antt =====
-- The objects that the simulation shares and changes, and actions on them. A block is a mutable
-- Python object that the store, the plans and the callers all refer to: a reference is a number,
-- and the heap says what each block is now. Scheduler, prefetcher and selector may each be given
-- a trace recorder and a metrics collector, or none.
pub mod Effects
use solid_attention.Base.{
  ℕ, ◌≡◌, ap, Bool, Option, none, some, List, ◌==◌, if◌then◌else◌, Error, Result, ok, err,
}
use solid_attention.Base.Dict.{Dict}
use solid_attention.Float.{FloatOps}
use solid_attention.Block.{KvBlock, BlockKey}
use solid_attention.Trace.{TraceEvent, record_event}
use solid_attention.Metrics.{Metrics, add}

abbrev pub Ref : Type 0
Ref = ℕ

pub record World (Fl : Type 0) : Type 0 where
  pub heap : Ref → KvBlock Fl
  pub blocks : Dict BlockKey Ref
  pub trace : Option (List (TraceEvent Fl))
  pub metrics : Option (Metrics Fl)

-- What was changed before an exception stays changed.
abbrev pub Action : Type 0 → Type 0 → Type 0
Action Fl A = World Fl → Result A × World Fl

-- The heap after `r` became `b`.
abbrev pub update : {Fl : Type 0} → Ref → KvBlock Fl → (Ref → KvBlock Fl) → Ref → KvBlock Fl
update r b heap q = if q == r then b else heap q

module _ {Fl : Type 0} where
  abbrev pub pure : {A : Type 0} → A → Action Fl A
  pure a w = (ok a, w)

  abbrev pub raise : {A : Type 0} → Error → Action Fl A
  raise e w = (err e, w)

  abbrev pub gets : {A : Type 0} → (World Fl → A) → Action Fl A
  gets f w = (ok (f w), w)

  -- A step that may raise and changes nothing.
  abbrev pub lift : {A : Type 0} → Result A → Action Fl A
  lift r w = (r, w)

  abbrev pub modify : (World Fl → World Fl) → Action Fl (Unit {0})
  modify f w = (ok tt, f w)

  -- The block that a reference stands for now.
  abbrev pub deref : Ref → Action Fl (KvBlock Fl)
  deref r w = (ok (w.heap r), w)

  -- `block.attribute = ...`
  abbrev pub mutate : Ref → (KvBlock Fl → KvBlock Fl) → Action Fl (Unit {0})
  mutate r f w = (ok tt, record w { heap = update r (f (w.heap r)) w.heap })

infixl 5 ◌>>=◌ ◌>>◌
abbrev pub ◌>>=◌ : {Fl A B : Type 0} → Action Fl A → (A → Action Fl B) → Action Fl B
◌>>=◌ m f w = let (r, w') = m w in elim r [ ok a ↦ f a w' | err e ↦ (err e, w') ]

abbrev pub ◌>>◌ : {Fl A B : Type 0} → Action Fl A → Action Fl B → Action Fl B
m >> k = m >>= λ _. k

-- A step that returned, and what comes behind it.
pub then_ok :
    {Fl A B : Type 0} (m : Action Fl A) (f : A → Action Fl B) (w : World Fl) {w' : World Fl} {a : A}
    → m w ≡ (ok a, w')
    → (m >>= f) w ≡ f a w'
then_ok m f w h = ap (λ q. elim q.0 [ ok a ↦ f a q.1 | err e ↦ (err e, q.1) ]) h

pub then_raises :
    {Fl A B : Type 0} (m : Action Fl A) (f : A → Action Fl B) (w : World Fl) {e : Error}
    → (m w).0 ≡ err e
    → ((m >>= f) w).0 ≡ err e
then_raises {Fl} {A} {B} m f w {e} h = cases (m w).0 h
  where
    cases :
        (r : Result A)
        → r ≡ err e
        → (elim r as (λ x. Result B × World Fl) [ ok a ↦ f a (m w).1 | err x ↦ (err x, (m w).1) ]).0
          ≡ err e
    cases (ok a) k = cc
    cases (err x) k = cc

-- `if test: body`
abbrev pub when : {Fl : Type 0} → Bool → Action Fl (Unit {0}) → Action Fl (Unit {0})
when test body w = if test then body w else (ok tt, w)

module _ {Fl : Type 0} ⦃fl : FloatOps Fl⦄ where
  -- `if self.trace is not None: self.trace.record(...)`
  unfoldable pub record_trace : TraceEvent Fl → Action Fl (Unit {0})
  record_trace e w = elim w.trace [
    | none ↦ (ok tt, w)
    | some events ↦ elim (record_event events e) [
      | ok later ↦ (ok tt, record w { trace = some later })
      | err x ↦ (err x, w)
    ]
  ]

  -- `if self.metrics is not None: self.metrics.add(...)`
  unfoldable pub add_metrics : Metrics Fl → Action Fl (Unit {0})
  add_metrics d w = elim w.metrics [
    | none ↦ (ok tt, w)
    | some m ↦ (ok tt, record w { metrics = some (add m d) })
  ]
