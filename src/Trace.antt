-- ===== src/Trace.antt =====
-- harness/trace.py: the recorder of simulated operations.
use solid_attention.Base.{
  ℕ, String, ◌≡◌, List, [], ◌∷◌, ◌++◌, Result, ok, value_error, ◌>>=◌, ◌>>◌, raise_if, arith,
}
use solid_attention.Float.{FloatOps}
use solid_attention.Block.{Metadata}
use mathlib.Core.Bool.{false}

pub record TraceEvent (Fl : Type 0) : Type 0 where
  pub op : String
  pub layer_id : ℕ
  pub block_id : ℕ
  pub device : String
  pub start_ms : Fl
  pub end_ms : Fl
  pub metadata : Metadata Fl

module _ {Fl : Type 0} ⦃fl : FloatOps Fl⦄ where
  -- `TraceEvent(...)` with the check of `__post_init__`.
  unfoldable pub trace_event : TraceEvent Fl → Result (TraceEvent Fl)
  trace_event e = do
    raise_if (fl.lt e.end_ms e.start_ms)
        (value_error "end_ms must be greater than or equal to start_ms")
    ok e

  abbrev pub duration_ms : TraceEvent Fl → Fl
  duration_ms e = fl.sub e.end_ms e.start_ms

  -- `TraceRecorder.record`: the events with the new one at the end.
  unfoldable pub record_event : List (TraceEvent Fl) → TraceEvent Fl → Result (List (TraceEvent Fl))
  unfolding trace_event
  record_event events e = do event ← trace_event e; ok (events ++ event ∷ [])

  -- `TraceRecorder.clear`
  unfoldable clear : List (TraceEvent Fl) → List (TraceEvent Fl)
  clear _ = []

  -- An event that does not end before it starts.
  abbrev pub IsTimely : TraceEvent Fl → Type 0
  IsTimely e = fl.lt e.end_ms e.start_ms ≡ false

  pub record_event-timely :
      (events : List (TraceEvent Fl)) (e : TraceEvent Fl)
      → IsTimely e
      → record_event events e ≡ ok (events ++ e ∷ [])
  unfolding record_event
  record_event-timely events e h = ground arith
