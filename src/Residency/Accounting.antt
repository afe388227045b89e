-- ===== src/Residency/Accounting.antt =====
-- harness/runtime_residency_executor.py: every operation of a plan is counted once.
use solid_attention.Base.{
  ℕ, ◌+◌, ◌≡◌, ◌⊎◌, refl, String, str_eq, true, false, Option, some, none, List, [], ◌∷◌, ◌++◌, ok,
  err, arith, ◌∙◌, ap, All, length, Option-cases, length-append, inl, inr,
}
use solid_attention.Base.Dict.{get, remove}
use solid_attention.Float.{FloatOps}
use solid_attention.Trace.{record_event-timely}
use solid_attention.Residency.{
  RuntimeBuffer, RuntimeOp, ExecutorConfig, Counts, Executor, Buffers, buffer_key_discrete,
  key_from_op, read_backing_or_pattern, ssd_to_dram, seed_source_buffer, copy_to_vram, compute_on,
  with_source, dram_to_vram, compute, evict_to_ssd, evicted, missed, run_op, op_event, execute_op,
  execute_from, execute,
}

-- The operations that the counters tell of, those that failed included.
abbrev pub handled : Counts → ℕ
handled c =
    c.ssd_read_count + c.dram_to_vram_copy_count + c.compute_count + c.evict_count
    + c.missing_source_count + c.size_mismatch_count + c.unsupported_op_count

module _ {Fl : Type 0} (op : RuntimeOp Fl) (cfg : ExecutorConfig)
    (no_file : cfg.backing_file ≡ none) where
  read_counts : (e : Executor Fl) → (read_backing_or_pattern op cfg e).1 ≡ e
  unfolding read_backing_or_pattern
  read_counts e = rw no_file refl

  -- What a step does to the number of operations handled, the trace and the buffers' traces.
  Counted : Executor Fl → Executor Fl → Type 0
  Counted e e' = (handled e'.counts ≡ handled e.counts + 1) × (e'.trace ≡ e.trace)

  ssd_to_dram_counts : (e : Executor Fl) → Counted e (ssd_to_dram op cfg e)
  unfolding ssd_to_dram Counted
  ssd_to_dram_counts e = ground (arith, read_counts e)

  copy_counts : (b : RuntimeBuffer) (e : Executor Fl) → Counted e (copy_to_vram op cfg b e)
  unfolding copy_to_vram Counted
  copy_counts b e = ground arith

  compute_on_counts : (b : RuntimeBuffer) (e : Executor Fl) → Counted e (compute_on op cfg b e)
  unfolding compute_on Counted
  compute_on_counts b e = ground arith

  seed_counts :
      (location : String) (e : Executor Fl)
      → (str_eq location "dram" ≡ true) ⊎ (str_eq location "vram" ≡ true)
      → (handled (seed_source_buffer op cfg location e).1.counts ≡ handled e.counts)
        × ((seed_source_buffer op cfg location e).1.trace ≡ e.trace)
  unfolding seed_source_buffer
  seed_counts location e known = ground (arith, read_counts e)

  with_source_counts :
      (found : Option RuntimeBuffer) (location : String)
      (rest : RuntimeBuffer → Executor Fl → Executor Fl) (e : Executor Fl)
      → (str_eq location "dram" ≡ true) ⊎ (str_eq location "vram" ≡ true)
      → ((b : RuntimeBuffer) (x : Executor Fl) → Counted x (rest b x))
      → Counted e (with_source op cfg found location rest e)
  unfolding Counted
  with_source_counts (some b) location rest e known h = h b e
  with_source_counts none location rest e known h =
      let (found, e1) = seed_source_buffer op cfg location e in
      let (same, kept) = seed_counts location e known in
      elim found
        as (λ o. Counted e (elim o [ some source ↦ rest source e1 | none ↦ missed op e1 ])) [
          | some b ↦ (omega (arith, (h b e1).0, same), (h b e1).1 ∙ kept)
          | none ↦ (omega (arith, same), kept)
        ]

  dram_to_vram_counts : (e : Executor Fl) → Counted e (dram_to_vram op cfg e)
  unfolding dram_to_vram
  dram_to_vram_counts e = with_source_counts _ "dram" (copy_to_vram op cfg) e (inl refl) copy_counts

  compute_counts : (e : Executor Fl) → Counted e (compute op cfg e)
  unfolding compute
  compute_counts e = with_source_counts _ "vram" (compute_on op cfg) e (inr refl) compute_on_counts

  evicted_counts :
      (b : RuntimeBuffer) (d v : Buffers) (e : Executor Fl)
      → Counted e (evicted op cfg b (record e { dram = d; vram = v }))
  unfolding Counted
  evicted_counts b d v e = (omega arith, refl)

  evict_to_ssd_counts : (e : Executor Fl) → Counted e (evict_to_ssd op cfg e)
  unfolding evict_to_ssd Counted
  evict_to_ssd_counts e =
      let k = key_from_op op in
      elim (Option-cases (get buffer_key_discrete k e.vram)) [
        | inr (b, in_vram) ↦
            rw (in_vram, evict_to_ssd)
              (evicted_counts b e.dram (remove buffer_key_discrete k e.vram) e)
        | inl off ↦ elim (Option-cases (get buffer_key_discrete k e.dram)) [
          | inr (b, in_dram) ↦
              rw (off, in_dram, evict_to_ssd)
                (evicted_counts b (remove buffer_key_discrete k e.dram) e.vram e)
          | inl out ↦
              rw (off, out, evict_to_ssd)
                (with_source_counts none "vram"
                  (λ b e1.
                    evicted op cfg b (record e1 { vram = remove buffer_key_discrete k e1.vram }))
                  e (inr refl)
                  (λ b x. evicted_counts b x.dram (remove buffer_key_discrete k x.vram) x))
        ]
      ]

  run_op_counts : (e : Executor Fl) → Counted e (run_op op cfg e)
  unfolding run_op Counted
  run_op_counts e =
      ground (
        arith,
        ssd_to_dram_counts e,
        dram_to_vram_counts e,
        compute_counts e,
        evict_to_ssd_counts e,
      )

module _ {Fl : Type 0} ⦃fl : FloatOps Fl⦄ (cfg : ExecutorConfig)
    (no_file : cfg.backing_file ≡ none) where
  -- No operation of the plan ends before it starts.
  abbrev pub AreTimely : List (RuntimeOp Fl) → Type 0
  AreTimely = All (λ op. fl.lt op.end_ms op.start_ms ≡ false)

  -- The executor after an operation whose event is recorded.
  abbrev pub after_run : RuntimeOp Fl → ℕ → Executor Fl → Executor Fl
  after_run op index e =
      let e1 = run_op op cfg e in record e1 { trace = e1.trace ++ op_event cfg op index e1 ∷ [] }

  pub execute_op_lem :
      (op : RuntimeOp Fl) (index : ℕ) (e : Executor Fl)
      → fl.lt op.end_ms op.start_ms ≡ false
      → execute_op cfg op index e ≡ (ok tt, after_run op index e)
  unfolding execute_op op_event
  execute_op_lem op index e timely =
      let e1 = run_op op cfg e in
      rw (record_event-timely e1.trace (op_event cfg op index e1) timely, execute_op) refl

  execute_from_counts :
      (index : ℕ) (ops : List (RuntimeOp Fl)) (e : Executor Fl)
      → AreTimely ops
      → (e' : Executor Fl) × (execute_from cfg index ops e ≡ (ok tt, e'))
        × (handled e'.counts ≡ handled e.counts + length ops)
        × (length e'.trace ≡ length e.trace + length ops)
  unfolding execute_from Counted
  execute_from_counts index [] e timely = (e, refl, omega arith, omega arith)
  execute_from_counts index (op ∷ ops) e timely =
      let e2 = after_run op index e in
      let step = run_op_counts op cfg no_file e in
      let (e', run, count, events) = execute_from_counts (index + 1) ops e2 timely.1 in
      (
        e',
        ap (λ q. elim q.0 [ ok _ ↦ execute_from cfg (index + 1) ops q.1 | err x ↦ (err x, q.1) ])
              (execute_op_lem op index e timely.0)
            ∙ run,
        omega (arith, step.0, count),
        omega (
          arith,
          events,
          length-append (run_op op cfg e).trace (op_event cfg op index (run_op op cfg e) ∷ []),
          ap length step.1,
        ),
      )

  -- Without a backing file, a plan none of whose operations ends before it starts runs to its end;
  -- each operation is counted exactly once, as done or as one kind of failure, and leaves one event.
  pub execute-accounts :
      (ops : List (RuntimeOp Fl)) (e : Executor Fl)
      → AreTimely ops
      → (e' : Executor Fl) × (execute cfg ops e ≡ (ok tt, e'))
        × (handled e'.counts ≡ handled e.counts + length ops)
        × (length e'.trace ≡ length e.trace + length ops)
  execute-accounts ops e timely = execute_from_counts 0 ops e timely
