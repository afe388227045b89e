-- ===== src/Residency/Contents.antt =====
-- harness/runtime_residency_executor.py: what the buffers hold, whatever the plan.
use solid_attention.Base.{
  either_way, str_eq, Result, ℕ, zero, suc, ◌+◌, ◌-◌, ◌≤◌, ◌≡◌, refl, String, Option, some, none,
  List, [], ◌∷◌, ok, err, arith, ◌∙◌, sym, subst, All, length, length-append, Option-cases,
  Bool-cases, inl, inr, ◌==◌,
}
use solid_attention.Base.Dict.{get, set, remove, set-All, get-All}
use solid_attention.Float.{FloatOps}
use solid_attention.Trace.{record_event}
use solid_attention.Residency.{
  op_event, BufferKey, RuntimeBuffer, buffer_key, RuntimeOp, ExecutorConfig, Executor, Buffers,
  buffer_key_discrete, key_from_op, buffer_from_op, pattern_from, zero_bytes,
  read_backing_or_pattern, ssd_to_dram, seed_source_buffer, copy_to_vram, compute_on, with_source,
  dram_to_vram, compute, evict_to_ssd, evicted, missed, unsupported, run_op, execute_op,
  execute_from,
}

-- A buffer under its own key, with as many bytes as it says.
abbrev pub IsFilled : BufferKey × RuntimeBuffer → Type 0
IsFilled e = (buffer_key e.1 ≡ e.0) × (length e.1.data_bytes ≡ e.1.size_bytes)

-- All the buffers in DRAM and in VRAM are such.
abbrev pub AreFilled : {Fl : Type 0} → Executor Fl → Type 0
AreFilled e = All IsFilled e.dram × All IsFilled e.vram

-- A read of a file gives no more bytes than were asked for.
abbrev pub ReadsAtMost : Option (ℕ → ℕ → List ℕ) → Type 0
ReadsAtMost none = Unit
ReadsAtMost (some read) = (offset n : ℕ) → length (read offset n) ≤ n

length-pattern_from : (seed i n : ℕ) → length (pattern_from seed i n) ≡ n
length-pattern_from seed i zero = refl
length-pattern_from seed i (suc n) = ground (arith, length-pattern_from seed (i + 1) n)

length-zero_bytes : (n : ℕ) → length (zero_bytes n) ≡ n
length-zero_bytes zero = refl
length-zero_bytes (suc n) = ground (arith, length-zero_bytes n)

remove-All :
    (k : BufferKey) (d : Buffers) → All IsFilled d → All IsFilled (remove buffer_key_discrete k d)
unfolding remove
remove-All k [] h = tt
remove-All k ((j, b) ∷ d) h =
    elim (buffer_key_discrete k j)
      as (λ x.
        All IsFilled (elim x [ yes _ ↦ d | no _ ↦ (j, b) ∷ remove buffer_key_discrete k d ])) [
          | yes _ ↦ h.1
          | no _ ↦ (h.0, remove-All k d h.1)
        ]

module _ {Fl : Type 0} (op : RuntimeOp Fl) (cfg : ExecutorConfig)
    (file : ReadsAtMost cfg.backing_file) where
  -- The bytes are as many as the operation asks for, and the buffers stay.
  read_fills :
      (e : Executor Fl)
      → let (bytes, e1) = read_backing_or_pattern op cfg e in
        (length bytes ≡ op.size_bytes) × (e1.dram ≡ e.dram) × (e1.vram ≡ e.vram)
  unfolding read_backing_or_pattern
  read_fills e = elim (Option-cases cfg.backing_file) [
    | inl absent ↦ rw absent (length-pattern_from _ 0 op.size_bytes, refl, refl)
    | inr (read, given) ↦
        let bound : length (read op.ssd_offset op.size_bytes) ≤ op.size_bytes =
          (subst ReadsAtMost given file) op.ssd_offset op.size_bytes in
        rw given (
          ground (
            arith,
            bound,
            length-append (read op.ssd_offset op.size_bytes)
                (zero_bytes (op.size_bytes - length (read op.ssd_offset op.size_bytes))),
            length-zero_bytes (op.size_bytes - length (read op.ssd_offset op.size_bytes)),
          ))
  ]

  filled :
      (bytes : List ℕ)
      → length bytes ≡ op.size_bytes
      → IsFilled (key_from_op op, buffer_from_op op bytes)
  filled bytes h = (refl, h)

  put-IsFilled :
      (b : RuntimeBuffer) (d : Buffers)
      → IsFilled (key_from_op op, b)
      → All IsFilled d
      → All IsFilled (set buffer_key_discrete (key_from_op op) b d)
  put-IsFilled b d f h =
      set-All buffer_key_discrete IsFilled (key_from_op op) b d (λ j e. (f.0 ∙ e, f.1)) h

  ssd_to_dram-AreFilled : (e : Executor Fl) → AreFilled e → AreFilled (ssd_to_dram op cfg e)
  unfolding ssd_to_dram
  ssd_to_dram-AreFilled e h =
      let (n, d, v) = read_fills e in
      let (bytes, e1) = read_backing_or_pattern op cfg e in
      (
        put-IsFilled (buffer_from_op op bytes) e1.dram (filled bytes n)
            (subst (All IsFilled) (sym d) h.0),
        subst (All IsFilled) (sym v) h.1,
      )

  -- What a seeding leaves: filled buffers, and a filled one if it gives one.
  abbrev SeedOutcome : Option RuntimeBuffer × Executor Fl → Type 0
  SeedOutcome (none, e) = AreFilled e
  SeedOutcome (some b, e) = IsFilled (key_from_op op, b) × AreFilled e

  seed-AreFilled :
      (location : String) (e : Executor Fl)
      → AreFilled e
      → SeedOutcome (seed_source_buffer op cfg location e)
  unfolding seed_source_buffer read_backing_or_pattern
  seed-AreFilled location e h =
      let (n, d, v) = read_fills e in
      let (bytes, e1) = read_backing_or_pattern op cfg e in
      let b = buffer_from_op op bytes in
      let in_dram = subst (All IsFilled) (sym d) h.0 in
      let in_vram = subst (All IsFilled) (sym v) h.1 in
      elim (Bool-cases cfg.seed_missing_sources) [
        | inr off ↦ rw off h
        | inl seeds ↦ elim (Bool-cases (str_eq location "dram")) [
          | inl to_dram ↦
              rw (seeds, to_dram)
                (filled bytes n, (put-IsFilled b e1.dram (filled bytes n) in_dram, in_vram))
          | inr other ↦ elim (Bool-cases (str_eq location "vram")) [
            | inl to_vram ↦
                rw (seeds, other, to_vram)
                  (filled bytes n, (in_dram, put-IsFilled b e1.vram (filled bytes n) in_vram))
            | inr neither ↦ rw (seeds, other, neither) (in_dram, in_vram)
          ]
        ]
      ]

  with_source-AreFilled :
      (found : Option RuntimeBuffer) (location : String)
      (rest : RuntimeBuffer → Executor Fl → Executor Fl) (e : Executor Fl)
      → ((b : RuntimeBuffer) → found ≡ some b → IsFilled (key_from_op op, b))
      → ((b : RuntimeBuffer) (x : Executor Fl)
          → IsFilled (key_from_op op, b)
          → AreFilled x
          → AreFilled (rest b x))
      → AreFilled e
      → AreFilled (with_source op cfg found location rest e)
  with_source-AreFilled (some b) location rest e f keeps h = keeps b e (f b refl) h
  with_source-AreFilled none location rest e f keeps h =
      let out = seed-AreFilled location e h in
      let (found, e1) = seed_source_buffer op cfg location e in
      (elim found
          as (λ o.
            SeedOutcome (o, e1)
            → AreFilled (elim o [ some source ↦ rest source e1 | none ↦ missed op e1 ])) [
              | some b ↦ λ s. keeps b e1 s.0 s.1
              | none ↦ λ s. s
            ])
        out

  copy-AreFilled :
      (b : RuntimeBuffer) (e : Executor Fl)
      → IsFilled (key_from_op op, b)
      → AreFilled e
      → AreFilled (copy_to_vram op cfg b e)
  unfolding copy_to_vram
  copy-AreFilled b e f h = elim (Bool-cases (b.size_bytes == op.size_bytes)) [
    | inl same ↦ rw same (h.0, put-IsFilled b e.vram f h.1)
    | inr differs ↦ rw differs h
  ]

  compute_on-AreFilled :
      (b : RuntimeBuffer) (e : Executor Fl) → AreFilled e → AreFilled (compute_on op cfg b e)
  unfolding compute_on
  compute_on-AreFilled b e h = elim (Bool-cases (b.size_bytes == op.size_bytes)) [
    | inl same ↦ rw same h
    | inr differs ↦ rw differs h
  ]

  dropped-AreFilled :
      (d : Buffers) → All IsFilled d → All IsFilled (remove buffer_key_discrete (key_from_op op) d)
  dropped-AreFilled d h = remove-All (key_from_op op) d h

  evict-AreFilled : (e : Executor Fl) → AreFilled e → AreFilled (evict_to_ssd op cfg e)
  unfolding evict_to_ssd
  evict-AreFilled e h =
      let k = key_from_op op in
      elim (Option-cases (get buffer_key_discrete k e.vram)) [
        | inr (b, in_vram) ↦ rw (in_vram, evict_to_ssd) (h.0, dropped-AreFilled e.vram h.1)
        | inl off ↦ elim (Option-cases (get buffer_key_discrete k e.dram)) [
          | inr (b, in_dram) ↦ rw (off, in_dram, evict_to_ssd) (dropped-AreFilled e.dram h.0, h.1)
          | inl out ↦
              rw (off, out, evict_to_ssd)
                (with_source-AreFilled none "vram"
                  (λ b e1.
                    evicted op cfg b (record e1 { vram = remove buffer_key_discrete k e1.vram }))
                  e (λ b n. cc) (λ b x f g. (g.0, dropped-AreFilled x.vram g.1)) h)
        ]
      ]

  -- What holds at the end of each of the five cases of `execute_op` holds after it.
  run_op-ends :
      (P : Executor Fl → Type 0) (e : Executor Fl)
      → P (ssd_to_dram op cfg e)
      → P (dram_to_vram op cfg e)
      → P (compute op cfg e)
      → P (evict_to_ssd op cfg e)
      → P (unsupported op e)
      → P (run_op op cfg e)
  unfolding run_op
  run_op-ends P e a b c d u =
      either_way P _ _ _ a (either_way P _ _ _ b (either_way P _ _ _ c (either_way P _ _ _ d u)))

  run_op-AreFilled : (e : Executor Fl) → AreFilled e → AreFilled (run_op op cfg e)
  unfolding dram_to_vram compute
  run_op-AreFilled e h =
      let k = key_from_op op in
      let copies =
        with_source-AreFilled (get buffer_key_discrete k e.dram) "dram" (copy_to_vram op cfg) e
          (λ b g. get-All buffer_key_discrete IsFilled k e.dram b h.0 g) copy-AreFilled h in
      let computes =
        with_source-AreFilled (get buffer_key_discrete k e.vram) "vram" (compute_on op cfg) e
          (λ b g. get-All buffer_key_discrete IsFilled k e.vram b h.1 g)
          (λ b x f g. compute_on-AreFilled b x g) h in
      let reads = ssd_to_dram-AreFilled e h in
      let evicts = evict-AreFilled e h in run_op-ends AreFilled e reads copies computes evicts h

module _ {Fl : Type 0} ⦃fl : FloatOps Fl⦄ (cfg : ExecutorConfig)
    (file : ReadsAtMost cfg.backing_file) where
  execute_op-AreFilled :
      (op : RuntimeOp Fl) (index : ℕ) (e : Executor Fl)
      → AreFilled e
      → AreFilled (execute_op cfg op index e).1
  unfolding execute_op
  execute_op-AreFilled op index e h =
      let e1 = run_op op cfg e in
      let k = run_op-AreFilled op cfg file e h in
      elim (record_event e1.trace (op_event cfg op index e1))
        as (λ r.
          AreFilled
            (elim r as (λ x. Result (Unit {0}) × Executor Fl) [
              | ok later ↦ (ok tt, record e1 { trace = later })
              | err x ↦ (err x, e1)
            ]).1) [ ok later ↦ k | err x ↦ k ]

  -- With a backing file that gives no more bytes than asked for, or none, whatever the operations
  -- and also when one raises: every buffer stays under its own key with as many bytes as it says.
  pub execute-AreFilled :
      (index : ℕ) (ops : List (RuntimeOp Fl)) (e : Executor Fl)
      → AreFilled e
      → AreFilled (execute_from cfg index ops e).1
  unfolding execute_from
  execute-AreFilled index [] e h = h
  execute-AreFilled index (op ∷ ops) e h =
      let k = execute_op-AreFilled op index e h in
      let (result, e1) = execute_op cfg op index e in
      elim result
        as (λ r.
          AreFilled
            (elim r as (λ x. Result (Unit {0}) × Executor Fl) [
              | ok _ ↦ execute_from cfg (index + 1) ops e1
              | err x ↦ (err x, e1)
            ]).1) [ ok _ ↦ execute-AreFilled (index + 1) ops e1 k | err x ↦ k ]
