-- ===== src/ByteRanges/Sound.antt =====
-- integrations/llama_cpp/kv_byte_ranges.py: what a verification without errors shows.
use solid_attention.Base.{
  ℕ, ◌+◌, ◌≤◌, ◌≡◌, refl, inl, inr, true, false, not-false, String, Bool, List, [], ◌∷◌, ◌++◌, map,
  ok, arith, ◌∙◌, ap, sym, subst, All, All-append, append_assoc, append-nil, >>-eq-ok, >>=-eq-ok,
  ok_inj, Bool-cases,
}
use mathlib.Core.List.{map-append}
use solid_attention.Base.Int.{pos, pos_part, leb_ℤ, ◌-ℤ◌}
use solid_attention.Float.{FloatOps}
use solid_attention.Trace.{TraceEvent, record_event}
use solid_attention.Commands.{PlanOp}
use solid_attention.ByteRanges.Range.{Bytes, resolve_row_sizes, build_block_ranges, coverage_errors}
use solid_attention.ByteRanges.Blocks.{PlanBlock, unique_blocks}
use solid_attention.ByteRanges.Mapping.{
  KvBlockByteMapping, VerifyArgs, count_if, other_size, read_block, mapping_of, mapping_event,
}
use solid_attention.ByteRanges.Verify.{
  Checked, check_block, check_loop, VerificationResult, unchecked, verify_kv_byte_ranges,
}
use solid_attention.ByteRanges.Mapped.{mapped_block, IsSound, args, mapping-IsSound}

none_counted : (b : Bool) → count_if b ≡ 0 → b ≡ false
none_counted true h = absurd (omega arith)
none_counted false h = refl

-- A sum of the counters and what a block adds to them.
no_errors :
    (m other size c coverage t bounds s short al misalign : ℕ)
    → m + other + size + (c + coverage) + (t + bounds) + (s + short) + (al + misalign) ≡ 0
    → (size ≡ 0) × (bounds ≡ 0) × (misalign ≡ 0)
no_errors m other size c coverage t bounds s short al misalign h =
    (omega arith, omega arith, omega arith)

module _ {Fl : Type 0} ⦃fl : FloatOps Fl⦄ (sha256 : Bytes → String) (a : VerifyArgs) where
  -- The sum that becomes `verification_error_count`.
  abbrev errors : Checked Fl → ℕ
  errors s =
      s.size_mismatch_count + s.coverage_error_count + s.tensor_bounds_error_count
      + s.backing_short_read_count + s.ssd_alignment_error_count

  -- What the body of the loop does for a block.
  record Steps (b : PlanBlock) (s t : Checked Fl) : Type 0 where
    pub more : errors s ≤ errors t
    pub mapping : KvBlockByteMapping
    pub mappings : t.mappings ≡ s.mappings ++ mapping ∷ []
    pub of_block : mapped_block mapping ≡ b
    pub sound : errors t ≡ 0 → IsSound sha256 a mapping

  check_block-Steps :
      (index : ℕ) (b : PlanBlock) (s t : Checked Fl)
      → leb_ℤ (b.end_token -ℤ b.start_token) (pos 0) ≡ false
      → check_block sha256 a index b s ≡ ok t
      → Steps b s t
  unfolding check_block
  check_block-Steps index b s t some_tokens h =
      let (rows, _, h1) =
        >>=-eq-ok
          (resolve_row_sizes b.size_bytes (pos_part (b.end_token -ℤ b.start_token))
            a.key_row_size_bytes a.value_row_size_bytes)
          _ h in
      let (read, _, h2) = >>=-eq-ok (read_block a.backing_file b.ssd_offset b.size_bytes) _ h1 in
      let (ranges, built, h3) =
        >>=-eq-ok
          (build_block_ranges sha256 (args sha256 a b rows.0.0 rows.0.1 read.0 []) b.end_token) _
          h2 in
      let (trace, _, made) =
        >>=-eq-ok
          (record_event s.trace
            (mapping_event index (mapping_of sha256 b rows.0.0 rows.0.1 read.0 ranges)))
          _ h3 in
      subst (Steps b s) (ok_inj made) (record {
        more = omega arith;
        mapping = mapping_of sha256 b rows.0.0 rows.0.1 read.0 ranges;
        mappings = refl;
        of_block = refl;
        sound = λ no.
            let (size, bounds, aligned) =
              no_errors s.size_mismatch_count (count_if (other_size a.rows b)) _
                s.coverage_error_count (coverage_errors ranges b.size_bytes)
                s.tensor_bounds_error_count _ s.backing_short_read_count (count_if read.1)
                s.ssd_alignment_error_count _ no in
            mapping-IsSound sha256 a b rows.0.0 rows.0.1 read.0 ranges some_tokens built
              (not-false (none_counted _ size)) bounds (none_counted _ aligned);
      })

  check_loop-IsSound :
      (index : ℕ) (blocks : List PlanBlock) (s t : Checked Fl)
      → check_loop sha256 a index blocks s ≡ ok t
      → (errors s ≤ errors t)
        × (errors t ≡ 0
            → All (IsSound sha256 a) s.mappings
            → All (IsSound sha256 a) t.mappings
              × (map mapped_block t.mappings ≡ map mapped_block s.mappings ++ blocks))
  unfolding check_loop
  check_loop-IsSound index [] s t h =
      subst
        (λ x.
          (errors s ≤ errors x)
          × (errors x ≡ 0
              → All (IsSound sha256 a) s.mappings
              → All (IsSound sha256 a) x.mappings
                × (map mapped_block x.mappings ≡ map mapped_block s.mappings ++ [])))
        (ok_inj h) (omega arith, λ no sound. (sound, sym (append-nil _)))
  check_loop-IsSound index (b ∷ blocks) s t h =
      elim (Bool-cases (leb_ℤ (b.end_token -ℤ b.start_token) (pos 0))) [
        | inl no_tokens ↦
            let skipped = record s { size_mismatch_count = s.size_mismatch_count + 1 } in
            let (more, _) = check_loop-IsSound (index + 1) blocks skipped t (rw no_tokens at h) in
            (omega arith, λ no sound. absurd (omega arith))
        | inr tokens ↦
            let (u, checked, rest) =
              >>=-eq-ok (check_block sha256 a index b s) _ (rw tokens at h) in
            let step = check_block-Steps index b s u tokens checked in
            let (more, sound) = check_loop-IsSound (index + 1) blocks u t rest in
            let m = step.mapping in
            let earlier = step.more in
            (
              omega arith,
              λ no held.
                  let both =
                    subst (All (IsSound sha256 a)) (sym step.mappings)
                      (All-append _ s.mappings (m ∷ []) held (step.sound (omega arith), tt)) in
                  let (all, blocks_of) = sound no both in
                  (
                    all,
                    blocks_of
                        ∙ ap (λ x. map mapped_block x ++ blocks) step.mappings
                        ∙ ap (λ x. x ++ blocks) (map-append mapped_block s.mappings (m ∷ []))
                        ∙ append_assoc (map mapped_block s.mappings) (mapped_block m ∷ []) blocks
                        ∙ ap (λ x. map mapped_block s.mappings ++ x ∷ blocks) step.of_block,
                  ),
            )
      ]

  -- When `verify_kv_byte_ranges` returns with no error counted, each block of the plan's operations
  -- has a mapping, in order, and each mapping is sound: its block has tokens, its ranges are a key
  -- and a value row for each token, which fill exactly the bytes of the block one behind the other,
  -- the cells of its tokens lie within the cache when a cache size is known, and its offset in the
  -- file is aligned.
  pub verify-IsSound :
      (v_trans : Bool) (ops : List (PlanOp Fl)) (result : VerificationResult)
      (trace : List (TraceEvent Fl))
      → verify_kv_byte_ranges sha256 a v_trans ops ≡ ok (result, trace)
      → result.verification_error_count ≡ 0
      → (blocks : List PlanBlock) × (unique_blocks ops ≡ ok blocks)
        × (map mapped_block result.mappings ≡ blocks)
        × All (IsSound sha256 a) result.mappings
  unfolding verify_kv_byte_ranges
  verify-IsSound v_trans ops result trace h clean =
      let (_, h1) = >>-eq-ok v_trans _ _ h in
      let (blocks, listed, h2) = >>=-eq-ok (unique_blocks ops) _ h1 in
      let (s, looped, made) = >>=-eq-ok (check_loop sha256 a 0 blocks unchecked) _ h2 in
      let same = ap (λ q. q.0) (ok_inj made) in
      let (all, blocks_of) =
        (check_loop-IsSound 0 blocks unchecked s looped).1
          (ap (λ r. r.verification_error_count) same ∙ clean) tt in
      (
        blocks,
        listed,
        ap (λ r. map mapped_block r.mappings) (sym same) ∙ blocks_of,
        subst (λ r. All (IsSound sha256 a) r.mappings) same all,
      )
