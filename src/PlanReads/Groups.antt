-- ===== src/PlanReads/Groups.antt =====
-- harness/movement_executor.py: the reads, each once and in the order of the file, and their groups.
use solid_attention.Base.{
  ℕ, ◌+◌, ◌*◌, ◌≡◌, refl, ◌≢◌, inl, inr, none, some, Option-cases, List, [], ◌∷◌, ◌++◌, map, arith,
  ◌∙◌, ap, sym, length, sum_by, sum_by-append, All, All-imp, All-append, All-member, AllPairs, Any,
  Any-imp, Any-map, ℕ_discrete, suc, subst,
}
use solid_attention.Base.Dict.{
  Dict, get, set, values, values-append, set_absent, set-All, get-All, sum_by-set, DistinctKeys,
  set-DistinctKeys,
}
use solid_attention.Base.Sort.{sorted-Any, sorted-AllPairs}
use solid_attention.Base.Unique.{dedupe-distinct, dedupe-Any}
use solid_attention.Float.{FloatOps}
use solid_attention.Residency.{buffer_key_discrete}
use solid_attention.MovementPlan.{MovementOp}
use solid_attention.PlanReads.{
  SsdRead, read_key, read_lt, add_to_group, group_from, group_reads_by_size, read_of,
  unique_ssd_reads,
}

-- The reads of a group have its size.
abbrev pub IsGroup : ℕ × List SsdRead → Type 0
IsGroup g = All (λ r. r.size_bytes ≡ g.0) g.1

abbrev bytes_of : List SsdRead → ℕ
bytes_of = sum_by (λ r. r.size_bytes)

none_before : (n : ℕ) → 0 + n ≡ n
none_before n = omega arith

starts_group :
    (r : SsdRead) (d : Dict ℕ (List SsdRead))
    → get ℕ_discrete r.size_bytes d ≡ none
    → add_to_group r d ≡ set ℕ_discrete r.size_bytes (r ∷ []) d
starts_group r d new = rw (new, add_to_group) refl

joins_group :
    (r : SsdRead) (d : Dict ℕ (List SsdRead)) (reads : List SsdRead)
    → get ℕ_discrete r.size_bytes d ≡ some reads
    → add_to_group r d ≡ set ℕ_discrete r.size_bytes (reads ++ r ∷ []) d
joins_group r d reads old = rw (old, add_to_group) refl

add_to_group-IsGroup :
    (r : SsdRead) (d : Dict ℕ (List SsdRead)) → All IsGroup d → All IsGroup (add_to_group r d)
add_to_group-IsGroup r d h = elim (Option-cases (get ℕ_discrete r.size_bytes d)) [
  | inl new ↦
      rw (starts_group r d new)
        (set-All ℕ_discrete IsGroup r.size_bytes (r ∷ []) d (λ j e. (e, tt)) h)
  | inr (reads, old) ↦
      let before = get-All ℕ_discrete IsGroup r.size_bytes d reads h old in
      rw (joins_group r d reads old) (
        set-All ℕ_discrete IsGroup r.size_bytes (reads ++ r ∷ []) d
          (λ j e.
            subst (λ k. IsGroup (k, reads ++ r ∷ [])) e
              (All-append _ reads (r ∷ []) before (refl, tt)))
          h)
]

add_to_group-bytes :
    (r : SsdRead) (d : Dict ℕ (List SsdRead))
    → sum_by bytes_of (values (add_to_group r d)) ≡ sum_by bytes_of (values d) + r.size_bytes
add_to_group-bytes r d = elim (Option-cases (get ℕ_discrete r.size_bytes d)) [
  | inl new ↦ rw (starts_group r d new) (
      ap (λ x. sum_by bytes_of (values x)) (set_absent ℕ_discrete r.size_bytes (r ∷ []) d new)
      ∙ ap (sum_by bytes_of) (values-append d ((r.size_bytes, r ∷ []) ∷ []))
      ∙ sum_by-append bytes_of (values d) ((r ∷ []) ∷ [])
      ∙ omega arith)
  | inr (reads, old) ↦ rw (joins_group r d reads old) (
      omega (
        arith,
        sum_by-set ℕ_discrete bytes_of r.size_bytes (reads ++ r ∷ []) d reads old,
        sum_by-append (λ q. q.size_bytes) reads (r ∷ []),
      ))
]

add_to_group-DistinctKeys :
    (r : SsdRead) (d : Dict ℕ (List SsdRead))
    → DistinctKeys ℕ_discrete d
    → DistinctKeys ℕ_discrete (add_to_group r d)
add_to_group-DistinctKeys r d h = elim (Option-cases (get ℕ_discrete r.size_bytes d)) [
  | inl new ↦ rw (starts_group r d new) (set-DistinctKeys ℕ_discrete r.size_bytes (r ∷ []) d h)
  | inr (reads, old) ↦
      rw (joins_group r d reads old)
        (set-DistinctKeys ℕ_discrete r.size_bytes (reads ++ r ∷ []) d h)
]

-- The groups have no size twice, reads of their own size, and the bytes of the reads.
pub record AreGroups (total : ℕ) (groups : Dict ℕ (List SsdRead)) : Type 0 where
  pub distinct : DistinctKeys ℕ_discrete groups
  pub sized : All IsGroup groups
  pub bytes : sum_by (λ g. g.0 * length g.1) groups ≡ total

group_bytes : (g : ℕ × List SsdRead) → IsGroup g → bytes_of g.1 ≡ g.0 * length g.1
group_bytes (size, []) h = omega arith
group_bytes (size, r ∷ reads) h =
    let rest = group_bytes (size, reads) h.1 in
    let first = h.0 in
    let times : size * suc (length reads) ≡ size * length reads + size = omega arith in omega arith

groups_bytes :
    (d : Dict ℕ (List SsdRead))
    → All IsGroup d
    → sum_by (λ g. g.0 * length g.1) d ≡ sum_by bytes_of (values d)
groups_bytes [] h = refl
groups_bytes ((size, reads) ∷ d) h =
    λ i. sym (group_bytes (size, reads) h.0) i + groups_bytes d h.1 i

group_from-AreGroups :
    (reads : List SsdRead) (d : Dict ℕ (List SsdRead))
    → DistinctKeys ℕ_discrete d
    → All IsGroup d
    → AreGroups (sum_by bytes_of (values d) + bytes_of reads) (group_from d reads)
unfolding group_from
group_from-AreGroups [] d n h = record {
  distinct = n;
  sized = h;
  bytes = groups_bytes d h ∙ omega arith;
}
group_from-AreGroups (r ∷ reads) d n h =
    let same : sum_by bytes_of (values (add_to_group r d)) + bytes_of reads
        ≡ sum_by bytes_of (values d) + (r.size_bytes + bytes_of reads) =
      omega (arith, add_to_group-bytes r d) in
    subst (λ b. AreGroups b (group_from (add_to_group r d) reads)) same
      (group_from-AreGroups reads (add_to_group r d) (add_to_group-DistinctKeys r d n)
        (add_to_group-IsGroup r d h))

module _ {Fl : Type 0} ⦃fl : FloatOps Fl⦄ where
  -- The reads of `_unique_ssd_reads` have keys apart and name each operation, and the groups of
  -- `_group_reads_by_size` have each size once and only reads of it: one probe for each group, of as
  -- many reads of its size as it has, reads exactly the bytes of all the unique reads.
  pub unique_ssd_reads-AreGroups :
      (ops : List (MovementOp Fl))
      → let reads = unique_ssd_reads ops in
        AllPairs (λ p q. read_key p ≢ read_key q) reads
        × All (λ m. Any (λ r. read_key (read_of m) ≡ read_key r) reads) ops
        × AreGroups (sum_by (λ r. r.size_bytes) reads) (group_reads_by_size reads)
  unfolding unique_ssd_reads group_reads_by_size
  unique_ssd_reads-AreGroups ops =
      let reads = unique_ssd_reads ops in
      (
        sorted-AllPairs read_lt (λ p q. read_key p ≢ read_key q) (λ p q n e. n (sym e)) _
            (dedupe-distinct buffer_key_discrete read_key (map read_of ops)),
        All-imp _ _
            (λ m at.
              sorted-Any read_lt (λ r. read_key (read_of m) ≡ read_key r) _
                (dedupe-Any buffer_key_discrete read_key (read_key (read_of m)) (map read_of ops) (
                  Any-map read_of _ ops
                    (Any-imp ops at (λ x e. ap (λ y. read_key (read_of y)) (sym e))))))
            ops (All-member ops),
        subst (λ b. AreGroups b (group_from [] reads)) (none_before (bytes_of reads))
            (group_from-AreGroups reads [] tt tt),
      )
