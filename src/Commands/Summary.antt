-- ===== src/Commands/Summary.antt =====
-- integrations/llama_cpp/runtime_commands.py: the summary counts each command once.
use solid_attention.Base.{
  ℕ, suc, Bool-cases, All-imp, Returns, ◌≤◌, ◌<◌, Bool, ◌&&◌, ◌+◌, ◌≡◌, refl, ◌⊎◌, inl, inr, String,
  str_eq, true, false, not, Option, List, [], ◌∷◌, ok, arith, All, length, filter_by, sum_by, ◌==◌,
  ◌∙◌,
}
use solid_attention.Base.Texts.{string_discrete}
use solid_attention.Base.Dict.{Dict, get, set}
use solid_attention.Commands.{LlamaKvCommand}
use solid_attention.Commands.Export.{
  RuntimeCommandExport, count_loop, is_ssd_read, is_ssd_write, export_of, summarize_commands,
}
use solid_attention.Commands.Check.{IsMove}

-- The counts of the four kinds of command, in the order of their names.
abbrev tally : ℕ → ℕ → ℕ → ℕ → Dict String ℕ
tally computes evicts loads prefetches =
    ("kv_compute", computes)
    ∷ ("kv_evict", evicts)
    ∷ ("kv_load", loads)
    ∷ ("kv_prefetch", prefetches)
    ∷ []

-- The name is one of those that `LlamaKVCommand` accepts.
abbrev IsKind : String → Type 0
IsKind op = (op ≡ "kv_compute") ⊎ (op ≡ "kv_evict") ⊎ (op ≡ "kv_load") ⊎ (op ≡ "kv_prefetch")

one_more : (n x : ℕ) → n + 1 + x ≡ n + suc x
one_more n x = omega arith

IsMove-IsKind : (op s t : String) → IsMove op s t → IsKind op
IsMove-IsKind op s t (inl h) = inl h.0
IsMove-IsKind op s t (inr (inl h)) = inr (inl h.0)
IsMove-IsKind op s t (inr (inr h)) = inr (inr h.0)

and_false : (b : Bool) → b && false ≡ false
and_false true = refl
and_false false = refl

ok_tally :
    {n m l k n' m' l' k' : ℕ}
    → n ≡ n'
    → m ≡ m'
    → l ≡ l'
    → k ≡ k'
    → ok (tally n m l k) ≡ ok (tally n' m' l' k')
ok_tally a b c d = λ i. ok (tally (a i) (b i) (c i) (d i))

-- The pairs whose count is not zero.
abbrev nonzero : Dict String ℕ → Dict String ℕ
nonzero = filter_by (λ e. not (e.1 == 0))

nonzero-sum : (d : Dict String ℕ) → sum_by (λ e. e.1) (nonzero d) ≡ sum_by (λ e. e.1) d
nonzero-sum [] = refl
nonzero-sum (e ∷ d) = ground (arith, nonzero-sum d)

nonzero-All :
    (P : String × ℕ → Type 0) (d : Dict String ℕ) → All P d → All (λ e. P e × (0 < e.1)) (nonzero d)
nonzero-All P [] h = tt
nonzero-All P ((s, n) ∷ d) h = elim (Bool-cases (n == 0)) [
  | inl z ↦ rw z (nonzero-All P d h.1)
  | inr p ↦ rw p ((h.0, ground arith), nonzero-All P d h.1)
]

module _ {Fl : Type 0} where
  abbrev pub count_of : String → List (LlamaKvCommand Fl) → ℕ
  count_of op cs = length (filter_by (λ c. str_eq c.op op) cs)

  abbrev counted : ℕ → ℕ → ℕ → ℕ → List (LlamaKvCommand Fl) → Dict String ℕ
  counted n m l k cs =
      tally (n + count_of "kv_compute" cs) (m + count_of "kv_evict" cs) (l + count_of "kv_load" cs)
        (k + count_of "kv_prefetch" cs)

  count_loop-counted :
      (n m l k : ℕ) (cs : List (LlamaKvCommand Fl))
      → All (λ c. IsKind c.op) cs
      → count_loop (tally n m l k) cs ≡ ok (counted n m l k cs)
  unfolding count_loop get set string_discrete
  count_loop-counted n m l k [] h = ground arith
  count_loop-counted n m l k (c ∷ cs) (inl e, h) =
      rw e (count_loop-counted (n + 1) m l k cs h ∙ ok_tally (one_more n _) refl refl refl)
  count_loop-counted n m l k (c ∷ cs) (inr (inl e), h) =
      rw e (count_loop-counted n (m + 1) l k cs h ∙ ok_tally refl (one_more m _) refl refl)
  count_loop-counted n m l k (c ∷ cs) (inr (inr (inl e)), h) =
      rw e (count_loop-counted n m (l + 1) k cs h ∙ ok_tally refl refl (one_more l _) refl)
  count_loop-counted n m l k (c ∷ cs) (inr (inr (inr e)), h) =
      rw e (count_loop-counted n m l (k + 1) cs h ∙ ok_tally refl refl refl (one_more k _))

  -- Each command is of one kind.
  kinds_total :
      (cs : List (LlamaKvCommand Fl))
      → All (λ c. IsKind c.op) cs
      → sum_by (λ e. e.1) (counted 0 0 0 0 cs) ≡ length cs
  kinds_total [] h = refl
  kinds_total (c ∷ cs) (inl e, h) = rw e (omega (arith, kinds_total cs h))
  kinds_total (c ∷ cs) (inr (inl e), h) = rw e (omega (arith, kinds_total cs h))
  kinds_total (c ∷ cs) (inr (inr (inl e)), h) = rw e (omega (arith, kinds_total cs h))
  kinds_total (c ∷ cs) (inr (inr (inr e)), h) = rw e (omega (arith, kinds_total cs h))

  -- No command both reads the SSD and writes it.
  one_way : (c : LlamaKvCommand Fl) → IsKind c.op → is_ssd_read c && is_ssd_write c ≡ false
  one_way c (inl e) = rw e refl
  one_way c (inr (inl e)) = rw e refl
  one_way c (inr (inr (inl e))) = rw e (and_false (str_eq c.source "ssd"))
  one_way c (inr (inr (inr e))) = rw e (and_false (str_eq c.source "ssd"))

  apart_sums :
      (f : LlamaKvCommand Fl → ℕ) (p q : LlamaKvCommand Fl → Bool) (cs : List (LlamaKvCommand Fl))
      → All (λ c. p c && q c ≡ false) cs
      → sum_by f (filter_by p cs) + sum_by f (filter_by q cs) ≤ sum_by f cs
  apart_sums f p q [] h = omega arith
  apart_sums f p q (c ∷ cs) h = let rest = apart_sums f p q cs h.1 in ground arith

  -- What the summary tells of the commands.
  pub record Summarizes (cs : List (LlamaKvCommand Fl)) (e : RuntimeCommandExport) : Type 0 where
    pub command_count : e.command_count ≡ length cs
    pub total : sum_by (λ x. x.1) e.command_counts_by_op ≡ length cs
    pub by_op : All (λ x. (x.1 ≡ count_of x.0 cs) × (0 < x.1)) e.command_counts_by_op
    pub counts : e.ssd_read_command_count + e.ssd_write_command_count ≤ length cs
    pub bytes : e.ssd_read_bytes + e.ssd_write_bytes ≤ sum_by (λ c. c.size_bytes) cs

  length-sum_by : (cs : List (LlamaKvCommand Fl)) → length cs ≡ sum_by (λ c. 1) cs
  length-sum_by [] = refl
  length-sum_by (c ∷ cs) = omega (arith, length-sum_by cs)

  -- Commands that may run are summarised without an exception, and the summary counts each of them
  -- once under its own name, none with the count zero; the reads of the SSD and the writes to it
  -- are together no more than the commands, in number and in bytes.
  pub summarize_commands-Summarizes :
      (plan_path : String) (cs : List (LlamaKvCommand Fl)) (jsonl_path summary_path : Option String)
      → All (λ c. IsMove c.op c.source c.target) cs
      → Returns (Summarizes cs) (summarize_commands plan_path cs jsonl_path summary_path)
  unfolding summarize_commands
  summarize_commands-Summarizes plan_path cs jsonl_path summary_path moves =
      let kinds = All-imp _ _ (λ c m. IsMove-IsKind c.op c.source c.target m) cs moves in
      let one_way_all = All-imp _ _ one_way cs kinds in
      (
        export_of plan_path cs jsonl_path summary_path (counted 0 0 0 0 cs),
        rw (count_loop-counted 0 0 0 0 cs kinds) refl,
        record {
          command_count = refl;
          total = nonzero-sum (counted 0 0 0 0 cs) ∙ kinds_total cs kinds;
          by_op =
              nonzero-All (λ x. x.1 ≡ count_of x.0 cs) (counted 0 0 0 0 cs)
                (omega arith, (omega arith, (omega arith, (omega arith, tt))));
          counts =
              rw
                (
                  length-sum_by (filter_by is_ssd_read cs),
                  length-sum_by (filter_by is_ssd_write cs),
                  length-sum_by cs,
                )
                (apart_sums (λ c. 1) is_ssd_read is_ssd_write cs one_way_all);
          bytes = apart_sums (λ c. c.size_bytes) is_ssd_read is_ssd_write cs one_way_all;
        },
      )
