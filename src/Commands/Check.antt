-- ===== src/Commands/Check.antt =====
-- integrations/llama_cpp/runtime_commands.py: which operations of a plan are commands.
use solid_attention.Base.{
  ◌<◌, ◌≡◌, refl, ◌≢◌, ◌⊎◌, ◌↔◌, inl, inr, String, str_eq, true, false, ok, arith, ◌>>◌, >>-eq-ok,
  >>=-eq-ok, skip_raise, not, not-false, ok_inj, subst, ap, sym, ◌∙◌,
}
use solid_attention.Base.Int.{pos, pos_part, ltb_ℤ, leb_ℤ, signless, sign, above}
use solid_attention.Base.Texts.{str_eq→≡, str_eq_self}
use solid_attention.Commands.{
  PlanOp, LlamaKvCommand, is_command_op, is_storage, check_places, command_from_op,
  command_metadata, command_of,
}

abbrev pub IsStorage : String → Type 0
IsStorage s = (s ≡ "ssd") ⊎ (s ≡ "dram") ⊎ (s ≡ "vram")

-- What an operation may do: compute in VRAM, evict to the SSD, or load from one place to another.
abbrev pub IsMove : String → String → String → Type 0
IsMove op source target =
    ((op ≡ "kv_compute") × (source ≡ "vram") × (target ≡ "vram"))
    ⊎ ((op ≡ "kv_evict") × IsStorage source × (target ≡ "ssd"))
    ⊎ (((op ≡ "kv_load") ⊎ (op ≡ "kv_prefetch"))
        × IsStorage source
        × IsStorage target
        × (source ≢ target))

storage : (s : String) → is_storage s ≡ true → IsStorage s
unfolding is_storage
storage s h = ground (arith, str_eq→≡ s "ssd", str_eq→≡ s "dram", str_eq→≡ s "vram")

storage_back : (s : String) → IsStorage s → is_storage s ≡ true
unfolding is_storage
storage_back s h = ground (arith, str_eq_self s)

-- The tests on the names alone.
record PassesNames (op source target : String) : Type 0 where
  known : is_command_op op ≡ true
  from_storage : is_storage source ≡ true
  to_storage : is_storage target ≡ true
  places : check_places op source target ≡ ok tt

compute_names : (s t : String) → check_places "kv_compute" s t ≡ ok tt → (s ≡ "vram") × (t ≡ "vram")
unfolding check_places
compute_names s t h = ground (arith, str_eq→≡ s "vram", str_eq→≡ t "vram")

evict_names : (s t : String) → check_places "kv_evict" s t ≡ ok tt → t ≡ "ssd"
unfolding check_places
evict_names s t h = ground (arith, str_eq→≡ t "ssd")

still_load : (s : String) → check_places "kv_load" s s ≢ ok tt
unfolding check_places
still_load s h = let same = str_eq_self s in ground arith

still_prefetch : (s : String) → check_places "kv_prefetch" s s ≢ ok tt
unfolding check_places
still_prefetch s h = let same = str_eq_self s in ground arith

load_names :
    (op s t : String)
    → (op ≡ "kv_load") ⊎ (op ≡ "kv_prefetch")
    → check_places op s t ≡ ok tt
    → s ≢ t
load_names op s t (inl k) h e = still_load s ((λ i. check_places (sym k i) s (e i)) ∙ h)
load_names op s t (inr k) h e = still_prefetch s ((λ i. check_places (sym k i) s (e i)) ∙ h)

names-IsMove : (op s t : String) → PassesNames op s t → IsMove op s t
unfolding is_command_op
names-IsMove op s t p = ground (
  arith,
  str_eq→≡ op "kv_compute",
  str_eq→≡ op "kv_evict",
  str_eq→≡ op "kv_load",
  str_eq→≡ op "kv_prefetch",
  storage s p.from_storage,
  storage t p.to_storage,
  compute_names s t,
  evict_names s t,
  load_names op s t,
  p.known,
  p.places,
)

move_names : (op s t : String) → IsMove op s t → PassesNames op s t
unfolding is_command_op is_storage check_places
move_names op s t (inl (k, a, b)) =
    rw (k, a, b) (record { known = refl; from_storage = refl; to_storage = refl; places = refl })
move_names op s t (inr (inl (k, a, b))) =
    rw (k, b)
      (record { known = refl; from_storage = storage_back s a; to_storage = refl; places = refl })
move_names op s t (inr (inr (k, a, b, n))) =
    let other = str_eq→≡ s t in
    let moved : str_eq s t ≡ false = ground arith in
    elim k [
      | inl load ↦ rw load (record {
        known = refl;
        from_storage = storage_back s a;
        to_storage = storage_back t b;
        places = unfold check_places in rw moved refl;
      })
      | inr prefetch ↦ rw prefetch (record {
        known = refl;
        from_storage = storage_back s a;
        to_storage = storage_back t b;
        places = unfold check_places in rw moved refl;
      })
    ]

-- The command stands for the operation, and is one that may run.
pub record IsCommandOf {Fl : Type 0} (o : PlanOp Fl) (c : LlamaKvCommand Fl) : Type 0 where
  pub op : o.op ≡ c.op
  pub layer_id : o.layer_id ≡ pos c.layer_id
  pub block_id : o.block_id ≡ pos c.block_id
  pub start_token : o.start_token ≡ pos c.start_token
  pub end_token : o.end_token ≡ pos c.end_token
  pub size_bytes : o.size_bytes ≡ pos c.size_bytes
  pub source : o.source ≡ c.source
  pub target : o.target ≡ c.target
  pub ssd_offset : o.ssd_offset ≡ pos c.ssd_offset
  pub blocking : o.blocking ≡ c.blocking
  pub metadata : command_metadata o ≡ c.metadata
  pub moves : IsMove c.op c.source c.target
  pub tokens : c.start_token < c.end_token
  pub bytes : 0 < c.size_bytes

module _ {Fl : Type 0} (o : PlanOp Fl) (c : LlamaKvCommand Fl) where
  accepted : command_from_op o ≡ ok c → IsCommandOf o c
  unfolding command_from_op
  accepted h0 =
      let (known, h1) = >>-eq-ok (not (is_command_op o.op)) _ _ h0 in
      let (layer_id, h2) = >>-eq-ok (ltb_ℤ o.layer_id (pos 0)) _ _ h1 in
      let (block_id, h3) = >>-eq-ok (ltb_ℤ o.block_id (pos 0)) _ _ h2 in
      let (start, h4) = >>-eq-ok (ltb_ℤ o.start_token (pos 0)) _ _ h3 in
      let (tokens, h5) = >>-eq-ok (leb_ℤ o.end_token o.start_token) _ _ h4 in
      let (bytes, h6) = >>-eq-ok (leb_ℤ o.size_bytes (pos 0)) _ _ h5 in
      let (from_storage, h7) = >>-eq-ok (not (is_storage o.source)) _ _ h6 in
      let (to_storage, h8) = >>-eq-ok (not (is_storage o.target)) _ _ h7 in
      let (offset, h9) = >>-eq-ok (ltb_ℤ o.ssd_offset (pos 0)) _ _ h8 in
      let (_, places, made) = >>=-eq-ok (check_places o.op o.source o.target) _ h9 in
      let size = above o.size_bytes (pos 0) refl bytes in
      let e = above o.end_token o.start_token start tokens in
      let p : PassesNames o.op o.source o.target = record {
        known = not-false known;
        from_storage = not-false from_storage;
        to_storage = not-false to_storage;
        places = places;
      } in
      subst (IsCommandOf o) (ok_inj made) (record {
        op = refl;
        layer_id = sign o.layer_id layer_id;
        block_id = sign o.block_id block_id;
        start_token = sign o.start_token start;
        end_token = e.0;
        size_bytes = size.0;
        source = refl;
        target = refl;
        ssd_offset = sign o.ssd_offset offset;
        blocking = refl;
        metadata = refl;
        moves = names-IsMove o.op o.source o.target p;
        tokens = e.1;
        bytes = size.1;
      })

  accepts : IsCommandOf o c → command_from_op o ≡ ok c
  unfolding command_from_op
  accepts d =
      let p = move_names c.op c.source c.target d.moves in
      let known : is_command_op o.op ≡ true = rw (d.op) p.known in
      let from_storage : is_storage o.source ≡ true = rw (d.source) p.from_storage in
      let to_storage : is_storage o.target ≡ true = rw (d.target) p.to_storage in
      let places : check_places o.op o.source o.target ≡ ok tt =
        rw (d.op, d.source, d.target) p.places in
      let layer_id : ltb_ℤ o.layer_id (pos 0) ≡ false = rw d.layer_id (signless c.layer_id) in
      let block_id : ltb_ℤ o.block_id (pos 0) ≡ false = rw d.block_id (signless c.block_id) in
      let start : ltb_ℤ o.start_token (pos 0) ≡ false = rw d.start_token (signless c.start_token) in
      let tokens : leb_ℤ o.end_token o.start_token ≡ false =
        rw (d.end_token, d.start_token) (let h = d.tokens in ground arith) in
      let bytes : leb_ℤ o.size_bytes (pos 0) ≡ false =
        rw d.size_bytes (let h = d.bytes in ground arith) in
      let offset : ltb_ℤ o.ssd_offset (pos 0) ≡ false = rw d.ssd_offset (signless c.ssd_offset) in
      let made : command_of o ≡ c = λ i. record {
        op = d.op i;
        layer_id = pos_part (d.layer_id i);
        block_id = pos_part (d.block_id i);
        start_token = pos_part (d.start_token i);
        end_token = pos_part (d.end_token i);
        size_bytes = pos_part (d.size_bytes i);
        source = d.source i;
        target = d.target i;
        ssd_offset = pos_part (d.ssd_offset i);
        blocking = d.blocking i;
        metadata = d.metadata i;
      } in
      skip_raise _ _ (ap not known)
      ∙ skip_raise _ _ layer_id
      ∙ skip_raise _ _ block_id
      ∙ skip_raise _ _ start
      ∙ skip_raise _ _ tokens
      ∙ skip_raise _ _ bytes
      ∙ skip_raise _ _ (ap not from_storage)
      ∙ skip_raise _ _ (ap not to_storage)
      ∙ skip_raise _ _ offset
      ∙ ap (λ r. r >> ok (command_of o)) places
      ∙ ap ok made

  -- An operation of a plan becomes the command `c` exactly when its numbers are those of `c` and
  -- not negative, `c` covers at least one token and one byte, and its name and places are a
  -- compute in VRAM, an eviction to the SSD, or a load or prefetch between two different places.
  pub command_from_op_iff : (command_from_op o ≡ ok c) ↔ IsCommandOf o c
  command_from_op_iff = (accepted, accepts)
