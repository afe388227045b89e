-- ===== src/MovementPlan/Exact.antt =====
-- core/movement_plan.py: exactly which movement an operation of the schedule is converted to.
use solid_attention.Base.{
  ◌<◌, ◌≡◌, refl, ◌↔◌, ◌⊎◌, inl, inr, String, Bool, true, false, not, none, some, ok, arith, ◌∙◌,
  ap, subst, Option-cases, >>-eq-ok, >>=-eq-ok, skip_raise, ok_inj, ◌>>=◌,
}
use solid_attention.Base.Int.{pos, leb_ℤ}
use solid_attention.Float.{FloatOps}
use solid_attention.Block.{Value, Metadata, KvBlock}
use solid_attention.Residency.{put}
use solid_attention.Scheduler.{ScheduleOp}
use solid_attention.SsdLayout.{SsdRange}
use solid_attention.MovementPlan.{
  MovementOp, is_movement_op, lookup, movement_op, truth, is_blocking, movement_of,
  movement_from_schedule_op,
}
use solid_attention.MovementPlan.Entries.{lookup-put}
use solid_attention.MovementPlan.Names.{
  StandsFor, NamesOutcome, movement_of-NamesOutcome, StandsFor-movement_of,
}

module _ {Fl : Type 0} ⦃fl : FloatOps Fl⦄ (show : Value Fl → String) where
  -- The flag is the truth of the entry "blocking", and off where there is none.
  abbrev pub IsFlag : Metadata Fl → Bool → Type 0
  IsFlag m flag =
      ((lookup "blocking" m ≡ none) × (flag ≡ false))
      ⊎ ((v : Value Fl) × (lookup "blocking" m ≡ some v) × (flag ≡ truth v))

  -- The movement is the one that the operation stands for, on the bytes of the range and the tokens
  -- of the block, with the operation's key, times and metadata, and is one that may be made.
  pub record IsMovementOf (s : ScheduleOp Fl) (r : SsdRange) (b : KvBlock Fl) (m : MovementOp Fl)
      : Type 0 where
    pub names : StandsFor show s.op s.metadata m.op m.source m.target
    pub layer_id : s.layer_id ≡ m.layer_id
    pub block_id : s.block_id ≡ m.block_id
    pub ssd_offset : r.offset ≡ m.ssd_offset
    pub size_bytes : r.size_bytes ≡ m.size_bytes
    pub start_token : b.start_token ≡ m.start_token
    pub end_token : b.end_token ≡ m.end_token
    pub start_ms : s.start_ms ≡ m.start_ms
    pub end_ms : s.end_ms ≡ m.end_ms
    pub blocking : IsFlag s.metadata m.blocking
    pub metadata : put "scheduler_op" (Value.text s.op) s.metadata ≡ m.metadata
    pub bytes : 0 < m.size_bytes
    pub tokens : m.start_token < m.end_token
    pub timely : fl.lt m.end_ms m.start_ms ≡ false

  is_blocking-IsFlag :
      (v : Value Fl) (m : Metadata Fl) → IsFlag m (is_blocking show (put "scheduler_op" v m))
  unfolding is_blocking
  is_blocking-IsFlag v m =
      let same = lookup-put show "blocking" "scheduler_op" v m refl in
      elim (Option-cases (lookup "blocking" m)) [
        | inl absent ↦ inl (absent, rw (same ∙ absent, is_blocking) refl)
        | inr (u, found) ↦ inr (u, found, rw (same ∙ found, is_blocking) refl)
      ]

  IsFlag-is_blocking :
      (v : Value Fl) (m : Metadata Fl) (flag : Bool)
      → IsFlag m flag
      → is_blocking show (put "scheduler_op" v m) ≡ flag
  unfolding is_blocking
  IsFlag-is_blocking v m flag (inl (absent, e)) =
      rw (lookup-put show "blocking" "scheduler_op" v m refl ∙ absent, is_blocking, e) refl
  IsFlag-is_blocking v m flag (inr (u, found, e)) =
      rw (lookup-put show "blocking" "scheduler_op" v m refl ∙ found, is_blocking, e) refl

  StandsFor-valid :
      (name : String) (m : Metadata Fl) (op source target : String)
      → StandsFor show name m op source target
      → is_movement_op op ≡ true
  unfolding is_movement_op
  StandsFor-valid name m op source target (inl (n, o, f, t)) = rw o refl
  StandsFor-valid name m op source target (inr (inl (n, o, f, t))) = rw o refl
  StandsFor-valid name m op source target (inr (inr (inl (n, o, f, t)))) = rw o refl
  StandsFor-valid name m op source target (inr (inr (inr (inl (n, o, f, t))))) = rw o refl
  StandsFor-valid name m op source target (inr (inr (inr (inr (inl (n, o, f, t)))))) = rw o refl
  StandsFor-valid name m op source target (inr (inr (inr (inr (inr x))))) = elim x [ ]

  module _ (s : ScheduleOp Fl) (r : SsdRange) (b : KvBlock Fl) (m : MovementOp Fl) where
    -- The movement that the operation becomes under a name and two places.
    abbrev named : String → String → String → MovementOp Fl
    named op source target =
        let metadata = put "scheduler_op" (Value.text s.op) s.metadata in
        record {
          op = op;
          layer_id = s.layer_id;
          block_id = s.block_id;
          source = source;
          target = target;
          ssd_offset = r.offset;
          size_bytes = r.size_bytes;
          start_token = b.start_token;
          end_token = b.end_token;
          start_ms = s.start_ms;
          end_ms = s.end_ms;
          blocking = is_blocking show metadata;
          metadata = metadata;
        }

    converts : movement_from_schedule_op show s r b ≡ ok m → IsMovementOf s r b m
    unfolding movement_from_schedule_op movement_op
    converts h0 =
        let metadata = put "scheduler_op" (Value.text s.op) s.metadata in
        let ((op, (source, target)), known, h1) = >>=-eq-ok (movement_of show s.op metadata) _ h0 in
        let (_, h2) = >>-eq-ok (not (is_movement_op op)) _ _ h1 in
        let (bytes, h3) = >>-eq-ok (leb_ℤ (pos r.size_bytes) (pos 0)) _ _ h2 in
        let (tokens, h4) = >>-eq-ok (leb_ℤ (pos b.end_token) (pos b.start_token)) _ _ h3 in
        let (timely, made) = >>-eq-ok (fl.lt s.end_ms s.start_ms) _ _ h4 in
        subst (IsMovementOf s r b) (ok_inj made) (record {
          names =
              subst (NamesOutcome show s.op s.metadata) known
                (movement_of-NamesOutcome show s.op (Value.text s.op) s.metadata);
          layer_id = refl;
          block_id = refl;
          ssd_offset = refl;
          size_bytes = refl;
          start_token = refl;
          end_token = refl;
          start_ms = refl;
          end_ms = refl;
          blocking = is_blocking-IsFlag (Value.text s.op) s.metadata;
          metadata = refl;
          bytes = ground arith;
          tokens = ground arith;
          timely = timely;
        })

    converted : IsMovementOf s r b m → movement_from_schedule_op show s r b ≡ ok m
    unfolding movement_from_schedule_op movement_op
    converted d =
        let metadata = put "scheduler_op" (Value.text s.op) s.metadata in
        let known =
          StandsFor-movement_of show s.op m.op m.source m.target (Value.text s.op) s.metadata
            d.names in
        let valid = StandsFor-valid s.op s.metadata m.op m.source m.target d.names in
        let bytes : leb_ℤ (pos r.size_bytes) (pos 0) ≡ false =
          rw d.size_bytes (let h = d.bytes in ground arith) in
        let tokens : leb_ℤ (pos b.end_token) (pos b.start_token) ≡ false =
          rw (d.start_token, d.end_token) (let h = d.tokens in ground arith) in
        let timely : fl.lt s.end_ms s.start_ms ≡ false = rw (d.start_ms, d.end_ms) d.timely in
        let flag = IsFlag-is_blocking (Value.text s.op) s.metadata m.blocking d.blocking in
        let made : named m.op m.source m.target ≡ m = λ i. record {
          op = m.op;
          layer_id = d.layer_id i;
          block_id = d.block_id i;
          source = m.source;
          target = m.target;
          ssd_offset = d.ssd_offset i;
          size_bytes = d.size_bytes i;
          start_token = d.start_token i;
          end_token = d.end_token i;
          start_ms = d.start_ms i;
          end_ms = d.end_ms i;
          blocking = flag i;
          metadata = d.metadata i;
        } in
        ap (λ n. n >>= λ names. movement_op (named names.0 names.1.0 names.1.1)) known
        ∙ skip_raise _ _ (ap not valid)
        ∙ skip_raise _ _ bytes
        ∙ skip_raise _ _ tokens
        ∙ skip_raise _ _ timely
        ∙ ap ok made

    -- An operation of the schedule is converted to the movement `m` exactly when its name is one of
    -- the five that the table names, `m` has the movement of that name and the places that the
    -- metadata gives or the table's where it gives none, the bytes of the range, the tokens of the
    -- block, the operation's key and times, the flag and the metadata with the name added, covers at
    -- least one byte and one token, and does not end before it starts.
    pub movement_from_schedule_op_iff :
        (movement_from_schedule_op show s r b ≡ ok m) ↔ IsMovementOf s r b m
    movement_from_schedule_op_iff = (converts, converted)
