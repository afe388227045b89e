-- ===== src/MovementPlan/Convert.antt =====
-- core/movement_plan.py: the conversion of an operation, by what the tests on its name find.
use solid_attention.Base.{
  ◌<◌, ◌≡◌, refl, String, str_eq, true, false, Result, ok, err, value_error, arith, Result-cases,
  either_way, Error, subst, inl, inr,
}
use solid_attention.Float.{FloatOps}
use solid_attention.Block.{Value, Metadata, KvBlock}
use solid_attention.Residency.{put}
use solid_attention.Scheduler.{ScheduleOp}
use solid_attention.SsdLayout.{SsdRange}
use solid_attention.MovementPlan.{
  MovementOp, is_movement_op, movement_op, text_or, is_blocking, movement_of,
  movement_from_schedule_op,
}

module _ {Fl : Type 0} ⦃fl : FloatOps Fl⦄ (show : Value Fl → String) where
  -- The movement of a known name is one that `MovementOp` accepts.
  abbrev NameOutcome : Result (String × (String × String)) → Type 0
  NameOutcome (err e) = Unit
  NameOutcome (ok (op, _)) = is_movement_op op ≡ true

  movement_of-ends :
      (P : Result (String × (String × String)) → Type 0) (name : String) (m : Metadata Fl)
      → ((source target : String) → P (ok ("kv_load", (source, target))))
      → ((source target : String) → P (ok ("kv_compute", (source, target))))
      → ((source target : String) → P (ok ("kv_prefetch", (source, target))))
      → ((source target : String) → P (ok ("kv_evict", (source, target))))
      → ((e : Error) → P (err e))
      → P (movement_of show name m)
  unfolding movement_of
  movement_of-ends P name m loads computes prefetches evicts refuses =
      either_way P (str_eq name "schedule_ssd_read") _ _
        (loads (text_or show "from_location" "ssd" m) (text_or show "to_location" "dram" m))
        (either_way P (str_eq name "schedule_dram_to_vram") _ _
          (loads (text_or show "from_location" "dram" m) (text_or show "to_location" "vram" m))
          (either_way P (str_eq name "schedule_compute") _ _
            (computes (text_or show "location" "vram" m) (text_or show "location" "vram" m))
            (either_way P (str_eq name "prefetch_move") _ _
              (prefetches (text_or show "from_location" "ssd" m)
                (text_or show "to_location" "dram" m))
              (either_way P (str_eq name "evict_to_ssd") _ _
                (evicts (text_or show "from_location" "vram" m)
                  (text_or show "to_location" "ssd" m))
                (refuses (value_error "unsupported scheduler op for movement plan"))))))

  movement_of-valid :
      (name : String) (m : Metadata Fl) (op source target : String)
      → movement_of show name m ≡ ok (op, (source, target))
      → is_movement_op op ≡ true
  unfolding is_movement_op
  movement_of-valid name m op source target h = subst NameOutcome h (
      movement_of-ends NameOutcome name m (λ _ _. refl) (λ _ _. refl) (λ _ _. refl) (λ _ _. refl)
        (λ e. tt))

  movement_op-valid :
      (m : MovementOp Fl)
      → is_movement_op m.op ≡ true
      → 0 < m.size_bytes
      → m.start_token < m.end_token
      → fl.lt m.end_ms m.start_ms ≡ false
      → movement_op m ≡ ok m
  unfolding movement_op
  movement_op-valid m valid bytes tokens timely = ground (arith, valid, timely)

  -- How a conversion ends, by what the operation's name stands for.
  abbrev pub ConvertOutcome :
      ScheduleOp Fl
      → SsdRange
      → KvBlock Fl
      → Result (String × (String × String))
      → Result (MovementOp Fl)
      → Type 0
  ConvertOutcome s r b (err e) out = out ≡ err e
  ConvertOutcome s r b (ok (op, (source, target))) out =
      (m : MovementOp Fl) × (out ≡ ok m)
      × (m.layer_id ≡ s.layer_id)
      × (m.block_id ≡ s.block_id)
      × (m.op ≡ op)
      × (m.source ≡ source)
      × (m.target ≡ target)
      × (m.ssd_offset ≡ r.offset)
      × (m.size_bytes ≡ r.size_bytes)
      × (m.start_token ≡ b.start_token)
      × (m.end_token ≡ b.end_token)
      × (m.start_ms ≡ s.start_ms)
      × (m.end_ms ≡ s.end_ms)

  pub movement_from_schedule_op-ConvertOutcome :
      (s : ScheduleOp Fl) (r : SsdRange) (b : KvBlock Fl)
      → 0 < r.size_bytes
      → b.start_token < b.end_token
      → fl.lt s.end_ms s.start_ms ≡ false
      → ConvertOutcome s r b
          (movement_of show s.op (put "scheduler_op" (Value.text s.op) s.metadata))
          (movement_from_schedule_op show s r b)
  unfolding movement_from_schedule_op movement_op
  movement_from_schedule_op-ConvertOutcome s r b bytes tokens timely =
      let metadata = put "scheduler_op" (Value.text s.op) s.metadata in
      elim (Result-cases (movement_of show s.op metadata)) [
        | inr (e, unknown) ↦ rw unknown refl
        | inl ((op, (source, target)), known) ↦
            let valid = movement_of-valid s.op metadata op source target known in
            let made : MovementOp Fl = record {
              op = op;
              layer_id = s.layer_id;
              block_id = s.block_id;
              source = source;
              target = target;
              ssd_offset = r.offset;
              size_bytes = r.size_bytes;
              start_token = b.start_token;
              end_token = b.end_token;
              start_ms = s.start_ms;
              end_ms = s.end_ms;
              blocking = is_blocking show metadata;
              metadata = metadata;
            } in
            rw known (
              made,
              movement_op-valid made valid bytes tokens timely,
              refl,
              refl,
              refl,
              refl,
              refl,
              refl,
              refl,
              refl,
              refl,
              refl,
              refl,
            )
      ]
