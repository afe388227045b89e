-- ===== src/Residency/Operations.antt =====
-- harness/runtime_residency_executor.py: the five kinds of operation, up to the trace.
use solid_attention.Base.{
  ℕ, ◌+◌, ◌-◌, ◌*◌, ◌%◌, String, str_eq, not, ◌&&◌, ◌||◌, Option, none, some, List, ◌++◌, ◌==◌,
  if◌then◌else◌, length,
}
use solid_attention.Base.Dict.{get, set, remove}
use solid_attention.Residency.State.{
  BufferKey, buffer_key_discrete, RuntimeBuffer, buffer_key, RuntimeOp, ExecutorConfig, Executor,
  pattern_from, zero_bytes,
}

module _ {Fl : Type 0} (op : RuntimeOp Fl) where
  -- `_key_from_op`
  abbrev pub key_from_op : BufferKey
  key_from_op = ((op.layer_id, op.block_id), (op.start_token, op.end_token))

  -- `_buffer_from_op`
  abbrev pub buffer_from_op : List ℕ → RuntimeBuffer
  buffer_from_op data_bytes = record {
    layer_id = op.layer_id;
    block_id = op.block_id;
    start_token = op.start_token;
    end_token = op.end_token;
    size_bytes = op.size_bytes;
    data_bytes = data_bytes;
  }

  abbrev pub mismatched : Executor Fl → Executor Fl
  mismatched e =
      let c = e.counts in
      record e { counts = record c { size_mismatch_count = c.size_mismatch_count + 1 } }

  abbrev pub missed : Executor Fl → Executor Fl
  missed e =
      let c = e.counts in
      record e { counts = record c { missing_source_count = c.missing_source_count + 1 } }

  abbrev pub unsupported : Executor Fl → Executor Fl
  unsupported e =
      let c = e.counts in
      record e { counts = record c { unsupported_op_count = c.unsupported_op_count + 1 } }

  module _ (cfg : ExecutorConfig) where
    -- `_read_backing_or_pattern`
    unfoldable pub read_backing_or_pattern : Executor Fl → List ℕ × Executor Fl
    read_backing_or_pattern e = elim cfg.backing_file [
      | some read ↦
          let data_bytes = read op.ssd_offset op.size_bytes in
          if not (length data_bytes == op.size_bytes)
          then (data_bytes ++ zero_bytes (op.size_bytes - length data_bytes), mismatched e)
          else (data_bytes, e)
      | none ↦
          let seed =
            (op.layer_id * 1315423911
              + op.block_id * 2654435761
              + op.start_token * 97
              + op.ssd_offset)
            % 256 in
          (pattern_from seed 0 op.size_bytes, e)
    ]

    -- `_ssd_to_dram`
    unfoldable pub ssd_to_dram : Executor Fl → Executor Fl
    ssd_to_dram e0 =
        let (data_bytes, e) = read_backing_or_pattern e0 in
        let buffer = buffer_from_op data_bytes in
        let c = e.counts in
        record e {
          dram = set buffer_key_discrete (buffer_key buffer) buffer e.dram;
          counts = record c {
            ssd_read_count = c.ssd_read_count + 1;
            ssd_read_bytes = c.ssd_read_bytes + buffer.size_bytes;
            dram_alloc_count = c.dram_alloc_count + 1;
          };
        }

    -- The last two lines of `_seed_source_buffer`.
    abbrev pub seeded : RuntimeBuffer → Executor Fl → Option RuntimeBuffer × Executor Fl
    seeded buffer e =
        let c = e.counts in
        (
          some buffer,
          record e {
            counts = record c {
              lazy_source_seed_count = c.lazy_source_seed_count + 1;
              lazy_source_seed_bytes = c.lazy_source_seed_bytes + buffer.size_bytes;
            };
          },
        )

    -- `_seed_source_buffer`
    unfoldable pub seed_source_buffer : String → Executor Fl → Option RuntimeBuffer × Executor Fl
    seed_source_buffer location e0 =
        if not cfg.seed_missing_sources
        then (none, e0)
        else let (data_bytes, e) = read_backing_or_pattern e0 in
          let buffer = buffer_from_op data_bytes in
          let c = e.counts in
          if str_eq location "dram"
          then seeded buffer (record e {
            dram = set buffer_key_discrete (buffer_key buffer) buffer e.dram;
            counts = record c { dram_alloc_count = c.dram_alloc_count + 1 };
          })
          else if str_eq location "vram"
          then seeded buffer (record e {
            vram = set buffer_key_discrete (buffer_key buffer) buffer e.vram;
            counts = record c { vram_alloc_count = c.vram_alloc_count + 1 };
          })
          else (none, unsupported e)

    -- The rest of `_dram_to_vram`, once there is a source.
    unfoldable pub copy_to_vram : RuntimeBuffer → Executor Fl → Executor Fl
    copy_to_vram source e =
        let c = e.counts in
        if not (source.size_bytes == op.size_bytes) then mismatched e else record e {
          vram = set buffer_key_discrete key_from_op source e.vram;
          counts = record c {
            dram_to_vram_copy_count = c.dram_to_vram_copy_count + 1;
            dram_to_vram_bytes = c.dram_to_vram_bytes + source.size_bytes;
            vram_alloc_count = c.vram_alloc_count + 1;
          };
        }

    -- The rest of `_compute`, once there is a source.
    unfoldable pub compute_on : RuntimeBuffer → Executor Fl → Executor Fl
    compute_on source e =
        let c = e.counts in
        if not (source.size_bytes == op.size_bytes) then mismatched e else record e {
          counts = record c {
            compute_count = c.compute_count + 1;
            compute_bytes = c.compute_bytes + source.size_bytes;
          };
        }

    -- A source that the dictionary has, or a seeded one, for the rest of the operation.
    abbrev pub with_source :
        Option RuntimeBuffer
        → String
        → (RuntimeBuffer → Executor Fl → Executor Fl)
        → Executor Fl
        → Executor Fl
    with_source (some source) location rest e = rest source e
    with_source none location rest e =
        let (found, e1) = seed_source_buffer location e in
        elim found [ some source ↦ rest source e1 | none ↦ missed e1 ]

    -- `_dram_to_vram`
    unfoldable pub dram_to_vram : Executor Fl → Executor Fl
    dram_to_vram e = with_source (get buffer_key_discrete key_from_op e.dram) "dram" copy_to_vram e

    -- `_compute`
    unfoldable pub compute : Executor Fl → Executor Fl
    compute e = with_source (get buffer_key_discrete key_from_op e.vram) "vram" compute_on e

    -- The last three lines of `_evict_to_ssd`.
    abbrev pub evicted : RuntimeBuffer → Executor Fl → Executor Fl
    evicted source e =
        let c = e.counts in
        record e {
          counts = record c {
            evict_count = c.evict_count + 1;
            ssd_write_count = c.ssd_write_count + 1;
            ssd_write_bytes = c.ssd_write_bytes + source.size_bytes;
          };
        }

    -- `_evict_to_ssd`: the copy in VRAM goes; if there is none, the one in DRAM.
    unfoldable pub evict_to_ssd : Executor Fl → Executor Fl
    evict_to_ssd e = elim (get buffer_key_discrete key_from_op e.vram) [
      | some source ↦
          evicted source (record e { vram = remove buffer_key_discrete key_from_op e.vram })
      | none ↦ elim (get buffer_key_discrete key_from_op e.dram) [
        | some source ↦
            evicted source (record e { dram = remove buffer_key_discrete key_from_op e.dram })
        | none ↦
            with_source none "vram"
              (λ source e1.
                evicted source
                  (record e1 { vram = remove buffer_key_discrete key_from_op e1.vram }))
              e
      ]
    ]

    -- The tests of `execute_op`, up to the trace.
    unfoldable pub run_op : Executor Fl → Executor Fl
    run_op e =
        let loads = str_eq op.op "kv_load" || str_eq op.op "kv_prefetch" in
        if loads && str_eq op.source "ssd" && str_eq op.target "dram"
        then ssd_to_dram e
        else if loads && str_eq op.source "dram" && str_eq op.target "vram"
        then dram_to_vram e
        else if str_eq op.op "kv_compute"
        then compute e
        else if str_eq op.op "kv_evict" && str_eq op.target "ssd"
        then evict_to_ssd e
        else unsupported e
