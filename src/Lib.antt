-- ===== src/Lib.antt =====
-- SolidAttention: the simulation core of the KV cache on an SSD, and the runtime executor.
--
-- The program. A KV block (core/kv_block.py) is the metadata of one block of the cache of one layer:
-- its tokens, its size, where it is (SSD, DRAM or VRAM) and its role. A store (core/block_store.py)
-- holds the blocks by layer and number. A selector (core/block_selector.py) chooses the blocks of a
-- decode step, a scheduler (core/scheduler.py) loads them into VRAM and makes a timeline, and a
-- prefetcher (core/prefetcher.py) moves blocks ahead of their use and rates what it did. All of
-- them change blocks through the store or in place, record trace events (harness/trace.py) and add
-- to a collector of metrics (harness/metrics.py). Two layouts say where bytes go: core/kv_layout.py
-- interleaves the keys and values of the tokens of a block, and core/movement_plan.py gives each
-- block an aligned range of the backing file. harness/runtime_residency_executor.py runs the
-- operations of a movement plan against buffers in DRAM and VRAM. The side of llama.cpp reads the
-- plan from its JSON: integrations/llama_cpp/runtime_commands.py makes a validated command of each
-- operation, and integrations/llama_cpp/kv_byte_ranges.py checks that the key and value rows of the
-- tokens fill the bytes of each block and fit the tensors of llama.cpp. In the other direction
-- integrations/llama_cpp/movement_intents.py turns the events that llama.cpp traced into a plan.
-- harness/movement_executor.py measures the reads of a plan.
--
-- The files. Base has lists, errors, integers, dictionaries and sorting; Float the operations on
-- Python floats, as a parameter, with the laws that the theorems need.
--   Block       core/kv_block.py: the constructor is `kv_block`, over the arguments as given.
--   Trace       harness/trace.py: `record_event` is `TraceRecorder.record`, `clear` its `clear`.
--   Metrics     harness/metrics.py: the collector's `add` and its rates.
--   World       the objects that the parts share. A Python object that several parts refer to is a
--               number, and the heap says what the block is now; an action takes the world and
--               gives a result or an error, with the world it leaves, also when it raises.
--   Store       core/block_store.py; a store is the table of references in the world.
--   Layout      core/kv_layout.py; the table's `token_extents` is `find_extents`.
--   SsdLayout   core/movement_plan.py: `SSDRange` and `SSDFileLayout`; its `add_block` is
--               `add_range`, its `total_size_bytes` is `layout_size`.
--   MovementPlan  core/movement_plan.py: `MovementOp` and `build_movement_plan`.
--   Scheduler   core/scheduler.py: `schedule`, with one function for each test of its loop.
--   Prefetcher  core/prefetcher.py: `plan_blocks`, `execute` and `evaluate`.
--   Selector    core/block_selector.py: the score, the groups and the ranking, and `select`.
--   Residency   harness/runtime_residency_executor.py: `execute_op` and `execute`.
--   Commands    integrations/llama_cpp/runtime_commands.py: `command_from_op` is `_command_from_op`
--               with the checks of `LlamaKVCommand`; the plan is a value of the shape that
--               `MovementPlan.to_dict` gives it, which is `plan_json`.
--   ByteRanges  integrations/llama_cpp/kv_byte_ranges.py: the ranges of a block, the tests on them
--               and the loop of `verify_kv_byte_ranges`.
--   Intents     integrations/llama_cpp/movement_intents.py: `export_loop` is the loop of
--               `export_movement_intent_plan`, which turns a trace of llama.cpp into a plan.
--   PlanReads   harness/movement_executor.py: the reads of the SSD that a plan asks for.
--   Examples    tests, and each theorem below at a concrete input.
-- Below a part stand the modules of its theorems, named for what they prove.
--
-- Numbers. What a constructor checks to be non-negative is a natural number from then on; the
-- constructors take integers and check them as the code does. Python's integers have no bound, so
-- none is modelled. Every loop is a recursion on a list, so there is no fuel.
--
-- Not modelled: the text in error messages, writing JSON, the checks that a JSON value has the
-- expected shape, files and processes; harness runs, replay and manifests; the rest of the
-- integration with llama.cpp under integrations/llama_cpp (the command bridge, traces and
-- patches), the tools, and the C programs under io. The residency executor is modelled
-- for operations with every field that a movement plan writes and no negative number. A backing
-- file is a function from an offset and a number of bytes to what is read, and SHA-256 a function
-- from bytes to a text, both parameters.
pub mod Base
pub mod Commands
pub mod ByteRanges
pub mod Intents
pub mod PlanReads
pub mod Float
pub mod Block
pub mod Trace
pub mod Metrics
pub mod World
pub mod Store
pub mod Layout
pub mod SsdLayout
pub mod Scheduler
pub mod Prefetcher
pub mod Residency
pub mod MovementPlan
pub mod Selector
mod Examples
