-- ===== src/Prefetcher/Config.antt =====
-- core/prefetcher.py: the constructor of `PrefetchConfig`.
use solid_attention.Base.{
  ℕ, Bool, false, Option, none, some, Result, ok, value_error, ◌>>=◌, ◌>>◌, raise_if, String,
}
use solid_attention.Base.Int.{ℤ, pos, pos_part, ltb_ℤ}
use solid_attention.Float.{FloatOps}
use solid_attention.Block.{block_location}
use solid_attention.Prefetcher.{PrefetchConfig}

-- `limit is not None and limit < 0`
abbrev is_negative : Option ℤ → Bool
is_negative none = false
is_negative (some n) = ltb_ℤ n (pos 0)

abbrev limit_of : Option ℤ → Option ℕ
limit_of none = none
limit_of (some n) = some (pos_part n)

-- `PrefetchConfig(target_location, mock_latency_ms, max_prefetch_blocks)`
unfoldable pub prefetch_config :
    {Fl : Type 0} ⦃fl : FloatOps Fl⦄ → String → Fl → Option ℤ → Result (PrefetchConfig Fl)
prefetch_config ⦃fl⦄ target mock_latency_ms limit = do
  location ← block_location target
  raise_if (fl.lt mock_latency_ms fl.zero) (value_error "mock_latency_ms must be non-negative")
  raise_if (is_negative limit) (value_error "max_prefetch_blocks must be non-negative")
  ok (record {
    target_location = location;
    mock_latency_ms = mock_latency_ms;
    max_prefetch_blocks = limit_of limit;
  })
