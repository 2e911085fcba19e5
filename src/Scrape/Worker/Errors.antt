-- ===== src/Scrape/Worker/Errors.antt =====
-- The errors of the worker (crates/railgun-indexer-core/src/scrape/worker.rs). Of the errors of
-- other crates only what the worker looks at is kept; the rest is a number.
use railgun_indexer.Prelude.{ℕ, Bool, true, false, leb, ◌==◌, ◌&&◌, ◌||◌}
use railgun_indexer.PoiStore.{StoreError}

-- `PoiRpcError`: a failed POST, an HTTP status, or anything else.
pub data RpcError : Type 0 where
  post : RpcError
  http_status : ℕ → RpcError
  other_rpc : ℕ → RpcError

pub data ScrapeError : Type 0 where
  poi_rpc : RpcError → ScrapeError
  verify : ℕ → ScrapeError
  invalid_event_signature : ℕ → ℕ → ScrapeError
  cache_error : ℕ → ScrapeError
  store_error : StoreError → ScrapeError
  cache_unavailable : ScrapeError
  root_rejected : ScrapeError
  non_contiguous_event : ℕ → ℕ → ScrapeError
  event_signature : ScrapeError
  missing_root : ℕ → ScrapeError
  index_overflow : ℕ → ScrapeError
  blocked_shield_index_overflow : ℕ → ScrapeError
  blocked_shield_set_changed : ℕ → ℕ → ScrapeError
  no_retry_attempts_configured : ScrapeError
  retry_budget_exhausted : ℕ → ℕ → ScrapeError → ScrapeError

-- `is_server_error` is 500 to 599, `TOO_MANY_REQUESTS` is 429.
is_retryable_status : ℕ → Bool
is_retryable_status status = leb 500 status && leb status 599 || status == 429

unfoldable pub is_retryable : ScrapeError → Bool
unfolding is_retryable_status
is_retryable (poi_rpc post) = true
is_retryable (poi_rpc (http_status status)) = is_retryable_status status
is_retryable _ = false
