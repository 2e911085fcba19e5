-- ===== src/Scrape.antt =====
-- The POI scraper: page sizes, retries and the worker (crates/railgun-indexer-core/src/scrape).
pub mod PageSize
pub mod Retry
pub mod Worker
