-- ===== src/FetchHooks/Cache.antt =====
-- packages/fetch-hooks/src/cache-manager.ts: what is stored of a request and its response.
pub mod Legacy
pub mod Quiet
pub mod Recorded
pub mod Replayed
pub mod Store
pub mod Load
