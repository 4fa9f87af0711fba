-- ===== src/FetchHooks.antt =====
-- packages/fetch-hooks: recording and replaying of HTTP responses.
mod Tests
pub mod Sse
pub mod Jsonl
pub mod Io
pub mod Types
pub mod DataUrls
pub mod Implements
pub mod FlatFiles
pub mod Files
pub mod Host
pub mod Cache
pub mod CachedFetch
pub mod Headers
