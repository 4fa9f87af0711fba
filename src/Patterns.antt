-- ===== src/Patterns.antt =====
-- packages/patterns: the data structures behind the public modules.
mod Tests
pub mod LinkedList
pub mod Tree
pub mod Thing
