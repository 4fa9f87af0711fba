-- ===== src/Tailwind.antt =====
-- packages/opentui-dom/src/bridge/tailwind-mapper.ts: Tailwind classes as styles of the terminal.
pub mod Values
pub mod Tables
pub mod Palette
pub mod Classes
pub mod Numbers
pub mod Parse
pub mod Patterns
pub mod Mapper
pub mod Loop
pub mod Laws
pub mod Colors
mod Tests
