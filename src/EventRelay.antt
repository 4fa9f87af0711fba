-- ===== src/EventRelay.antt =====
-- packages/opentui-dom/src/bridge/event-relay.ts: terminal key events become DOM events.
pub mod Words
pub mod Readline
pub mod Page
pub mod Focus
pub mod World
pub mod Keys
pub mod Scroll
pub mod Fields
pub mod Navigation
pub mod Keypress
pub mod Lifecycle
mod Tests
