-- ===== src/StyleBridge.antt =====
-- packages/opentui-dom/src/bridge/style-bridge.ts: the styles of an element, from its classes and attributes.
pub mod Attributes
pub mod Theme
pub mod Bridge
pub mod Laws
pub mod References
mod Tests
