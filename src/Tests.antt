-- ===== src/Tests.antt =====
-- Concrete inputs, tests of the definitions on them, and the theorems applied to them.
pub mod Data
mod TransportTests
mod OwnershipTests
mod ManagerTests
mod BroadcastTests
mod TrackerTests
mod HookBridgeTests
mod SessionTests
mod GuardTests
mod WebSocketTests
