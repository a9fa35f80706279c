-- ===== src/HookBridge.antt =====
-- src/runtime, the hook bridge: rules that turn events into actions, and the engine that runs them.
pub mod Telemetry
pub mod Dispatch
pub mod Values
pub mod Templates
pub mod Rules
pub mod Actions
pub mod Evaluation
pub mod Bridge
pub mod Guard
