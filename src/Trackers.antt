-- ===== src/Trackers.antt =====
-- src/hooks, the trackers: what the plugin remembers of agents, subagents, runs and tool calls between
-- two hooks of the host. A method is a function on the tracker's state; the time of the call is an
-- argument.
pub mod Status
pub mod Subagents
pub mod ToolCalls
pub mod AgentRuns
