-- ===== src/Lib.antt =====
-- A verification library for the event server plugin, a plugin of an agent host that turns the host's
-- hooks into events and delivers them.
--
-- The parts of the program and how they interact. Each runtime of a host loads the plugin. Its hooks
-- update trackers (src/hooks) and make events; an event goes to the transport (src/transport), by which
-- the runtimes agree through a lock file on one owner: a runtime that does not own the lock relays its
-- events over a socket, and the owner drops the repeated ones and hands the rest on. What the owner
-- accepts is queued and sent to webhooks, and to the clients of a WebSocket server (src/broadcast).
--
-- Which file models what. A folder beside a file holds the proofs about it.
--   Common              lists, maps with text keys (JsMap), Boolean tests and text, as the language has
--                       them
--   Events              src/events/types.ts: the event and the JSON values it carries
--   Transport.Config    src/config/config-types.ts: TransportConfig
--   Transport.Protocol  src/transport/protocol.ts: isOpenClawEvent, buildSemanticKey,
--                       cloneEventWithTransportMetadata
--   Transport.Dedupe    src/transport/manager-dedupe.ts: pruneTransportDedupeEntries,
--                       shouldProcessTransportEvent; the two maps are the record Seen
--   Transport.Lock      src/transport/lock.ts; the file is an optional record of the value that
--                       its text is parsed to and its time
--   Transport.Ownership src/transport/ownership.ts: acquireTransportLock, writeTransportHeartbeat,
--                       releaseTransportLock and the socket path
--   Transport.Recovery  src/transport/manager-recovery.ts
--   Transport.Manager   src/transport/manager.ts: the class TransportManager as the record Manager, a
--                       method or callback as a function on it; Manager.Steps has the sequences of calls,
--                       callbacks and answers, in any order that the timers and awaits allow
--   Transport.RelayServer src/transport/relay-server.ts: one connection to the owner; the event handler
--                       that is awaited is a step of its own
--   Broadcast.Webhook   src/broadcast/webhook.ts: sendToWebhook, broadcastToWebhooks
--   Broadcast.Queue     src/broadcast/queue.ts: the class EventQueue as a record; a flush is cut at its
--                       awaits, so deliveries end in any order
--   Broadcast.WebSocket src/broadcast/websocketServer.ts: the class BroadcastWebSocketServer; what a server
--                       reports, the end of a timer and the end of a stop are calls of their own
--   Trackers.Status     src/hooks/status-reducer.ts: AgentStatusReducer
--   Trackers.Subagents  src/hooks/subagent-tracker.ts: SubagentTracker
--   Trackers.ToolCalls  src/hooks/tool-hooks.ts: ToolCallTracker
--   Trackers.AgentRuns  src/hooks/agent-run-tracker.ts: AgentRunTracker
--   Sessions            src/hooks/session-tracker-helpers.ts and src/hooks/session-tracker.ts: Keys and
--                       Routes read keys and observe routes, Index and Records are the maps and records,
--                       Tracker has the lookup, the merge and the observation, Queries the public methods
--   HookBridge.Dispatch src/runtime/hook-bridge-dispatch-engine.ts: HookBridgeDispatchEngine; an action
--                       that is awaited is a step of its own; its warnings are HookBridge.Telemetry
--   HookBridge.Values, HookBridge.Templates, HookBridge.Rules  src/runtime/hook-bridge-utils.ts and
--                       src/runtime/hook-bridge-tool-guard.ts: values of events, templates and criteria
--   HookBridge.Actions  src/runtime/hook-bridge-actions.ts: the checks before an action and its answer
--   HookBridge.Guard, HookBridge.Evaluation, HookBridge.Bridge  src/runtime/hook-bridge.ts: the class
--                       HookBridge; an evaluation that awaits an action is resumed by its answer
--   Tests               inputs, tests of the definitions and examples of the theorems
--
-- Names are those of the source in another spelling: shouldProcessTransportEvent is
-- should_process_transport_event. An await ends a function; what follows it is a function of its own,
-- and what may run in between is any other call.
--
-- Parameters, since they are no code of the repository: the clock (the time of a call is an argument),
-- the answer to a signal and the faults of the file system (Os, Faults), real paths, the replies of the
-- HTTP client and the URL parser, what JSON.parse makes of a text (of one that
-- JSON.stringify printed, the value again), random ids, the replies of the relay,
-- the collation by which texts are sorted, lower case, regular expressions, and the floating-point
-- percentages of the hook bridge's telemetry. The dispatch engine takes how the key of a task is built as
-- a parameter; HookBridge.Bridge has it.
--
-- Bounds and fuel. The retry loop of a webhook recurs on the attempts that are left, which start at
-- maxAttempts, as in the source; every other loop recurs on the list that it goes through, and the flush
-- loop of the manager takes one event from its queue at each round. No definition runs out of fuel.
--
-- Not modelled. Numbers are the non-negative integers; texts are compared by code points; log lines,
-- measured durations, request headers and bodies, and ISO dates are left out. Reading the queue's file
-- and the rename of its snapshots, the relay client, the sockets and messages of the WebSocket server,
-- configuration, the processes and requests of the hook bridge's actions, the event factories and the
-- registration of the hooks have no model yet.
pub mod Common
pub mod Events
pub mod Transport
pub mod Broadcast
pub mod Trackers
pub mod HookBridge
pub mod Sessions
pub mod Tests
