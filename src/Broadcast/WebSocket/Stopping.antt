-- ===== src/Broadcast/WebSocket/Stopping.antt =====
-- A stop that ends after the next start, in broadcast/websocketServer.ts.
