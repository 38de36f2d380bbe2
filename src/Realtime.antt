-- ===== src/Realtime.antt =====
-- api/realtime, api/services/presence.py and ws_tickets.py: live editing over WebSockets.
pub mod Presence
pub mod Hub
pub mod Session
pub mod Tickets
