-- ===== src/Transport.antt =====
-- The two ends of the connection: the writer's `DataReceiver` (server/server_core.rs), the client's
-- `MessagesSerializer` (client/messages.rs) and the server's `SocketReader` (server/socket_reader.rs).
pub mod Receiver
pub mod Grouping
pub mod Uplink
pub mod Handshake
