-- ===== src/Data/Take.antt =====
-- Arrays that the client takes: server/data_take_server.rs and client/data_take.rs.
pub mod Client
pub mod Transfer
pub mod Server
pub mod Delivery
pub mod Synced
pub mod Refused
