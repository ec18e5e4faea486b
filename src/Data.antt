-- ===== src/Data.antt =====
-- Arrays of numbers that the server owns and the client shows: crates/egui-states/src/
-- server/data_server.rs (`Data`) and client/data.rs (`Data`).
pub mod Message
pub mod Client
pub mod Server
pub mod Frames
pub mod Delivery
pub mod Inversion
pub mod Operations
pub mod Invariant
pub mod Synced
pub mod Refinement
pub mod Multi
pub mod Take
