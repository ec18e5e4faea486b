-- ===== src/Data/Multi.antt =====
-- Collections of arrays by index: `DataMulti` of server/data_server.rs and client/data.rs.
pub mod Client
pub mod View
pub mod Absent
pub mod Apart
pub mod Server
pub mod Inversion
pub mod Transfer
pub mod Delivery
pub mod Synced
pub mod Removal
pub mod Refinement
pub mod Counting
