-- ===== src/Images.antt =====
-- `Image` of client/image.rs.
pub mod Pixels
pub mod Client
pub mod Safety
