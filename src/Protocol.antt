-- ===== src/Protocol.antt =====
-- The wire protocol: the headers that travel between server and client, as data types with the
-- constructors of the source, and the codec of the headers, which is postcard's.
pub mod DataType
pub mod Headers
pub mod Codec
pub mod FastVec
