-- ===== src/Tests.antt =====
-- Runs of the modelled code on small inputs, with codecs of headers and numbers that write each
-- field as one number.
pub mod Codecs
pub mod Arrays
pub mod Values
pub mod Threads
pub mod Items
pub mod Keyed
pub mod Collections
pub mod Wire
pub mod Maps
pub mod Pictures
