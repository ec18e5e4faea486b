-- ===== src/Lib.antt =====
-- egui_states keeps the state of a graphical client in a server: values, arrays, images, lists and
-- maps live on both sides, and one websocket carries their changes both ways. The crate is
-- crates/egui-states/src; all paths below are in it.
--
-- The protocol. Every message of the server is a header, serialized by postcard, and the bytes that
-- the header announces. Protocol.DataType and Protocol.Headers are the types of data_transport.rs,
-- image_transport.rs, collections.rs and serialization.rs. postcard is not part of the repository:
-- Protocol.Codec is a parameter, with the two laws that the code relies on. Protocol.FastVec is the
-- `FastVec` of serialization.rs; the other modules take it as the list of its bytes.
--
-- Arrays. Data.Server is `Data` of server/data_server.rs: set_data, add_data, replace_data,
-- remove_data, clear_data and sync are its functions, each up to the point where it waits for the
-- client's last acknowledgement, and resume is what follows. Pack and Pack.Arrays are `pack_data`,
-- `pack_data_take` and `pack_data_multi_take` (server/data_server.rs, server/data_take_server.rs),
-- which cut an array that is longer than a threshold into messages. Data.Client is `Data` of
-- client/data.rs with every arm of `update_data`; its vector of numbers is the bytes of its memory.
-- Data.Multi.Server and Data.Multi.Client are `DataMulti` of the same files, arrays by index with one
-- event, whose hash maps are an association list and a function. Data.Take.Server and
-- Data.Take.Client are `DataTake` and `DataMultiTake` of server/data_take_server.rs and
-- client/data_take.rs, arrays that the client takes away.
--
-- The reader. Messages is `MessagesParser` of client/messages.rs, and read_all and read_each are
-- the way in which client/websocket.rs calls it. The server's writer may join several messages into
-- one websocket message, so the theorems quantify over every way to do so. Transport.Receiver is that
-- writer's `DataReceiver` of server/server_core.rs, in runs in which messages come into its channel at
-- any time. Transport.Uplink is the other direction: `parse_to_send` and `MessagesSerializer` of
-- client/messages.rs, and `SocketReader` of server/socket_reader.rs. Transport.Handshake is
-- `check_handshake` of server/server_core.rs.
--
-- Values. Value is `Value` of server/values_server.rs, Value.Client that of client/values.rs, and
-- Value.Link joins both by connections: two queues that keep their order, and steps for what either
-- side does, for what arrives (the arms of `reader` in server/server_core.rs), and for a connection
-- that is lost and made again, at either end by itself: the client's new queue and its handshake
-- (client/client.rs), and in `run` of server/server_core.rs the flag `connected`, then `sync`. Take is
-- `ValueTake` of server/values_server.rs, Take.Client that of client/values.rs, and Take.Link joins
-- them by one connection after a `sync`.
--
-- Signals. Signals is `ChangedInner` of server/signals.rs, the schedule of values for which threads
-- of the server wait. Signals.Loop is the relation of all runs of the loop of `get`.
--
-- Lists. Lists is `ValueList` of server/vec_server.rs, over serialized values, and Lists.Client is
-- `VecState` of client/value_vec.rs, over any type with its serialization. In the same way Tables is
-- `ValueMap` of server/map_server.rs and Tables.Client `MapState` of client/value_map.rs; a hash map
-- is the list of its entries.
--
-- Images. Images.Client is `Image` of client/image.rs, and Images.Pixels its copy of pixels out of raw
-- memory. egui is not part of the repository: the pixels of a new image are a parameter, and a texture
-- is the list of the calls that it gets.
--
-- Words are natural numbers; a cast `as u32` is `% 2 ^ 32`, and sums and products of `usize` are
-- `% 2 ^ 64` where the code does not rule out that they wrap. A panic, such as a slice out of range,
-- is `fault` of Outcome. Loops are structural or have fuel: `batches` has the number of bytes, which
-- is enough as each turn takes one byte at least, and `read_rest` one more than the number of
-- bytes, as each header takes one byte at least.
--
-- What `Vec::with_capacity` gives is a parameter; the theorems on batched transfers assume that it
-- gives what was asked. The text of errors is not modelled, only its kind. Locks are not modelled:
-- an operation is one step, but for the wait for an event. Not modelled are static values, the
-- server's images, the registry of states, the opening of sockets, the Python bindings and the
-- generators of source text.
pub mod Prelude
pub mod Outcome
pub mod Protocol
pub mod Pack
pub mod Data
pub mod Messages
pub mod Value
pub mod Signals
pub mod Take
pub mod Transport
pub mod Lists
pub mod Tables
pub mod Images
pub mod Tests
