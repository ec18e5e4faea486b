-- ===== src/Data/Multi/Client.antt =====
-- `DataMulti` of client/data.rs. The hash maps of arrays and of batch buffers are functions; a
-- `Vec<T>` is the bytes of its memory, and `alloc` is as for one array.
use egui_states.Prelude.{
  ℕ, ◌+◌, ◌*◌, ◌/◌, ◌%◌, ◌++◌, Bytes, Option, none, some, [], leb, ◌==◌, if◌then◌else◌, length,
  take, drop, add_usize, mul_usize, put,
}
use egui_states.Outcome.{Outcome, ok, err, fault}
use egui_states.Protocol.DataType.{DataType, type_eq, item_size}
use egui_states.Protocol.Headers.{TransportType, set, add, replace}
use egui_states.Data.Message.{
  DataMessage, all, batch_start, batch, batch_end, drain, clear, DataMultiMessage, remove, modify,
  reset,
}
use egui_states.Data.Client.{
  ClientError, type_mismatch, not_multiple, too_large, size_mismatch, no_header, out_of_range,
  no_key, Buffer, isize_max,
}

pub record MultiClient : Type 0 where
  pub data_type : DataType
  pub inner : ℕ → Option Bytes
  pub buffers : ℕ → Option Buffer
  pub acks : ℕ

abbrev pub Reply : Type 0
Reply = MultiClient × Outcome ClientError (Unit {0})

-- `DataMulti::new`
unfoldable pub new_multi : DataType → MultiClient
new_multi data_type = record {
  data_type = data_type;
  inner = λ k. none;
  buffers = λ k. none;
  acks = 0;
}

abbrev pub element_size : MultiClient → ℕ
element_size c = item_size c.data_type

abbrev pub len : MultiClient → Bytes → ℕ
len c mem = length mem / element_size c

abbrev pub send_ack : MultiClient → MultiClient
send_ack c = record c { acks = c.acks + 1 }

abbrev pub fail : MultiClient → ClientError → Reply
fail c e = (c, err e)

abbrev pub store : MultiClient → ℕ → Bytes → Reply
store c key xs = (record c { inner = put c.inner key (some xs) }, ok tt)

-- `splice(i..j, xs)` and `drain(i..j)` of the array `old` at the key.
unfoldable pub splice_at : MultiClient → ℕ → Bytes → ℕ → ℕ → Bytes → Reply
splice_at c key old i j xs =
    if leb i j
    then store c key (take (i * element_size c) old ++ (xs ++ drop (j * element_size c) old))
    else (c, fault)

-- The arms of `save_data` that need an array at the key.
unfoldable pub save_add : MultiClient → ℕ → Bytes → Option Bytes → Reply
save_add c key xs none = fail c no_key
save_add c key xs (some old) = store c key (old ++ xs)

unfoldable pub save_replace : MultiClient → ℕ → Bytes → ℕ → Option Bytes → Reply
unfolding splice_at
save_replace c key xs start none = fail c no_key
save_replace c key xs start (some old) =
    if leb (add_usize start (len c xs)) (len c old)
    then splice_at c key old start (add_usize start (len c xs)) xs
    else fail c out_of_range

-- `save_data`
unfoldable pub save_multi : MultiClient → ℕ → Bytes → TransportType → Reply
unfolding save_add save_replace
save_multi c key xs (set count) = if len c xs == count then store c key xs else fail c size_mismatch
save_multi c key xs (add count) =
    if len c xs == count then save_add c key xs (c.inner key) else fail c size_mismatch
save_multi c key xs (replace start count) =
    if len c xs == count then save_replace c key xs start (c.inner key) else fail c size_mismatch

-- `set_all`
unfoldable pub set_all_multi : MultiClient → ℕ → Bytes → TransportType → Reply
unfolding save_multi
set_all_multi c key xs transport =
    let c' = send_ack c in
    if length xs % element_size c == 0 then save_multi c' key xs transport else fail c' not_multiple

-- `batch`, on the buffer at the key.
unfoldable pub batch_more_multi : MultiClient → ℕ → Bytes → Option Buffer → Reply
batch_more_multi c key xs none = fail c no_header
batch_more_multi c key xs (some b) =
    if length xs % element_size c == 0
    then (if leb (len c b.mem + len c xs) b.capacity
        then (
          record c { buffers = put c.buffers key (some (record b { mem = b.mem ++ xs })) },
          ok tt,
        )
        else fail c too_large)
    else fail c not_multiple

-- `batch_end`: the buffer is removed before the checks.
unfoldable pub batch_last_multi : MultiClient → ℕ → Bytes → TransportType → Option Buffer → Reply
unfolding save_multi
batch_last_multi c key xs transport none =
    fail (record c { buffers = put c.buffers key none; acks = c.acks + 1 }) no_header
batch_last_multi c key xs transport (some b) =
    let c' = record c { buffers = put c.buffers key none; acks = c.acks + 1 } in
    if length xs % element_size c == 0
    then (if len c b.mem + len c xs == b.capacity
        then save_multi c' key (b.mem ++ xs) transport
        else fail c' size_mismatch)
    else fail c' not_multiple

-- `drain`, of the array at the key.
unfoldable pub drain_multi : MultiClient → ℕ → ℕ → ℕ → Option Bytes → Reply
unfolding splice_at
drain_multi c key index count none = fail (send_ack c) no_key
drain_multi c key index count (some old) =
    let c' = send_ack c in
    if leb (add_usize index count) (len c old)
    then splice_at c' key old index (add_usize index count) []
    else fail c' out_of_range

-- `Clear` empties an array that is there, and leaves the batch buffer.
abbrev pub emptied : Option Bytes → Option Bytes
emptied none = none
emptied (some old) = some []

module _ (alloc : ℕ → ℕ) where
  -- `batch_start`
  unfoldable pub batch_first_multi : MultiClient → ℕ → Bytes → ℕ → Reply
  batch_first_multi c key xs count =
      if leb (length xs) (mul_usize count (element_size c))
      then (if length xs % element_size c == 0
          then (if leb (count * element_size c) isize_max
              then (
                record c {
                  buffers = put c.buffers key (some (record { mem = xs; capacity = alloc count }));
                },
                ok tt,
              )
              else (c, fault))
          else fail c not_multiple)
      else fail c too_large

  -- `UpdateMultiData::update`
  unfoldable pub update_multi : MultiClient → ℕ → DataMessage → Reply
  unfolding set_all_multi batch_first_multi batch_more_multi batch_last_multi drain_multi
  update_multi c key (all data_type transport xs) =
      if type_eq c.data_type data_type
      then set_all_multi c key xs transport
      else fail c type_mismatch
  update_multi c key (batch_start count xs) = batch_first_multi c key xs count
  update_multi c key (batch xs) = batch_more_multi c key xs (c.buffers key)
  update_multi c key (batch_end data_type transport xs) =
      if type_eq c.data_type data_type
      then batch_last_multi c key xs transport (c.buffers key)
      else fail c type_mismatch
  update_multi c key (drain index count) = drain_multi c key index count (c.inner key)
  update_multi c key clear = (record c { inner = put c.inner key (emptied (c.inner key)) }, ok tt)

  -- The arms of `handle_message` (client/messages.rs) for `ServerMessage::DataMulti`.
  unfoldable pub handle_multi : MultiClient → DataMultiMessage → Reply
  unfolding update_multi
  handle_multi c (remove key) = (record c { inner = put c.inner key none }, ok tt)
  handle_multi c (modify key m) = update_multi c key m
  handle_multi c reset = (record c { inner = λ k. none }, ok tt)
