-- ===== src/Data/Take/Client.antt =====
-- `DataTake` and `DataMultiTake` of client/data_take.rs. The two have the same code for the array
-- and its batch buffer, once as two fields and once as two hash maps at a key: here they share
-- `update_slot`. A `Vec<T>` is the bytes of its memory, and `alloc n` the capacity that
-- `Vec::with_capacity(n)` gives. `acks` counts the acknowledgements that are sent. An unsafe copy
-- beyond the capacity of its vector is a fault.
use egui_states.Prelude.{
  ℕ, ◌+◌, ◌*◌, ◌/◌, ◌%◌, ◌++◌, Bytes, Bool, Option, none, some, leb, ◌==◌, if◌then◌else◌, length,
  mul_usize, put,
}
use egui_states.Outcome.{Outcome, ok, err, fault}
use egui_states.Protocol.DataType.{DataType, type_eq, item_size}
use egui_states.Data.Message.{
  DataTakeMessage, all, batch_start, batch, batch_end, DataMultiTakeMessage, remove, modify, reset,
}
use egui_states.Data.Client.{
  ClientError, type_mismatch, not_multiple, too_large, size_mismatch, no_header, Buffer, isize_max,
}

-- `inner` and `buffer`, the array with its blocking flag.
pub record Slot : Type 0 where
  pub inner : Option (Bytes × Bool)
  pub buffer : Option Buffer

abbrev pub SlotReply : Type 0
SlotReply = Slot × Outcome ClientError (Unit {0})

module _ (data_type : DataType) where
  abbrev pub unit_size : ℕ
  unit_size = item_size data_type

  -- The `len()` of a `Vec<T>`.
  abbrev pub len : Bytes → ℕ
  len mem = length mem / unit_size

  -- `Batch`
  unfoldable pub take_batch : Slot → Bytes → Option Buffer → SlotReply
  take_batch s xs none = (s, err no_header)
  take_batch s xs (some b) =
      if length xs % unit_size == 0
      then (if leb (len b.mem + len xs) b.capacity
          then (record s { buffer = some (record b { mem = b.mem ++ xs }) }, ok tt)
          else (s, err too_large))
      else (s, err not_multiple)

  -- `BatchEnd`: the buffer is taken before the checks, and its capacity is not looked at.
  unfoldable pub take_last : Slot → ℕ → Bytes → Bool → Option Buffer → SlotReply
  take_last s count xs blocking none = (record s { buffer = none }, err no_header)
  take_last s count xs blocking (some b) =
      let s' = record s { buffer = none } in
      if length xs % unit_size == 0
      then (if len b.mem + len xs == count
          then (if leb (len b.mem + len xs) b.capacity
              then (record s' { inner = some (b.mem ++ xs, blocking) }, ok tt)
              else (s', fault))
          else (s', err size_mismatch))
      else (s', err not_multiple)

  module _ (alloc : ℕ → ℕ) where
    -- `All`
    unfoldable pub take_all_of : Slot → ℕ → Bytes → Bool → SlotReply
    take_all_of s count xs blocking =
        if length xs == mul_usize count unit_size
        then (if leb (count * unit_size) isize_max
            then (record s { inner = some (xs, blocking) }, ok tt)
            else (s, fault))
        else (s, err size_mismatch)

    -- `BatchStart`
    unfoldable pub take_first : Slot → ℕ → Bytes → SlotReply
    take_first s count xs =
        if leb (length xs) (mul_usize count unit_size)
        then (if length xs % unit_size == 0
            then (if leb (count * unit_size) isize_max
                then (
                  record s { buffer = some (record { mem = xs; capacity = alloc count }) },
                  ok tt,
                )
                else (s, fault))
            else (s, err not_multiple))
        else (s, err too_large)

    -- `UpdateDataTake::update`
    unfoldable pub update_slot : Slot → DataTakeMessage → Bool → SlotReply
    unfolding take_batch take_last take_all_of take_first
    update_slot s (all t count xs) blocking =
        if type_eq t data_type then take_all_of s count xs blocking else (s, err type_mismatch)
    update_slot s (batch_start count xs) blocking = take_first s count xs
    update_slot s (batch xs) blocking = take_batch s xs s.buffer
    update_slot s (batch_end t count xs) blocking =
        if type_eq t data_type
        then take_last s count xs blocking s.buffer
        else (s, err type_mismatch)

pub record TakeArray : Type 0 where
  pub data_type : DataType
  pub slot : Slot
  pub acks : ℕ

-- `DataTake::new`
unfoldable pub new_take : DataType → TakeArray
new_take data_type = record {
  data_type = data_type;
  slot = record { inner = none; buffer = none };
  acks = 0;
}

abbrev pub acks_after : ℕ → Option (Bytes × Bool) → ℕ
acks_after n none = n
acks_after n (some p) = if p.1 then n + 1 else n

abbrev pub array_of : Option (Bytes × Bool) → Option Bytes
array_of none = none
array_of (some p) = some p.0

-- `DataTake::take`
unfoldable pub take_array : TakeArray → TakeArray × Option Bytes
take_array c = (
  record c { slot = record (c.slot) { inner = none }; acks = acks_after c.acks c.slot.inner },
  array_of c.slot.inner,
)

-- `UpdateDataTake::update`
unfoldable pub update_array :
    (ℕ → ℕ) → TakeArray → DataTakeMessage → Bool → TakeArray × Outcome ClientError (Unit {0})
unfolding update_slot
update_array alloc c m blocking =
    let r = update_slot c.data_type alloc c.slot m blocking in (record c { slot = r.0 }, r.1)

-- `DataMultiTake`, its hash maps as functions.
pub record MultiTakeArray : Type 0 where
  pub data_type : DataType
  pub inner : ℕ → Option (Bytes × Bool)
  pub buffers : ℕ → Option Buffer
  pub acks : ℕ

-- `DataMultiTake::new`
unfoldable pub new_multi_take : DataType → MultiTakeArray
new_multi_take data_type = record {
  data_type = data_type;
  inner = λ k. none;
  buffers = λ k. none;
  acks = 0;
}

abbrev pub slot_at : MultiTakeArray → ℕ → Slot
slot_at c key = record { inner = c.inner key; buffer = c.buffers key }

-- `DataMultiTake::take`
unfoldable pub take_at : MultiTakeArray → ℕ → MultiTakeArray × Option Bytes
take_at c key = (
  record c { inner = put c.inner key none; acks = acks_after c.acks (c.inner key) },
  array_of (c.inner key),
)

-- `UpdateDataMultiTake::update`
unfoldable pub update_at :
    (ℕ → ℕ)
    → MultiTakeArray
    → ℕ
    → DataTakeMessage
    → Bool
    → MultiTakeArray × Outcome ClientError (Unit {0})
unfolding update_slot
update_at alloc c key m blocking =
    let r = update_slot c.data_type alloc (slot_at c key) m blocking in
    (record c { inner = put c.inner key r.0.inner; buffers = put c.buffers key r.0.buffer }, r.1)

-- The arms of `handle_message` (client/messages.rs) for `ServerMessage::DataMultiTake`, with
-- `remove` and `reset`.
unfoldable pub handle_multi_take :
    (ℕ → ℕ)
    → MultiTakeArray
    → DataMultiTakeMessage
    → MultiTakeArray × Outcome ClientError (Unit {0})
unfolding update_at
handle_multi_take alloc c (remove key) =
    (record c { inner = put c.inner key none; buffers = put c.buffers key none }, ok tt)
handle_multi_take alloc c (modify key m blocking) = update_at alloc c key m blocking
handle_multi_take alloc c reset = (record c { inner = λ k. none; buffers = λ k. none }, ok tt)
