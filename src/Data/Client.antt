-- ===== src/Data/Client.antt =====
-- `Data` of client/data.rs. A `Vec<T>` of numbers is the bytes of its memory; `T` is one of the
-- ten number types, and the code never looks into an element. `alloc n` is the capacity that
-- `Vec::with_capacity(n)` gives, which is the standard library's choice, at least `n`.
-- The only message that `Data` sends is `Ack(id)`: `acks` counts them.
pub mod Save
pub mod Transfer
pub mod Whole
use egui_states.Prelude.{
  ℕ, ◌+◌, ◌-◌, ◌*◌, ◌/◌, ◌%◌, ◌^◌, ◌++◌, Bytes, Option, none, some, [], leb, ◌==◌, if◌then◌else◌,
  length, take, drop, add_usize, mul_usize,
}
use egui_states.Outcome.{Outcome, ok, err, fault}
use egui_states.Protocol.DataType.{DataType, type_eq, item_size}
use egui_states.Protocol.Headers.{TransportType, set, add, replace}
use egui_states.Data.Message.{DataMessage, all, batch_start, batch, batch_end, drain, clear}

-- The kinds of the error texts.
pub data ClientError : Type 0 where
  type_mismatch not_multiple too_large size_mismatch no_header out_of_range no_key : ClientError

-- The batch buffer, a `Vec<T>` with its capacity, in elements.
pub record Buffer : Type 0 where
  pub mem : Bytes
  pub capacity : ℕ

pub record Client : Type 0 where
  pub data_type : DataType
  pub inner : Bytes
  pub buffer : Option Buffer
  pub acks : ℕ

abbrev pub Reply : Type 0
Reply = Client × Outcome ClientError (Unit {0})

-- `Data::new`
unfoldable pub new : DataType → Client
new data_type = record { data_type = data_type; inner = []; buffer = none; acks = 0 }

-- `self.element_size`
abbrev pub element_size : Client → ℕ
element_size c = item_size c.data_type

-- The `len()` of a `Vec<T>`.
abbrev pub len : Client → Bytes → ℕ
len c mem = length mem / element_size c

-- `self.sender.send(ChannelMessage::Ack(self.id))`
abbrev pub send_ack : Client → Client
send_ack c = record c { acks = c.acks + 1 }

-- An allocation of more than `isize::MAX` bytes panics.
abbrev pub isize_max : ℕ
isize_max = 2 ^ 63 - 1

abbrev pub fail : Client → ClientError → Reply
fail c e = (c, err e)

-- `splice(i..j, xs)` and `drain(i..j)` on elements; a range whose end lies before its start panics.
unfoldable pub splice : Client → ℕ → ℕ → Bytes → Reply
splice c i j xs =
    if leb i j
    then (
      record c {
        inner = take (i * element_size c) c.inner ++ (xs ++ drop (j * element_size c) c.inner);
      },
      ok tt,
    )
    else (c, fault)

unfoldable pub save_data : Client → Bytes → TransportType → Reply
unfolding splice
save_data c xs (set count) =
    if len c xs == count then (record c { inner = xs }, ok tt) else fail c size_mismatch
save_data c xs (add count) =
    if len c xs == count then (record c { inner = c.inner ++ xs }, ok tt) else fail c size_mismatch
save_data c xs (replace start count) =
    if len c xs == count
    then (if leb (add_usize start (len c xs)) (len c c.inner)
        then splice c start (add_usize start (len c xs)) xs
        else fail c out_of_range)
    else fail c size_mismatch

unfoldable pub set_all : Client → Bytes → TransportType → Reply
unfolding save_data
set_all c xs transport =
    let c' = send_ack c in
    if length xs % element_size c == 0 then save_data c' xs transport else fail c' not_multiple

unfoldable pub batch_more : Client → Bytes → Reply
batch_more c xs = elim c.buffer [
  | none ↦ fail c no_header
  | some b ↦
      if length xs % element_size c == 0
      then (if leb (len c b.mem + len c xs) b.capacity
          then (record c { buffer = some (record b { mem = b.mem ++ xs }) }, ok tt)
          else fail c too_large)
      else fail c not_multiple
]

-- The buffer is taken before the checks.
unfoldable pub batch_last : Client → Bytes → TransportType → Reply
unfolding save_data
batch_last c xs transport =
    let c' = record c { buffer = none; acks = c.acks + 1 } in
    elim c.buffer [
      | none ↦ fail c' no_header
      | some b ↦
          if length xs % element_size c == 0
          then (if len c b.mem + len c xs == b.capacity
              then save_data c' (b.mem ++ xs) transport
              else fail c' size_mismatch)
          else fail c' not_multiple
    ]

unfoldable pub drain_range : Client → ℕ → ℕ → Reply
unfolding splice
drain_range c index count =
    let c' = send_ack c in
    if leb (add_usize index count) (len c c.inner)
    then splice c' index (add_usize index count) []
    else fail c' out_of_range

module _ (alloc : ℕ → ℕ) where
  unfoldable pub batch_first : Client → Bytes → ℕ → Reply
  batch_first c xs count =
      if leb (length xs) (mul_usize count (element_size c))
      then (if length xs % element_size c == 0
          then (if leb (count * element_size c) isize_max
              then (record c { buffer = some (record { mem = xs; capacity = alloc count }) }, ok tt)
              else (c, fault))
          else fail c not_multiple)
      else fail c too_large

  -- `UpdateData::update_data`
  unfoldable pub update_data : Client → DataMessage → Reply
  unfolding set_all batch_first batch_more batch_last drain_range
  update_data c (all data_type transport xs) =
      if type_eq c.data_type data_type then set_all c xs transport else fail c type_mismatch
  update_data c (batch_start count xs) = batch_first c xs count
  update_data c (batch xs) = batch_more c xs
  update_data c (batch_end data_type transport xs) =
      if type_eq c.data_type data_type then batch_last c xs transport else fail c type_mismatch
  update_data c (drain index count) = drain_range c index count
  update_data c clear = (record c { inner = []; buffer = none }, ok tt)
