-- ===== src/Data/Take/Refused.antt =====
-- The messages that client/data_take.rs refuses.
use egui_states.Prelude.{ℕ, ◌≡◌, ◌⊎◌, Bytes, Bool, Option, arith}
use egui_states.Outcome.{Outcome, ok}
use egui_states.Protocol.DataType.{DataType}
use egui_states.Data.Message.{DataTakeMessage, all, batch_start, batch, batch_end}
use egui_states.Data.Client.{Buffer}
use egui_states.Data.Take.Client.{Slot, take_batch, take_last, take_all_of, take_first, update_slot}

module _ (t : DataType) (alloc : ℕ → ℕ) (s : Slot) (blocking : Bool) where
  -- Either the array is what it was, or the message was accepted.
  abbrev pub Safe : Slot × Outcome egui_states.Data.Client.ClientError (Unit {0}) → Type 0
  Safe r = (r.0.inner ≡ s.inner) ⊎ (r.1 ≡ ok tt)

  take_batch-Safe : (xs : Bytes) (o : Option Buffer) → Safe (take_batch t s xs o)
  unfolding take_batch
  take_batch-Safe xs o = ground arith

  take_last-Safe :
      (count : ℕ) (xs : Bytes) (o : Option Buffer) → Safe (take_last t s count xs blocking o)
  unfolding take_last
  take_last-Safe count xs o = ground arith

  -- A message that is not accepted, by an error or by a panic, leaves the array that was to be taken
  -- and its blocking flag as they were.
  pub update_slot-Safe : (m : DataTakeMessage) → Safe (update_slot t alloc s m blocking)
  unfolding update_slot take_all_of take_first
  update_slot-Safe (all u count xs) = ground arith
  update_slot-Safe (batch_start count xs) = ground arith
  update_slot-Safe (batch xs) = take_batch-Safe xs s.buffer
  update_slot-Safe (batch_end u count xs) = ground (arith, take_last-Safe count xs s.buffer)
