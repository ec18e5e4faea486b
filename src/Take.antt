-- ===== src/Take.antt =====
-- A value that the client takes: `ValueTake` of server/values_server.rs. A value that is set as
-- blocking clears the event, and the client's acknowledgement sets it again.
pub mod Client
pub mod Link
pub mod Ledger
pub mod Settling
use egui_states.Prelude.{
  ℕ, Bytes, Bool, true, false, List, Option, none, some, [], ◌∷◌, ◌++◌, if◌then◌else◌, length,
  as_u32,
}
use egui_states.Outcome.{Outcome, ok, err, ◌>>=◌}
use egui_states.Protocol.Headers.{ServerHeader}
use egui_states.Protocol.Codec.{Codec}
use egui_states.Value.{ValueError, serialize_failed}

pub record ValueTake : Type 0 where
  pub id : ℕ
  pub type_id : ℕ
  pub event : Bool

-- `ValueTake::new`
unfoldable pub new_take : ℕ → ℕ → ValueTake
new_take id type_id = record { id = id; type_id = type_id; event = false }

-- `ServerHeader::serialize_value_take`
unfoldable pub serialize_value_take :
    Codec ServerHeader → ℕ → ℕ → Bool → Bool → Bytes → Outcome ValueError Bytes
serialize_value_take codec id type_id blocking update value =
    elim (codec.encode
      (ServerHeader.value_take id type_id blocking update (as_u32 (length value)))) [
        | none ↦ err serialize_failed
        | some b ↦ ok (b ++ value)
      ]

-- `ValueTake::set` before it waits: the message with which it does.
unfoldable pub set_take :
    Codec ServerHeader → ValueTake → Bytes → Bool → Bool → Bool → Outcome ValueError (Option Bytes)
unfolding serialize_value_take
set_take codec v value blocking update true = do
  message ← serialize_value_take codec v.id v.type_id blocking update value
  ok (some message)
set_take codec v value blocking update false = ok none

-- What follows once the event is set: `wait_clear` clears it. The connection may be lost by then.
unfoldable pub resume_take : ValueTake → Bytes → Bool → Bool → ValueTake × List Bytes
resume_take v message blocking connected =
    ((if blocking then record v { event = false } else v), (if connected then message ∷ [] else []))

-- `Acknowledge::acknowledge`
unfoldable pub acknowledge_take : ValueTake → ValueTake
acknowledge_take v = record v { event = true }

-- `SyncTrait::sync`
unfoldable pub sync_take : ValueTake → ValueTake
sync_take v = record v { event = true }
