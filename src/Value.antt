-- ===== src/Value.antt =====
-- A single value that both sides may set: `Value` of server/values_server.rs. `pending` counts the
-- messages that the client has not acknowledged; while there are any, its updates are dropped.
-- What an operation hands to the signals is an `Option`, what it sends a list of messages.
pub mod Client
pub mod Link
pub mod Queue
pub mod Setting
pub mod Arrival
pub mod Agreement
pub mod Settling
pub mod Tracking
use egui_states.Prelude.{
  ℕ, ◌+◌, ◌-◌, ◌++◌, Bytes, Bool, true, false, List, Option, none, some, [], ◌∷◌, ltb, ◌==◌,
  if◌then◌else◌, length, as_u32,
}
use egui_states.Outcome.{Outcome, ok, err, fault, ◌>>=◌}
use egui_states.Protocol.Headers.{ServerHeader}
use egui_states.Protocol.Codec.{Codec}

pub data ValueError : Type 0 where
  type_mismatch serialize_failed : ValueError

pub record Value : Type 0 where
  pub id : ℕ
  pub type_id : ℕ
  pub value : Bytes
  pub pending : ℕ

-- `Value::new`
unfoldable pub new : ℕ → ℕ → Bytes → Value
new id type_id value = record { id = id; type_id = type_id; value = value; pending = 0 }

abbrev pub signal_if : Bool → Bytes → Option Bytes
signal_if signal value = if signal then some value else none

-- `Value::update_value`: an update from the client.
unfoldable pub update_value : Value → ℕ → Bool → Bytes → Outcome ValueError (Value × Option Bytes)
update_value v type_id signal value =
    if type_id == v.type_id
    then (if v.pending == 0
        then ok (record v { value = value }, signal_if signal value)
        else ok (v, none))
    else err type_mismatch

-- `Acknowledge::acknowledge`
unfoldable pub acknowledge : Value → Value
acknowledge v = if ltb 0 v.pending then record v { pending = v.pending - 1 } else v

module _ (codec : Codec ServerHeader) where
  -- `ServerHeader::serialize_value`
  unfoldable pub serialize_value : ℕ → ℕ → Bool → Bytes → Outcome ValueError Bytes
  serialize_value id type_id update value =
      elim (codec.encode (ServerHeader.value id type_id update (as_u32 (length value)))) [
        | none ↦ err serialize_failed
        | some b ↦ ok (b ++ value)
      ]

  -- `Value::set`; the message is made before anything changes.
  unfoldable pub set_value :
      Value → Bytes → Bool → Bool → Bool → Outcome ValueError (Value × List Bytes × Option Bytes)
  unfolding serialize_value
  set_value v value set_signals update true = do
    message ← serialize_value v.id v.type_id update value
    ok (
      record v { value = value; pending = v.pending + 1 },
      message ∷ [],
      signal_if set_signals value,
    )
  set_value v value set_signals update false =
      ok (record v { value = value }, [], signal_if set_signals value)

  -- `SyncTrait::sync`
  unfoldable pub sync : Value → Value × Outcome ValueError Bytes
  unfolding serialize_value
  sync v =
      let v' = record v { pending = 1 } in (v', serialize_value v'.id v'.type_id false v'.value)
