-- ===== src/Take/Client.antt =====
-- `ValueTake` of client/values.rs, over any type `T` with its serialization.
use egui_states.Prelude.{
  ℕ, Bytes, Bool, List, Option, none, some, [], ◌∷◌, ◌++◌, ◌==◌, if◌then◌else◌,
}
use egui_states.Outcome.{Outcome, ok, err}
use egui_states.Protocol.Codec.{Codec}
use egui_states.Value.Client.{ChannelMessage, ClientError, type_mismatch, parse_error, deserialize}

module _ (T : Type 0) where
  pub record TakeClient : Type 0 where
    pub id : ℕ
    pub type_id : ℕ
    pub value : Option (T × Bool)
    pub messages : List ChannelMessage

module _ {T : Type 0} where
  -- `ValueTake::new`
  unfoldable pub new_client : ℕ → ℕ → TakeClient T
  new_client id type_id = record { id = id; type_id = type_id; value = none; messages = [] }

  abbrev pub ack_if : Bool → TakeClient T → TakeClient T
  ack_if blocking c =
      if blocking then record c { messages = c.messages ++ (ChannelMessage.ack c.id ∷ []) } else c

  abbrev pub taken : TakeClient T → Option (T × Bool) → TakeClient T × Option T
  taken c none = (c, none)
  taken c (some (t, blocking)) = (ack_if blocking (record c { value = none }), some t)

  -- `take`
  unfoldable pub take_value : TakeClient T → TakeClient T × Option T
  take_value c = taken c c.value

module _ {T : Type 0} (wire : Codec T) where
  abbrev pub stored : TakeClient T → Bool → Option T → TakeClient T × Outcome ClientError (Unit {0})
  stored c blocking none = (ack_if blocking c, err parse_error)
  stored c blocking (some t) = (record c { value = some (t, blocking) }, ok tt)

  -- `UpdateValueTake::update_take`
  unfoldable pub update_take :
      TakeClient T → ℕ → Bytes → Bool → TakeClient T × Outcome ClientError (Unit {0})
  update_take c type_id bytes blocking =
      if type_id == c.type_id
      then stored c blocking (deserialize wire bytes)
      else (ack_if blocking c, err type_mismatch)
