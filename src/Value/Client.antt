-- ===== src/Value/Client.antt =====
-- `Value` of client/values.rs, over any type `T` with its serialization. `messages` is what the
-- client has put into its channel, oldest first.
use mathlib.Core.Option
use egui_states.Prelude.{
  ℕ, Bytes, Bool, List, Option, none, some, [], ◌∷◌, ◌++◌, ◌==◌, if◌then◌else◌,
}
use egui_states.Outcome.{Outcome, ok, err, fault}
use egui_states.Protocol.Codec.{Codec}

-- `ChannelMessage` of client/messages.rs.
pub data ChannelMessage : Type 0 where
  value : ℕ → ℕ → Bool → Bytes → ChannelMessage
  signal : ℕ → ℕ → Bytes → ChannelMessage
  message : Bytes → ChannelMessage
  ack : ℕ → ChannelMessage

pub data ClientError : Type 0 where
  type_mismatch parse_error : ClientError

module _ (T : Type 0) where
  pub record ClientValue : Type 0 where
    pub id : ℕ
    pub type_id : ℕ
    pub current : T
    pub messages : List ChannelMessage

module _ {T : Type 0} where
  -- `self.inner.1.send(…)`
  abbrev pub send : ClientValue T → ChannelMessage → ClientValue T
  send c m = record c { messages = c.messages ++ (m ∷ []) }

module _ {T : Type 0} (wire : Codec T) where
  -- `deserialize`: postcard's `from_bytes` leaves bytes over without complaint.
  abbrev pub deserialize : Bytes → Option T
  deserialize bytes = Option.map (λ r. r.0) (wire.take_from bytes)

  -- `Value::set_inner`, behind `set` and `set_signal`; `to_message` panics if it cannot serialize.
  unfoldable pub set_inner : ClientValue T → T → Bool → Outcome ClientError (ClientValue T)
  set_inner c v with_signal = elim (wire.encode v) [
    | none ↦ fault
    | some b ↦
        let c' = send c (ChannelMessage.value c.id c.type_id with_signal b) in
        ok (record c' { current = v })
  ]

  -- `UpdateValue::update_value`: a value from the server, acknowledged on every path.
  unfoldable pub update_value :
      ClientValue T → ℕ → Bytes → ClientValue T × Outcome ClientError (Unit {0})
  update_value c type_id bytes =
      let c' = send c (ChannelMessage.ack c.id) in
      if type_id == c.type_id
      then elim (deserialize bytes) [
        | none ↦ (c', err parse_error)
        | some v ↦ (record c' { current = v }, ok tt)
      ]
      else (c', err type_mismatch)
