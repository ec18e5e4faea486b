-- ===== src/Transport/Uplink.antt =====
-- From the client to the server: `parse_to_send` and `MessagesSerializer` of client/messages.rs, and
-- `SocketReader` of server/socket_reader.rs, whose `previous` is kept as the bytes from its pointer
-- on; whether it copies them makes no difference here. The two constants are parameters.
pub mod Reading
pub mod Batches
use egui_states.Prelude.{
  ℕ, zero, suc, ◌+◌, ◌-◌, Bytes, Bool, true, false, List, Option, none, some, [], ◌∷◌, ◌++◌, ltb,
  ◌||◌, if◌then◌else◌, length, drop, slice, as_u32,
}
use egui_states.Outcome.{Outcome, ok, err, fault, ◌>>=◌}
use Prim.Native.String.{String}
use egui_states.Protocol.Headers.{ClientHeader}
use egui_states.Protocol.Codec.{Codec}
use egui_states.Value.Client.{ChannelMessage}

-- `ClientMessage` of server/socket_reader.rs.
pub data ClientMessage : Type 0 where
  value : ℕ → ℕ → Bool → Bytes → ClientMessage
  signal : ℕ → ℕ → Bytes → ClientMessage
  ack : ℕ → ClientMessage
  message : Bytes → ClientMessage
  handshake : ℕ → Option ℕ → Option String → ClientMessage

pub data ReadError : Type 0 where
  bad_header incomplete : ReadError

abbrev pub header_of : ChannelMessage → ClientHeader
header_of (ChannelMessage.value id type_id with_signal bytes) =
    ClientHeader.value id type_id with_signal (as_u32 (length bytes))
header_of (ChannelMessage.signal id type_id bytes) =
    ClientHeader.signal id type_id (as_u32 (length bytes))
header_of (ChannelMessage.message bytes) = ClientHeader.message (as_u32 (length bytes))
header_of (ChannelMessage.ack id) = ClientHeader.ack id

abbrev pub payload_of : ChannelMessage → Bytes
payload_of (ChannelMessage.value id type_id with_signal bytes) = bytes
payload_of (ChannelMessage.signal id type_id bytes) = bytes
payload_of (ChannelMessage.message bytes) = bytes
payload_of (ChannelMessage.ack id) = []

-- `MessagesSerializer`; a `None` in the channel stops it.
pub record Serializer : Type 0 where
  pub channel : List (Option ChannelMessage)
  pub stopped : Bool

module _ (codec : Codec ClientHeader) where
  -- `parse_to_send`, which panics if the header cannot be serialized.
  unfoldable pub parse_to_send : ChannelMessage → Bytes → Outcome ReadError Bytes
  parse_to_send m data_bytes = elim (codec.encode (header_of m)) [
    | none ↦ fault
    | some b ↦ ok (data_bytes ++ (b ++ payload_of m))
  ]

  module _ (threshold max_count : ℕ) where
    -- The loop over `try_recv`.
    unfoldable pub fill :
        ℕ → Bytes → List (Option ChannelMessage) → Outcome ReadError (Bytes × Serializer)
    unfolding parse_to_send
    fill counter data_bytes [] = ok (data_bytes, record { channel = []; stopped = false })
    fill counter data_bytes (none ∷ rest) =
        ok (data_bytes, record { channel = rest; stopped = true })
    fill counter data_bytes (some m ∷ rest) = parse_to_send m data_bytes >>= λ longer.
        let more = fill (counter + 1) longer rest in
        if ltb max_count (counter + 1) || ltb threshold (length longer)
        then ok (longer, record { channel = rest; stopped = false })
        else more

    -- `MessagesSerializer::next`; on an empty channel, where it waits, it has nothing.
    unfoldable pub next_data : Serializer → Outcome ReadError (Option Bytes × Serializer)
    unfolding fill
    next_data s = if s.stopped then ok (none, s) else elim s.channel [
      | [] ↦ ok (none, s)
      | ◌∷◌ item rest ↦ elim item [
        | none ↦ ok (none, record s { channel = rest })
        | some m ↦ parse_to_send m [] >>= λ first. fill 0 first rest >>= λ r. ok (some r.0, r.1)
      ]
    ]

  -- The bytes behind a position, if there are any.
  abbrev pub left_behind : Bytes → ℕ → Option Bytes
  left_behind bytes k = if ltb k (length bytes) then some (drop k bytes) else none

  abbrev pub with_body :
      Bytes → ℕ → ℕ → (Bytes → ClientMessage) → Outcome ReadError (ClientMessage × Option Bytes)
  with_body bytes size data_size make =
      if ltb (length bytes) (size + data_size)
      then err incomplete
      else ok (make (slice bytes size (size + data_size)), left_behind bytes (size + data_size))

  abbrev pub received_as :
      Bytes → ℕ → ClientHeader → Outcome ReadError (ClientMessage × Option Bytes)
  received_as bytes size (ClientHeader.value id type_id with_signal n) =
      with_body bytes size n (ClientMessage.value id type_id with_signal)
  received_as bytes size (ClientHeader.signal id type_id n) =
      with_body bytes size n (ClientMessage.signal id type_id)
  received_as bytes size (ClientHeader.ack id) = ok (ClientMessage.ack id, left_behind bytes size)
  received_as bytes size (ClientHeader.message n) = with_body bytes size n ClientMessage.message
  received_as bytes size (ClientHeader.handshake protocol version token) =
      ok (ClientMessage.handshake protocol version token, left_behind bytes size)

  abbrev opened :
      Bytes → Option (ClientHeader × Bytes) → Outcome ReadError (ClientMessage × Option Bytes)
  opened bytes none = err bad_header
  opened bytes (some r) = received_as bytes (length bytes - length r.1) r.0

  -- `SocketReader::next` on the bytes that it has.
  unfoldable pub next_message : Bytes → Outcome ReadError (ClientMessage × Option Bytes)
  next_message bytes = opened bytes (codec.take_from bytes)

  -- The calls of `next` in `reader` (server/server_core.rs) up to the end of a websocket message.
  unfoldable pub read_fuel : ℕ → Bytes → Outcome ReadError (List ClientMessage)
  unfolding next_message
  read_fuel zero bytes = fault
  read_fuel (suc n) bytes = next_message bytes >>= λ r. elim r.1 [
    | none ↦ ok (r.0 ∷ [])
    | some rest ↦ read_fuel n rest >>= λ ms. ok (r.0 ∷ ms)
  ]

  unfoldable pub read_whole : Bytes → Outcome ReadError (List ClientMessage)
  unfolding read_fuel
  read_whole bytes = read_fuel (length bytes) bytes
