-- ===== src/Take/Link.antt =====
-- A server's `ValueTake` (server/values_server.rs) and a client's (client/values.rs) over one
-- connection, after the server's `sync`. Both ways keep the order. `sent` and `done` are a record
-- of what happened: the blocking values that were sent, and what became of them at the client.
use egui_states.Prelude.{
  ◌≡◌, Bytes, Bool, true, List, Option, none, some, [], ◌∷◌, ◌++◌, ◌==◌, if◌then◌else◌,
}
use egui_states.Outcome.{ok}
use egui_states.Protocol.Headers.{ServerHeader}
use egui_states.Protocol.Codec.{Codec}
use egui_states.Value.Client.{ChannelMessage, value, signal, message, ack, deserialize}
use egui_states.Take.{ValueTake, set_take, resume_take, acknowledge_take}
use egui_states.Take.Client.{TakeClient, take_value, update_take}

-- The arm of `reader` (server/server_core.rs) for an acknowledgement.
unfoldable pub serve_take : ValueTake → ChannelMessage → ValueTake
serve_take v (ack id) = acknowledge_take v
serve_take v (value id type_id with_signal bytes) = v
serve_take v (signal id type_id bytes) = v
serve_take v (message bytes) = v

module _ (T : Type 0) where
  pub record Link : Type 0 where
    pub server : ValueTake
    pub client : TakeClient T
    pub to_client : List (Bytes × Bool)
    pub sent : List Bytes
    pub done : List (Option T)

module _ {T : Type 0} (wire : Codec T) where
  -- What the client makes of a value: nothing, if it refuses it.
  abbrev pub opened : Link T → Bytes → Option T
  opened l bytes = if l.server.type_id == l.client.type_id then deserialize wire bytes else none

  -- A blocking value that is refused is done with.
  abbrev pub refused_as : Bool → Option T → List (Option T)
  refused_as blocking none = if blocking then none ∷ [] else []
  refused_as blocking (some t) = []

  abbrev pub refused : Link T → Bytes → Bool → List (Option T)
  refused l bytes blocking = refused_as blocking (opened l bytes)

  abbrev pub released : Option (T × Bool) → List (Option T)
  released none = []
  released (some (t, blocking)) = if blocking then some t ∷ [] else []

  module _ (codec : Codec ServerHeader) where
    pub data Step : Link T → Link T → Type 0 where
      server_set :
          (l : Link T) (bytes : Bytes) (blocking update : Bool) (m : Bytes)
          → set_take codec l.server bytes blocking update true ≡ ok (some m)
          → l.server.event ≡ true
          → Step l (record l {
            server = (resume_take l.server m blocking true).0;
            to_client = l.to_client ++ ((bytes, blocking) ∷ []);
            sent = l.sent ++ (if blocking then bytes ∷ [] else []);
          })
      arrives :
          (l : Link T) (bytes : Bytes) (blocking : Bool) (rest : List (Bytes × Bool))
          → l.to_client ≡ (bytes, blocking) ∷ rest
          → Step l (record l {
            client = (update_take wire l.client l.server.type_id bytes blocking).0;
            to_client = rest;
            done = l.done ++ refused l bytes blocking;
          })
      client_take :
          (l : Link T)
          → Step l (record l {
            client = (take_value l.client).0;
            done = l.done ++ released l.client.value;
          })
      acknowledged :
          (l : Link T) (m : ChannelMessage) (rest : List ChannelMessage)
          → l.client.messages ≡ m ∷ rest
          → Step l (record l {
            server = serve_take l.server m;
            client = record (l.client) { messages = rest };
          })

    pub data Reach (l : Link T) : Link T → Type 0 where
      here : Reach l l
      then_step : {m n : Link T} → Reach l m → Step m n → Reach l n
