-- ===== src/Value/Link.antt =====
-- A server value and a client value, joined by connections that come and go: what each side does, and
-- what arrives, as steps (`run` and `reader` of server/server_core.rs, `start_gui_client` of
-- client/client.rs). `to_client` is the server's channel with what is on its way to the client, by type
-- id and bytes; the client's own queue is on its way to the server. Both ways keep the order.
use egui_states.Prelude.{ℕ, ◌+◌, ◌≡◌, ◌≢◌, Bytes, Bool, true, false, List, some, [], ◌∷◌, ◌++◌}
use egui_states.Outcome.{ok, err, fault}
use egui_states.Protocol.Headers.{ServerHeader}
use egui_states.Protocol.Codec.{Codec}
use egui_states.Value.{Value, update_value, acknowledge, set_value, sync}
use egui_states.Value.Client
use egui_states.Value.Client.{
  ClientValue, ChannelMessage, value, signal, message, ack, deserialize, set_inner,
}

-- The arms of `reader` (server/server_core.rs) for this value: an update that is refused is logged.
unfoldable pub serve : Value → ChannelMessage → Value
serve v (ack id) = acknowledge v
serve v (value id type_id with_signal bytes) = elim (update_value v type_id with_signal bytes) [
  | ok (v', _) ↦ v'
  | err e ↦ v
  | fault ↦ v
]
serve v (signal id type_id bytes) = v
serve v (message bytes) = v

-- The server after a whole queue.
unfoldable pub serve_all : Value → List ChannelMessage → Value
serve_all v [] = v
serve_all v (m ∷ ms) = serve_all (serve v m) ms

-- The acknowledgements in a queue.
abbrev pub acks : List ChannelMessage → ℕ
acks [] = 0
acks (ack id ∷ ms) = acks ms + 1
acks (value id type_id with_signal bytes ∷ ms) = acks ms
acks (signal id type_id bytes ∷ ms) = acks ms
acks (message bytes ∷ ms) = acks ms

-- The server: without a connection, with `connected` set and this value not synchronized yet, or with
-- its reader and writer running.
pub data Stage : Type 0 where
  closed accepted serving : Stage

-- The client: without a connection, with a handshake sent, or with the connection that the server
-- has accepted.
pub data Line : Type 0 where
  lost greeted joined : Line

module _ (T : Type 0) where
  pub record Link : Type 0 where
    pub server : Value
    pub client : ClientValue T
    pub to_client : List (ℕ × Bytes)
    pub stage : Stage
    pub line : Line

module _ {T : Type 0} where
  -- The client's new connection: its queue is emptied before the handshake.
  abbrev pub greet : Link T → Link T
  greet l = record l { client = record (l.client) { messages = [] }; line = greeted }

  -- The server after the handshake: its queue is emptied, and `connected` is set.
  abbrev pub accept : Link T → Link T
  accept l = record l { to_client = []; stage = accepted; line = joined }

  -- What `reader` does when it ends.
  abbrev pub reset : Link T → Link T
  reset l = record l { server = acknowledge l.server }

module _ {T : Type 0} (codec : Codec ServerHeader) (wire : Codec T) where
  -- The bytes of some `T`.
  abbrev pub IsValue : Bytes → Type 0
  IsValue bytes = (t : T) × (deserialize wire bytes ≡ some t)

  pub data Step : Link T → Link T → Type 0 where
    server_set :
        (l : Link T) (bytes : Bytes) (signals update : Bool) (v : Value)
        (r : List Bytes × mathlib.Core.Option.Option Bytes)
        → l.stage ≢ closed
        → IsValue bytes
        → set_value codec l.server bytes signals update true ≡ ok (v, r.0, r.1)
        → Step l
            (record l { server = v; to_client = l.to_client ++ ((l.server.type_id, bytes) ∷ []) })
    server_set_offline :
        (l : Link T) (bytes : Bytes) (signals update : Bool) (v : Value)
        (r : List Bytes × mathlib.Core.Option.Option Bytes)
        → l.stage ≡ closed
        → IsValue bytes
        → set_value codec l.server bytes signals update false ≡ ok (v, r.0, r.1)
        → Step l (record l { server = v })
    client_set :
        (l : Link T) (t : T) (with_signal : Bool) (c : ClientValue T)
        → set_inner wire l.client t with_signal ≡ ok c
        → Step l (record l { client = c })
    to_client_arrives :
        (l : Link T) (type_id : ℕ) (bytes : Bytes) (rest : List (ℕ × Bytes))
        → l.line ≡ joined
        → l.stage ≢ accepted
        → l.to_client ≡ (type_id, bytes) ∷ rest
        → Step l (record l {
          client = (Client.update_value wire l.client type_id bytes).0;
          to_client = rest;
        })
    -- What a lost connection still delivers is included.
    to_server_arrives :
        (l : Link T) (m : ChannelMessage) (rest : List ChannelMessage)
        → l.stage ≡ serving
        → l.line ≢ greeted
        → l.client.messages ≡ m ∷ rest
        → Step l
            (record l { server = serve l.server m; client = record (l.client) { messages = rest } })
    client_loses : (l : Link T) → Step l (record l { line = lost })
    client_greets : (l : Link T) → l.line ≡ lost → Step l (greet l)
    server_closes : (l : Link T) → Step l (record l { stage = closed })
    server_resets : (l : Link T) → l.stage ≡ closed → Step l (reset l)
    server_accepts : (l : Link T) → l.stage ≡ closed → l.line ≡ greeted → Step l (accept l)
    server_syncs :
        (l : Link T) (v : Value) (message : Bytes)
        → l.stage ≡ accepted
        → sync codec l.server ≡ (v, ok message)
        → Step l (record l {
          server = v;
          to_client = l.to_client ++ ((l.server.type_id, l.server.value) ∷ []);
          stage = serving;
        })

  pub data Reach (l : Link T) : Link T → Type 0 where
    here : Reach l l
    then_step : {m n : Link T} → Reach l m → Step m n → Reach l n

  -- A set of the server does not fall between `connected.store(true)` and `sync`.
  abbrev pub IsTimely : {l m : Link T} → Step l m → Type 0
  IsTimely (server_set l bytes signals update v r up good e) = l.stage ≡ serving
  IsTimely s = Unit

  abbrev pub AllTimely : {l m : Link T} → Reach l m → Type 0
  AllTimely here = Unit
  AllTimely (then_step r s) = AllTimely r × IsTimely s
