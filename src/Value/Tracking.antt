-- ===== src/Value/Tracking.antt =====
-- The invariant of a link between server/values_server.rs and client/values.rs.
use egui_states.Prelude.{ℕ, ◌+◌, ◌≡◌, refl, Bytes, List, some, [], ◌∷◌, ◌++◌, length}
use egui_states.Protocol.Headers.{ServerHeader}
use egui_states.Protocol.Codec.{Codec}
use egui_states.Value.Client.{ChannelMessage, value, signal, message, ack, deserialize}
use egui_states.Value.Link.{serve_all, acks, Link, accepted, serving, greeted, joined, IsValue}

-- The bytes of the newest message on its way to the client, or `bytes` if there is none.
abbrev pub newest : Bytes → List (ℕ × Bytes) → Bytes
newest bytes [] = bytes
newest bytes (p ∷ ps) = newest p.1 ps

pub newest-append :
    (b : Bytes) (ps : List (ℕ × Bytes)) (p : ℕ × Bytes) → newest b (ps ++ p ∷ []) ≡ p.1
newest-append b [] p = refl
newest-append b (q ∷ ps) p = newest-append q.1 ps p

pub newest-cons : (b c : Bytes) (ps : List (ℕ × Bytes)) → newest b ps ≡ c → newest c ps ≡ c
newest-cons b c [] h = refl
newest-cons b c (q ∷ ps) h = h

module _ {T : Type 0} (codec : Codec ServerHeader) (wire : Codec T) where
  abbrev pub AllValues : ℕ → List (ℕ × Bytes) → Type 0
  AllValues type_id [] = Unit
  AllValues type_id (p ∷ ps) = (p.0 ≡ type_id) × IsValue codec wire p.1 × AllValues type_id ps

  abbrev pub AllUpdates : ℕ → List ChannelMessage → Type 0
  AllUpdates type_id [] = Unit
  AllUpdates type_id (value id t s bytes ∷ ms) =
      (t ≡ type_id) × IsValue codec wire bytes × AllUpdates type_id ms
  AllUpdates type_id (m ∷ ms) = AllUpdates type_id ms

  pub AllValues-append :
      (t : ℕ) (ps : List (ℕ × Bytes)) (p : ℕ × Bytes)
      → AllValues t ps
      → p.0 ≡ t
      → IsValue codec wire p.1
      → AllValues t (ps ++ p ∷ [])
  AllValues-append t [] p h e v = (e, v, tt)
  AllValues-append t (q ∷ ps) p (e', v', h) e v = (e', v', AllValues-append t ps p h e v)

  pub AllUpdates-append :
      (t : ℕ) (ms : List ChannelMessage) (m : ChannelMessage)
      → AllUpdates t ms
      → AllUpdates t (m ∷ [])
      → AllUpdates t (ms ++ m ∷ [])
  AllUpdates-append t [] m h k = k
  AllUpdates-append t (value id u s bytes ∷ ms) m (e, v, h) k = (e, v, AllUpdates-append t ms m h k)
  AllUpdates-append t (signal id u bytes ∷ ms) m h k = AllUpdates-append t ms m h k
  AllUpdates-append t (message bytes ∷ ms) m h k = AllUpdates-append t ms m h k
  AllUpdates-append t (ack id ∷ ms) m h k = AllUpdates-append t ms m h k

  -- While both sides have the connection: `pending` counts what is on its way and will be acknowledged, the
  -- newest message to the client is the server's value, and if there is none, the queue to the
  -- server leads to the client's value.
  pub record IsTracked (l : Link T) : Type 0 where
    pub counted : l.server.pending ≡ length l.to_client + acks l.client.messages
    pub latest : newest l.server.value l.to_client ≡ l.server.value
    pub agreed :
        l.to_client ≡ []
        → deserialize wire (serve_all l.server l.client.messages).value ≡ some l.client.current

  -- Between `connected.store(true)` and `sync` nothing is on its way to the client, and a queue that is
  -- new to the server has no acknowledgements yet.
  pub record IsSound (l : Link T) : Type 0 where
    pub same_type : l.client.type_id ≡ l.server.type_id
    pub server_value : IsValue codec wire l.server.value
    pub values : AllValues l.server.type_id l.to_client
    pub updates : AllUpdates l.server.type_id l.client.messages
    pub clean : l.stage ≡ accepted → l.to_client ≡ []
    pub new_queue : l.line ≡ greeted → acks l.client.messages ≡ 0
    pub first_queue : l.stage ≡ accepted → l.line ≡ joined → acks l.client.messages ≡ 0
    pub tracked : l.stage ≡ serving → l.line ≡ joined → IsTracked l
