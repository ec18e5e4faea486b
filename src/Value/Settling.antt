-- ===== src/Value/Settling.antt =====
-- The delivery of everything that is on its way in a link.
use egui_states.Prelude.{ℕ, ◌≡◌, refl, Bytes, List, some, [], ◌∷◌}
use egui_states.Protocol.Headers.{ServerHeader}
use egui_states.Protocol.Codec.{Codec, IsLawful}
use egui_states.Value.Client
use egui_states.Value.Client.{ClientValue, ChannelMessage, deserialize}
use egui_states.Value.Link.{
  serve, Link, Reach, AllTimely, serving, joined, to_client_arrives, to_server_arrives, here,
  then_step,
}
use egui_states.Value.Tracking.{IsSound}
use egui_states.Value.Agreement.{quiescent-agrees}

module _ {T : Type 0} (codec : Codec ServerHeader) (wire : Codec T) where
  -- Both sides have the connection.
  abbrev pub IsUp : Link T → Type 0
  IsUp m = (m.stage ≡ serving) × (m.line ≡ joined)

  abbrev pub IsQuiet : Link T → Type 0
  IsQuiet m = IsUp m × (m.to_client ≡ []) × (m.client.messages ≡ [])

  -- A run in which the server does not set the value while a connection is made.
  abbrev pub Timely : Link T → Link T → Type 0
  Timely l m = (r : Reach codec wire l m) × AllTimely codec wire r

  to_server_drains :
      (ms : List ChannelMessage) (l m : Link T)
      → Timely l m
      → IsUp m
      → m.to_client ≡ []
      → m.client.messages ≡ ms
      → (n : Link T) × Timely l n × IsQuiet n
  to_server_drains [] l m r up e f = (m, r, (up, e, f))
  to_server_drains (x ∷ ms) l m r up e f =
      to_server_drains ms l
        (record m { server = serve m.server x; client = record (m.client) { messages = ms } })
        (then_step r.0 (to_server_arrives m x ms up.0 (λ g. cc) f), (r.1, tt)) up e refl

  both_drain :
      (ps : List (ℕ × Bytes)) (l m : Link T)
      → Timely l m
      → IsUp m
      → m.to_client ≡ ps
      → (n : Link T) × Timely l n × IsQuiet n
  both_drain [] l m r up e = to_server_drains m.client.messages l m r up e refl
  both_drain (p ∷ ps) l m r up e =
      both_drain ps l
        (record m { client = (Client.update_value wire m.client p.0 p.1).0; to_client = ps })
        (then_step r.0 (to_client_arrives m p.0 p.1 ps up.1 (λ a. cc) e), (r.1, tt)) up refl

  -- With a lawful codec of the value: from every sound link in which both sides have the connection,
  -- steps, none of them a set of the server while a connection is made, lead to one in which they have
  -- it with nothing on its way, where the server's bytes read back as the client's value and no
  -- acknowledgement is missing.
  pub settles-agrees :
      (law : IsLawful wire) (l : Link T)
      → IsSound codec wire l
      → IsUp l
      → (n : Link T) × Timely l n
        × IsQuiet n
        × (deserialize wire n.server.value ≡ some n.client.current)
        × (n.server.pending ≡ 0)
  settles-agrees law l h up =
      let (n, (r, timely), ((on, there), e, f)) = both_drain l.to_client l l (here, tt) up refl in
      let (same, done) = quiescent-agrees codec wire law l n h r timely on there e f in
      (n, (r, timely), ((on, there), e, f), same, done)
