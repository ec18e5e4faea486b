-- ===== src/Take/Settling.antt =====
-- The delivery of a blocking value between server/values_server.rs and client/values.rs.
use egui_states.Prelude.{◌≡◌, refl, Bytes, Bool, true, List, none, [], ◌∷◌, ◌++◌, arith}
use egui_states.Protocol.Headers.{ServerHeader}
use egui_states.Protocol.Codec.{Codec}
use egui_states.Value.Client.{ack}
use egui_states.Take.Client.{TakeClient, take_value, update_take}
use egui_states.Take.Link.{
  Link, Reach, refused, released, serve_take, arrives, client_take, acknowledged, here, then_step,
}
use egui_states.Take.Ledger.{
  IsSound, ready, on_way, held, acked, opened_all, IsFresh, IsFresh-IsSound, Reach-IsSound,
}

take_empties : {T : Type 0} (c : TakeClient T) → (take_value c).0.value ≡ none
unfolding take_value
take_empties c = ground arith

module _ {T : Type 0} (wire : Codec T) (codec : Codec ServerHeader) where
  -- Nothing that blocks is left, and nothing new was sent.
  abbrev pub Settled : Link T → Link T → Type 0
  Settled l n =
      Reach wire codec l n
      × (n.server.event ≡ true)
      × (opened_all wire n ≡ n.done)
      × (n.sent ≡ l.sent)

  acked_settles :
      (l m : Link T)
      → Reach wire codec l m
      → m.sent ≡ l.sent
      → IsSound wire m
      → m.to_client ≡ []
      → m.client.value ≡ none
      → (n : Link T) × Settled l n
  unfolding serve_take egui_states.Take.acknowledge_take
  acked_settles l m r s (ready e free loose quiet done) gone empty = (m, (r, e, done, s))
  acked_settles l m r s (on_way [] x e onway free loose quiet done) gone empty = cc
  acked_settles l m r s (on_way (p ∷ ps) x e onway free loose quiet done) gone empty = cc
  acked_settles l m r s (held t e onway has quiet done) gone empty = cc
  acked_settles l m r s (acked e onway loose quiet done) gone empty = (
    record m {
      server = serve_take m.server (ack m.client.id);
      client = record (m.client) { messages = [] };
    },
    (then_step r (acknowledged m (ack m.client.id) [] quiet), refl, done, s),
  )

  delivered :
      (ps : List (Bytes × Bool)) (l m : Link T)
      → Reach wire codec l m
      → m.sent ≡ l.sent
      → m.to_client ≡ ps
      → (n : Link T) × Reach wire codec l n × (n.sent ≡ l.sent) × (n.to_client ≡ [])
  delivered [] l m r s e = (m, r, s, e)
  delivered (p ∷ ps) l m r s e =
      delivered ps l
        (record m {
          client = (update_take wire m.client m.server.type_id p.0 p.1).0;
          to_client = ps;
          done = m.done ++ refused wire m p.0 p.1;
        })
        (then_step r (arrives m p.0 p.1 ps e)) s refl

  -- From any state of a link that started after `sync` with no blocking value at the client, steps
  -- in which the server sends nothing lead to one where the event is set and the client has taken or
  -- refused, in order, every value that was sent as blocking.
  pub blocking_settles :
      (k l : Link T) → IsFresh wire codec k → Reach wire codec k l → (n : Link T) × Settled l n
  blocking_settles k l h r =
      let (m, reached, same, gone) = delivered l.to_client l l here refl refl in
      let taken = then_step reached (client_take m) in
      acked_settles l
        (record m {
          client = (take_value m.client).0;
          done = m.done ++ released wire m.client.value;
        })
        taken same
        (Reach-IsSound wire codec (Reach-IsSound wire codec (IsFresh-IsSound wire codec k h) r)
          taken)
        gone (take_empties m.client)
