-- ===== src/Value/Agreement.antt =====
-- The steps of a link between server/values_server.rs and client/values.rs, and its quiet states.
use egui_states.Prelude.{
  ◌+◌, ◌≡◌, ap, ◌∙◌, sym, subst, Bytes, Bool, true, false, List, some, [], ◌∷◌, ◌++◌, arith, length,
  append-nil, Option-cases, inl, inr,
}
use egui_states.Outcome.{Outcome, ok}
use egui_states.Protocol.Headers.{ServerHeader}
use egui_states.Protocol.Codec.{Codec, IsLawful}
use egui_states.Value.{Value, ValueError, set_value, sync}
use egui_states.Value.Client.{ClientValue, ChannelMessage, value, deserialize, set_inner, send}
use egui_states.Value.Link.{
  serve_all, acks, Link, Step, Reach, server_set, server_set_offline, client_set, to_client_arrives,
  to_server_arrives, client_loses, client_greets, server_closes, server_resets, server_accepts,
  server_syncs, serving, joined, IsTimely, AllTimely, here, then_step,
}
use egui_states.Value.Tracking.{AllValues, IsSound}
use egui_states.Value.Setting.{set_online, set_offline, set_client}
use egui_states.Value.Arrival.{
  client_update_lem, arrive_client, arrive_server, without_line, without_server, with_reset,
  with_greeting, with_server, with_sync,
}

set_value_online :
    (codec : Codec ServerHeader) (v w : Value) (bytes : Bytes) (s u : Bool)
    (r : List Bytes × mathlib.Core.Option.Option Bytes)
    → set_value codec v bytes s u true ≡ ok (w, r.0, r.1)
    → w ≡ record v { value = bytes; pending = v.pending + 1 }
unfolding set_value
set_value_online codec v w bytes s u r e = ground arith

set_value_offline :
    (codec : Codec ServerHeader) (v w : Value) (bytes : Bytes) (s u : Bool)
    (r : List Bytes × mathlib.Core.Option.Option Bytes)
    → set_value codec v bytes s u false ≡ ok (w, r.0, r.1)
    → w ≡ record v { value = bytes }
unfolding set_value
set_value_offline codec v w bytes s u r e = ground arith

sync_lem :
    (codec : Codec ServerHeader) (v w : Value) (m : Bytes)
    → sync codec v ≡ (w, ok m)
    → w ≡ record v { pending = 1 }
unfolding sync
sync_lem codec v w m e = sym (ap (λ (p : Value × Outcome ValueError Bytes). p.0) e)

set_inner_lem :
    {T : Type 0} (wire : Codec T) (c d : ClientValue T) (t : T) (s : Bool)
    → set_inner wire c t s ≡ ok d
    → (b : Bytes) × (wire.encode t ≡ some b)
      × (d ≡ record (send c (value c.id c.type_id s b)) { current = t })
unfolding set_inner
set_inner_lem wire c d t s e = elim (Option-cases (wire.encode t)) [
  | inl q ↦ ground arith
  | inr q ↦ (q.0, q.1, ground arith)
]

module _ {T : Type 0} (codec : Codec ServerHeader) (wire : Codec T) (law : IsLawful wire) where
  decoded : (t : T) (b : Bytes) → wire.encode t ≡ some b → deserialize wire b ≡ some t
  decoded t b e =
      ap (mathlib.Core.Option.map (λ (r : T × Bytes). r.0))
        (ap wire.take_from (sym (append-nil b)) ∙ law.take_from-encode t b [] e)

  Step-IsSound :
      {l m : Link T} (s : Step codec wire l m)
      → IsTimely codec wire s
      → IsSound codec wire l
      → IsSound codec wire m
  Step-IsSound (server_set l bytes s u v r up good e) timely h =
      set_online codec wire l bytes v (set_value_online codec l.server v bytes s u r e) timely good
        h
  Step-IsSound (server_set_offline l bytes s u v r off good e) timely h =
      set_offline codec wire l bytes v (set_value_offline codec l.server v bytes s u r e) off good h
  Step-IsSound (client_set l t s c e) timely h =
      let (b, enc, eq) = set_inner_lem wire l.client c t s e in
      subst (λ (x : ClientValue T). IsSound codec wire (record l { client = x })) (sym eq)
        (set_client codec wire l t s b (t, decoded t b enc) (decoded t b enc) h)
  Step-IsSound (to_client_arrives l type_id bytes rest up running e) timely h =
      let all = subst (AllValues codec wire l.server.type_id) e h.values in
      subst (λ (c : ClientValue T). IsSound codec wire (record l { client = c; to_client = rest }))
        (sym (
          client_update_lem codec wire l.client type_id bytes all.1.0 (all.0 ∙ sym h.same_type)
            all.1.1))
        (arrive_client codec wire l type_id bytes rest all.1.0 up running e all.1.1 h)
  Step-IsSound (to_server_arrives l m rest up there e) timely h =
      arrive_server codec wire l m rest up there e h
  Step-IsSound (client_loses l) timely h = without_line codec wire l h
  Step-IsSound (client_greets l off) timely h = with_greeting codec wire l off h
  Step-IsSound (server_closes l) timely h = without_server codec wire l h
  Step-IsSound (server_resets l off) timely h = with_reset codec wire l off h
  Step-IsSound (server_accepts l off g) timely h = with_server codec wire l g h
  Step-IsSound (server_syncs l v bytes a e) timely h =
      subst
        (λ (x : Value). IsSound codec wire (record l {
          server = x;
          to_client = l.to_client ++ ((l.server.type_id, l.server.value) ∷ []);
          stage = serving;
        }))
        (sym (sync_lem codec l.server v bytes e)) (with_sync codec wire l a h)

  Reach-IsSound :
      {l m : Link T} (r : Reach codec wire l m)
      → AllTimely codec wire r
      → IsSound codec wire l
      → IsSound codec wire m
  Reach-IsSound here timely h = h
  Reach-IsSound (then_step r s) timely h = Step-IsSound s timely.1 (Reach-IsSound r timely.0 h)

  -- With a lawful codec of the value, and from a sound link: every run of steps of either side, with
  -- connections lost and made anew and their messages lost, in which the server does not set the value
  -- between setting `connected` and the `sync` of that connection, and which ends with both sides having
  -- the connection and nothing on its way in either direction, ends with the client's value being the
  -- one that the server's bytes read back as, and with no acknowledgement missing.
  pub quiescent-agrees :
      (l m : Link T)
      → IsSound codec wire l
      → (r : Reach codec wire l m) → AllTimely codec wire r
      → m.stage ≡ serving
      → m.line ≡ joined
      → m.to_client ≡ []
      → m.client.messages ≡ []
      → (deserialize wire m.server.value ≡ some m.client.current) × (m.server.pending ≡ 0)
  unfolding serve_all
  quiescent-agrees l m h r timely up there e f =
      let k = (Reach-IsSound r timely h).tracked up there in
      (
        subst
            (λ (ms : List ChannelMessage).
              deserialize wire (serve_all m.server ms).value ≡ some m.client.current)
            f (k.agreed e),
        omega (arith, k.counted, ap length e, ap acks f),
      )
