-- ===== src/Value/Setting.antt =====
-- The steps of a link in which the server or the client sets the value.
use egui_states.Prelude.{
  ◌+◌, ◌≡◌, refl, ap, ◌∙◌, sym, subst, Bytes, Bool, some, [], ◌∷◌, ◌++◌, arith, length,
  length-append,
}
use egui_states.Protocol.Headers.{ServerHeader}
use egui_states.Protocol.Codec.{Codec}
use egui_states.Value.{Value}
use egui_states.Value.Client.{value, deserialize, send}
use egui_states.Value.Link.{serve_all, acks, Link, closed, serving, IsValue}
use egui_states.Value.Tracking.{newest-append, AllValues-append, AllUpdates-append, IsSound}
use egui_states.Value.Queue.{
  serve_settled, acks-append, serve_all-append, serve_all_type, serve_all_count,
}

module _ {T : Type 0} (codec : Codec ServerHeader) (wire : Codec T) where
  -- The server's own update.
  pub set_online :
      (l : Link T) (bytes : Bytes) (v : Value)
      → v ≡ record (l.server) { value = bytes; pending = l.server.pending + 1 }
      → l.stage ≡ serving
      → IsValue codec wire bytes
      → IsSound codec wire l
      → IsSound codec wire
          (record l { server = v; to_client = l.to_client ++ ((l.server.type_id, bytes) ∷ []) })
  set_online l bytes v e up good h =
      subst
        (λ (w : Value).
          IsSound codec wire
            (record l { server = w; to_client = l.to_client ++ ((l.server.type_id, bytes) ∷ []) }))
        (sym e)
        (record {
          same_type = h.same_type;
          server_value = good;
          values =
              AllValues-append codec wire l.server.type_id l.to_client (l.server.type_id, bytes)
                h.values refl good;
          updates = h.updates;
          clean = λ a. cc;
          new_queue = h.new_queue;
          first_queue = h.first_queue;
          tracked = λ s j. record {
            counted = omega (
              arith,
              (h.tracked s j).counted,
              length-append l.to_client ((l.server.type_id, bytes) ∷ []),
            );
            latest = newest-append bytes l.to_client (l.server.type_id, bytes);
            agreed = λ none_left. absurd (
                omega (
                  arith,
                  ap length none_left,
                  length-append l.to_client ((l.server.type_id, bytes) ∷ []),
                ));
          };
        })

  pub set_offline :
      (l : Link T) (bytes : Bytes) (v : Value)
      → v ≡ record (l.server) { value = bytes }
      → l.stage ≡ closed
      → IsValue codec wire bytes
      → IsSound codec wire l
      → IsSound codec wire (record l { server = v })
  set_offline l bytes v e down good h =
      subst (λ (w : Value). IsSound codec wire (record l { server = w })) (sym e)
        (record {
          same_type = h.same_type;
          server_value = good;
          values = h.values;
          updates = h.updates;
          clean = h.clean;
          new_queue = h.new_queue;
          first_queue = h.first_queue;
          tracked = λ s. cc;
        })

  -- The client's own update, with the bytes of the value.
  pub set_client :
      (l : Link T) (t : T) (s : Bool) (b : Bytes)
      → IsValue codec wire b
      → deserialize wire b ≡ some t
      → IsSound codec wire l
      → IsSound codec wire (record l {
        client = record (send l.client (value l.client.id l.client.type_id s b)) { current = t };
      })
  set_client l t s b good same h =
      let m = value l.client.id l.client.type_id s b in
      let count : acks (l.client.messages ++ m ∷ []) ≡ acks l.client.messages =
        omega (arith, acks-append l.client.messages (m ∷ [])) in
      record {
        same_type = h.same_type;
        server_value = h.server_value;
        values = h.values;
        updates =
            AllUpdates-append codec wire l.server.type_id l.client.messages m h.updates
              (h.same_type, good, tt);
        clean = h.clean;
        new_queue = λ g. count ∙ h.new_queue g;
        first_queue = λ a j. count ∙ h.first_queue a j;
        tracked = λ q j. record {
          counted = omega (arith, (h.tracked q j).counted, count);
          latest = (h.tracked q j).latest;
          agreed = λ none_left.
              let w = serve_all l.server l.client.messages in
              let settled : w.pending ≡ 0 = omega (
                arith,
                serve_all_count l.server l.client.messages,
                (h.tracked q j).counted,
                ap length none_left,
              ) in
              ap (λ (x : Value). deserialize wire x.value)
                (serve_all-append l.server l.client.messages m
                  ∙ serve_settled w l.client.id l.client.type_id s b settled
                      (h.same_type ∙ sym (serve_all_type l.server l.client.messages)))
              ∙ same;
        };
      }
