-- ===== src/Value/Arrival.antt =====
-- The steps of a link in which a message arrives, or the connection goes or comes back
-- (`run` and `reader` of server/server_core.rs, `update_value` of client/values.rs, `sync`).
use egui_states.Prelude.{
  ℕ, ◌-◌, ◌≤◌, ◌≡◌, ◌≢◌, refl, ap, ◌∙◌, sym, subst, Bytes, List, some, [], ◌∷◌, ◌++◌, arith, length,
  inl, inr,
}
use egui_states.Protocol.Headers.{ServerHeader}
use egui_states.Protocol.Codec.{Codec}
use egui_states.Value.{Value, acknowledge}
use egui_states.Value.Client
use egui_states.Value.Client.{
  ClientValue, ChannelMessage, value, signal, message, ack, deserialize, set_inner, send,
}
use egui_states.Value.Link.{
  serve, serve_all, acks, Link, closed, accepted, serving, lost, greeted, joined, greet, accept,
  reset, IsValue,
}
use egui_states.Value.Tracking.{
  newest, newest-cons, AllValues, AllUpdates, AllUpdates-append, IsTracked, IsSound,
}
use egui_states.Value.Queue.{
  serve_ack, serve_value_cases, serve-signal, serve-message, serve_type, serve_count, serve_keeps,
  acks-append, acks-cons, serve_all-append, serve_all_count, serve_all_keeps,
}

module _ {T : Type 0} (codec : Codec ServerHeader) (wire : Codec T) where
  -- The client's `update_value` on good bytes of the right type.
  pub client_update_lem :
      (c : ClientValue T) (type_id : ℕ) (bytes : Bytes) (t : T)
      → type_id ≡ c.type_id
      → deserialize wire bytes ≡ some t
      → (Client.update_value wire c type_id bytes).0 ≡ record (send c (ack c.id)) { current = t }
  unfolding Client.update_value
  client_update_lem c type_id bytes t e d = ground arith

  -- The last message to the client carries the server's value, and its own queue leaves that value.
  agreed_lem :
      (l : Link T) {type_id : ℕ} (bytes : Bytes) (rest : List (ℕ × Bytes)) (t : T)
      → IsTracked codec wire l
      → l.to_client ≡ (type_id, bytes) ∷ rest
      → deserialize wire bytes ≡ some t
      → rest ≡ []
      → deserialize wire (serve_all l.server (l.client.messages ++ ack l.client.id ∷ [])).value
        ≡ some t
  agreed_lem l bytes rest t k e d none_left =
      let w = serve_all l.server l.client.messages in
      let one : w.pending ≡ 1 = omega (
        arith,
        serve_all_count l.server l.client.messages,
        k.counted,
        ap length e,
        ap length none_left,
      ) in
      let whole : bytes ≡ l.server.value =
        sym (ap (newest bytes) none_left) ∙ sym (ap (newest l.server.value) e) ∙ k.latest in
      ap (λ (x : Value). deserialize wire x.value)
        (serve_all-append l.server l.client.messages (ack l.client.id))
      ∙ ap (deserialize wire) (
          serve_keeps w (ack l.client.id) (omega (arith, one))
          ∙ serve_all_keeps l.server l.client.messages (omega (arith, k.counted, ap length e))
          ∙ sym whole)
      ∙ d

  pub arrive_client :
      (l : Link T) (type_id : ℕ) (bytes : Bytes) (rest : List (ℕ × Bytes)) (t : T)
      → l.line ≡ joined
      → l.stage ≢ accepted
      → l.to_client ≡ (type_id, bytes) ∷ rest
      → deserialize wire bytes ≡ some t
      → IsSound codec wire l
      → IsSound codec wire (record l {
        client = record (send l.client (ack l.client.id)) { current = t };
        to_client = rest;
      })
  arrive_client l type_id bytes rest t up running e d h =
      let all = subst (AllValues codec wire l.server.type_id) e h.values in
      record {
        same_type = h.same_type;
        server_value = h.server_value;
        values = all.2;
        updates =
            AllUpdates-append codec wire l.server.type_id l.client.messages (ack l.client.id)
              h.updates tt;
        clean = λ a. absurd (running a);
        new_queue = λ g. cc;
        first_queue = λ a j. absurd (running a);
        tracked = λ s j.
            let k = h.tracked s j in
            record {
              counted = omega (
                arith,
                k.counted,
                ap length e,
                acks-append l.client.messages (ack l.client.id ∷ []),
              );
              latest =
                  newest-cons bytes l.server.value rest
                    (sym (ap (newest l.server.value) e) ∙ k.latest);
              agreed = λ none_left. agreed_lem l bytes rest t k e d none_left;
            };
      }

  served_good :
      (v : Value) (m : ChannelMessage)
      → IsValue codec wire v.value
      → AllUpdates codec wire v.type_id (m ∷ [])
      → IsValue codec wire (serve v m).value
  served_good v (value id t s bytes) good h = elim (serve_value_cases v id t s bytes) [
    | inl e ↦ subst (IsValue codec wire) (sym e) good
    | inr e ↦ subst (IsValue codec wire) (sym e) h.1
  ]
  served_good v (signal id t bytes) good h =
      subst (IsValue codec wire) (sym (serve-signal v id t bytes)) good
  served_good v (message bytes) good h =
      subst (IsValue codec wire) (sym (serve-message v bytes)) good
  served_good v (ack id) good h =
      subst (IsValue codec wire) (sym (ap (λ (x : Value). x.value) (serve_ack v id))) good

  updates_split :
      (t : ℕ) (m : ChannelMessage) (ms : List ChannelMessage)
      → AllUpdates codec wire t (m ∷ ms)
      → AllUpdates codec wire t (m ∷ []) × AllUpdates codec wire t ms
  updates_split t (value id u s bytes) ms (e, v, h) = ((e, v, tt), h)
  updates_split t (signal id u bytes) ms h = (tt, h)
  updates_split t (message bytes) ms h = (tt, h)
  updates_split t (ack id) ms h = (tt, h)

  -- A message that still waits to be acknowledged protects the value.
  latest_lem :
      (v : Value) (m : ChannelMessage) (ps : List (ℕ × Bytes))
      → length ps ≤ v.pending
      → newest v.value ps ≡ v.value
      → newest (serve v m).value ps ≡ (serve v m).value
  latest_lem v m [] h e = refl
  latest_lem v m (p ∷ ps) h e = e ∙ sym (serve_keeps v m (omega arith))

  pub arrive_server :
      (l : Link T) (m : ChannelMessage) (rest : List ChannelMessage)
      → l.stage ≡ serving
      → l.line ≢ greeted
      → l.client.messages ≡ m ∷ rest
      → IsSound codec wire l
      → IsSound codec wire
          (record l { server = serve l.server m; client = record (l.client) { messages = rest } })
  unfolding serve_all
  arrive_server l m rest up there e h =
      let same = serve_type l.server m in
      let both =
        updates_split l.server.type_id m rest
          (subst (AllUpdates codec wire l.server.type_id) e h.updates) in
      record {
        same_type = h.same_type ∙ sym same;
        server_value = served_good l.server m h.server_value both.0;
        values = subst (λ (t : ℕ). AllValues codec wire t l.to_client) (sym same) h.values;
        updates = subst (λ (t : ℕ). AllUpdates codec wire t rest) (sym same) both.1;
        clean = λ a. cc;
        new_queue = λ g. absurd (there g);
        first_queue = λ a j. cc;
        tracked = λ s j.
            let k = h.tracked s j in
            record {
              counted =
                  omega (arith, serve_count l.server m, k.counted, ap acks e, acks-cons m rest);
              latest = latest_lem l.server m l.to_client (omega (arith, k.counted)) k.latest;
              agreed = λ none_left.
                  subst
                    (λ (ms : List ChannelMessage).
                      deserialize wire (serve_all l.server ms).value ≡ some l.client.current)
                    e (k.agreed none_left);
            };
      }

  -- The two ends of a connection go.
  pub without_line :
      (l : Link T) → IsSound codec wire l → IsSound codec wire (record l { line = lost })
  without_line l h = record {
    same_type = h.same_type;
    server_value = h.server_value;
    values = h.values;
    updates = h.updates;
    clean = h.clean;
    new_queue = λ g. cc;
    first_queue = λ a j. cc;
    tracked = λ s j. cc;
  }

  pub without_server :
      (l : Link T) → IsSound codec wire l → IsSound codec wire (record l { stage = closed })
  without_server l h = record {
    same_type = h.same_type;
    server_value = h.server_value;
    values = h.values;
    updates = h.updates;
    clean = λ a. cc;
    new_queue = h.new_queue;
    first_queue = λ a j. cc;
    tracked = λ s j. cc;
  }

  acknowledge_lem : (v : Value) → acknowledge v ≡ record v { pending = v.pending - 1 }
  unfolding acknowledge
  acknowledge_lem v = ground arith

  pub with_reset :
      (l : Link T) → l.stage ≡ closed → IsSound codec wire l → IsSound codec wire (reset l)
  with_reset l off h =
      subst (λ (v : Value). IsSound codec wire (record l { server = v }))
        (sym (acknowledge_lem l.server))
        (record {
          same_type = h.same_type;
          server_value = h.server_value;
          values = h.values;
          updates = h.updates;
          clean = h.clean;
          new_queue = h.new_queue;
          first_queue = h.first_queue;
          tracked = λ s j. cc;
        })

  -- A new connection, from both ends, and its synchronization.
  pub with_greeting :
      (l : Link T) → l.line ≡ lost → IsSound codec wire l → IsSound codec wire (greet l)
  with_greeting l off h = record {
    same_type = h.same_type;
    server_value = h.server_value;
    values = h.values;
    updates = tt;
    clean = h.clean;
    new_queue = λ g. refl;
    first_queue = λ a j. refl;
    tracked = λ s j. cc;
  }

  pub with_server :
      (l : Link T) → l.line ≡ greeted → IsSound codec wire l → IsSound codec wire (accept l)
  with_server l g h = record {
    same_type = h.same_type;
    server_value = h.server_value;
    values = tt;
    updates = h.updates;
    clean = λ a. refl;
    new_queue = λ g'. cc;
    first_queue = λ a j. h.new_queue g;
    tracked = λ s j. cc;
  }

  pub with_sync :
      (l : Link T)
      → l.stage ≡ accepted
      → IsSound codec wire l
      → IsSound codec wire (record l {
        server = record (l.server) { pending = 1 };
        to_client = l.to_client ++ ((l.server.type_id, l.server.value) ∷ []);
        stage = serving;
      })
  with_sync l a h =
      let none_before = h.clean a in
      subst
        (λ (ps : List (ℕ × Bytes)). IsSound codec wire (record l {
          server = record (l.server) { pending = 1 };
          to_client = ps ++ ((l.server.type_id, l.server.value) ∷ []);
          stage = serving;
        }))
        (sym none_before)
        (record {
          same_type = h.same_type;
          server_value = h.server_value;
          values = (refl, h.server_value, tt);
          updates = h.updates;
          clean = λ s. cc;
          new_queue = h.new_queue;
          first_queue = λ s j. cc;
          tracked = λ s j. record {
            counted = omega (arith, h.first_queue a j);
            latest = refl;
            agreed = λ e. cc;
          };
        })
