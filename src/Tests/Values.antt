-- ===== src/Tests/Values.antt =====
-- A value that both sides set at the same time.
use egui_states.Prelude.{ℕ, ◌≡◌, refl, false, some, [], ◌∷◌}
use egui_states.Value.{set_value, update_value, acknowledge, sync, serialize_value}
use egui_states.Value.Client
use egui_states.Value.Client.{ClientValue, deserialize, set_inner}
use egui_states.Value.Link.{
  serve, Link, Reach, greet, accept, server_set, client_set, to_client_arrives, to_server_arrives,
  client_greets, server_accepts, server_syncs, closed, serving, lost, joined, here, then_step,
}
use egui_states.Value.Tracking.{IsSound}
use egui_states.Value.Agreement.{quiescent-agrees}
use egui_states.Value.Settling.{Timely, IsQuiet, settles-agrees}
use egui_states.Tests.Codecs.{header_codec, number_codec, number_codec-IsLawful}

-- Before the first connection: the server has 7, the client its own 0.
abbrev start : Link ℕ
start = record {
  server = record { id = 1; type_id = 2; value = 7 ∷ []; pending = 0 };
  client = record { id = 1; type_id = 2; current = 0; messages = [] };
  to_client = [];
  stage = closed;
  line = lost;
}

start-IsSound : IsSound header_codec number_codec start
start-IsSound = record {
  same_type = refl;
  server_value = (7, refl);
  values = tt;
  updates = tt;
  clean = λ a. refl;
  new_queue = λ g. refl;
  first_queue = λ a j. refl;
  tracked = λ s j. cc;
}

-- After it, with the client's 3 refused while the server's 7 was on its way.
abbrev finish : Link ℕ
finish = record {
  server = record { id = 1; type_id = 2; value = 7 ∷ []; pending = 0 };
  client = record { id = 1; type_id = 2; current = 7; messages = [] };
  to_client = [];
  stage = serving;
  line = joined;
}

-- The client's greeting and the server's answer.
abbrev greeted_link : Link ℕ
greeted_link = greet start

abbrev start-accepted : Reach header_codec number_codec start (accept (greet start))
start-accepted =
    then_step (then_step here (client_greets start refl)) (server_accepts greeted_link refl refl)

start-finish : Timely header_codec number_codec start finish
unfolding serve sync set_inner Client.update_value update_value acknowledge serialize_value
start-finish = (
  then_step
      (then_step
        (then_step
          (then_step (then_step start-accepted (server_syncs _ _ _ refl refl))
            (client_set _ 3 false _ refl))
          (to_server_arrives _ _ _ refl (λ g. cc) refl))
        (to_client_arrives _ _ _ _ refl (λ a. cc) refl))
      (to_server_arrives _ _ _ refl (λ g. cc) refl),
  (((((((tt, tt), tt), tt), tt), tt), tt), tt),
)

quiescent-agrees_example :
    (deserialize number_codec (7 ∷ []) ≡ some 7) × (finish.server.pending ≡ 0)
quiescent-agrees_example =
    quiescent-agrees header_codec number_codec number_codec-IsLawful start finish start-IsSound
      start-finish.0 start-finish.1 refl refl refl refl

-- A set of the server between `connected.store(true)` and `sync`: both sides are quiet and differ.
abbrev differing : Link ℕ
differing = record {
  server = record { id = 1; type_id = 2; value = 3 ∷ []; pending = 0 };
  client = record { id = 1; type_id = 2; current = 8; messages = [] };
  to_client = [];
  stage = serving;
  line = joined;
}

start-differing : Reach header_codec number_codec start differing
unfolding serve sync set_inner set_value Client.update_value update_value acknowledge
    serialize_value
start-differing =
    let set_early =
      then_step
        (then_step start-accepted
          (server_set _ (8 ∷ []) false false _ (_, _) (λ c. cc) (8, refl) refl))
        (server_syncs _ _ _ refl refl) in
    let set_by_client =
      then_step (then_step set_early (to_client_arrives _ _ _ _ refl (λ a. cc) refl))
        (client_set _ 3 false _ refl) in
    let served =
      then_step (then_step set_by_client (to_server_arrives _ _ _ refl (λ g. cc) refl))
        (to_server_arrives _ _ _ refl (λ g. cc) refl) in
    then_step (then_step served (to_client_arrives _ _ _ _ refl (λ a. cc) refl))
      (to_server_arrives _ _ _ refl (λ g. cc) refl)

-- Two messages on their way to the client and one, an acknowledgement, to the server.
abbrev busy : Link ℕ
busy = record {
  server = record { id = 1; type_id = 2; value = 9 ∷ []; pending = 3 };
  client = record { id = 1; type_id = 2; current = 7; messages = Client.ack 1 ∷ [] };
  to_client = (2, 8 ∷ []) ∷ (2, 9 ∷ []) ∷ [];
  stage = serving;
  line = joined;
}

busy-IsSound : IsSound header_codec number_codec busy
busy-IsSound = record {
  same_type = refl;
  server_value = (9, refl);
  values = (refl, (8, refl), (refl, (9, refl), tt));
  updates = tt;
  clean = λ a. cc;
  new_queue = λ g. cc;
  first_queue = λ a j. cc;
  tracked = λ s j. record { counted = refl; latest = refl; agreed = λ e. cc };
}

settles-agrees_example :
    (n : Link ℕ) × Timely header_codec number_codec busy n
    × IsQuiet header_codec number_codec n
    × (deserialize number_codec n.server.value ≡ some n.client.current)
    × (n.server.pending ≡ 0)
settles-agrees_example =
    settles-agrees header_codec number_codec number_codec-IsLawful busy busy-IsSound (refl, refl)
