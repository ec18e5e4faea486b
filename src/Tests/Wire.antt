-- ===== src/Tests/Wire.antt =====
-- A value that the client takes, the writer's receiver, the client's serializer, and a vector on the
-- stack.
use egui_states.Prelude.{
  ◌↔◌, ◌≡◌, ◌≢◌, ◌≤◌, ◌&&◌, refl, Bytes, true, false, List, some, none, [], ◌∷◌, ◌++◌, map, arith,
  length,
}
use egui_states.Outcome.{ok}
use egui_states.Protocol.Headers.{ServerHeader}
use egui_states.Protocol.FastVec.{FastVec, Call, push, extend, reserve, run_calls}
use egui_states.Protocol.FastVec as Vecs
use egui_states.Protocol.FastVec.Contents.{contents, IsWhole, on_stack, all_fit, run_calls-contents}
use egui_states.Messages.Groups.{read_each}
use egui_states.Messages.Spec.{message_of}
use egui_states.Messages.Frames.{Frame}
use egui_states.Value.Client.{ChannelMessage}
use egui_states.Take.{set_take, serialize_value_take}
use egui_states.Take.Link.{Link, Reach, server_set, here, then_step}
use egui_states.Take.Ledger.{opened_all, outstanding, IsFresh, blocking_order}
use egui_states.Take.Settling.{Settled, blocking_settles}
use egui_states.Transport.Receiver.{Item, new, next, Run, start, arrives, written}
use egui_states.Transport.Grouping.{Grouping, Run-Grouping, written-read_each}
use egui_states.Transport.Uplink.{Serializer, next_data, read_whole}
use egui_states.Transport.Uplink.Reading.{received}
use egui_states.Transport.Uplink.Batches.{to_come, next_data-read_whole}
use egui_states.Transport.Handshake.{Handshake, Matches, check_handshake, check_handshake_ok}
use egui_states.Tests.Codecs.{header_codec, header_codec-IsLawful, number_codec}
use egui_states.Tests.Keyed.{client_codec, client_codec-IsLawful}
use egui_states.Protocol.Codec.{Codec}
use egui_states.Prelude.{ℕ}

-- Any header, as one number.
abbrev blank_codec : Codec ServerHeader
blank_codec = record { encode = λ h. some (0 ∷ []); take_from = λ b. none }

abbrev fresh : Link ℕ
fresh = record {
  server = record { id = 4; type_id = 2; event = true };
  client = record { id = 4; type_id = 2; value = none; messages = [] };
  to_client = [];
  sent = [];
  done = [];
}

fresh-IsFresh : IsFresh number_codec blank_codec fresh
fresh-IsFresh = record { event = refl; nothing_sent = (refl, refl, refl, refl); free = tt }

abbrev after_set : Link ℕ
after_set = record fresh {
  server = record { id = 4; type_id = 2; event = false };
  to_client = (5 ∷ [], true) ∷ [];
  sent = (5 ∷ []) ∷ [];
}

set_reached : Reach number_codec blank_codec fresh after_set
unfolding set_take egui_states.Take.resume_take
set_reached = then_step here (server_set fresh (5 ∷ []) true true (0 ∷ 5 ∷ []) refl refl)

blocking_order_example :
    (opened_all number_codec after_set ≡ [] ++ outstanding number_codec blank_codec after_set)
    × (length (outstanding number_codec blank_codec after_set) ≤ 1)
    × (false ≡ true → outstanding number_codec blank_codec after_set ≡ [])
blocking_order_example =
    blocking_order number_codec blank_codec fresh after_set fresh-IsFresh set_reached

blocking_settles_example : (n : Link ℕ) × Settled number_codec blank_codec after_set n
blocking_settles_example =
    blocking_settles number_codec blank_codec fresh after_set fresh-IsFresh set_reached

abbrev first_message : Bytes
first_message = 6 ∷ 1 ∷ 2 ∷ 1 ∷ 1 ∷ 9 ∷ []

abbrev second_message : Bytes
second_message = 4 ∷ 5 ∷ 0 ∷ 1 ∷ 1 ∷ []

abbrev items : List Item
items = some (first_message, false) ∷ some (second_message, false) ∷ []

abbrev frames : List Frame
frames =
    (ServerHeader.value 1 2 true 1, 9 ∷ [])
    ∷ (ServerHeader.data_array 5 (egui_states.Protocol.Headers.DataHeader.drain 0 1 true), [])
    ∷ []

-- Both messages come before the writer takes them, in one message.
both_written : Run 100 10 (new []) items ((first_message ++ second_message) ∷ []) (new [])
unfolding next new
both_written =
    written (first_message ++ second_message) (new [])
      (arrives (some (second_message, false))
        (arrives (some (first_message, false)) (start (new []))))
      refl

Run-Grouping_example : Grouping 100 10 items ((first_message ++ second_message) ∷ []) (new [])
Run-Grouping_example =
    Run-Grouping 100 10 items ((first_message ++ second_message) ∷ []) (new []) both_written

written-read_each_example :
    read_each header_codec ((first_message ++ second_message) ∷ [])
    ≡ ok (map (λ f. message_of f.0 f.1) frames)
unfolding new
written-read_each_example =
    written-read_each header_codec 100 10 items ((first_message ++ second_message) ∷ []) (new [])
      frames header_codec-IsLawful both_written refl
      (
        first_message,
        second_message ∷ [],
        refl,
        (6 ∷ 1 ∷ 2 ∷ 1 ∷ 1 ∷ [], refl, refl, refl),
        (second_message, [], refl, (second_message, refl, refl, refl), refl),
      )

-- An acknowledgement and a value in the client's channel.
abbrev serializer : Serializer
serializer = record {
  channel = some (ChannelMessage.ack 4) ∷ some (ChannelMessage.value 4 2 true (8 ∷ [])) ∷ [];
  stopped = false;
}

abbrev serialized : Bytes
serialized = 0 ∷ 4 ∷ 1 ∷ 4 ∷ 2 ∷ 1 ∷ 1 ∷ 8 ∷ []

next_data-read_whole_example :
    (g : List ChannelMessage) × (g ≢ [])
    × (to_come serializer ≡ g ++ [])
    × (read_whole client_codec serialized ≡ ok (map received g))
unfolding next_data
next_data-read_whole_example =
    next_data-read_whole client_codec 100 10 serializer (record { channel = []; stopped = false })
      serialized client_codec-IsLawful (omega arith, (omega arith, tt)) refl

-- A vector of two bytes on the stack, to which three are written.
abbrev small : FastVec
small = Vecs.stack (0 ∷ 0 ∷ []) 0

abbrev three_calls : List Call
three_calls = push 1 ∷ extend (2 ∷ 3 ∷ []) ∷ reserve 7 ∷ []

run_calls-contents_example :
    (w : FastVec) × (run_calls 2 small three_calls ≡ ok w)
    × IsWhole 2 w
    × (contents w ≡ [] ++ (1 ∷ 2 ∷ 3 ∷ []))
    × (on_stack w ≡ true && all_fit 2 0 three_calls)
run_calls-contents_example =
    run_calls-contents 2 small three_calls (refl, omega arith) (tt, (tt, (tt, tt)))

abbrev protocol : ℕ
protocol = 5

abbrev guarded : Handshake
guarded = record { version = some 3; token = none }

check_handshake_ok_example :
    (check_handshake protocol guarded protocol (some 3) none ≡ ok tt)
    ↔ ((protocol ≡ protocol) × Matches guarded.version (some 3) × Matches guarded.token none)
check_handshake_ok_example = check_handshake_ok protocol guarded protocol (some 3) none
