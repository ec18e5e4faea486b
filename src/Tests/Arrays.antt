-- ===== src/Tests/Arrays.antt =====
-- An array of twenty bytes, sent in three messages to a client that has three bytes.
use egui_states.Prelude.{
  ◌*◌, ◌/◌, ◌≢◌, ◌≡◌, refl, Bytes, true, List, Option, none, some, [], ◌∷◌, map, arith, length,
}
use egui_states.Outcome.{Outcome, ok}
use egui_states.Protocol.DataType.{u8, type_eq, item_size}
use egui_states.Protocol.Headers.{set, DataHeader, ServerHeader}
use egui_states.Pack.{pack, batches, message, slice_or_fault, whole}
use egui_states.Pack.Split.{Part, Split, emit_all}
use egui_states.Pack.Plan.{pack-Split}
use egui_states.Pack.Arrays.{Packed, DataError, pack_data, frame, data_header, piece_header}
use egui_states.Messages.Frames.{Frame}
use egui_states.Messages.Spec.{message_of}
use egui_states.Messages.Groups.{join, read_each, read_each-AreFrames}
use egui_states.Data.Frames.{emit}
use egui_states.Data.Client.{Client}
use egui_states.Data.Client.Save.{stored}
use egui_states.Data.Client.Whole.{Transferred, Split-Transferred}
use egui_states.Data.Server.{Server, DataHolder, add_data, remove_data, check_data_type}
use egui_states.Data.Delivery.{Delivers, pack_data-Delivers}
use egui_states.Data.Operations.{adds, removes, run_op, IsConsistent}
use egui_states.Data.Invariant.{run_op-IsConsistent}
use egui_states.Data.Synced.{InSync}
use egui_states.Data.Refinement.{run_op-refines}
use egui_states.Tests.Codecs.{header_codec, header_codec-IsLawful}

abbrev twenty : Bytes
twenty =
    1 ∷ 2 ∷ 3 ∷ 4 ∷ 5 ∷ 6 ∷ 7 ∷ 8 ∷ 9 ∷ 10 ∷ 11 ∷ 12 ∷ 13 ∷ 14 ∷ 15 ∷ 16 ∷ 17 ∷ 18 ∷ 19 ∷ 20 ∷ []

abbrev held_bytes : Bytes
held_bytes = 7 ∷ 8 ∷ 9 ∷ []

abbrev client : Client
client = record { data_type = u8; inner = held_bytes; buffer = none; acks = 4 }

abbrev server : Server
server = record { id = 5; data_type = u8; bytes = held_bytes; count = 3; event = true }

abbrev holder : DataHolder
holder = record { bytes = twenty; count = 20; data_type = u8 }

abbrev waiting : Outcome DataError (Option (List Packed)) → List Packed
waiting (ok (some ms)) = ms
waiting _ = []

abbrev sent : List Packed
sent = waiting (run_op 8 header_codec server (adds holder) true true).1

abbrev packed : Outcome DataError (List Packed) → List Packed
packed (ok ms) = ms
packed _ = []

abbrev set_sent : List Packed
set_sent = packed (pack_data header_codec 8 5 twenty (set 20) 20 u8 none true)

-- The first two messages in one websocket message, the third alone.
abbrev two_groups : List Bytes → List (List Bytes)
two_groups (a ∷ b ∷ rest) = (a ∷ b ∷ []) ∷ rest ∷ []
two_groups xs = []

abbrev groups : List (List Bytes)
groups = two_groups (map (λ m. m.0) sent)

server-IsConsistent : IsConsistent server
unfolding item_size
server-IsConsistent = record { counted = refl; small = omega arith }

nonempty : {b : Bytes} {bs : List Bytes} → b ∷ bs ≢ []
nonempty e = cc

sent_three : length sent ≡ 3
unfolding run_op add_data check_data_type type_eq item_size pack_data pack batches message
    slice_or_fault frame data_header piece_header
sent_three = refl

run_op-refines_example :
    (d : Client) × Delivers (λ n. n) header_codec 5 client groups d
    × InSync d (run_op 8 header_codec server (adds holder) true true).0
    × (d.acks ≡ 5)
unfolding run_op add_data check_data_type type_eq item_size pack_data pack batches message
    slice_or_fault frame data_header piece_header
run_op-refines_example =
    run_op-refines header_codec (λ n. n) 8 client server (adds holder) true sent groups
      header_codec-IsLawful (λ n. refl) (omega arith) (omega arith)
      (record { same_type = refl; same_bytes = refl }) server-IsConsistent refl (omega arith) refl
      (nonempty, (nonempty, tt)) refl

pack_data-Delivers_example :
    (d : Client) × Delivers (λ n. n) header_codec 5 client (map (λ m. m.0 ∷ []) set_sent) d
    × (d.inner ≡ stored 1 (set 20) twenty held_bytes)
    × (d.acks ≡ 5)
    × (d.data_type ≡ u8)
unfolding run_op add_data check_data_type type_eq item_size pack_data pack batches message
    slice_or_fault frame data_header piece_header
pack_data-Delivers_example =
    pack_data-Delivers header_codec header_codec-IsLawful (λ n. n) client 8 5 20 twenty (set 20)
      true set_sent (map (λ m. m.0 ∷ []) set_sent) (omega arith) (omega arith) refl (omega arith)
      refl refl refl (nonempty, (nonempty, (nonempty, tt))) refl

run_op-IsConsistent_example : IsConsistent (run_op 8 header_codec server (removes 1 2) true true).0
unfolding run_op add_data check_data_type type_eq item_size pack_data pack batches message
    slice_or_fault frame data_header piece_header remove_data
run_op-IsConsistent_example =
    run_op-IsConsistent 8 header_codec server true true (removes 1 2) server-IsConsistent
      (omega arith) (omega arith)

pack-Split_example :
    (ps : List Part) × (pack 8 1 (emit header_codec 5 (set 20) 20 u8 none true) twenty
      ≡ emit_all (emit header_codec 5 (set 20) 20 u8 none true) ps)
    × Split 8 (8 / 1 * 1) twenty ps
pack-Split_example =
    pack-Split 8 1 (emit header_codec 5 (set 20) 20 u8 none true) twenty (omega arith) (omega arith)
      (omega arith)

Split-Transferred_example :
    Transferred
      (λ n. n)
      client
      (set 3)
      3
      held_bytes
      (record { piece = whole; body = held_bytes; single = true } ∷ [])
unfolding item_size
Split-Transferred_example =
    Split-Transferred (λ n. n) client (set 3) 8 8 8 3 (Split.one (omega arith)) refl refl
      (omega arith) refl refl

abbrev two_frames : List Frame
two_frames =
    (ServerHeader.value 1 2 true 3, held_bytes)
    ∷ (ServerHeader.data_array 5 (DataHeader.drain 0 1 true), [])
    ∷ []

abbrev first_message : Bytes
first_message = 6 ∷ 1 ∷ 2 ∷ 1 ∷ 3 ∷ held_bytes

abbrev second_message : Bytes
second_message = 4 ∷ 5 ∷ 0 ∷ 1 ∷ 1 ∷ []

read_each-AreFrames_example :
    read_each header_codec (map join ((first_message ∷ second_message ∷ []) ∷ []))
    ≡ ok (map (λ f. message_of f.0 f.1) two_frames)
read_each-AreFrames_example =
    read_each-AreFrames header_codec header_codec-IsLawful
      ((first_message ∷ second_message ∷ []) ∷ []) two_frames (nonempty, tt)
      (
        first_message,
        second_message ∷ [],
        refl,
        (6 ∷ 1 ∷ 2 ∷ 1 ∷ 3 ∷ [], refl, refl, refl),
        (second_message, [], refl, (second_message, refl, refl, refl), refl),
      )
