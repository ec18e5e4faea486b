-- ===== src/Tests/Collections.antt =====
-- A collection with one array, an array and a collection that the client takes.
use egui_states.Prelude.{
  ℕ, ◌≡◌, ◌≢◌, refl, Bytes, true, false, List, Option, none, some, [], ◌∷◌, map, find, arith, ◌==◌,
  if◌then◌else◌, Bool-cases, inl, inr, subst,
}
use egui_states.Outcome.{Outcome, ok}
use egui_states.Protocol.DataType.{u8, type_eq, item_size}
use egui_states.Pack.{pack, batches, message, slice_or_fault}
use egui_states.Pack.Arrays.{
  Packed, DataError, pack_data, pack_data_take, pack_data_multi_take, frame, data_header,
  piece_header, take_header,
}
use egui_states.Data.Message.{drain, clear}
use egui_states.Data.Server.{DataHolder, check_data_type}
use egui_states.Data.Operations.{adds, IsConsistent}
use egui_states.Data.Multi.Client.{MultiClient, update_multi}
use egui_states.Data.Multi.View.{view, lower}
use egui_states.Data.Multi.Absent.{of_array, update_multi-array}
use egui_states.Data.Multi.Apart.{Apart, update_multi-Apart}
use egui_states.Data.Multi.Server.{sync_multi, MultiServer, add_multi, add_entry}
use egui_states.Data.Multi.Counting.{acknowledge_times, sync_multi-acknowledge_times}
use egui_states.Data.Multi.Inversion.{entry}
use egui_states.Data.Multi.Synced.{InSyncMulti, bytes_of}
use egui_states.Data.Multi.Delivery.{DeliversMulti}
use egui_states.Data.Multi.Refinement.{run_multi_op, IsConsistentMulti, run_multi_op-refines}
use egui_states.Data.Take.Client.{TakeArray, MultiTakeArray, slot_at, update_slot}
use egui_states.Data.Take.Server.{TakeServer, MultiTakeServer, set_take, sync_take, set_multi_take}
use egui_states.Data.Take.Synced.{
  TakesAt, TakesKeyed, set_take-Takes, sync_take-Takes, set_multi_take-Takes,
}
use egui_states.Data.Take.Refused.{Safe, update_slot-Safe}
use egui_states.Tests.Keyed.{keyed_codec, keyed_codec-IsLawful}

abbrev old_bytes : Bytes
old_bytes = 7 ∷ 8 ∷ []

abbrev new_bytes : Bytes
new_bytes = 1 ∷ 2 ∷ 3 ∷ []

abbrev holder : DataHolder
holder = record { bytes = new_bytes; count = 3; data_type = u8 }

abbrev stored_values : List (ℕ × (Bytes × ℕ))
stored_values = (3, (old_bytes, 2)) ∷ []

abbrev server : MultiServer
server = record { id = 5; data_type = u8; values = stored_values; sync_counter = 0; event = true }

abbrev client : MultiClient
client = record {
  data_type = u8;
  inner = λ j. bytes_of (find j stored_values);
  buffers = λ j. none;
  acks = 4;
}

abbrev waiting : Outcome DataError (Option (List Packed)) → List Packed
waiting (ok (some ms)) = ms
waiting _ = []

abbrev one_each : List Packed → List (List Bytes)
one_each ms = map (λ m. m.0 ∷ []) ms

abbrev sent : List Packed
sent = waiting (run_multi_op 8 keyed_codec server 3 (adds holder) true true).1

server-IsConsistentMulti : IsConsistentMulti server
unfolding item_size
server-IsConsistentMulti j p e = elim (Bool-cases (3 == j)) [
  | inl same ↦
      let found = subst (λ b. (if b then some (old_bytes, 2) else none) ≡ some p) same e in
      let here : (old_bytes, 2) ≡ p = cc in
      subst (λ (q : Bytes × ℕ). IsConsistent (entry server q)) here
        (record { counted = refl; small = omega arith })
  | inr other ↦ cc
]

nonempty : {b : Bytes} {bs : List Bytes} → b ∷ bs ≢ []
nonempty e = cc

run_multi_op-refines_example :
    (d : MultiClient) × DeliversMulti (λ n. n) keyed_codec 5 client (one_each sent) d
    × InSyncMulti d (run_multi_op 8 keyed_codec server 3 (adds holder) true true).0
    × (d.acks ≡ 5)
unfolding run_multi_op add_multi add_entry check_data_type type_eq item_size pack_data pack batches
    message slice_or_fault frame data_header piece_header
run_multi_op-refines_example =
    run_multi_op-refines keyed_codec (λ n. n) 8 client server 3 (adds holder) true sent
      (one_each sent) keyed_codec-IsLawful (λ n. refl) (omega arith) (omega arith)
      (record { same_type = refl; same = λ j. refl }) server-IsConsistentMulti refl (omega arith)
      refl (nonempty, tt) refl

update_multi-array_example :
    lower 4 (update_multi (λ n. n) client 4 (drain 0 1))
    ≡ of_array (λ n. n) (view client 4) (client.inner 4) (drain 0 1)
update_multi-array_example = update_multi-array (λ n. n) client 4 (drain 0 1)

update_multi-Apart_example : Apart client 4 (update_multi (λ n. n) client 3 (drain 0 1))
update_multi-Apart_example = update_multi-Apart client 3 4 refl (λ n. n) (drain 0 1)

-- A take array with a value from before, and a collection with none.
abbrev take_server : TakeServer
take_server = record { id = 6; data_type = u8; cached = some (old_bytes, 2); event = true }

abbrev take_client : TakeArray
take_client = record {
  data_type = u8;
  slot = record { inner = some (old_bytes, false); buffer = none };
  acks = 0;
}

abbrev multi_take_server : MultiTakeServer
multi_take_server = record { id = 9; data_type = u8; values = []; event = true }

abbrev multi_take_client : MultiTakeArray
multi_take_client = record { data_type = u8; inner = λ j. none; buffers = λ j. none; acks = 0 }

abbrev packed : Outcome DataError (List Packed) → List Packed
packed (ok ms) = ms
packed _ = []

abbrev set_sent : List Packed
set_sent = waiting (set_take 8 keyed_codec take_server holder true true false true).1

abbrev sync_sent : List Packed
sync_sent = packed (sync_take 8 keyed_codec take_server).1

abbrev multi_sent : List Packed
multi_sent =
    waiting (set_multi_take 8 keyed_codec multi_take_server 2 holder true true false true).1

set_take-Takes_example :
    TakesAt (λ n. n) keyed_codec (one_each set_sent) take_client 6 new_bytes true
unfolding set_take check_data_type type_eq item_size pack_data_take pack batches message
    slice_or_fault frame take_header
set_take-Takes_example =
    set_take-Takes keyed_codec keyed_codec-IsLawful (λ n. n) (λ n. omega arith) 8 (omega arith)
      (omega arith) set_sent (one_each set_sent) (nonempty, tt) refl take_server take_client refl
      holder true true false refl (omega arith) refl

sync_take-Takes_example :
    TakesAt (λ n. n) keyed_codec (one_each sync_sent) take_client 6 old_bytes false
    × ((sync_take 8 keyed_codec take_server).0.event ≡ true)
unfolding sync_take type_eq item_size pack_data_take pack batches message slice_or_fault frame
    take_header
sync_take-Takes_example =
    sync_take-Takes keyed_codec keyed_codec-IsLawful (λ n. n) (λ n. omega arith) 8 (omega arith)
      (omega arith) sync_sent (one_each sync_sent) (nonempty, tt) refl take_server take_client refl
      (old_bytes, 2) refl refl (omega arith) refl

set_multi_take-Takes_example :
    TakesKeyed (λ n. n) keyed_codec (one_each multi_sent) multi_take_client 9 2 new_bytes true
unfolding set_multi_take check_data_type type_eq item_size pack_data_multi_take pack batches message
    slice_or_fault frame take_header
set_multi_take-Takes_example =
    set_multi_take-Takes keyed_codec keyed_codec-IsLawful (λ n. n) (λ n. omega arith) 8
      (omega arith) (omega arith) multi_sent (one_each multi_sent) (nonempty, tt) refl
      multi_take_server multi_take_client refl 2 holder true true false refl (omega arith) refl

update_slot-Safe_example :
    Safe u8
      (λ n. n)
      (slot_at multi_take_client 2)
      true
      (update_slot u8
        (λ n. n)
        (slot_at multi_take_client 2)
        (egui_states.Data.Message.all u8 3 old_bytes)
        true)
update_slot-Safe_example =
    update_slot-Safe u8 (λ n. n) (slot_at multi_take_client 2) true
      (egui_states.Data.Message.all u8 3 old_bytes)

sync_multi-acknowledge_times_example :
    (acknowledge_times 1 (sync_multi 8 keyed_codec server).0).event ≡ true
sync_multi-acknowledge_times_example =
    sync_multi-acknowledge_times 8 keyed_codec server 1 (omega arith)
