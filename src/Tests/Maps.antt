-- ===== src/Tests/Maps.antt =====
-- A map with numbers as keys and values, and an entry that is set.
use egui_states.Prelude.{
  ℕ, refl, Bytes, true, false, List, Option, none, some, [], ◌∷◌, if◌then◌else◌, arith, ◌==◌, ==_to,
  ==_refl,
}
use egui_states.Tables.{ValueMap, set_entry, get_entry, map_message, sync_map}
use egui_states.Tables.Entries.{same_bytes, IsEquality, IsDistinct}
use egui_states.Tables.Client.{MapState}
use egui_states.Tables.Written.{Written, nothing, one_more}
use egui_states.Tables.Agreement.{sets_entry, removes_entry, run_map_op}
use egui_states.Tables.Lookup.{Represents, run_map_op-Represents}
use egui_states.Tables.Following.{Follows, run_map_op-Follows, sync_map-Follows}
use egui_states.Tests.Codecs.{number_codec, number_codec-IsLawful}
use egui_states.Tests.Keyed.{keyed_codec, keyed_codec-IsLawful}

abbrev server : ValueMap
server = record { id = 3; type_id = 1; map = (7 ∷ [], 70 ∷ []) ∷ (8 ∷ [], 80 ∷ []) ∷ [] }

abbrev entries : List (ℕ × ℕ)
entries = (7, 70) ∷ (8, 80) ∷ []

abbrev client : MapState ℕ ℕ
client = record { type_id = 1; dict = entries }

abbrev old_client : MapState ℕ ℕ
old_client = record { type_id = 1; dict = (9, 90) ∷ [] }

abbrev set_message : Bytes
set_message = 3 ∷ 3 ∷ 1 ∷ 1 ∷ 2 ∷ 1 ∷ 0 ∷ 7 ∷ 71 ∷ []

abbrev sync_message : Bytes
sync_message = 3 ∷ 3 ∷ 1 ∷ 0 ∷ 4 ∷ 0 ∷ 2 ∷ 7 ∷ 70 ∷ 8 ∷ 80 ∷ []

numbers-IsEquality : IsEquality (λ (a b : ℕ). a == b)
numbers-IsEquality = record { equal_refl = ==_refl; equal_to = ==_to }

server-Written : Written number_codec number_codec server.map entries
server-Written = one_more refl refl (one_more refl refl nothing)

server-IsDistinct : IsDistinct same_bytes server.map
server-IsDistinct = ((refl, tt), (tt, tt))

run_map_op-Follows_example :
    Follows keyed_codec number_codec number_codec
      (λ (a b : ℕ). a == b)
      16
      server
      client
      true
      set_message
      (run_map_op keyed_codec server (sets_entry (7 ∷ []) (71 ∷ [])) true true).0
unfolding run_map_op set_entry map_message
run_map_op-Follows_example =
    run_map_op-Follows keyed_codec number_codec number_codec (λ (a b : ℕ). a == b) 16
      keyed_codec-IsLawful number_codec-IsLawful number_codec-IsLawful numbers-IsEquality server
      client refl server-Written true set_message (sets_entry (7 ∷ []) (71 ∷ []))
      ((7, refl), (71, refl), omega arith) refl

sync_map-Follows_example :
    Follows keyed_codec number_codec number_codec
      (λ (a b : ℕ). a == b)
      16
      server
      old_client
      false
      sync_message
      server
unfolding sync_map map_message
sync_map-Follows_example =
    sync_map-Follows keyed_codec number_codec number_codec (λ (a b : ℕ). a == b) 16
      keyed_codec-IsLawful number_codec-IsLawful number_codec-IsLawful numbers-IsEquality server
      old_client refl entries sync_message server-Written server-IsDistinct (omega arith)
      (omega arith) refl

-- The values of `server`.
abbrev values : Bytes → Option Bytes
values key =
    if same_bytes (7 ∷ []) key
    then some (70 ∷ [])
    else (if same_bytes (8 ∷ []) key then some (80 ∷ []) else none)

run_map_op-Represents_example :
    Represents keyed_codec
      (run_map_op keyed_codec server (removes_entry (7 ∷ [])) true false).0
      (λ key. if same_bytes (7 ∷ []) key then none else values key)
unfolding get_entry
run_map_op-Represents_example =
    run_map_op-Represents keyed_codec server values (removes_entry (7 ∷ [])) true false tt
      (server-IsDistinct, λ key. refl)
