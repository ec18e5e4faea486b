-- ===== src/Tests/Items.antt =====
-- A list of three numbers, whose middle one is set.
use egui_states.Prelude.{ℕ, false, refl, Bytes, true, List, [], ◌∷◌, arith}
use egui_states.Lists.{ValueList, set_item, vec_message}
use egui_states.Lists.Client.{VecState}
use egui_states.Lists.{sync_list}
use egui_states.Lists.Written.{Written, nothing, one_more}
use egui_states.Lists.Agreement.{
  sets_item, run_list_op, Follows, run_list_op-Follows, sync_list-Follows,
}
use egui_states.Tests.Codecs.{
  header_codec, header_codec-IsLawful, number_codec, number_codec-IsLawful,
}

abbrev three : List Bytes
three = (4 ∷ []) ∷ (5 ∷ []) ∷ (6 ∷ []) ∷ []

abbrev server : ValueList
server = record { id = 3; type_id = 2; list = three }

abbrev client : VecState ℕ
client = record { type_id = 2; list = 4 ∷ 5 ∷ 6 ∷ [] }

abbrev after : ValueList
after = record { id = 3; type_id = 2; list = (4 ∷ []) ∷ (9 ∷ []) ∷ (6 ∷ []) ∷ [] }

abbrev item_message : Bytes
item_message = 7 ∷ 3 ∷ 2 ∷ 1 ∷ 1 ∷ 1 ∷ 1 ∷ 9 ∷ []

three-Written : Written number_codec three (4 ∷ 5 ∷ 6 ∷ [])
three-Written = one_more refl (one_more refl (one_more refl nothing))

run_list_op-Follows_example :
    Follows header_codec number_codec 8 server client true item_message after
unfolding run_list_op set_item vec_message
run_list_op-Follows_example =
    run_list_op-Follows header_codec number_codec 8 header_codec-IsLawful number_codec-IsLawful
      server client refl three-Written true item_message (sets_item 1 (9 ∷ []))
      ((9, refl), omega arith) refl

abbrev new_client : VecState ℕ
new_client = record { type_id = 2; list = 8 ∷ [] }

abbrev all_message : Bytes
all_message = 7 ∷ 3 ∷ 2 ∷ 0 ∷ 3 ∷ 0 ∷ 3 ∷ 4 ∷ 5 ∷ 6 ∷ []

sync_list-Follows_example :
    Follows header_codec number_codec 8 server new_client false all_message server
unfolding sync_list vec_message
sync_list-Follows_example =
    sync_list-Follows header_codec number_codec 8 header_codec-IsLawful number_codec-IsLawful server
      new_client (4 ∷ 5 ∷ 6 ∷ []) all_message refl three-Written (omega arith) (omega arith) refl
