-- ===== src/Lists.antt =====
-- `ValueList` of server/vec_server.rs: a list of serialized values. An operation returns the list,
-- and what it sends.
pub mod Client
pub mod Written
pub mod Sending
pub mod Agreement
use egui_states.Prelude.{
  ℕ, ◌+◌, ◌++◌, Bytes, Bool, true, false, List, Option, none, some, [], ◌∷◌, ltb, if◌then◌else◌,
  length, as_u32, zero, suc,
}
use egui_states.Outcome.{Outcome, ok, err, fault, ◌>>=◌}
use egui_states.Protocol.Headers.{ServerHeader, VecHeader, all, set, add, remove}
use egui_states.Protocol.Codec.{Codec}

pub data ListError : Type 0 where
  out_of_bounds serialize_failed : ListError

pub record ValueList : Type 0 where
  pub id : ℕ
  pub type_id : ℕ
  pub list : List Bytes

-- `v[idx] = value` and `v.remove(idx)`, for an index inside.
abbrev pub set_nth {ℓ} : {A : Type ℓ} → ℕ → A → List A → List A
set_nth n a [] = []
set_nth zero a (x ∷ xs) = a ∷ xs
set_nth (suc n) a (x ∷ xs) = x ∷ set_nth n a xs

abbrev pub remove_nth {ℓ} : {A : Type ℓ} → ℕ → List A → List A
remove_nth n [] = []
remove_nth zero (x ∷ xs) = xs
remove_nth (suc n) (x ∷ xs) = x ∷ remove_nth n xs

-- All elements, one after the other.
abbrev pub concat : List Bytes → Bytes
concat [] = []
concat (b ∷ bs) = b ++ concat bs

module _ (codec : Codec ServerHeader) (l : ValueList) where
  -- A header, serialized, and what follows it; the size is that of what follows.
  unfoldable pub vec_message : Bool → VecHeader → Bytes → Outcome ListError Bytes
  vec_message update header body =
      elim (codec.encode
        (ServerHeader.value_vec l.id l.type_id update header (as_u32 (length body)))) [
          | none ↦ err serialize_failed
          | some b ↦ ok (b ++ body)
        ]

  -- What is sent to a client that is connected.
  abbrev pub sent_if : Bool → Outcome ListError Bytes → Outcome ListError (List Bytes)
  sent_if true message = message >>= λ m. ok (m ∷ [])
  sent_if false message = ok []

  -- The list after an operation that sends first: unchanged if there is no message.
  abbrev pub then_change :
      Outcome ListError (List Bytes) → List Bytes → ValueList × Outcome ListError (List Bytes)
  then_change (ok ms) changed = (record l { list = changed }, ok ms)
  then_change (err e) changed = (l, err e)
  then_change fault changed = (l, fault)

  -- `set`
  unfoldable pub set_list : List Bytes → Bool → Bool → ValueList × Outcome ListError (List Bytes)
  unfolding vec_message
  set_list list update connected =
      then_change (sent_if connected (vec_message update (all (length list)) (concat list))) list

  -- `set_item_py`
  unfoldable pub set_item : ℕ → Bytes → Bool → Bool → ValueList × Outcome ListError (List Bytes)
  unfolding vec_message
  set_item idx value update connected =
      if ltb idx (length l.list)
      then then_change (sent_if connected (vec_message update (set idx) value))
          (set_nth idx value l.list)
      else (l, err out_of_bounds)

  -- `remove_item`: the element is gone even if the message cannot be made.
  unfoldable pub remove_item : ℕ → Bool → Bool → ValueList × Outcome ListError (List Bytes)
  unfolding vec_message
  remove_item idx update connected =
      if ltb idx (length l.list)
      then (
        record l { list = remove_nth idx l.list },
        sent_if connected (vec_message update (remove idx) []),
      )
      else (l, err out_of_bounds)

  -- `append_item`
  unfoldable pub append_item : Bytes → Bool → Bool → ValueList × Outcome ListError (List Bytes)
  unfolding vec_message
  append_item value update connected =
      then_change (sent_if connected (vec_message update add value)) (l.list ++ value ∷ [])

  -- `SyncTrait::sync`
  unfoldable pub sync_list : Outcome ListError (List Bytes)
  unfolding vec_message
  sync_list = sent_if true (vec_message false (all (length l.list)) (concat l.list))
