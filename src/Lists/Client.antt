-- ===== src/Lists/Client.antt =====
-- `VecState` of client/value_vec.rs. `item_size` is `size_of::<T>()`: `reserve` panics if the
-- capacity does not fit into an `isize`.
use egui_states.Prelude.{
  ℕ, ◌*◌, ◌++◌, Bytes, List, Option, none, some, [], ◌∷◌, ltb, leb, ◌==◌, if◌then◌else◌, length,
  zero, suc,
}
use egui_states.Outcome.{Outcome, ok, err, fault}
use egui_states.Protocol.Headers.{VecHeader, all, set, add, remove}
use egui_states.Protocol.Codec.{Codec}
use egui_states.Value.Client.{deserialize}
use egui_states.Data.Client.{isize_max}
use egui_states.Lists.{set_nth, remove_nth}

pub data UpdateError : Type 0 where
  type_mismatch bad_item : UpdateError

module _ (T : Type 0) where
  pub record VecState : Type 0 where
    pub type_id : ℕ
    pub list : List T

module _ {T : Type 0} (wire : Codec T) (item_size : ℕ) where
  abbrev pub Reply : Type 0
  Reply = VecState T × Outcome UpdateError (Unit {0})

  -- The `for _ in 0..size` loop: each item is pushed as it is read.
  unfoldable pub read_items : ℕ → VecState T → Bytes → Reply
  read_items zero c bytes = (c, ok tt)
  read_items (suc n) c bytes = elim (wire.take_from bytes) [
    | none ↦ (c, err bad_item)
    | some (item, rest) ↦ read_items n (record c { list = c.list ++ item ∷ [] }) rest
  ]

  -- The single item of a message.
  abbrev pub with_item : VecState T → Option T → (T → List T) → Reply
  with_item c none f = (c, err bad_item)
  with_item c (some value) f = (record c { list = f value }, ok tt)

  -- The arms of `update_list`.
  unfoldable pub apply_header : VecState T → VecHeader → Bytes → Reply
  unfolding read_items
  apply_header c (all size) bytes =
      if leb (size * item_size) isize_max
      then read_items size (record c { list = [] }) bytes
      else (record c { list = [] }, fault)
  apply_header c (set idx) bytes =
      with_item c (deserialize wire bytes)
        (λ value. if ltb idx (length c.list) then set_nth idx value c.list else c.list)
  apply_header c add bytes = with_item c (deserialize wire bytes) (λ value. c.list ++ value ∷ [])
  apply_header c (remove idx) bytes = (
    record c { list = (if ltb idx (length c.list) then remove_nth idx c.list else c.list) },
    ok tt,
  )

  -- `UpdateList::update_list`
  unfoldable pub update_list : VecState T → ℕ → VecHeader → Bytes → Reply
  unfolding apply_header
  update_list c type_id header bytes =
      if type_id == c.type_id then apply_header c header bytes else (c, err type_mismatch)
