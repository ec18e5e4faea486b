-- ===== src/Tables/Client.antt =====
-- `MapState` of client/value_map.rs, over types of keys and values with their serializations and
-- the keys' equality. `item_size` is the size of an entry of the hash map: `reserve` panics if the
-- capacity does not fit into an `isize`.
use egui_states.Prelude.{
  ℕ, ◌*◌, Bytes, Bool, List, Option, none, some, [], leb, ◌==◌, if◌then◌else◌, zero, suc,
}
use egui_states.Outcome.{Outcome, ok, err, fault}
use egui_states.Protocol.Headers.{MapHeader}
use egui_states.Protocol.Codec.{Codec}
use egui_states.Value.Client.{deserialize}
use egui_states.Data.Client.{isize_max}
use egui_states.Tables.Entries.{insert_by, erase_by}

pub data UpdateError : Type 0 where
  type_mismatch bad_key bad_value bad_item : UpdateError

module _ (K V : Type 0) where
  pub record MapState : Type 0 where
    pub type_id : ℕ
    pub dict : List (K × V)

module _ {K V : Type 0} (keys : Codec K) (values : Codec V) (equal : K → K → Bool)
    (item_size : ℕ) where
  abbrev pub Reply : Type 0
  Reply = MapState K V × Outcome UpdateError (Unit {0})

  -- The `for _ in 0..size` loop: each entry is inserted as it is read.
  unfoldable pub read_entries : ℕ → MapState K V → Bytes → Reply
  read_entries zero c bytes = (c, ok tt)
  read_entries (suc n) c bytes = elim (keys.take_from bytes) [
    | none ↦ (c, err bad_key)
    | some (key, rest) ↦ elim (values.take_from rest) [
      | none ↦ (c, err bad_value)
      | some (value, more) ↦
          read_entries n (record c { dict = insert_by equal key value c.dict }) more
    ]
  ]

  -- postcard reads a tuple as its fields, one after the other.
  abbrev pub read_pair : Bytes → Option (K × V)
  read_pair bytes = elim (keys.take_from bytes) [
    | none ↦ none
    | some (key, rest) ↦ elim (values.take_from rest) [
      | none ↦ none
      | some (value, more) ↦ some (key, value)
    ]
  ]

  abbrev pub with_pair : MapState K V → Option (K × V) → Reply
  with_pair c none = (c, err bad_item)
  with_pair c (some p) = (record c { dict = insert_by equal p.0 p.1 c.dict }, ok tt)

  abbrev pub without_key : MapState K V → Option K → Reply
  without_key c none = (c, err bad_key)
  without_key c (some key) = (record c { dict = erase_by equal key c.dict }, ok tt)

  -- The arms of `update_map`.
  unfoldable pub apply_header : MapState K V → MapHeader → Bytes → Reply
  unfolding read_entries
  apply_header c (MapHeader.all size) bytes =
      if leb (size * item_size) isize_max
      then read_entries size (record c { dict = [] }) bytes
      else (record c { dict = [] }, fault)
  apply_header c MapHeader.set bytes = with_pair c (read_pair bytes)
  apply_header c MapHeader.remove bytes = without_key c (deserialize keys bytes)

  -- `UpdateMap::update_map`
  unfoldable pub update_map : MapState K V → ℕ → MapHeader → Bytes → Reply
  unfolding apply_header
  update_map c type_id header bytes =
      if type_id == c.type_id then apply_header c header bytes else (c, err type_mismatch)
