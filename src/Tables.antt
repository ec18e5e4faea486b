-- ===== src/Tables.antt =====
-- `ValueMap` of server/map_server.rs: a map of serialized keys and values. A hash map is an
-- association list whose keys differ, in the order in which it is run through.
pub mod Entries
pub mod Client
pub mod Written
pub mod Agreement
pub mod Lookup
pub mod Following
use egui_states.Prelude.{
  ℕ, ◌+◌, ◌++◌, Bytes, Bool, true, false, List, Option, none, some, [], ◌∷◌, length, as_u32,
}
use egui_states.Outcome.{Outcome, ok, err, fault, ◌>>=◌}
use egui_states.Protocol.Headers.{ServerHeader, MapHeader}
use egui_states.Protocol.Codec.{Codec}
use egui_states.Tables.Entries.{same_bytes, find_by, insert_by, erase_by}

pub data MapError : Type 0 where
  serialize_failed : MapError

pub record ValueMap : Type 0 where
  pub id : ℕ
  pub type_id : ℕ
  pub map : List (Bytes × Bytes)

-- The keys and values, one after the other.
abbrev pub flat : List (Bytes × Bytes) → Bytes
flat [] = []
flat (p ∷ m) = p.0 ++ (p.1 ++ flat m)

module _ (codec : Codec ServerHeader) (l : ValueMap) where
  -- A header, serialized, and what follows it; the size is that of what follows.
  unfoldable pub map_message : Bool → MapHeader → Bytes → Outcome MapError Bytes
  map_message update header body =
      elim (codec.encode
        (ServerHeader.value_map l.id l.type_id update header (as_u32 (length body)))) [
          | none ↦ err serialize_failed
          | some b ↦ ok (b ++ body)
        ]

  -- What is sent to a client that is connected.
  abbrev pub sent_if : Bool → Outcome MapError Bytes → Outcome MapError (List Bytes)
  sent_if true message = message >>= λ m. ok (m ∷ [])
  sent_if false message = ok []

  -- The map after an operation that sends first: unchanged if there is no message.
  abbrev pub then_change :
      Outcome MapError (List Bytes)
      → List (Bytes × Bytes)
      → ValueMap × Outcome MapError (List Bytes)
  then_change (ok ms) changed = (record l { map = changed }, ok ms)
  then_change (err e) changed = (l, err e)
  then_change fault changed = (l, fault)

  -- `set`
  unfoldable pub set_map :
      List (Bytes × Bytes) → Bool → Bool → ValueMap × Outcome MapError (List Bytes)
  unfolding map_message
  set_map m update connected =
      then_change (sent_if connected (map_message update (MapHeader.all (length m)) (flat m))) m

  -- `set_item`
  unfoldable pub set_entry : Bytes → Bytes → Bool → Bool → ValueMap × Outcome MapError (List Bytes)
  unfolding map_message
  set_entry key value update connected =
      then_change (sent_if connected (map_message update MapHeader.set (key ++ value)))
        (insert_by same_bytes key value l.map)

  -- `get_item`
  unfoldable pub get_entry : Bytes → Option Bytes
  get_entry key = find_by same_bytes key l.map

  -- `remove_item`, without the old value that it returns: an entry that was there is gone even if the
  -- message cannot be made.
  unfoldable pub remove_found :
      Bytes → Bool → Bool → Option Bytes → ValueMap × Outcome MapError (List Bytes)
  unfolding map_message
  remove_found key update connected none = (l, ok [])
  remove_found key update connected (some old) = (
    record l { map = erase_by same_bytes key l.map },
    sent_if connected (map_message update MapHeader.remove key),
  )

  unfoldable pub remove_entry : Bytes → Bool → Bool → ValueMap × Outcome MapError (List Bytes)
  unfolding remove_found get_entry
  remove_entry key update connected = remove_found key update connected (get_entry key)

  -- `SyncTrait::sync`
  unfoldable pub sync_map : Outcome MapError (List Bytes)
  unfolding map_message
  sync_map = sent_if true (map_message false (MapHeader.all (length l.map)) (flat l.map))
