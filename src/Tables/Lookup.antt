-- ===== src/Tables/Lookup.antt =====
-- A server map, `ValueMap` of server/map_server.rs, as a function from keys to values.
use egui_states.Prelude.{
  ◌≡◌, refl, ap, sym, ◌∙◌, ◌++◌, Bytes, Bool, List, Option, none, some, length, if◌then◌else◌,
  Bool-cases, inl, inr,
}
use egui_states.Outcome.{Outcome, ok, err, fault}
use egui_states.Protocol.Headers.{ServerHeader, MapHeader}
use egui_states.Protocol.Codec.{Codec}
use egui_states.Tables.{
  ValueMap, MapError, flat, map_message, sent_if, then_change, set_map, set_entry, get_entry,
  remove_found, remove_entry,
}
use egui_states.Tables.Entries.{
  find_by, insert_by, same_bytes, same_bytes-IsEquality, IsDistinct, find-insert_by, find-erase_by,
}
use egui_states.Tables.Agreement.{
  MapOp, sets, sets_entry, removes_entry, run_map_op, IsMap, run_map_op-IsDistinct,
}

-- The keys of the list differ, and it has the values of the function.
abbrev pub Represents : Codec ServerHeader → ValueMap → (Bytes → Option Bytes) → Type 0
Represents codec l f = IsDistinct same_bytes l.map × ((key : Bytes) → get_entry codec l key ≡ f key)

-- What a change does that is kept only if its message is made.
abbrev pub if_made : {A : Type 0} → Outcome MapError (List Bytes) → A → A → A
if_made (ok ms) new old = new
if_made (err e) new old = old
if_made fault new old = old

-- An operation on functions from keys to values, with what the operation on the map returned.
abbrev pub applied :
    MapOp → Outcome MapError (List Bytes) → (Bytes → Option Bytes) → Bytes → Option Bytes
applied (sets m) r f key = if_made r (find_by same_bytes key m) (f key)
applied (sets_entry k v) r f key = if_made r (if same_bytes k key then some v else f key) (f key)
applied (removes_entry k) r f key = if same_bytes k key then none else f key

module _ (codec : Codec ServerHeader) (l : ValueMap) where
  changed_found :
      (o : Outcome MapError (List Bytes)) (m : List (Bytes × Bytes)) (key : Bytes)
      → find_by same_bytes key (then_change codec l o m).0.map
        ≡ if_made
            (then_change codec l o m).1
            (find_by same_bytes key m)
            (find_by same_bytes key l.map)
  changed_found (ok ms) m key = refl
  changed_found (err e) m key = refl
  changed_found fault m key = refl

  -- Nothing is removed for a key that is not there.
  removed_found :
      (k : Bytes) (update connected : Bool) (o : Option Bytes) (key : Bytes)
      → find_by same_bytes k l.map ≡ o
      → IsDistinct same_bytes l.map
      → find_by same_bytes key (remove_found codec l k update connected o).0.map
        ≡ (if same_bytes k key then none else find_by same_bytes key l.map)
  unfolding remove_found
  removed_found k update connected none key e h = elim (Bool-cases (same_bytes k key)) [
    | inr other ↦ rw other refl
    | inl same ↦ rw same (
        ap (λ (b : Bytes). find_by same_bytes b l.map)
          (sym (same_bytes-IsEquality.equal_to k key same))
        ∙ e)
  ]
  removed_found k update connected (some old) key e h =
      find-erase_by same_bytes same_bytes-IsEquality k key l.map h

  found :
      (op : MapOp) (update connected : Bool) (key : Bytes)
      → IsDistinct same_bytes l.map
      → get_entry codec (run_map_op codec l op update connected).0 key
        ≡ applied op (run_map_op codec l op update connected).1 (get_entry codec l) key
  unfolding run_map_op set_map set_entry remove_entry get_entry
  found (sets m) update connected key h =
      changed_found
        (sent_if codec l connected (map_message codec l update (MapHeader.all (length m)) (flat m)))
        m key
  found (sets_entry k v) update connected key h =
      let sent = sent_if codec l connected (map_message codec l update MapHeader.set (k ++ v)) in
      let new = insert_by same_bytes k v l.map in
      changed_found sent new key
      ∙ ap
          (λ (o : Option Bytes).
            if_made (then_change codec l sent new).1 o (find_by same_bytes key l.map))
          (find-insert_by same_bytes same_bytes-IsEquality k key v l.map)
  found (removes_entry k) update connected key h =
      removed_found k update connected (find_by same_bytes k l.map) key refl h

applied_same :
    (op : MapOp) (r : Outcome MapError (List Bytes)) (f g : Bytes → Option Bytes) (key : Bytes)
    → f key ≡ g key
    → applied op r f key ≡ applied op r g key
applied_same (sets m) r f g key e = ap (if_made r (find_by same_bytes key m)) e
applied_same (sets_entry k v) r f g key e =
    ap (λ (o : Option Bytes). if_made r (if same_bytes k key then some v else o) o) e
applied_same (removes_entry k) r f g key e =
    ap (λ (o : Option Bytes). if same_bytes k key then none else o) e

-- If a server map has the values of a function from keys to values, then after a set, a set of one
-- entry or a removal, connected or not and whether the message can be made or not, it has those of the
-- function that the operation makes: the entry is set or gone and every other key has its value; a set
-- whose message cannot be made changes nothing, a removal is kept. A map that is set has different
-- keys.
pub run_map_op-Represents :
    (codec : Codec ServerHeader) (l : ValueMap) (f : Bytes → Option Bytes) (op : MapOp)
    (update connected : Bool)
    → IsMap op
    → Represents codec l f
    → Represents codec
        (run_map_op codec l op update connected).0
        (applied op (run_map_op codec l op update connected).1 f)
run_map_op-Represents codec l f op update connected new (h, same) = (
  run_map_op-IsDistinct codec l op update connected new h,
  λ key.
      found codec l op update connected key h
      ∙ applied_same op (run_map_op codec l op update connected).1 (get_entry codec l) f key
          (same key),
)
