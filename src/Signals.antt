-- ===== src/Signals.antt =====
-- Which value a waiting thread gets next: `ChangedInner` of server/signals.rs. The hash map and the
-- hash sets are functions. `set` returns whether it calls `event.set_one`.
pub mod Loop
pub mod Count
pub mod Schedule
pub mod Waiting
pub mod Order
use egui_states.Prelude.{
  ℕ, ◌+◌, Bytes, Bool, true, false, not, ◌&&◌, List, Option, none, some, [], ◌∷◌, ◌++◌, leb, ◌==◌,
  if◌then◌else◌, put,
}

pub data Signal : Type 0 where
  single : Bytes → Signal
  queue : List Bytes → Signal

pub record ChangedInner : Type 0 where
  pub values : ℕ → Option Signal
  pub indexes : List ℕ
  pub blocked_list : ℕ → Bool
  pub registered : ℕ → Bool

-- `ChangedInner::new`
unfoldable pub new : ChangedInner
new = record {
  values = λ id. none;
  indexes = [];
  blocked_list = λ id. false;
  registered = λ id. false;
}

-- `retain`; `put` is `insert` and `remove` of the hash map and the hash sets.
abbrev pub retain : (ℕ → Bool) → List ℕ → List ℕ
retain keep [] = []
retain keep (id ∷ ids) = let rest = retain keep ids in if keep id then id ∷ rest else rest

-- `clear`
unfoldable pub clear : ChangedInner → ChangedInner
clear c = record c {
  values = λ id. if leb id 9 then c.values id else none;
  indexes = retain (λ id. leb id 9) c.indexes;
  blocked_list = λ id. leb id 9 && c.blocked_list id;
}

-- The entry of a value that is set.
abbrev pub entry : Option Signal → Bytes → Signal
entry none value = single value
entry (some (single v)) value = single value
entry (some (queue vs)) value = queue (vs ++ value ∷ [])

-- `set`
unfoldable pub set : ChangedInner → ℕ → Bytes → ChangedInner × Bool
set c id value =
    if c.registered id
    then (
      record c {
        indexes = c.indexes ++ id ∷ [];
        values = put c.values id (some (entry (c.values id) value));
      },
      not (c.blocked_list id),
    )
    else (c, false)

-- `get_id`, by what stands at the id.
abbrev pub get_signal : ChangedInner → ℕ → Option Signal → ChangedInner × Option Bytes
get_signal c id none = (c, none)
get_signal c id (some (single v)) = (
  record c {
    values = put c.values id none;
    indexes = retain (λ single_id. not (single_id == id)) c.indexes;
  },
  some v,
)
get_signal c id (some (queue [])) = (record c { values = put c.values id (some (queue [])) }, none)
get_signal c id (some (queue (v ∷ vs))) =
    (record c { values = put c.values id (some (queue vs)) }, some v)

unfoldable pub get_id : ChangedInner → ℕ → ChangedInner × Option Bytes
get_id c id = get_signal c id (c.values id)

-- The loop of `get`: `skipped` are the indexes before `pos`, the last argument those from it on.
unfoldable pub get_from : ChangedInner → List ℕ → List ℕ → ChangedInner × Option (ℕ × Bytes)
unfolding get_id
get_from c skipped [] = (record c { indexes = skipped }, none)
get_from c skipped (id ∷ rest) = elim (c.blocked_list id) [
  | true ↦ get_from c (skipped ++ id ∷ []) rest
  | false ↦ elim (c.registered id) [
    | false ↦ get_from (record c { values = put c.values id none }) skipped rest
    | true ↦
        let (c', found) = get_id (record c { indexes = skipped ++ rest }) id in
        elim found [
          | none ↦ get_from c' skipped rest
          | some value ↦
              (record c' { blocked_list = put c'.blocked_list id true }, some (id, value))
        ]
  ]
]

abbrev pub unblock : ChangedInner → Option ℕ → ChangedInner
unblock c none = c
unblock c (some last_id) = record c { blocked_list = put c.blocked_list last_id false }

-- `get`
unfoldable pub get : ChangedInner → Option ℕ → ChangedInner × Option (ℕ × Bytes)
unfolding get_from
get c last_id = let c' = unblock c last_id in get_from c' [] c'.indexes

-- `set_to_queue`
abbrev pub as_queue : Option Signal → List Bytes
as_queue none = []
as_queue (some (single v)) = v ∷ []
as_queue (some (queue vs)) = vs

unfoldable pub set_to_queue : ChangedInner → ℕ → ChangedInner
set_to_queue c id = record c { values = put c.values id (some (queue (as_queue (c.values id)))) }

-- `set_to_single`: of a queue, the last element stays.
abbrev pub last_of : List Bytes → Option Signal
last_of [] = none
last_of (v ∷ []) = some (single v)
last_of (v ∷ w ∷ vs) = last_of (w ∷ vs)

abbrev pub as_single : Option Signal → Option Signal
as_single none = none
as_single (some (single v)) = some (single v)
as_single (some (queue vs)) = last_of vs

unfoldable pub set_to_single : ChangedInner → ℕ → ChangedInner
set_to_single c id = record c { values = put c.values id (as_single (c.values id)) }

-- `SignalsManager::set_register`
abbrev pub emptied : Option Signal → Option Signal
emptied none = none
emptied (some (single v)) = none
emptied (some (queue vs)) = some (queue [])

unfoldable pub set_register : ChangedInner → ℕ → Bool → ChangedInner
set_register c id true = record c { registered = put c.registered id true }
set_register c id false = record c {
  registered = put c.registered id false;
  values = put c.values id (emptied (c.values id));
  indexes = retain (λ queued_id. not (queued_id == id)) c.indexes;
}
