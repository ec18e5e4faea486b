-- ===== src/Data/Multi/Server.antt =====
-- `DataMulti` of server/data_server.rs. Its hash map is an association list, in whose order `sync`
-- runs through it. As for one array, an operation that waits for the event is what it does before.
use egui_states.Prelude.{
  ℕ, ◌+◌, ◌-◌, ◌^◌, ◌%◌, ◌++◌, Bytes, Bool, true, false, List, Option, none, some, [], ◌∷◌, leb,
  ltb, ◌==◌, ◌&&◌, if◌then◌else◌, length, take, drop, slice, add_usize, mul_usize, find, insert,
  erase,
}
use egui_states.Outcome.{Outcome, ok, err, fault, ◌>>=◌}
use egui_states.Protocol.DataType.{DataType, item_size}
use egui_states.Protocol.Headers.{
  TransportType, DataHeader, MultiDataHeader, ServerHeader, set, add, replace,
}
use egui_states.Protocol.Codec.{Codec}
use egui_states.Pack.Arrays.{
  DataError, out_of_bounds, invalid_size, no_index, Packed, frame, pack_data,
}
use egui_states.Data.Server.{DataHolder, check_data_type, when_connected}

pub record MultiServer : Type 0 where
  pub id : ℕ
  pub data_type : DataType
  pub values : List (ℕ × (Bytes × ℕ))
  pub sync_counter : ℕ
  pub event : Bool

abbrev pub MultiStep : Type 0
MultiStep = MultiServer × Outcome DataError (Option (List Packed))

-- The result of an operation that does not wait: what it has sent.
abbrev pub MultiSent : Type 0
MultiSent = MultiServer × Outcome DataError (List Packed)

-- `DataMulti::new`
unfoldable pub new_multi : ℕ → DataType → MultiServer
new_multi id data_type = record {
  id = id;
  data_type = data_type;
  values = [];
  sync_counter = 0;
  event = false;
}

-- `Acknowledge::acknowledge`: the event waits for the acknowledgement of every array of a `sync`.
unfoldable pub acknowledge_multi : MultiServer → MultiServer
acknowledge_multi s =
    if ltb 0 s.sync_counter
    then (if ltb 0 (s.sync_counter - 1)
        then record s { sync_counter = s.sync_counter - 1 }
        else record s { sync_counter = s.sync_counter - 1; event = true })
    else record s { event = true }

abbrev pub stored_at : MultiServer → ℕ → Bytes → ℕ → MultiServer
stored_at s index bytes count = record s { values = insert index (bytes, count) s.values }

-- The operations on an entry of the map, as `get_mut` finds it.
module _ (threshold : ℕ) (codec : Codec ServerHeader) (s : MultiServer) (index : ℕ)
    (update connected : Bool) where
  abbrev send_bytes : Bytes → TransportType → ℕ → Outcome DataError (Option (List Packed))
  send_bytes xs transport count =
      when_connected connected
        (pack_data codec threshold s.id xs transport count s.data_type (some index) update)

  abbrev send_header : MultiDataHeader → Outcome DataError (List Packed)
  send_header header = do
    m ← frame codec (ServerHeader.multi_data s.id header) [] false
    ok (m ∷ [])

  -- `set`
  unfoldable pub set_multi : DataHolder → MultiStep
  unfolding check_data_type
  set_multi h = elim (check_data_type h s.data_type) [
    | ok _ ↦ (stored_at s index h.bytes h.count, send_bytes h.bytes (set h.count) h.count)
    | err e ↦ (s, err e)
    | fault ↦ (s, fault)
  ]

  unfoldable pub add_entry : DataHolder → Option (Bytes × ℕ) → MultiStep
  add_entry h none = (s, err no_index)
  add_entry h (some (old, n)) =
      let xs = old ++ h.bytes in
      (
        stored_at s index xs (add_usize n h.count),
        send_bytes (drop (length old) xs) (add h.count) h.count,
      )

  -- `add`
  unfoldable pub add_multi : DataHolder → MultiStep
  unfolding check_data_type add_entry
  add_multi h = elim (check_data_type h s.data_type) [
    | ok _ ↦ add_entry h (find index s.values)
    | err e ↦ (s, err e)
    | fault ↦ (s, fault)
  ]

  -- The copy of `replace` at a byte index; a slice out of range panics.
  unfoldable pub replace_bytes : DataHolder → ℕ → Bytes → ℕ → ℕ → ℕ → MultiStep
  replace_bytes h data_index old n i j =
      if leb i j && leb j (length old)
      then (let xs = take i old ++ (h.bytes ++ drop j old) in
          (stored_at s index xs n, send_bytes (slice xs i j) (replace data_index h.count) h.count))
      else (s, fault)

  unfoldable pub replace_entry : DataHolder → ℕ → Option (Bytes × ℕ) → MultiStep
  unfolding replace_bytes
  replace_entry h data_index none = (s, err no_index)
  replace_entry h data_index (some (old, n)) =
      if ltb n (add_usize data_index h.count)
      then (s, err out_of_bounds)
      else (let i = mul_usize data_index (item_size s.data_type) in
          replace_bytes h data_index old n i (add_usize i (length h.bytes)))

  -- `replace`
  unfoldable pub replace_multi : DataHolder → ℕ → MultiStep
  unfolding check_data_type replace_entry
  replace_multi h data_index = elim (check_data_type h s.data_type) [
    | ok _ ↦ replace_entry h data_index (find index s.values)
    | err e ↦ (s, err e)
    | fault ↦ (s, fault)
  ]

  unfoldable pub remove_bytes : ℕ → ℕ → Bytes → ℕ → ℕ → ℕ → MultiStep
  remove_bytes data_index size old n i j =
      if leb i j && leb j (length old)
      then (
        stored_at s index (take i old ++ drop j old) ((n + 2 ^ 64 - size) % 2 ^ 64),
        when_connected connected
            (send_header (MultiDataHeader.modify index (DataHeader.drain data_index size update))),
      )
      else (s, fault)

  unfoldable pub remove_entry : ℕ → ℕ → Option (Bytes × ℕ) → MultiStep
  unfolding remove_bytes
  remove_entry data_index size none = (s, err no_index)
  remove_entry data_index size (some (old, n)) =
      if ltb n (add_usize data_index size)
      then (s, err out_of_bounds)
      else (let i = mul_usize data_index (item_size s.data_type) in
          remove_bytes data_index size old n i
            (add_usize i (mul_usize size (item_size s.data_type))))

  -- `remove`
  unfoldable pub remove_multi : ℕ → ℕ → MultiStep
  unfolding remove_entry
  remove_multi data_index size =
      if size == 0
      then (s, err invalid_size)
      else remove_entry data_index size (find index s.values)

  unfoldable pub clear_entry : Option (Bytes × ℕ) → MultiSent
  clear_entry none = (s, err no_index)
  clear_entry (some (old, n)) = (
    stored_at s index [] 0,
    (if connected
        then send_header (MultiDataHeader.modify index (DataHeader.clear update))
        else ok []),
  )

  -- `clear`
  unfoldable pub clear_multi : MultiSent
  unfolding clear_entry
  clear_multi = clear_entry (find index s.values)

  unfoldable pub remove_found : Option (Bytes × ℕ) → MultiSent
  remove_found none = (s, ok [])
  remove_found (some p) = (
    record s { values = erase index s.values },
    (if connected then send_header (MultiDataHeader.remove index update) else ok []),
  )

  -- `remove_index`
  unfoldable pub remove_index : MultiSent
  unfolding remove_found
  remove_index = remove_found (find index s.values)

  -- `reset`
  unfoldable pub reset_multi : MultiSent
  reset_multi = elim s.values [
    | [] ↦ (s, ok [])
    | ◌∷◌ p ps ↦ (
      record s { values = [] },
      (if connected then send_header (MultiDataHeader.reset update) else ok []),
    )
  ]

module _ (threshold : ℕ) (codec : Codec ServerHeader) where
  -- The loop of `sync`; `connected` is taken to stay set.
  unfoldable pub sync_values :
      ℕ → DataType → List (ℕ × (Bytes × ℕ)) → Outcome DataError (List Packed)
  sync_values id data_type [] = ok []
  sync_values id data_type ((index, (xs, count)) ∷ rest) = do
    ms ← pack_data codec threshold id xs (set count) count data_type (some index) false
    more ← sync_values id data_type rest
    ok (ms ++ more)

  abbrev after_reset : MultiServer → Outcome DataError Packed → MultiSent
  after_reset s (ok m) = (record s { event = true }, ok (m ∷ []))
  after_reset s (err e) = (s, err e)
  after_reset s fault = (s, fault)

  -- `SyncTrait::sync`: what is sent before an error is not in the result.
  unfoldable pub sync_multi : MultiServer → MultiSent
  unfolding sync_values
  sync_multi s = elim s.values [
    | [] ↦
        after_reset s
          (frame codec (ServerHeader.multi_data s.id (MultiDataHeader.reset false)) [] false)
    | ◌∷◌ p ps ↦ (
      record s { event = false; sync_counter = length s.values },
      sync_values s.id s.data_type s.values,
    )
  ]
