-- ===== src/Data/Server.antt =====
-- `Data` of server/data_server.rs. An operation that sends does so in two steps: it changes the
-- array and packs its messages, then it waits for the event, that is for the client's last
-- acknowledgement, and sends if the client is still connected. The read lock that it holds while it
-- waits keeps other writers out, and lets `sync` in. `connected` is the flag as the step reads it.
use egui_states.Prelude.{
  ℕ, ◌+◌, ◌-◌, ◌/◌, ◌%◌, ◌^◌, ◌++◌, Bytes, Bool, true, false, List, Option, none, some, [], ◌∷◌,
  leb, ltb, ◌==◌, ◌&&◌, if◌then◌else◌, length, take, drop, slice, add_usize, mul_usize,
}
use egui_states.Outcome.{Outcome, ok, err, fault, ◌>>=◌}
use egui_states.Protocol.DataType.{DataType, type_eq, item_size}
use egui_states.Protocol.Headers.{TransportType, DataHeader, ServerHeader, set, add, replace}
use egui_states.Protocol.Codec.{Codec}
use egui_states.Pack.Arrays.{
  DataError, type_mismatch, not_multiple, out_of_bounds, invalid_size, Packed, data_header, frame,
  pack_data,
}

-- `DataHolder`: the bytes that `data` points to (`data_size` is their number), and the element
-- count that the caller gives beside them.
pub record DataHolder : Type 0 where
  pub bytes : Bytes
  pub count : ℕ
  pub data_type : DataType

-- `value` is `(bytes, count)`, and `event` is the flag of the event.
pub record Server : Type 0 where
  pub id : ℕ
  pub data_type : DataType
  pub bytes : Bytes
  pub count : ℕ
  pub event : Bool

-- The result of the first step: `ok none` has returned, `ok (some ms)` waits to send `ms`.
abbrev pub Step : Type 0
Step = Server × Outcome DataError (Option (List Packed))

-- `Data::new`
unfoldable pub new : ℕ → DataType → Server
new id data_type = record { id = id; data_type = data_type; bytes = []; count = 0; event = false }

unfoldable pub check_data_type : DataHolder → DataType → Outcome DataError (Unit {0})
check_data_type h data_type =
    if type_eq h.data_type data_type
    then (if length h.bytes % item_size data_type == 0 then ok tt else err not_multiple)
    else err type_mismatch

-- A step that goes on to wait if the client is connected.
abbrev pub when_connected :
    Bool → Outcome DataError (List Packed) → Outcome DataError (Option (List Packed))
when_connected true ms = ms >>= λ m. ok (some m)
when_connected false ms = ok none

-- What follows `event.wait_clear()`; `none` while the flag is not set.
unfoldable pub resume : Server → Bool → List Packed → Option (Server × List Packed)
resume s connected ms =
    if s.event then some (record s { event = false }, (if connected then ms else [])) else none

-- `Acknowledge::acknowledge`
unfoldable pub acknowledge : Server → Server
acknowledge s = record s { event = true }

module _ (threshold : ℕ) (codec : Codec ServerHeader) where
  abbrev send_bytes : Server → Bytes → TransportType → ℕ → Bool → Outcome DataError (List Packed)
  send_bytes s xs transport count update =
      pack_data codec threshold s.id xs transport count s.data_type none update

  abbrev send_header : Server → DataHeader → Outcome DataError (List Packed)
  send_header s header = do m ← frame codec (data_header s.id none header) [] false; ok (m ∷ [])

  -- `Data::set`
  unfoldable pub set_data : Server → DataHolder → Bool → Bool → Step
  unfolding check_data_type
  set_data s h update connected = elim (check_data_type h s.data_type) [
    | ok _ ↦
        let s' = record s { bytes = h.bytes; count = h.count } in
        (s', when_connected connected (send_bytes s' s'.bytes (set h.count) h.count update))
    | err e ↦ (s, err e)
    | fault ↦ (s, fault)
  ]

  -- `Data::add`
  unfoldable pub add_data : Server → DataHolder → Bool → Bool → Step
  unfolding check_data_type
  add_data s h update connected = elim (check_data_type h s.data_type) [
    | ok _ ↦
        let s' = record s { bytes = s.bytes ++ h.bytes; count = add_usize s.count h.count } in
        (
          s',
          when_connected connected
              (send_bytes s' (drop (length s.bytes) s'.bytes) (add h.count) h.count update),
        )
    | err e ↦ (s, err e)
    | fault ↦ (s, fault)
  ]

  -- The copy of `replace` at a byte index, and what it sends.
  unfoldable pub replace_at : Server → DataHolder → ℕ → ℕ → Bool → Bool → Step
  replace_at s h index i update connected =
      let j = add_usize i (length h.bytes) in
      if leb i j && leb j (length s.bytes)
      then (let s' = record s { bytes = take i s.bytes ++ (h.bytes ++ drop j s.bytes) } in
          (
            s',
            when_connected connected
                (send_bytes s' (slice s'.bytes i j) (replace index h.count) h.count update),
          ))
      else (s, fault)

  -- `Data::replace`
  unfoldable pub replace_data : Server → DataHolder → ℕ → Bool → Bool → Step
  unfolding check_data_type replace_at
  replace_data s h index update connected = elim (check_data_type h s.data_type) [
    | ok _ ↦
        if ltb s.count (add_usize index h.count)
        then (s, err out_of_bounds)
        else replace_at s h index (mul_usize index (item_size s.data_type)) update connected
    | err e ↦ (s, err e)
    | fault ↦ (s, fault)
  ]

  -- The `drain` of `remove` at byte indices, and what it sends.
  unfoldable pub remove_at : Server → ℕ → ℕ → ℕ → ℕ → Bool → Bool → Step
  remove_at s index size i j update connected =
      if leb i j && leb j (length s.bytes)
      then (let s' = record s {
        bytes = take i s.bytes ++ drop j s.bytes;
        count = (s.count + 2 ^ 64 - size) % 2 ^ 64;
      } in
          (s', when_connected connected (send_header s' (DataHeader.drain index size update))))
      else (s, fault)

  -- `Data::remove`
  unfoldable pub remove_data : Server → ℕ → ℕ → Bool → Bool → Step
  unfolding remove_at
  remove_data s index size update connected =
      if size == 0
      then (s, err invalid_size)
      else if ltb s.count (add_usize index size)
      then (s, err out_of_bounds)
      else (let i = mul_usize index (item_size s.data_type) in
          remove_at s index size i (add_usize i (mul_usize size (item_size s.data_type))) update
            connected)

  -- `Data::clear`, which sends without waiting.
  unfoldable pub clear_data : Server → Bool → Bool → Server × Outcome DataError (List Packed)
  clear_data s update connected =
      let s' = record s { bytes = []; count = 0 } in
      (s', (if connected then send_header s' (DataHeader.clear update) else ok []))

  -- The event is changed once the messages are made.
  abbrev with_event :
      Server → Bool → Outcome DataError (List Packed) → Server × Outcome DataError (List Packed)
  with_event s flag (ok ms) = (record s { event = flag }, ok ms)
  with_event s flag (err e) = (s, err e)
  with_event s flag fault = (s, fault)

  -- `SyncTrait::sync`: the whole array, for a client that has just connected.
  unfoldable pub sync : Server → Server × Outcome DataError (List Packed)
  sync s =
      let count = length s.bytes / item_size s.data_type in
      if count == 0
      then with_event s true (send_header s (DataHeader.clear false))
      else with_event s false (send_bytes s s.bytes (set count) count false)
