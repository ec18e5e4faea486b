-- ===== src/Data/Take/Server.antt =====
-- `DataTake` and `DataMultiTake` of server/data_take_server.rs. `set` stops where it waits for the
-- event, with the messages that it has made; `resume` is what follows. A value is kept for `sync`
-- only when the caller asks for it.
use egui_states.Prelude.{
  ℕ, Bytes, Bool, true, false, List, Option, none, some, [], ◌∷◌, ◌++◌, if◌then◌else◌, insert,
  erase,
}
use egui_states.Outcome.{Outcome, ok, err, fault, ◌>>=◌}
use egui_states.Protocol.DataType.{DataType}
use egui_states.Protocol.Headers.{DataMultiTakeHeader, ServerHeader}
use egui_states.Protocol.Codec.{Codec}
use egui_states.Pack.Arrays.{DataError, Packed, frame, pack_data_take, pack_data_multi_take}
use egui_states.Data.Server.{DataHolder, check_data_type}

pub record TakeServer : Type 0 where
  pub id : ℕ
  pub data_type : DataType
  pub cached : Option (Bytes × ℕ)
  pub event : Bool

abbrev pub cache_if : Bool → DataHolder → Option (Bytes × ℕ)
cache_if cache h = if cache then some (h.bytes, h.count) else none

abbrev pub sent_when : Bool → List Packed → List Packed
sent_when connected ms = if connected then ms else []

-- What `sync` does with what it made: an error leaves the event as it is.
abbrev pub event_after :
    {S : Type 0} → S → S → Outcome DataError (List Packed) → S × Outcome DataError (List Packed)
event_after s ready (ok ms) = (ready, ok ms)
event_after s ready (err e) = (s, err e)
event_after s ready fault = (s, fault)

module _ (threshold : ℕ) (codec : Codec ServerHeader) where
  -- `DataTake::set`, before it waits.
  unfoldable pub set_take :
      TakeServer
      → DataHolder
      → Bool
      → Bool
      → Bool
      → Bool
      → TakeServer × Outcome DataError (Option (List Packed))
  unfolding check_data_type
  set_take s h blocking update cache connected = elim (check_data_type h s.data_type) [
    | err e ↦ (s, err e)
    | fault ↦ (s, fault)
    | ok _ ↦
        if connected
        then (
          s,
          (do
            ms ← pack_data_take codec threshold s.id h.bytes h.count s.data_type blocking update
            ok (some ms)),
        )
        else (record s { cached = cache_if cache h }, ok none)
  ]

  -- `DataTake::set`, after the event.
  unfoldable pub resume_take :
      TakeServer → DataHolder → List Packed → Bool → Bool → Bool → TakeServer × List Packed
  resume_take s h ms blocking cache connected =
      let s' = if blocking then record s { event = false } else s in
      (record s' { cached = cache_if cache h }, sent_when connected ms)

  -- `DataTake::acknowledge`
  unfoldable pub acknowledge_take : TakeServer → TakeServer
  acknowledge_take s = record s { event = true }

  -- `DataTake::sync`
  unfoldable pub sync_take : TakeServer → TakeServer × Outcome DataError (List Packed)
  sync_take s = elim s.cached [
    | none ↦ (record s { event = true }, ok [])
    | some p ↦
        event_after s (record s { event = true })
          (pack_data_take codec threshold s.id p.0 p.1 s.data_type false false)
  ]

pub record MultiTakeServer : Type 0 where
  pub id : ℕ
  pub data_type : DataType
  pub values : List (ℕ × (Bytes × ℕ))
  pub event : Bool

abbrev pub cache_at : MultiTakeServer → ℕ → Bool → DataHolder → MultiTakeServer
cache_at s index cache h = record s {
  values = if cache then insert index (h.bytes, h.count) s.values else erase index s.values;
}

module _ (threshold : ℕ) (codec : Codec ServerHeader) where
  -- `DataMultiTake::set`, before it waits.
  unfoldable pub set_multi_take :
      MultiTakeServer
      → ℕ
      → DataHolder
      → Bool
      → Bool
      → Bool
      → Bool
      → MultiTakeServer × Outcome DataError (Option (List Packed))
  unfolding check_data_type
  set_multi_take s index h blocking update cache connected = elim (check_data_type h s.data_type) [
    | err e ↦ (s, err e)
    | fault ↦ (s, fault)
    | ok _ ↦
        if connected
        then (
          s,
          (do
            ms ←
                pack_data_multi_take codec threshold s.id index h.bytes h.count s.data_type blocking
                  update
            ok (some ms)),
        )
        else (cache_at s index cache h, ok none)
  ]

  -- `DataMultiTake::set`, after the event.
  unfoldable pub resume_multi_take :
      MultiTakeServer
      → ℕ
      → DataHolder
      → List Packed
      → Bool
      → Bool
      → Bool
      → MultiTakeServer × List Packed
  resume_multi_take s index h ms blocking cache connected =
      let s' = if blocking then record s { event = false } else s in
      (cache_at s' index cache h, sent_when connected ms)

  abbrev header_if : Bool → ServerHeader → Outcome DataError (List Packed)
  header_if connected header =
      if connected then (do m ← frame codec header [] false; ok (m ∷ [])) else ok []

  -- `remove_index`
  unfoldable pub remove_multi_take :
      MultiTakeServer → ℕ → Bool → Bool → MultiTakeServer × Outcome DataError (List Packed)
  remove_multi_take s index update connected = (
    record s { values = erase index s.values },
    header_if connected
        (ServerHeader.data_multi_take s.id (DataMultiTakeHeader.remove index update)),
  )

  -- `reset`
  unfoldable pub reset_multi_take :
      MultiTakeServer → Bool → Bool → MultiTakeServer × Outcome DataError (List Packed)
  reset_multi_take s update connected = (
    record s { values = [] },
    header_if connected (ServerHeader.data_multi_take s.id (DataMultiTakeHeader.reset update)),
  )

  -- `DataMultiTake::acknowledge`
  unfoldable pub acknowledge_multi_take : MultiTakeServer → MultiTakeServer
  acknowledge_multi_take s = record s { event = true }

  -- The loop of `sync`; `connected` is taken to stay set.
  unfoldable pub sync_takes :
      ℕ → DataType → List (ℕ × (Bytes × ℕ)) → Outcome DataError (List Packed)
  sync_takes id data_type [] = ok []
  sync_takes id data_type ((index, (xs, count)) ∷ rest) = do
    ms ← pack_data_multi_take codec threshold id index xs count data_type false false
    more ← sync_takes id data_type rest
    ok (ms ++ more)

  -- `DataMultiTake::sync`
  unfoldable pub sync_multi_take :
      MultiTakeServer → MultiTakeServer × Outcome DataError (List Packed)
  unfolding sync_takes
  sync_multi_take s = elim s.values [
    | [] ↦
        event_after s (record s { event = true })
          (header_if true (ServerHeader.data_multi_take s.id (DataMultiTakeHeader.reset false)))
    | ◌∷◌ p ps ↦ event_after s (record s { event = true }) (sync_takes s.id s.data_type s.values)
  ]
