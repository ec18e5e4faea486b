-- ===== src/Tables/Agreement.antt =====
-- `ValueMap` of server/map_server.rs and `MapState` of client/value_map.rs, joined by the protocol.
use native.Mathlib.Nat.{mod-eq_of_lt}
use egui_states.Prelude.{
  ◌^◌, ◌<◌, ◌≡◌, refl, ap, sym, ◌∙◌, ◌++◌, append-nil, Bytes, Bool, true, List, Option, none, some,
  [], ◌∷◌, arith, length, Option-cases, inl, inr, as_u32,
}
use egui_states.Outcome.{Outcome, ok, err, fault}
use egui_states.Protocol.Headers.{ServerHeader, MapHeader}
use egui_states.Protocol.Codec.{Codec, IsLawful}
use egui_states.Messages.{ServerMessage, read_all}
use egui_states.Messages.Frames.{read_all-Frames}
use egui_states.Tables.{
  ValueMap, MapError, flat, map_message, sent_if, then_change, set_map, set_entry, get_entry,
  remove_found, remove_entry,
}
use egui_states.Tables.Entries.{
  insert_by, same_bytes, IsDistinct, insert_by-IsDistinct, erase_by-IsDistinct,
}

pub data MapOp : Type 0 where
  sets : List (Bytes × Bytes) → MapOp
  sets_entry : Bytes → Bytes → MapOp
  removes_entry : Bytes → MapOp

unfoldable pub run_map_op :
    Codec ServerHeader → ValueMap → MapOp → Bool → Bool → ValueMap × Outcome MapError (List Bytes)
run_map_op codec l (sets m) update connected = set_map codec l m update connected
run_map_op codec l (sets_entry key value) update connected =
    set_entry codec l key value update connected
run_map_op codec l (removes_entry key) update connected = remove_entry codec l key update connected

abbrev pub IsMap : MapOp → Type 0
IsMap (sets m) = IsDistinct same_bytes m
IsMap (sets_entry key value) = Unit
IsMap (removes_entry key) = Unit

module _ (codec : Codec ServerHeader) (l : ValueMap) where
  then_change-IsDistinct :
      (o : Outcome MapError (List Bytes)) (m : List (Bytes × Bytes))
      → IsDistinct same_bytes l.map
      → IsDistinct same_bytes m
      → IsDistinct same_bytes (then_change codec l o m).0.map
  then_change-IsDistinct (ok ms) m h new = new
  then_change-IsDistinct (err e) m h new = h
  then_change-IsDistinct fault m h new = h

  remove_found-IsDistinct :
      (key : Bytes) (update connected : Bool) (o : Option Bytes)
      → IsDistinct same_bytes l.map
      → IsDistinct same_bytes (remove_found codec l key update connected o).0.map
  unfolding remove_found
  remove_found-IsDistinct key update connected none h = h
  remove_found-IsDistinct key update connected (some old) h =
      erase_by-IsDistinct same_bytes key l.map h

  pub run_map_op-IsDistinct :
      (op : MapOp) (update connected : Bool)
      → IsMap op
      → IsDistinct same_bytes l.map
      → IsDistinct same_bytes (run_map_op codec l op update connected).0.map
  unfolding run_map_op set_map set_entry remove_entry
  run_map_op-IsDistinct (sets m) update connected new h =
      then_change-IsDistinct
        (sent_if codec l connected (map_message codec l update (MapHeader.all (length m)) (flat m)))
        m h new
  run_map_op-IsDistinct (sets_entry key value) update connected new h =
      then_change-IsDistinct
        (sent_if codec l connected (map_message codec l update MapHeader.set (key ++ value)))
        (insert_by same_bytes key value l.map) h (insert_by-IsDistinct same_bytes key value l.map h)
  run_map_op-IsDistinct (removes_entry key) update connected new h =
      remove_found-IsDistinct key update connected (get_entry codec l key) h

  map_message_inv :
      (update : Bool) (h : MapHeader) (body m : Bytes)
      → map_message codec l update h body ≡ ok m
      → (b : Bytes) × (codec.encode
            (ServerHeader.value_map l.id l.type_id update h (as_u32 (length body)))
          ≡ some b)
        × (m ≡ b ++ body)
  unfolding map_message
  map_message_inv update h body m e =
      elim (Option-cases
        (codec.encode (ServerHeader.value_map l.id l.type_id update h (as_u32 (length body))))) [
          | inl q ↦ ground arith
          | inr q ↦ (q.0, q.1, ground arith)
        ]

  -- A message is read as the update that it was made from.
  pub message_read :
      (lawful : IsLawful codec) (update : Bool) (h : MapHeader) (body m : Bytes)
      → map_message codec l update h body ≡ ok m
      → length body < 2 ^ 32
      → read_all codec m ≡ ok (ServerMessage.value_map l.id l.type_id update h body ∷ [])
  message_read lawful update h body m e small =
      let (b, q, made) = map_message_inv update h body m e in
      read_all-Frames codec lawful
        (ServerHeader.value_map l.id l.type_id update h (as_u32 (length body)), body) [] m
        (
          b,
          [],
          q,
          sym (mod-eq_of_lt {n = length body} {m = 2 ^ 32} small),
          made ∙ ap (λ (x : Bytes). b ++ x) (sym (append-nil body)),
          refl,
        )

  pub sent_inv :
      (o : Outcome MapError Bytes) (m : Bytes) (changed : List (Bytes × Bytes))
      → (then_change codec l (sent_if codec l true o) changed).1 ≡ ok (m ∷ [])
      → (o ≡ ok m)
        × ((then_change codec l (sent_if codec l true o) changed).0 ≡ record l { map = changed })
  sent_inv (ok x) m changed e = (cc, refl)
  sent_inv (err x) m changed e = cc
  sent_inv fault m changed e = cc

  pub sent_once :
      (o : Outcome MapError Bytes) (m : Bytes) → sent_if codec l true o ≡ ok (m ∷ []) → o ≡ ok m
  sent_once (ok x) m e = cc
  sent_once (err x) m e = cc
  sent_once fault m e = cc
