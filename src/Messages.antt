-- ===== src/Messages.antt =====
-- The client's parser of server messages: `ServerMessage` and `MessagesParser` of
-- client/messages.rs, and the loop of `WsClientRead::read` (client/websocket.rs) over one
-- websocket message.
pub mod Spec
pub mod Process
pub mod Frames
pub mod Groups
use egui_states.Prelude.{
  ℕ, zero, suc, ◌+◌, ◌-◌, Bytes, Bool, true, false, List, Option, none, some, [], ◌∷◌, ltb, leb,
  if◌then◌else◌, length, drop, slice,
}
use egui_states.Outcome.{Outcome, ok, err, fault, ◌>>=◌}
use egui_states.Protocol.Headers.{
  DataHeader, DataTakeHeader, MultiDataHeader, DataMultiTakeHeader, ImageHeader, ImageSetHeader,
  ImageType, MapHeader, VecHeader, ServerHeader,
}
use egui_states.Protocol.Codec.{Codec}
use egui_states.Data.Message.{DataMessage, DataMultiMessage, DataTakeMessage, DataMultiTakeMessage}

-- `ImageSetMessage` and `ImageMessage` of client/image.rs.
pub data ImageSetMessage : Type 0 where
  all : ℕ × ℕ → ImageSetMessage
  start : ℕ × ℕ → ℕ → ImageSetMessage
  batch end_set : ℕ → ImageSetMessage

pub data ImageMessage : Type 0 where
  set : ImageSetMessage → ImageType → ImageMessage
  update : ℕ × ℕ × ℕ × ℕ → ImageType → ImageMessage

pub data ServerMessage : Type 0 where
  value : ℕ → ℕ → Bool → Bytes → ServerMessage
  value_take : ℕ → ℕ → Bool → Bool → Bytes → ServerMessage
  static_value : ℕ → ℕ → Bool → Bytes → ServerMessage
  image : ℕ → Bool → ImageMessage → Bytes → ServerMessage
  value_vec : ℕ → ℕ → Bool → VecHeader → Bytes → ServerMessage
  value_map : ℕ → ℕ → Bool → MapHeader → Bytes → ServerMessage
  data_array : ℕ → Bool → DataMessage → ServerMessage
  -- id, blocking flag, update flag
  data_take : ℕ → Bool → Bool → DataTakeMessage → ServerMessage
  data_multi : ℕ → Bool → DataMultiMessage → ServerMessage
  data_multi_take : ℕ → Bool → DataMultiTakeMessage → ServerMessage
  update : ℕ → ServerMessage

pub data ParseError : Type 0 where
  bad_header incomplete : ParseError

pub record Parser : Type 0 where
  pub bytes : Bytes
  pub pointer : ℕ
  pub is_empty : Bool

-- The `size` bytes at the pointer, which moves past them.
unfoldable pub take_body : Parser → ℕ → Outcome ParseError (Bytes × Parser)
take_body p size =
    if ltb (length p.bytes) (p.pointer + size)
    then err incomplete
    else ok (slice p.bytes p.pointer (p.pointer + size), record p { pointer = p.pointer + size })

-- `_process_data`, with the update flag.
unfoldable pub process_data :
    Parser → DataHeader → Outcome ParseError ((DataMessage × Bool) × Parser)
unfolding take_body
process_data p (DataHeader.all data_type transport upd size) = do
  (xs, p') ← take_body p size
  ok ((DataMessage.all data_type transport xs, upd), p')
process_data p (DataHeader.start_batch count size) = do
  (xs, p') ← take_body p size
  ok ((DataMessage.batch_start count xs, false), p')
process_data p (DataHeader.batch size) = do
  (xs, p') ← take_body p size
  ok ((DataMessage.batch xs, false), p')
process_data p (DataHeader.end_batch data_type transport upd size) = do
  (xs, p') ← take_body p size
  ok ((DataMessage.batch_end data_type transport xs, upd), p')
process_data p (DataHeader.drain index count upd) = ok ((DataMessage.drain index count, upd), p)
process_data p (DataHeader.clear upd) = ok ((DataMessage.clear, upd), p)

-- `_process_data_take`
unfoldable pub process_data_take :
    Parser → DataTakeHeader → Outcome ParseError ((DataTakeMessage × Bool) × Parser)
unfolding take_body
process_data_take p (DataTakeHeader.all data_type count upd size) = do
  (xs, p') ← take_body p size
  ok ((DataTakeMessage.all data_type count xs, upd), p')
process_data_take p (DataTakeHeader.start_batch count size) = do
  (xs, p') ← take_body p size
  ok ((DataTakeMessage.batch_start count xs, false), p')
process_data_take p (DataTakeHeader.batch size) = do
  (xs, p') ← take_body p size
  ok ((DataTakeMessage.batch xs, false), p')
process_data_take p (DataTakeHeader.end_batch data_type count upd size) = do
  (xs, p') ← take_body p size
  ok ((DataTakeMessage.batch_end data_type count xs, upd), p')

-- The image message of a header, with the upd flag.
unfoldable pub image_message : ImageHeader → ImageMessage × Bool
image_message (ImageHeader.set (ImageSetHeader.all size upd) image_type) =
    (ImageMessage.set (ImageSetMessage.all size) image_type, upd)
image_message (ImageHeader.set (ImageSetHeader.start size pixels) image_type) =
    (ImageMessage.set (ImageSetMessage.start size pixels) image_type, false)
image_message (ImageHeader.set (ImageSetHeader.batch pixels) image_type) =
    (ImageMessage.set (ImageSetMessage.batch pixels) image_type, false)
image_message (ImageHeader.set (ImageSetHeader.end_set pixels upd) image_type) =
    (ImageMessage.set (ImageSetMessage.end_set pixels) image_type, upd)
image_message (ImageHeader.update rect image_type upd) = (ImageMessage.update rect image_type, upd)

-- The `match header` of `next_inner`.
unfoldable pub process : Parser → ServerHeader → Outcome ParseError (ServerMessage × Parser)
unfolding take_body process_data process_data_take image_message
process p (ServerHeader.value id type_id upd size) = do
  (xs, p') ← take_body p size
  ok (ServerMessage.value id type_id upd xs, p')
process p (ServerHeader.static_value id type_id upd size) = do
  (xs, p') ← take_body p size
  ok (ServerMessage.static_value id type_id upd xs, p')
process p (ServerHeader.value_take id type_id blocking upd size) = do
  (xs, p') ← take_body p size
  ok (ServerMessage.value_take id type_id blocking upd xs, p')
process p (ServerHeader.value_vec id type_id upd header size) = do
  (xs, p') ← take_body p size
  ok (ServerMessage.value_vec id type_id upd header xs, p')
process p (ServerHeader.value_map id type_id upd header size) = do
  (xs, p') ← take_body p size
  ok (ServerMessage.value_map id type_id upd header xs, p')
process p (ServerHeader.update dt) = ok (ServerMessage.update dt, p)
process p (ServerHeader.image id header size) = do
  (xs, p') ← take_body p size
  ok (ServerMessage.image id (image_message header).1 (image_message header).0 xs, p')
process p (ServerHeader.data_array id header) = do
  (m, p') ← process_data p header
  ok (ServerMessage.data_array id m.1 m.0, p')
process p (ServerHeader.data_take id header blocking) = do
  (m, p') ← process_data_take p header
  ok (ServerMessage.data_take id blocking m.1 m.0, p')
process p (ServerHeader.multi_data id (MultiDataHeader.remove key upd)) =
    ok (ServerMessage.data_multi id upd (DataMultiMessage.remove key), p)
process p (ServerHeader.multi_data id (MultiDataHeader.reset upd)) =
    ok (ServerMessage.data_multi id upd DataMultiMessage.reset, p)
process p (ServerHeader.multi_data id (MultiDataHeader.modify key header)) = do
  (m, p') ← process_data p header
  ok (ServerMessage.data_multi id m.1 (DataMultiMessage.modify key m.0), p')
process p (ServerHeader.data_multi_take id (DataMultiTakeHeader.remove key upd)) =
    ok (ServerMessage.data_multi_take id upd (DataMultiTakeMessage.remove key), p)
process p (ServerHeader.data_multi_take id (DataMultiTakeHeader.reset upd)) =
    ok (ServerMessage.data_multi_take id upd DataMultiTakeMessage.reset, p)
process p (ServerHeader.data_multi_take id (DataMultiTakeHeader.modify key header blocking)) = do
  (m, p') ← process_data_take p header
  ok (ServerMessage.data_multi_take id m.1 (DataMultiTakeMessage.modify key m.0 blocking), p')

module _ (codec : Codec ServerHeader) where
  -- `next_inner`: `data[pointer..]` panics past the end; `ServerHeader::deserialize` returns the
  -- header and the number of its bytes.
  unfoldable pub next_inner : Parser → Outcome ParseError (ServerMessage × Parser)
  next_inner p =
      if leb p.pointer (length p.bytes)
      then elim (codec.take_from (drop p.pointer p.bytes)) [
        | none ↦ err bad_header
        | some (header, rest) ↦
            process
              (record p { pointer = p.pointer + (length (drop p.pointer p.bytes) - length rest) })
              header
      ]
      else fault

  -- `next`: `none` at the end of the bytes.
  unfoldable pub next : Parser → Outcome ParseError (Option (ServerMessage × Parser))
  next p =
      if p.is_empty
      then ok none
      else if leb (length p.bytes) p.pointer
      then ok none
      else (next_inner p >>= λ r. ok (some r))

  -- The messages that `read` returns until it asks for the next websocket message.
  unfoldable pub read_rest : ℕ → Parser → Outcome ParseError (List ServerMessage)
  read_rest zero p = fault
  read_rest (suc fuel) p = elim (next p) [
    | ok none ↦ ok []
    | ok (some (m, p')) ↦ (read_rest fuel p' >>= λ ms. ok (m ∷ ms))
    | err e ↦ err e
    | fault ↦ fault
  ]

  -- `from_bytes`, and the rest.
  unfoldable pub read_all : Bytes → Outcome ParseError (List ServerMessage)
  read_all bytes = do
    (m, p) ← next_inner (record { bytes = bytes; pointer = 0; is_empty = false })
    ms ← read_rest (suc (length bytes)) p
    ok (m ∷ ms)
