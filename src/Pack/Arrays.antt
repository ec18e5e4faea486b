-- ===== src/Pack/Arrays.antt =====
-- The three packers of the server: `pack_data` (server/data_server.rs), `pack_data_take` and
-- `pack_data_multi_take` (server/data_take_server.rs). `threshold` is `MSG_SIZE_THRESHOLD`.
use egui_states.Prelude.{ℕ, Bool, ◌++◌, Bytes, List, Option, none, some}
use egui_states.Outcome.{Outcome, ok, err}
use egui_states.Protocol.DataType.{DataType, item_size}
use egui_states.Protocol.Headers.{
  TransportType, DataHeader, DataTakeHeader, MultiDataHeader, DataMultiTakeHeader, ServerHeader,
}
use egui_states.Protocol.Codec.{Codec}
use egui_states.Pack.{Piece, whole, first, middle, last, pack}

-- The kinds of the error texts of the data servers.
pub data DataError : Type 0 where
  type_mismatch not_multiple out_of_bounds invalid_size no_index serialize_failed : DataError

-- `(FastVec<32>, bool)`: the bytes of a message, and whether it is sent on its own.
abbrev pub Packed : Type 0
Packed = Bytes × Bool

-- `DataHeader::serialize`, `MultiDataHeader::serialize_modify`: the header for one array, or for
-- the array at an index of a collection.
unfoldable pub data_header : ℕ → Option ℕ → DataHeader → ServerHeader
data_header id none header = ServerHeader.data_array id header
data_header id (some index) header =
    ServerHeader.multi_data id (MultiDataHeader.modify index header)

-- The headers that `pack_data` makes, by the place of the message.
unfoldable pub piece_header : DataType → TransportType → ℕ → Bool → Piece → ℕ → DataHeader
piece_header data_type transport count update whole size =
    DataHeader.all data_type transport update size
piece_header data_type transport count update first size = DataHeader.start_batch count size
piece_header data_type transport count update middle size = DataHeader.batch size
piece_header data_type transport count update last size =
    DataHeader.end_batch data_type transport update size

unfoldable pub take_header : DataType → ℕ → Bool → Piece → ℕ → DataTakeHeader
take_header data_type count update whole size = DataTakeHeader.all data_type count update size
take_header data_type count update first size = DataTakeHeader.start_batch count size
take_header data_type count update middle size = DataTakeHeader.batch size
take_header data_type count update last size = DataTakeHeader.end_batch data_type count update size

module _ (codec : Codec ServerHeader) where
  -- A header, serialized, and the bytes after it.
  unfoldable pub frame : ServerHeader → Bytes → Bool → Outcome DataError Packed
  frame header body single = elim (codec.encode header) [
    | none ↦ err serialize_failed
    | some b ↦ ok (b ++ body, single)
  ]

  unfoldable pub pack_data :
      ℕ
      → ℕ
      → Bytes
      → TransportType
      → ℕ
      → DataType
      → Option ℕ
      → Bool
      → Outcome DataError (List Packed)
  pack_data threshold id bytes transport count data_type multi update =
      pack threshold (item_size data_type)
        (λ piece size.
          frame (data_header id multi (piece_header data_type transport count update piece size)))
        bytes

  unfoldable pub pack_data_take :
      ℕ → ℕ → Bytes → ℕ → DataType → Bool → Bool → Outcome DataError (List Packed)
  pack_data_take threshold id bytes count data_type blocking update =
      pack threshold (item_size data_type)
        (λ piece size.
          frame
            (ServerHeader.data_take id (take_header data_type count update piece size) blocking))
        bytes

  unfoldable pub pack_data_multi_take :
      ℕ → ℕ → ℕ → Bytes → ℕ → DataType → Bool → Bool → Outcome DataError (List Packed)
  pack_data_multi_take threshold id index bytes count data_type blocking update =
      pack threshold (item_size data_type)
        (λ piece size. frame (
          ServerHeader.data_multi_take id (
            DataMultiTakeHeader.modify index (take_header data_type count update piece size)
              blocking)))
        bytes
