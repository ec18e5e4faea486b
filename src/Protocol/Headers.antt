-- ===== src/Protocol/Headers.antt =====
-- The headers of crates/egui-states/src: serialization.rs (`ServerHeader`, `ClientHeader`),
-- data_transport.rs, image_transport.rs and collections.rs, constructor by constructor.
-- Words are plain numbers; an `f32` is its bit pattern; `[u32; 2]` is a pair.
use Prim.Native.String.{String}
use egui_states.Prelude.{ℕ, Bool, Option}
use egui_states.Protocol.DataType.{DataType}

-- `TransportType`: the element count, after the start index in `replace`.
pub data TransportType : Type 0 where
  set add : ℕ → TransportType
  replace : ℕ → ℕ → TransportType

pub data DataHeader : Type 0 where
  -- data type, transport type, update flag, size of the data
  all : DataType → TransportType → Bool → ℕ → DataHeader
  -- total element count, size of the first batch
  start_batch : ℕ → ℕ → DataHeader
  batch : ℕ → DataHeader
  end_batch : DataType → TransportType → Bool → ℕ → DataHeader
  -- start, element count, update flag
  drain : ℕ → ℕ → Bool → DataHeader
  clear : Bool → DataHeader

pub data DataTakeHeader : Type 0 where
  all : DataType → ℕ → Bool → ℕ → DataTakeHeader
  start_batch : ℕ → ℕ → DataTakeHeader
  batch : ℕ → DataTakeHeader
  end_batch : DataType → ℕ → Bool → ℕ → DataTakeHeader

pub data MultiDataHeader : Type 0 where
  remove : ℕ → Bool → MultiDataHeader
  modify : ℕ → DataHeader → MultiDataHeader
  reset : Bool → MultiDataHeader

pub data DataMultiTakeHeader : Type 0 where
  remove : ℕ → Bool → DataMultiTakeHeader
  modify : ℕ → DataTakeHeader → Bool → DataMultiTakeHeader
  reset : Bool → DataMultiTakeHeader

pub data ImageType : Type 0 where
  color color_alpha gray gray_alpha : ImageType

pub data ImageSetHeader : Type 0 where
  all : ℕ × ℕ → Bool → ImageSetHeader
  start : ℕ × ℕ → ℕ → ImageSetHeader
  batch : ℕ → ImageSetHeader
  end_set : ℕ → Bool → ImageSetHeader

pub data ImageHeader : Type 0 where
  set : ImageSetHeader → ImageType → ImageHeader
  update : ℕ × ℕ × ℕ × ℕ → ImageType → Bool → ImageHeader

pub data MapHeader : Type 0 where
  all : ℕ → MapHeader
  set remove : MapHeader

pub data VecHeader : Type 0 where
  all set : ℕ → VecHeader
  add : VecHeader
  remove : ℕ → VecHeader

pub data ServerHeader : Type 0 where
  -- id, type id, update flag, size
  value : ℕ → ℕ → Bool → ℕ → ServerHeader
  -- id, type id, blocking flag, update flag, size
  value_take : ℕ → ℕ → Bool → Bool → ℕ → ServerHeader
  static_value : ℕ → ℕ → Bool → ℕ → ServerHeader
  image : ℕ → ImageHeader → ℕ → ServerHeader
  data_array : ℕ → DataHeader → ServerHeader
  data_take : ℕ → DataTakeHeader → Bool → ServerHeader
  multi_data : ℕ → MultiDataHeader → ServerHeader
  data_multi_take : ℕ → DataMultiTakeHeader → ServerHeader
  value_vec : ℕ → ℕ → Bool → VecHeader → ℕ → ServerHeader
  value_map : ℕ → ℕ → Bool → MapHeader → ℕ → ServerHeader
  update : ℕ → ServerHeader

pub data ClientHeader : Type 0 where
  value : ℕ → ℕ → Bool → ℕ → ClientHeader
  signal : ℕ → ℕ → ℕ → ClientHeader
  ack : ℕ → ClientHeader
  message : ℕ → ClientHeader
  handshake : ℕ → Option ℕ → Option String → ClientHeader
