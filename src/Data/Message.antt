-- ===== src/Data/Message.antt =====
-- `DataMessage`, `DataMultiMessage` of client/data.rs, `DataTakeMessage`, `DataMultiTakeMessage`
-- of client/data_take.rs: what the client's parser hands to the arrays.
use egui_states.Prelude.{ℕ, Bool, Bytes}
use egui_states.Protocol.DataType.{DataType}
use egui_states.Protocol.Headers.{TransportType}

pub data DataMessage : Type 0 where
  all : DataType → TransportType → Bytes → DataMessage
  batch_start : ℕ → Bytes → DataMessage
  batch : Bytes → DataMessage
  batch_end : DataType → TransportType → Bytes → DataMessage
  drain : ℕ → ℕ → DataMessage
  clear : DataMessage

pub data DataMultiMessage : Type 0 where
  remove : ℕ → DataMultiMessage
  modify : ℕ → DataMessage → DataMultiMessage
  reset : DataMultiMessage

pub data DataTakeMessage : Type 0 where
  all : DataType → ℕ → Bytes → DataTakeMessage
  batch_start : ℕ → Bytes → DataTakeMessage
  batch : Bytes → DataTakeMessage
  batch_end : DataType → ℕ → Bytes → DataTakeMessage

pub data DataMultiTakeMessage : Type 0 where
  remove : ℕ → DataMultiTakeMessage
  modify : ℕ → DataTakeMessage → Bool → DataMultiTakeMessage
  reset : DataMultiTakeMessage
