-- ===== src/Messages/Spec.antt =====
-- What a server header means: the number of bytes that follow it, and the message that it stands for
-- with those bytes, written down apart from the parser.
use egui_states.Prelude.{ℕ, Bytes, Bool, false}
use egui_states.Protocol.Headers.{
  DataHeader, DataTakeHeader, MultiDataHeader, DataMultiTakeHeader, ServerHeader,
}
use egui_states.Data.Message.{DataMessage, DataMultiMessage, DataTakeMessage, DataMultiTakeMessage}
use egui_states.Messages.{ServerMessage, image_message}

-- The number of bytes that follow a header.
abbrev pub data_size : DataHeader → ℕ
data_size (DataHeader.all t k u n) = n
data_size (DataHeader.start_batch k n) = n
data_size (DataHeader.batch n) = n
data_size (DataHeader.end_batch t k u n) = n
data_size (DataHeader.drain i k u) = 0
data_size (DataHeader.clear u) = 0

abbrev pub take_size : DataTakeHeader → ℕ
take_size (DataTakeHeader.all t k u n) = n
take_size (DataTakeHeader.start_batch k n) = n
take_size (DataTakeHeader.batch n) = n
take_size (DataTakeHeader.end_batch t k u n) = n

abbrev pub body_size : ServerHeader → ℕ
body_size (ServerHeader.value id t u n) = n
body_size (ServerHeader.value_take id t b u n) = n
body_size (ServerHeader.static_value id t u n) = n
body_size (ServerHeader.image id h n) = n
body_size (ServerHeader.data_array id h) = data_size h
body_size (ServerHeader.data_take id h b) = take_size h
body_size (ServerHeader.multi_data id (MultiDataHeader.remove k u)) = 0
body_size (ServerHeader.multi_data id (MultiDataHeader.modify k h)) = data_size h
body_size (ServerHeader.multi_data id (MultiDataHeader.reset u)) = 0
body_size (ServerHeader.data_multi_take id (DataMultiTakeHeader.remove k u)) = 0
body_size (ServerHeader.data_multi_take id (DataMultiTakeHeader.modify k h b)) = take_size h
body_size (ServerHeader.data_multi_take id (DataMultiTakeHeader.reset u)) = 0
body_size (ServerHeader.value_vec id t u h n) = n
body_size (ServerHeader.value_map id t u h n) = n
body_size (ServerHeader.update dt) = 0

-- The message that a header stands for with its bytes, and the update flag of array headers.
abbrev pub data_message : DataHeader → Bytes → DataMessage × Bool
data_message (DataHeader.all t k u n) xs = (DataMessage.all t k xs, u)
data_message (DataHeader.start_batch k n) xs = (DataMessage.batch_start k xs, false)
data_message (DataHeader.batch n) xs = (DataMessage.batch xs, false)
data_message (DataHeader.end_batch t k u n) xs = (DataMessage.batch_end t k xs, u)
data_message (DataHeader.drain i k u) xs = (DataMessage.drain i k, u)
data_message (DataHeader.clear u) xs = (DataMessage.clear, u)

abbrev pub take_message : DataTakeHeader → Bytes → DataTakeMessage × Bool
take_message (DataTakeHeader.all t k u n) xs = (DataTakeMessage.all t k xs, u)
take_message (DataTakeHeader.start_batch k n) xs = (DataTakeMessage.batch_start k xs, false)
take_message (DataTakeHeader.batch n) xs = (DataTakeMessage.batch xs, false)
take_message (DataTakeHeader.end_batch t k u n) xs = (DataTakeMessage.batch_end t k xs, u)

abbrev pub message_of : ServerHeader → Bytes → ServerMessage
message_of (ServerHeader.value id t u n) xs = ServerMessage.value id t u xs
message_of (ServerHeader.value_take id t b u n) xs = ServerMessage.value_take id t b u xs
message_of (ServerHeader.static_value id t u n) xs = ServerMessage.static_value id t u xs
message_of (ServerHeader.image id h n) xs =
    ServerMessage.image id (image_message h).1 (image_message h).0 xs
message_of (ServerHeader.data_array id h) xs =
    ServerMessage.data_array id (data_message h xs).1 (data_message h xs).0
message_of (ServerHeader.data_take id h b) xs =
    ServerMessage.data_take id b (take_message h xs).1 (take_message h xs).0
message_of (ServerHeader.multi_data id (MultiDataHeader.remove k u)) xs =
    ServerMessage.data_multi id u (DataMultiMessage.remove k)
message_of (ServerHeader.multi_data id (MultiDataHeader.modify k h)) xs =
    ServerMessage.data_multi id (data_message h xs).1
      (DataMultiMessage.modify k (data_message h xs).0)
message_of (ServerHeader.multi_data id (MultiDataHeader.reset u)) xs =
    ServerMessage.data_multi id u DataMultiMessage.reset
message_of (ServerHeader.data_multi_take id (DataMultiTakeHeader.remove k u)) xs =
    ServerMessage.data_multi_take id u (DataMultiTakeMessage.remove k)
message_of (ServerHeader.data_multi_take id (DataMultiTakeHeader.modify k h b)) xs =
    ServerMessage.data_multi_take id (take_message h xs).1
      (DataMultiTakeMessage.modify k (take_message h xs).0 b)
message_of (ServerHeader.data_multi_take id (DataMultiTakeHeader.reset u)) xs =
    ServerMessage.data_multi_take id u DataMultiTakeMessage.reset
message_of (ServerHeader.value_vec id t u h n) xs = ServerMessage.value_vec id t u h xs
message_of (ServerHeader.value_map id t u h n) xs = ServerMessage.value_map id t u h xs
message_of (ServerHeader.update dt) xs = ServerMessage.update dt
