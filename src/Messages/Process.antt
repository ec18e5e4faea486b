-- ===== src/Messages/Process.antt =====
-- The match of `next_inner` (client/messages.rs) against the meaning of a header.
use native.Mathlib.Nat.{add-zero}
use egui_states.Prelude.{ℕ, ◌+◌, ◌≤◌, ◌≡◌, length, slice, le→ltb_false}
use egui_states.Outcome.{ok}
use egui_states.Protocol.Headers.{
  DataHeader, DataTakeHeader, MultiDataHeader, DataMultiTakeHeader, ServerHeader,
}
use egui_states.Messages.{Parser, take_body, process_data, process_data_take, process}
use egui_states.Messages.Spec.{
  data_size, take_size, body_size, data_message, take_message, message_of,
}

abbrev pub moved : Parser → ℕ → Parser
moved p size = record p { pointer = p.pointer + size }

take_body_lem :
    (p : Parser) (size : ℕ)
    → p.pointer + size ≤ length p.bytes
    → take_body p size ≡ ok (slice p.bytes p.pointer (p.pointer + size), moved p size)
unfolding take_body
take_body_lem p size h = rw (le→ltb_false _ _ h)

process_data_lem :
    (p : Parser) (h : DataHeader)
    → p.pointer + data_size h ≤ length p.bytes
    → process_data p h
      ≡ ok (
        data_message h (slice p.bytes p.pointer (p.pointer + data_size h)),
        moved p (data_size h),
      )
unfolding process_data
process_data_lem p (DataHeader.drain i k u) b = rw add-zero
process_data_lem p (DataHeader.clear u) b = rw add-zero
process_data_lem p (DataHeader.all t k u n) b = rw (le→ltb_false _ _ b)
process_data_lem p (DataHeader.start_batch k n) b = rw (le→ltb_false _ _ b)
process_data_lem p (DataHeader.batch n) b = rw (le→ltb_false _ _ b)
process_data_lem p (DataHeader.end_batch t k u n) b = rw (le→ltb_false _ _ b)

process_data_take_lem :
    (p : Parser) (h : DataTakeHeader)
    → p.pointer + take_size h ≤ length p.bytes
    → process_data_take p h
      ≡ ok (
        take_message h (slice p.bytes p.pointer (p.pointer + take_size h)),
        moved p (take_size h),
      )
unfolding process_data_take
process_data_take_lem p (DataTakeHeader.all t k u n) b = rw (le→ltb_false _ _ b)
process_data_take_lem p (DataTakeHeader.start_batch k n) b = rw (le→ltb_false _ _ b)
process_data_take_lem p (DataTakeHeader.batch n) b = rw (le→ltb_false _ _ b)
process_data_take_lem p (DataTakeHeader.end_batch t k u n) b = rw (le→ltb_false _ _ b)

pub process_lem :
    (p : Parser) (h : ServerHeader)
    → p.pointer + body_size h ≤ length p.bytes
    → process p h
      ≡ ok (message_of h (slice p.bytes p.pointer (p.pointer + body_size h)), moved p (body_size h))
unfolding process
process_lem p (ServerHeader.value id t u n) b = rw (le→ltb_false _ _ b)
process_lem p (ServerHeader.value_take id t k u n) b = rw (le→ltb_false _ _ b)
process_lem p (ServerHeader.static_value id t u n) b = rw (le→ltb_false _ _ b)
process_lem p (ServerHeader.image id h n) b = rw (le→ltb_false _ _ b)
process_lem p (ServerHeader.value_vec id t u h n) b = rw (le→ltb_false _ _ b)
process_lem p (ServerHeader.value_map id t u h n) b = rw (le→ltb_false _ _ b)
process_lem p (ServerHeader.update dt) b = rw add-zero
process_lem p (ServerHeader.data_array id h) b = rw (process_data_lem p h b)
process_lem p (ServerHeader.data_take id h k) b = rw (process_data_take_lem p h b)
process_lem p (ServerHeader.multi_data id (MultiDataHeader.remove k u)) b = rw add-zero
process_lem p (ServerHeader.multi_data id (MultiDataHeader.reset u)) b = rw add-zero
process_lem p (ServerHeader.multi_data id (MultiDataHeader.modify k h)) b =
    rw (process_data_lem p h b)
process_lem p (ServerHeader.data_multi_take id (DataMultiTakeHeader.remove k u)) b = rw add-zero
process_lem p (ServerHeader.data_multi_take id (DataMultiTakeHeader.reset u)) b = rw add-zero
process_lem p (ServerHeader.data_multi_take id (DataMultiTakeHeader.modify k h w)) b =
    rw (process_data_take_lem p h b)
