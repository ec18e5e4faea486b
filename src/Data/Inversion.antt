-- ===== src/Data/Inversion.antt =====
-- Inversion of the operations of `Data` (server/data_server.rs): what a step has done when it waits
-- with messages to send, and the state on every branch.
use egui_states.Prelude.{
  ℕ, ◌+◌, ◌-◌, ◌^◌, ◌%◌, ◌≤◌, ◌≡◌, ◌≢◌, ◌⊎◌, Bool, true, false, List, none, some, [], ◌∷◌, ◌++◌,
  length, take, drop, slice, arith, add_usize, mul_usize,
}
use egui_states.Outcome.{ok}
use egui_states.Protocol.DataType.{item_size}
use egui_states.Protocol.Headers.{DataHeader, ServerHeader, set, add, replace}
use egui_states.Protocol.Codec.{Codec}
use egui_states.Pack.Arrays.{Packed, pack_data, frame, data_header}
use egui_states.Data.Server.{Server, DataHolder, set_data, add_data, replace_data, remove_data}

-- The byte ranges that `replace` writes and that `remove` drains.
abbrev pub first_byte : Server → ℕ → ℕ
first_byte s index = mul_usize index (item_size s.data_type)

abbrev pub end_byte : Server → DataHolder → ℕ → ℕ
end_byte s h index = add_usize (first_byte s index) (length h.bytes)

abbrev pub drain_end : Server → ℕ → ℕ → ℕ
drain_end s index size = add_usize (first_byte s index) (mul_usize size (item_size s.data_type))

module _ (threshold : ℕ) (codec : Codec ServerHeader) (s : Server) (h : DataHolder) (update : Bool)
    (ms : List Packed) where
  pub set_data_inv :
      (set_data threshold codec s h update true).1 ≡ ok (some ms)
      → ((set_data threshold codec s h update true).0
          ≡ record s { bytes = h.bytes; count = h.count })
        × (pack_data codec threshold s.id h.bytes (set h.count) h.count s.data_type none update
            ≡ ok ms)
  unfolding set_data
  set_data_inv e = ground arith

  pub add_data_inv :
      (add_data threshold codec s h update true).1 ≡ ok (some ms)
      → ((add_data threshold codec s h update true).0
          ≡ record s { bytes = s.bytes ++ h.bytes; count = add_usize s.count h.count })
        × (pack_data codec threshold s.id
              (drop (length s.bytes) (s.bytes ++ h.bytes))
              (add h.count)
              h.count
              s.data_type
              none
              update
            ≡ ok ms)
  unfolding add_data
  add_data_inv e = ground arith

  pub replace_data_inv :
      (index : ℕ)
      → (replace_data threshold codec s h index update true).1 ≡ ok (some ms)
      → (add_usize index h.count ≤ s.count)
        × (first_byte s index ≤ end_byte s h index)
        × (end_byte s h index ≤ length s.bytes)
        × ((replace_data threshold codec s h index update true).0 ≡ record s {
          bytes =
              take (first_byte s index) s.bytes ++ (h.bytes ++ drop (end_byte s h index) s.bytes);
        })
        × (pack_data codec threshold s.id
              (slice
                (take (first_byte s index) s.bytes
                  ++ (h.bytes ++ drop (end_byte s h index) s.bytes))
                (first_byte s index)
                (end_byte s h index))
              (replace index h.count)
              h.count
              s.data_type
              none
              update
            ≡ ok ms)
  unfolding replace_data
  replace_data_inv index e = ground arith

module _ (threshold : ℕ) (codec : Codec ServerHeader) (s : Server) (index size : ℕ) (update : Bool)
    (ms : List Packed) where
  pub remove_data_inv :
      (remove_data threshold codec s index size update true).1 ≡ ok (some ms)
      → (size ≢ 0)
        × (add_usize index size ≤ s.count)
        × (first_byte s index ≤ drain_end s index size)
        × (drain_end s index size ≤ length s.bytes)
        × ((remove_data threshold codec s index size update true).0 ≡ record s {
          bytes = take (first_byte s index) s.bytes ++ drop (drain_end s index size) s.bytes;
          count = (s.count + 2 ^ 64 - size) % 2 ^ 64;
        })
        × ((m : Packed) × (frame codec
                (data_header s.id none (DataHeader.drain index size update))
                []
                false
              ≡ ok m)
            × (ms ≡ m ∷ []))
  unfolding remove_data
  remove_data_inv e = ground arith

module _ (threshold : ℕ) (codec : Codec ServerHeader) (s : Server) (update connected : Bool) where
  -- On every branch the array is as it was, or as the operation makes it.
  pub set_data_state :
      (h : DataHolder)
      → ((set_data threshold codec s h update connected).0 ≡ s)
        ⊎ ((set_data threshold codec s h update connected).0
            ≡ record s { bytes = h.bytes; count = h.count })
  unfolding set_data
  set_data_state h = ground arith

  pub add_data_state :
      (h : DataHolder)
      → ((add_data threshold codec s h update connected).0 ≡ s)
        ⊎ ((add_data threshold codec s h update connected).0
            ≡ record s { bytes = s.bytes ++ h.bytes; count = add_usize s.count h.count })
  unfolding add_data
  add_data_state h = ground arith

  pub replace_data_state :
      (h : DataHolder) (index : ℕ)
      → ((replace_data threshold codec s h index update connected).0 ≡ s)
        ⊎ ((first_byte s index ≤ end_byte s h index)
            × (end_byte s h index ≤ length s.bytes)
            × (add_usize index h.count ≤ s.count)
            × ((replace_data threshold codec s h index update connected).0 ≡ record s {
              bytes =
                  take (first_byte s index) s.bytes
                  ++ (h.bytes ++ drop (end_byte s h index) s.bytes);
            }))
  unfolding replace_data
  replace_data_state h index = ground arith

  pub remove_data_state :
      (index size : ℕ)
      → ((remove_data threshold codec s index size update connected).0 ≡ s)
        ⊎ ((first_byte s index ≤ drain_end s index size)
            × (drain_end s index size ≤ length s.bytes)
            × (add_usize index size ≤ s.count)
            × ((remove_data threshold codec s index size update connected).0 ≡ record s {
              bytes = take (first_byte s index) s.bytes ++ drop (drain_end s index size) s.bytes;
              count = (s.count + 2 ^ 64 - size) % 2 ^ 64;
            }))
  unfolding remove_data
  remove_data_state index size = ground arith
