-- ===== src/Data/Multi/Inversion.antt =====
-- Inversion of the operations of `DataMulti` (server/data_server.rs) that wait with messages to
-- send, on an entry that the map has.
use egui_states.Prelude.{
  ℕ, ◌+◌, ◌-◌, ◌^◌, ◌%◌, ◌≤◌, ◌≡◌, ◌≢◌, Bytes, Bool, true, false, List, some, [], ◌∷◌, ◌++◌, length,
  take, drop, slice, arith, add_usize, find,
}
use egui_states.Outcome.{ok}
use egui_states.Protocol.Headers.{DataHeader, MultiDataHeader, ServerHeader, set, add, replace}
use egui_states.Protocol.Codec.{Codec}
use egui_states.Pack.Arrays.{Packed, pack_data, frame}
use egui_states.Data.Server.{Server, DataHolder}
use egui_states.Data.Inversion.{first_byte, end_byte, drain_end}
use egui_states.Data.Multi.Server.{
  MultiServer, stored_at, set_multi, add_multi, replace_multi, remove_multi,
}

-- An entry as a single array.
abbrev pub entry : MultiServer → Bytes × ℕ → Server
entry s p = record { id = s.id; data_type = s.data_type; bytes = p.0; count = p.1; event = s.event }

module _ (threshold : ℕ) (codec : Codec ServerHeader) (s : MultiServer) (index : ℕ) (update : Bool)
    (ms : List Packed) where
  pub set_multi_inv :
      (h : DataHolder)
      → (set_multi threshold codec s index update true h).1 ≡ ok (some ms)
      → ((set_multi threshold codec s index update true h).0 ≡ stored_at s index h.bytes h.count)
        × (pack_data codec threshold s.id h.bytes
              (set h.count)
              h.count
              s.data_type
              (some index)
              update
            ≡ ok ms)
  unfolding set_multi
  set_multi_inv h e = ground arith

  module _ (p : Bytes × ℕ) (there : find index s.values ≡ some p) where
    pub add_multi_inv :
        (h : DataHolder)
        → (add_multi threshold codec s index update true h).1 ≡ ok (some ms)
        → ((add_multi threshold codec s index update true h).0
            ≡ stored_at s index (p.0 ++ h.bytes) (add_usize p.1 h.count))
          × (pack_data codec threshold s.id
                (drop (length p.0) (p.0 ++ h.bytes))
                (add h.count)
                h.count
                s.data_type
                (some index)
                update
              ≡ ok ms)
    unfolding add_multi
    add_multi_inv h e = ground arith

    pub replace_multi_inv :
        (h : DataHolder) (i : ℕ)
        → (replace_multi threshold codec s index update true h i).1 ≡ ok (some ms)
        → (add_usize i h.count ≤ p.1)
          × (first_byte (entry s p) i ≤ end_byte (entry s p) h i)
          × (end_byte (entry s p) h i ≤ length p.0)
          × ((replace_multi threshold codec s index update true h i).0
              ≡ stored_at s index
                  (take (first_byte (entry s p) i) p.0
                    ++ (h.bytes ++ drop (end_byte (entry s p) h i) p.0))
                  p.1)
          × (pack_data codec threshold s.id
                (slice
                  (take (first_byte (entry s p) i) p.0
                    ++ (h.bytes ++ drop (end_byte (entry s p) h i) p.0))
                  (first_byte (entry s p) i)
                  (end_byte (entry s p) h i))
                (replace i h.count)
                h.count
                s.data_type
                (some index)
                update
              ≡ ok ms)
    unfolding replace_multi
    replace_multi_inv h i e = ground arith

    pub remove_multi_inv :
        (i size : ℕ)
        → (remove_multi threshold codec s index update true i size).1 ≡ ok (some ms)
        → (size ≢ 0)
          × (add_usize i size ≤ p.1)
          × (first_byte (entry s p) i ≤ drain_end (entry s p) i size)
          × (drain_end (entry s p) i size ≤ length p.0)
          × ((remove_multi threshold codec s index update true i size).0
              ≡ stored_at s index
                  (take (first_byte (entry s p) i) p.0 ++ drop (drain_end (entry s p) i size) p.0)
                  ((p.1 + 2 ^ 64 - size) % 2 ^ 64))
          × ((m : Packed) × (frame codec
                  (ServerHeader.multi_data s.id
                    (MultiDataHeader.modify index (DataHeader.drain i size update)))
                  []
                  false
                ≡ ok m)
              × (ms ≡ m ∷ []))
    unfolding remove_multi
    remove_multi_inv i size e = ground arith
