-- ===== src/Data/Invariant.antt =====
-- The invariant of `Data` (server/data_server.rs) and its operations.
use native.Mathlib.Nat.{mod-eq_of_lt, add-mul}
use egui_states.Prelude.{
  ℕ, ◌+◌, ◌-◌, ◌*◌, ◌^◌, ◌%◌, ◌≤◌, ◌≡◌, ap, sym, ◌∙◌, subst, inl, inr, Bytes, Bool, ◌++◌, length,
  take, drop, arith, add_usize, length-append, length-take, length-drop,
}
use egui_states.Protocol.DataType.{item_size, item_size_bounds}
use egui_states.Protocol.Headers.{ServerHeader}
use egui_states.Protocol.Codec.{Codec}
use egui_states.Data.Client.{isize_max}
use egui_states.Data.Server.{Server, DataHolder}
use egui_states.Data.Inversion.{
  first_byte, end_byte, drain_end, set_data_state, add_data_state, replace_data_state,
  remove_data_state,
}
use egui_states.Data.Operations.{
  Op, sets, adds, replaces, removes, run_op, IsSized, IsConsistent, end_byte_lem, drain_end_lem,
}

IsConsistent-by :
    {s t : Server}
    → s ≡ t
    → length s.bytes ≤ isize_max
    → length t.bytes ≡ t.count * item_size t.data_type
    → IsConsistent s
IsConsistent-by e small counted = record {
  counted =
      subst (λ (r : Server). length r.bytes ≡ r.count * item_size r.data_type) (sym e) counted;
  small = small;
}

le-mul : (n es : ℕ) → 1 ≤ es → n ≤ n * es
le-mul n es h = grind arith

module _ (s : Server) (v : IsConsistent s) where
  abbrev es : ℕ
  es = item_size s.data_type

  counted_add :
      (h : DataHolder)
      → length h.bytes ≡ h.count * es
      → length (s.bytes ++ h.bytes) ≤ isize_max
      → length (s.bytes ++ h.bytes) ≡ add_usize s.count h.count * es
  counted_add h sized small =
      let total : length (s.bytes ++ h.bytes) ≡ (s.count + h.count) * es =
        omega (arith, v.counted, add-mul s.count h.count es, length-append s.bytes h.bytes) in
      let below = le-mul (s.count + h.count) es (item_size_bounds s.data_type).0 in
      let whole = mod-eq_of_lt {n = s.count + h.count} {m = 2 ^ 64} (omega arith) in
      total ∙ ap (λ n. n * es) (sym whole)

  counted_replace :
      (xs : Bytes) (i j : ℕ)
      → j ≡ i + length xs
      → j ≤ length s.bytes
      → length (take i s.bytes ++ (xs ++ drop j s.bytes)) ≡ s.count * es
  counted_replace xs i j e inside = omega (
    arith,
    v.counted,
    length-append (take i s.bytes) (xs ++ drop j s.bytes),
    length-append xs (drop j s.bytes),
    length-take i s.bytes,
    length-drop j s.bytes,
  )

  counted_remove :
      (index size i j : ℕ)
      → i ≡ index * es
      → j ≡ i + size * es
      → j ≤ length s.bytes
      → index + size ≤ s.count
      → length (take i s.bytes ++ drop j s.bytes) ≡ (s.count + 2 ^ 64 - size) % 2 ^ 64 * es
  counted_remove index size i j ei ej room inside =
      let below = le-mul s.count es (item_size_bounds s.data_type).0 in
      let less : (s.count + 2 ^ 64 - size) % 2 ^ 64 ≡ s.count - size =
        omega (arith, v.counted, v.small) in
      let split = add-mul (s.count - size) size es in
      let back : s.count - size + size ≡ s.count = omega arith in
      let left : length (take i s.bytes ++ drop j s.bytes) ≡ (s.count - size) * es = omega (
        arith,
        v.counted,
        ap (λ n. n * es) back,
        length-append (take i s.bytes) (drop j s.bytes),
        length-take i s.bytes,
        length-drop j s.bytes,
      ) in
      left ∙ ap (λ n. n * es) (sym less)

module _ (threshold : ℕ) (codec : Codec ServerHeader) (s : Server) (update connected : Bool) where
  -- Whatever the operation, connected or not, and on every branch of it, errors included: an array
  -- whose bytes are its count times the element size stays so, if the operation's data have the count
  -- that comes with them, its range does not wrap around and the new bytes fit into memory.
  pub run_op-IsConsistent :
      (op : Op)
      → IsConsistent s
      → IsSized s op
      → length (run_op threshold codec s op update connected).0.bytes ≤ isize_max
      → IsConsistent (run_op threshold codec s op update connected).0
  unfolding run_op
  run_op-IsConsistent (sets h) v sized small =
      elim (set_data_state threshold codec s update connected h) [
        | inl e ↦ IsConsistent-by e small v.counted
        | inr e ↦ IsConsistent-by e small sized
      ]
  run_op-IsConsistent (adds h) v sized small =
      elim (add_data_state threshold codec s update connected h) [
        | inl e ↦ IsConsistent-by e small v.counted
        | inr e ↦
            IsConsistent-by e small
              (counted_add s v h sized (subst (λ (r : Server). length r.bytes ≤ isize_max) e small))
      ]
  run_op-IsConsistent (replaces h index) v (sized, whole) small =
      elim (replace_data_state threshold codec s update connected h index) [
        | inl e ↦ IsConsistent-by e small v.counted
        | inr (_, inside, fits, e) ↦
            let sum = mod-eq_of_lt {n = index + h.count} {m = 2 ^ 64} whole in
            let (i, j, room, split) = end_byte_lem s h index v sized (omega arith) in
            IsConsistent-by e small (
              counted_replace s v h.bytes (first_byte s index) (end_byte s h index) (omega arith)
                inside)
      ]
  run_op-IsConsistent (removes index size) v whole small =
      elim (remove_data_state threshold codec s update connected index size) [
        | inl e ↦ IsConsistent-by e small v.counted
        | inr (_, inside, fits, e) ↦
            let sum = mod-eq_of_lt {n = index + size} {m = 2 ^ 64} whole in
            let fit : index + size ≤ s.count = omega arith in
            let (i, j, room, split) = drain_end_lem s index size v fit in
            IsConsistent-by e small (
              counted_remove s v index size (first_byte s index) (drain_end s index size) i
                (omega arith) inside fit)
      ]
