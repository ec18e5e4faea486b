-- ===== src/Data/Operations.antt =====
-- The operations that wait, as one type, and the invariant of the server's array: its count is the
-- number of its elements.
use native.Mathlib.Nat.{mod-eq_of_lt, mul-le-mul_right, add-mul}
use egui_states.Prelude.{
  Bytes, slice, take, drop, ◌++◌, length-take, subst, drop-append, slice_at, refl,
}
use egui_states.Prelude.{
  ℕ, ◌+◌, ◌*◌, ◌^◌, ◌<◌, ◌≤◌, ◌≡◌, ap, ◌∙◌, Bool, length, arith, add_usize, mul_usize,
}
use egui_states.Protocol.DataType.{item_size}
use egui_states.Protocol.Headers.{ServerHeader}
use egui_states.Protocol.Codec.{Codec}
use egui_states.Data.Client.{isize_max}
use egui_states.Data.Server.{
  Server, DataHolder, Step, set_data, add_data, replace_data, remove_data,
}
use egui_states.Data.Inversion.{first_byte, end_byte, drain_end}

pub data Op : Type 0 where
  sets adds : DataHolder → Op
  replaces : DataHolder → ℕ → Op
  removes : ℕ → ℕ → Op

unfoldable pub run_op : ℕ → Codec ServerHeader → Server → Op → Bool → Bool → Step
run_op threshold codec s (sets h) update connected = set_data threshold codec s h update connected
run_op threshold codec s (adds h) update connected = add_data threshold codec s h update connected
run_op threshold codec s (replaces h index) update connected =
    replace_data threshold codec s h index update connected
run_op threshold codec s (removes index size) update connected =
    remove_data threshold codec s index size update connected

-- What the callers pass: a count that is the number of elements, and ranges that do not wrap.
abbrev pub IsSized : Server → Op → Type 0
IsSized s (sets h) = length h.bytes ≡ h.count * item_size s.data_type
IsSized s (adds h) = length h.bytes ≡ h.count * item_size s.data_type
IsSized s (replaces h index) =
    (length h.bytes ≡ h.count * item_size s.data_type) × (index + h.count < 2 ^ 64)
IsSized s (removes index size) = index + size < 2 ^ 64

pub record IsConsistent (s : Server) : Type 0 where
  pub counted : length s.bytes ≡ s.count * item_size s.data_type
  pub small : length s.bytes ≤ isize_max

-- A range of elements inside the array, in bytes.
pub range_lem :
    (i n count es : ℕ)
    → i + n ≤ count
    → count * es ≤ isize_max
    → (mul_usize i es ≡ i * es)
      × (mul_usize n es ≡ n * es)
      × (add_usize (i * es) (n * es) ≡ (i + n) * es)
      × ((i + n) * es ≡ i * es + n * es)
      × ((i + n) * es ≤ count * es)
range_lem i n count es h small =
    let le = mul-le-mul_right es h in
    let sum = add-mul i n es in
    (
      mod-eq_of_lt {n = i * es} {m = 2 ^ 64} (omega arith),
      mod-eq_of_lt {n = n * es} {m = 2 ^ 64} (omega arith),
      mod-eq_of_lt {n = i * es + n * es} {m = 2 ^ 64} (omega arith) ∙ omega arith,
      sum,
      le,
    )

-- What the operations make of a consistent array, byte for byte.
pub end_byte_lem :
    (s : Server) (h : DataHolder) (index : ℕ)
    → IsConsistent s
    → length h.bytes ≡ h.count * item_size s.data_type
    → index + h.count ≤ s.count
    → (first_byte s index ≡ index * item_size s.data_type)
      × (end_byte s h index ≡ (index + h.count) * item_size s.data_type)
      × ((index + h.count) * item_size s.data_type ≤ length s.bytes)
      × ((index + h.count) * item_size s.data_type
          ≡ index * item_size s.data_type + h.count * item_size s.data_type)
end_byte_lem s h index v sized inside =
    let (i, n, j, split, room) =
      range_lem index h.count s.count (item_size s.data_type) inside
        (omega (arith, v.counted, v.small)) in
    (
      i,
      ap (λ k. add_usize k (length h.bytes)) i
          ∙ ap (add_usize (index * item_size s.data_type)) sized
          ∙ j,
      omega (arith, v.counted),
      split,
    )

pub drain_end_lem :
    (s : Server) (index size : ℕ)
    → IsConsistent s
    → index + size ≤ s.count
    → (first_byte s index ≡ index * item_size s.data_type)
      × (drain_end s index size ≡ (index + size) * item_size s.data_type)
      × ((index + size) * item_size s.data_type ≤ length s.bytes)
      × ((index + size) * item_size s.data_type
          ≡ index * item_size s.data_type + size * item_size s.data_type)
drain_end_lem s index size v inside =
    let (i, n, j, split, room) =
      range_lem index size s.count (item_size s.data_type) inside
        (omega (arith, v.counted, v.small)) in
    (
      i,
      ap (λ k. add_usize k (mul_usize size (item_size s.data_type))) i
          ∙ ap (add_usize (index * item_size s.data_type)) n
          ∙ j,
      omega (arith, v.counted),
      split,
    )

-- The bytes that `replace` sends are those that it was given.
pub sent_bytes :
    (old xs : Bytes) (i j : ℕ)
    → i ≤ length old
    → j ≡ i + length xs
    → slice (take i old ++ (xs ++ drop j old)) i j ≡ xs
sent_bytes old xs i j inside e =
    let front : length (take i old) ≡ i = omega (arith, length-take i old) in
    let behind =
      subst (λ k. drop k (take i old ++ (xs ++ drop j old)) ≡ xs ++ drop j old) front
        (drop-append (take i old) (xs ++ drop j old)) in
    rw e (
      slice_at (take i old ++ (xs ++ drop (i + length xs) old)) xs (drop (i + length xs) old) i
        (length xs) (rw e at behind) refl)
