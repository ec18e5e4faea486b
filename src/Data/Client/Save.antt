-- ===== src/Data/Client/Save.antt =====
-- `Data::save_data` of client/data.rs, in terms of the bytes of the array.
use native.Mathlib.Nat.{mod-eq_of_lt}
use egui_states.Prelude.{
  ℕ, ◌+◌, ◌*◌, ◌/◌, ◌%◌, ◌^◌, ◌<◌, ◌≤◌, ◌≡◌, refl, ◌∙◌, ◌++◌, Bytes, length, take, drop, arith,
  le→leb, ==_iff,
}
use egui_states.Outcome.{ok}
use egui_states.Protocol.DataType.{item_size_bounds}
use egui_states.Protocol.Headers.{TransportType, set, add, replace}
use egui_states.Data.Client.{Client, save_data, element_size, len}

pub mul-div_self : (n es : ℕ) → 0 < es → n * es / es ≡ n
mul-div_self n es h = grind arith

pub mul-mod_self : (n es : ℕ) → 0 < es → n * es % es ≡ 0
mul-mod_self n es h = grind arith

le-div : (n m es : ℕ) → 0 < es → n * es ≤ m → n ≤ m / es
le-div n m es h k = grind arith

-- The array after data have arrived: replaced, extended, or overwritten from an element on.
abbrev pub stored : ℕ → TransportType → Bytes → Bytes → Bytes
stored es (set n) xs inner = xs
stored es (add n) xs inner = inner ++ xs
stored es (replace start n) xs inner =
    take (start * es) inner ++ (xs ++ drop ((start + n) * es) inner)

-- The bytes are as many elements as announced, and what they overwrite is there.
abbrev pub Fits : ℕ → TransportType → Bytes → Bytes → Type 0
Fits es (set n) xs inner = length xs ≡ n * es
Fits es (add n) xs inner = length xs ≡ n * es
Fits es (replace start n) xs inner =
    (length xs ≡ n * es) × ((start + n) * es ≤ length inner) × (start + n < 2 ^ 64)

pub element_size_pos : (c : Client) → 0 < element_size c
element_size_pos c = (item_size_bounds c.data_type).0

pub len_lem : (c : Client) (xs : Bytes) (n : ℕ) → length xs ≡ n * element_size c → len c xs ≡ n
len_lem c xs n h =
    let e : len c xs ≡ n * element_size c / element_size c = rw h in
    e ∙ mul-div_self n (element_size c) (element_size_pos c)

pub save_data-stored :
    (c : Client) (xs : Bytes) (transport : TransportType)
    → Fits (element_size c) transport xs c.inner
    → save_data c xs transport
      ≡ (record c { inner = stored (element_size c) transport xs c.inner }, ok tt)
unfolding save_data
save_data-stored c xs (set n) h = rw ((==_iff _ _).1 (len_lem c xs n h))
save_data-stored c xs (add n) h = rw ((==_iff _ _).1 (len_lem c xs n h))
save_data-stored c xs (replace start n) (h, inside, small) =
    let e = len_lem c xs n h in
    let there = le-div (start + n) (length c.inner) (element_size c) (element_size_pos c) inside in
    let whole = mod-eq_of_lt {n = start + n} {m = 2 ^ 64} small in
    rw ((==_iff _ _).1 e)
      (rw (e, whole) (rw (le→leb _ _ there) (rw (le→leb start (start + n) (omega arith)) refl)))
