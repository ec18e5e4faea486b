-- ===== src/Prelude.antt =====
-- The names that the other modules share: the libraries', passed on, and those of three children.
mod Tests
mod Lists
mod Maps
pub use Tests.*
pub use Lists.*
pub use Maps.*
pub use Prim.Native.Nat.{ℕ, zero, suc, ◌+◌, ◌-◌, ◌*◌, ◌/◌, ◌%◌, ◌^◌, ◌≤◌, ◌<◌, min, max}
pub use mathlib.Core.Path.{◌≡◌, refl, sym, ap, ap₂, subst, ◌∙◌, ◌≡⟨◌⟩◌, ◌∎, fun_ext}
pub use mathlib.Core.Logic.{◌≢◌, ◌↔◌, ◌⊎◌, inl, inr}
pub use mathlib.Core.Bool.{Bool, true, false, not, ◌&&◌, ◌||◌}
pub use mathlib.Core.Option.{Option, none, some}
pub use mathlib.Core.List.{List, [], ◌∷◌, ◌++◌, map, append-nil, append_assoc}
pub use native.Mathlib.Omega.{arith}

-- A `u8` is any number: bytes are moved, never computed with. `&[u8]`, `Vec<u8>`, `bytes::Bytes`.
abbrev pub Bytes : Type 0
Bytes = List ℕ

-- Moduli of the machine words, and a cast `x as u32`.
abbrev pub u32_mod : ℕ
u32_mod = 2 ^ 32

abbrev pub u64_mod : ℕ
u64_mod = 2 ^ 64

abbrev pub as_u32 : ℕ → ℕ
as_u32 n = n % 2 ^ 32

-- `usize` is a 64-bit word; a sum or a product that does not fit wraps.
abbrev pub add_usize : ℕ → ℕ → ℕ
add_usize a b = (a + b) % 2 ^ 64

abbrev pub mul_usize : ℕ → ℕ → ℕ
mul_usize a b = a * b % 2 ^ 64

-- The slice `data[i..j]`.
abbrev pub slice : Bytes → ℕ → ℕ → Bytes
slice xs i j = take (j - i) (drop i xs)

-- What stands at an index.
pub slice_at :
    (xs ys zs : Bytes) (i n : ℕ) → drop i xs ≡ ys ++ zs → length ys ≡ n → slice xs i (i + n) ≡ ys
slice_at xs ys zs i n here sized =
    let e : i + n - i ≡ length ys = omega arith in rw (e, here) (take-append ys zs)
