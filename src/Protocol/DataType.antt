-- ===== src/Protocol/DataType.antt =====
-- `DataType` of crates/egui-states/src/data_transport.rs: the number types of data arrays.
use egui_states.Prelude.{
  ℕ, zero, suc, ◌≤◌, ◌==◌, ==_iff, ◌≡◌, refl, ap, Bool, true, Option, none, some, arith,
}

pub data DataType : Type 0 where
  u8 u16 u32 u64 i8 i16 i32 i64 f32 f64 : DataType

-- `DataType::item_size`, in bytes.
unfoldable pub item_size : DataType → ℕ
item_size u8 = 1
item_size u16 = 2
item_size u32 = 4
item_size u64 = 8
item_size i8 = 1
item_size i16 = 2
item_size i32 = 4
item_size i64 = 8
item_size f32 = 4
item_size f64 = 8

-- `DataType::from_id`; `none` is `Err(())`.
unfoldable pub from_id : ℕ → Option DataType
from_id zero = some u8
from_id (suc zero) = some u16
from_id (suc (suc zero)) = some u32
from_id (suc (suc (suc zero))) = some u64
from_id (suc (suc (suc (suc zero)))) = some i8
from_id (suc (suc (suc (suc (suc zero))))) = some i16
from_id (suc (suc (suc (suc (suc (suc zero)))))) = some i32
from_id (suc (suc (suc (suc (suc (suc (suc zero))))))) = some i64
from_id (suc (suc (suc (suc (suc (suc (suc (suc zero)))))))) = some f32
from_id (suc (suc (suc (suc (suc (suc (suc (suc (suc zero))))))))) = some f64
from_id _ = none

-- `GetDataType::get_type_id` of the client: the number of a type in its `impl_get_data_type!`.
unfoldable pub get_type_id : DataType → ℕ
get_type_id u8 = 0
get_type_id u16 = 1
get_type_id u32 = 2
get_type_id u64 = 3
get_type_id i8 = 4
get_type_id i16 = 5
get_type_id i32 = 6
get_type_id i64 = 7
get_type_id f32 = 8
get_type_id f64 = 9

-- `==` of the derived `PartialEq`, which compares the places of the two variants.
unfoldable pub type_eq : DataType → DataType → Bool
unfolding get_type_id
type_eq a b = get_type_id a == get_type_id b

pub from_id-get_type_id : (t : DataType) → from_id (get_type_id t) ≡ some t
unfolding from_id get_type_id
from_id-get_type_id u8 = refl
from_id-get_type_id _ = refl

pub type_eq_refl : (t : DataType) → type_eq t t ≡ true
unfolding type_eq
type_eq_refl u8 = refl
type_eq_refl _ = refl

pub type_eq→eq : (a b : DataType) → type_eq a b ≡ true → a ≡ b
unfolding type_eq
type_eq→eq a b h =
    let same = ap from_id ((==_iff (get_type_id a) (get_type_id b)).0 h) in
    cc (from_id-get_type_id a, from_id-get_type_id b, same)

-- An element has 1, 2, 4 or 8 bytes.
pub item_size_bounds : (t : DataType) → (1 ≤ item_size t) × (item_size t ≤ 8)
unfolding item_size
item_size_bounds u8 = omega arith
item_size_bounds _ = omega arith
