-- ===== src/Protocol/FastVec.antt =====
-- `FastVec` of serialization.rs: bytes in an array of `N` bytes, or on the heap. Sums of lengths of
-- slices do not wrap, since no slice is longer than isize::MAX.
pub mod Contents
use egui_states.Prelude.{
  ℕ, ◌+◌, Bytes, List, [], ◌∷◌, ◌++◌, leb, ltb, if◌then◌else◌, length, take, drop, replicate,
}
use egui_states.Outcome.{Outcome, ok, fault, ◌>>=◌}

-- The array with the number of bytes in use.
pub data FastVec : Type 0 where
  heap : Bytes → FastVec
  stack : Bytes → ℕ → FastVec

abbrev pub Result : Type 0 → Type 0
Result A = Outcome (Unit {0}) A

-- `copy_from_slice` at an index of an array, which panics beyond its end.
abbrev pub copy_at : Bytes → ℕ → Bytes → Result Bytes
copy_at old i xs =
    if leb (i + length xs) (length old)
    then ok (take i old ++ (xs ++ drop (i + length xs) old))
    else fault

-- `[..n]` of an array.
abbrev pub first_of : Bytes → ℕ → Result Bytes
first_of xs n = if leb n (length xs) then ok (take n xs) else fault

-- `AsRef::as_ref`, and `to_bytes`, which keeps what it gives.
unfoldable pub as_ref : FastVec → Result Bytes
as_ref (heap xs) = ok xs
as_ref (stack xs n) = first_of xs n

-- `len`
unfoldable pub len : FastVec → ℕ
len (heap xs) = length xs
len (stack xs n) = n

-- The calls of a serializer and of the code around it.
pub data Call : Type 0 where
  push : ℕ → Call
  extend : Bytes → Call
  append : FastVec → Call
  reserve : ℕ → Call

module _ (size : ℕ) where
  -- `new`
  unfoldable pub new : FastVec
  new = stack (replicate size 0) 0

  abbrev pub spilled : Bytes → ℕ → Bytes → Result FastVec
  spilled old n xs = do front ← first_of old n; ok (heap (front ++ xs))

  -- `reserve_exact`; what the heap reserves does not show.
  unfoldable pub reserve_exact : FastVec → ℕ → Result FastVec
  reserve_exact (heap xs) additional = ok (heap xs)
  reserve_exact (stack old n) additional =
      if ltb size (n + additional) then spilled old n [] else ok (stack old n)

  -- `extend_from_slice`, and `try_extend`
  unfoldable pub extend_from_slice : FastVec → Bytes → Result FastVec
  extend_from_slice (heap ys) xs = ok (heap (ys ++ xs))
  extend_from_slice (stack old n) xs =
      if leb (n + length xs) size
      then (do new_array ← copy_at old n xs; ok (stack new_array (n + length xs)))
      else spilled old n xs

  -- `extend_from_data`, from a vector of another size.
  unfoldable pub extend_from_data : FastVec → FastVec → Result FastVec
  unfolding as_ref extend_from_slice
  extend_from_data (heap ys) data_vec = do xs ← as_ref data_vec; ok (heap (ys ++ xs))
  extend_from_data (stack old n) (heap xs) = extend_from_slice (stack old n) xs
  extend_from_data (stack old n) (stack array m) = first_of array m >>= λ xs.
      if leb (n + m) size
      then (do new_array ← copy_at old n xs; ok (stack new_array (n + m)))
      else spilled old n xs

  -- `Flavor::try_push`; on a full array all of it moves.
  unfoldable pub try_push : FastVec → ℕ → Result FastVec
  try_push (heap ys) b = ok (heap (ys ++ (b ∷ [])))
  try_push (stack old n) b =
      if ltb n size
      then (do new_array ← copy_at old n (b ∷ []); ok (stack new_array (n + 1)))
      else ok (heap (old ++ (b ∷ [])))

  unfoldable pub run_call : FastVec → Call → Result FastVec
  run_call v (push b) = try_push v b
  run_call v (extend xs) = extend_from_slice v xs
  run_call v (append w) = extend_from_data v w
  run_call v (reserve n) = reserve_exact v n

  unfoldable pub run_calls : FastVec → List Call → Result FastVec
  unfolding run_call
  run_calls v [] = ok v
  run_calls v (c ∷ cs) = do w ← run_call v c; run_calls w cs
