-- ===== src/Pack.antt =====
-- The splitting of one array into messages of at most `threshold` bytes. The source has the loop
-- three times, with other headers: `pack_data` (server/data_server.rs), `pack_data_take` and
-- `pack_data_multi_take` (server/data_take_server.rs). Here it is once, over what makes a message.
pub mod Split
pub mod Plan
pub mod Arrays
use egui_states.Prelude.{
  ℕ, zero, suc, ◌+◌, ◌-◌, ◌*◌, ◌/◌, Bool, true, false, Bytes, ltb, leb, as_u32, length, drop, slice,
  if◌then◌else◌, ◌&&◌, List, [], ◌∷◌,
}
use egui_states.Outcome.{Outcome, ok, fault, ◌>>=◌}

-- Which of the four headers a message has.
pub data Piece : Type 0 where
  whole first middle last : Piece

-- A slice out of range panics.
unfoldable pub slice_or_fault : {E : Type 0} → Bytes → ℕ → ℕ → Outcome E Bytes
slice_or_fault xs i j = if leb i j && leb j (length xs) then ok (slice xs i j) else fault

module _ {E M : Type 0} (threshold element_size : ℕ) (emit : Piece → ℕ → Bytes → Bool → Outcome E M)
    (bytes : Bytes) where
  -- `MSG_SIZE_THRESHOLD / element_size * element_size`
  abbrev pub chunk_size : ℕ
  chunk_size = threshold / element_size * element_size

  -- The message of the bytes from `i` to `j`.
  unfoldable pub message : Piece → ℕ → ℕ → ℕ → Bool → Outcome E M
  unfolding slice_or_fault
  message piece size i j single = do
    body ← slice_or_fault bytes i j
    emit piece (as_u32 size) body single

  -- The `while processed < data.len()` loop.
  unfoldable pub batches : ℕ → ℕ → Outcome E (List M)
  unfolding message
  batches zero processed = fault
  batches (suc fuel) processed =
      let remaining = length bytes - processed in
      let end = (do m ← message last remaining processed (length bytes) false; ok (m ∷ [])) in
      let next = (do
        m ← message middle chunk_size processed (processed + chunk_size) true
        ms ← batches fuel (processed + chunk_size)
        ok (m ∷ ms)) in
      if ltb processed (length bytes)
      then (if leb remaining chunk_size then end else next)
      else ok []

  unfoldable pub pack : Outcome E (List M)
  unfolding message batches
  pack =
      if leb (length bytes) threshold
      then (do m ← emit whole (as_u32 (length bytes)) bytes true; ok (m ∷ []))
      else (do
        m ← message first chunk_size 0 chunk_size true
        ms ← batches (length bytes) chunk_size
        ok (m ∷ ms))
