-- ===== src/Pack/Split.antt =====
-- What a split of an array is, and how the messages of one are made.
use egui_states.Prelude.{ℕ, ◌<◌, ◌≤◌, Bool, true, false, Bytes, length, take, drop, List, [], ◌∷◌}
use egui_states.Outcome.{Outcome, ok, ◌>>=◌}
use egui_states.Pack.{Piece, whole, first, middle, last}

-- Which header, the bytes that follow it, and whether the message is sent on its own.
pub record Part : Type 0 where
  pub piece : Piece
  pub body : Bytes
  pub single : Bool

module _ (chunk : ℕ) where
  -- The rest of an array, as messages of `chunk` bytes and one with what is left.
  pub data Tail : Bytes → List Part → Type 0 where
    final :
        {rest : Bytes}
        → 0 < length rest
        → length rest ≤ chunk
        → Tail rest (record { piece = last; body = rest; single = false } ∷ [])
    more :
        {rest : Bytes} {ps : List Part}
        → chunk < length rest
        → Tail (drop chunk rest) ps
        → Tail rest (record { piece = middle; body = take chunk rest; single = true } ∷ ps)

module _ (threshold chunk : ℕ) where
  -- An array in one message, or as a first message and a tail.
  pub data Split : Bytes → List Part → Type 0 where
    one :
        {xs : Bytes}
        → length xs ≤ threshold
        → Split xs (record { piece = whole; body = xs; single = true } ∷ [])
    many :
        {xs : Bytes} {ps : List Part}
        → threshold < length xs
        → chunk < length xs
        → Tail chunk (drop chunk xs) ps
        → Split xs (record { piece = first; body = take chunk xs; single = true } ∷ ps)

-- The messages of the parts, up to the first that fails.
module _ {E M : Type 0} (emit : Piece → ℕ → Bytes → Bool → Outcome E M) where
  unfoldable pub emit_all : List Part → Outcome E (List M)
  emit_all [] = ok []
  emit_all (p ∷ ps) = do
    m ← emit p.piece (length p.body) p.body p.single
    ms ← emit_all ps
    ok (m ∷ ms)
