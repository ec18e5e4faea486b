-- ===== src/Protocol/Codec.antt =====
-- postcard, which is not part of the repository: `serialize_with_flavor` as the bytes that it
-- emits for a value (`none` for its error) and `take_from_bytes`, which returns the value and the
-- bytes that it did not use.
use egui_states.Prelude.{◌≡◌, ◌<◌, ◌++◌, Option, some, Bytes, length}

pub record Codec (A : Type 0) : Type 0 where
  pub encode : A → Option Bytes
  pub take_from : Bytes → Option (A × Bytes)

-- What the code relies on: a value is read back from its own bytes, whatever follows them, and the
-- bytes that follow are left.
pub record IsLawful {A : Type 0} (c : Codec A) : Type 0 where
  pub take_from-encode :
      (a : A) (b rest : Bytes) → c.encode a ≡ some b → c.take_from (b ++ rest) ≡ some (a, rest)
  -- An enum starts with the number of its variant, so that no value takes no bytes.
  pub encode_pos : (a : A) (b : Bytes) → c.encode a ≡ some b → 0 < length b
