-- ===== src/Outcome.antt =====
-- The result of fallible code: `Ok`, `Err` with its kind, or a fault, which is a panic of the
-- program (a slice out of range) or a loop that used up its fuel.
use egui_states.Prelude.{◌≡◌, refl}

pub data Outcome {ℓ κ} (E : Type ℓ) (A : Type κ) : Type (ℓ ⊔ κ) where
  fault : Outcome E A
  err : E → Outcome E A
  ok : A → Outcome E A

module _ {ℓ κ} {E : Type ℓ} {A B : Type κ} where
  infixl 5 ◌>>=◌
  abbrev pub ◌>>=◌ : Outcome E A → (A → Outcome E B) → Outcome E B
  fault >>= next = fault
  ok value >>= next = next value
  err why >>= next = err why

  -- Inversion of a bind that returned.
  pub >>=-eq-ok :
      (m : Outcome E A) (next : A → Outcome E B) {b : B}
      → (m >>= next) ≡ ok b
      → (a : A) × (m ≡ ok a) × (next a ≡ ok b)
  >>=-eq-ok fault next h = cc
  >>=-eq-ok (ok value) next h = (value, refl, h)
  >>=-eq-ok (err why) next h = cc

pub ok-injective {ℓ κ} :
    {E : Type ℓ} {A : Type κ} {a b : A} → ◌≡◌ {A = Outcome E A} (ok a) (ok b) → a ≡ b
ok-injective h = cc
