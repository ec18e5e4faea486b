-- ===== src/Prelude/Maps.antt =====
-- Maps from numbers: functions, for those that are only looked up, and association lists, for those
-- that are also counted or run through.
use Prim.Native.Nat.{ℕ}
use mathlib.Core.Path.{◌≡◌, refl, ap, ◌∙◌}
use mathlib.Core.Bool.{true, false}
use mathlib.Core.Option.{Option, none, some}
use mathlib.Core.List.{List, [], ◌∷◌}
use mathlib.Core.Logic.{inl, inr}
use egui_states.Prelude.Tests.{◌==◌, if◌then◌else◌, ==_to, ==_refl, Bool-cases}

-- `insert` of a function, and with `none` its `remove`.
abbrev pub put {ℓ} : {A : Type ℓ} → (ℕ → A) → ℕ → A → ℕ → A
put f key value id = if id == key then value else f id

pub put_same {ℓ} :
    {A : Type ℓ} (f : ℕ → A) (id key : ℕ) (a : A) → id == key ≡ true → put f key a id ≡ a
put_same f id key a h = rw h refl

pub put_other {ℓ} :
    {A : Type ℓ} (f : ℕ → A) (id key : ℕ) (a : A) → id == key ≡ false → put f key a id ≡ f id
put_other f id key a h = rw h refl

pub put_at {ℓ} : {A : Type ℓ} (f : ℕ → A) (key : ℕ) (a : A) → put f key a key ≡ a
put_at f key a = put_same f key key a (==_refl key)

abbrev pub find {ℓ} : {A : Type ℓ} → ℕ → List (ℕ × A) → Option A
find k [] = none
find k (p ∷ m) = if p.0 == k then some p.1 else find k m

abbrev pub insert {ℓ} : {A : Type ℓ} → ℕ → A → List (ℕ × A) → List (ℕ × A)
insert k a [] = (k, a) ∷ []
insert k a (p ∷ m) = let rest = insert k a m in if p.0 == k then (k, a) ∷ m else p ∷ rest

abbrev pub erase {ℓ} : {A : Type ℓ} → ℕ → List (ℕ × A) → List (ℕ × A)
erase k [] = []
erase k (p ∷ m) = let rest = erase k m in if p.0 == k then rest else p ∷ rest

pub find-insert_same {ℓ} :
    {A : Type ℓ} (k : ℕ) (a : A) (m : List (ℕ × A)) → find k (insert k a m) ≡ some a
find-insert_same k a [] = rw (==_refl k) refl
find-insert_same k a (p ∷ m) = elim (Bool-cases (p.0 == k)) [
  | inl e ↦ rw e (rw (==_refl k) refl)
  | inr e ↦ rw e (rw e (find-insert_same k a m))
]

pub find-insert_other {ℓ} :
    {A : Type ℓ} (j k : ℕ) (a : A) (m : List (ℕ × A))
    → k == j ≡ false
    → find j (insert k a m) ≡ find j m
find-insert_other j k a [] h = rw h refl
find-insert_other j k a (p ∷ m) h = elim (Bool-cases (p.0 == k)) [
  | inl e ↦
      let other : p.0 == j ≡ false = ap (λ (x : ℕ). x == j) (==_to p.0 k e) ∙ h in
      rw (e, h, other) refl
  | inr e ↦
      rw e (ap (λ (o : Option _). if p.0 == j then some p.1 else o) (find-insert_other j k a m h))
]
