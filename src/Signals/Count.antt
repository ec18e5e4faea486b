-- ===== src/Signals/Count.antt =====
-- How many values wait at an id of `ChangedInner` (server/signals.rs), how often the id is scheduled,
-- and what the updates do to both.
use egui_states.Prelude.{
  ℕ, ◌+◌, ◌≤◌, ◌≡◌, refl, ap, Bytes, Bool, true, false, List, Option, none, some, [], ◌∷◌, ◌++◌,
  ◌==◌, length, arith, Bool-cases, inl, inr, length-append, ==_to,
}
use egui_states.Signals.{
  Signal, single, queue, retain, entry, as_queue, as_single, last_of, emptied,
}

abbrev pub size : Option Signal → ℕ
size none = 0
size (some (single v)) = 1
size (some (queue vs)) = length vs

abbrev pub one_if : Bool → ℕ
one_if true = 1
one_if false = 0

abbrev pub occurs : ℕ → List ℕ → ℕ
occurs id [] = 0
occurs id (x ∷ xs) = one_if (id == x) + occurs id xs

pub occurs-append : (id : ℕ) (xs ys : List ℕ) → occurs id (xs ++ ys) ≡ occurs id xs + occurs id ys
occurs-append id [] ys = omega arith
occurs-append id (x ∷ xs) ys = omega (arith, occurs-append id xs ys)

-- What a filter keeps is scheduled as often as before.
pub occurs-retain :
    (keep : ℕ → Bool) (id : ℕ) (xs : List ℕ)
    → keep id ≡ true
    → occurs id (retain keep xs) ≡ occurs id xs
occurs-retain keep id [] h = refl
occurs-retain keep id (x ∷ xs) h = elim (Bool-cases (keep x)) [
  | inl k ↦ rw k (ap (λ (n : ℕ). one_if (id == x) + n) (occurs-retain keep id xs h))
  | inr k ↦
      let other : (id == x) ≡ false = different keep id x h k in
      rw k (omega (arith, occurs-retain keep id xs h, ap one_if other))
]
  where
    different : (keep : ℕ → Bool) (id x : ℕ) → keep id ≡ true → keep x ≡ false → (id == x) ≡ false
    different keep id x h k = elim (Bool-cases (id == x)) [
      | inl e ↦ let same = ==_to id x e in cc
      | inr e ↦ e
    ]

pub size-entry : (o : Option Signal) (v : Bytes) → size (some (entry o v)) ≤ size o + 1
size-entry none v = omega arith
size-entry (some (single w)) v = omega arith
size-entry (some (queue vs)) v = omega (arith, length-append vs (v ∷ []))

pub size-as_queue : (o : Option Signal) → size (some (queue (as_queue o))) ≡ size o
size-as_queue none = refl
size-as_queue (some (single w)) = refl
size-as_queue (some (queue vs)) = refl

size-last_of : (vs : List Bytes) → size (last_of vs) ≤ length vs
size-last_of [] = omega arith
size-last_of (v ∷ []) = omega arith
size-last_of (v ∷ w ∷ vs) = omega (arith, size-last_of (w ∷ vs))

pub size-as_single : (o : Option Signal) → size (as_single o) ≤ size o
size-as_single none = omega arith
size-as_single (some (single w)) = omega arith
size-as_single (some (queue vs)) = size-last_of vs

pub size-emptied : (o : Option Signal) → size (emptied o) ≡ 0
size-emptied none = refl
size-emptied (some (single w)) = refl
size-emptied (some (queue vs)) = refl
