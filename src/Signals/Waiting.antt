-- ===== src/Signals/Waiting.antt =====
-- What `get` of server/signals.rs leaves, and whose value it returns.
use egui_states.Prelude.{
  put_same, ℕ, ◌<◌, ◌≡◌, ap, sym, subst, ◌∙◌, Bytes, true, false, List, Option, none, some, [], ◌∷◌,
  ◌++◌, ◌==◌, arith, Bool-cases, inl, inr, ==_to, ==_refl,
}
use egui_states.Signals.{ChangedInner, unblock, get_from, get}
use egui_states.Signals.Loop.{
  Loop, Answer, nothing, blocked, gone, stale, empty, got_single, got_queue, get_from-Loop,
}
use egui_states.Signals.Count.{size, occurs, one_if, occurs-append}
use egui_states.Signals.Schedule.{IsScheduled, get-IsScheduled}

-- What the loop skipped is blocked.
abbrev AreBlocked : ChangedInner → List ℕ → Type 0
AreBlocked c xs = (id : ℕ) → 0 < occurs id xs → c.blocked_list id ≡ true

skip_blocked :
    (c : ChangedInner) (xs : List ℕ) (key : ℕ)
    → c.blocked_list key ≡ true
    → AreBlocked c xs
    → AreBlocked c (xs ++ key ∷ [])
skip_blocked c xs key b h id some_left = elim (Bool-cases (id == key)) [
  | inl e ↦ ap c.blocked_list (==_to id key e) ∙ b
  | inr e ↦ h id (omega (arith, occurs-append id xs (key ∷ []), ap one_if e))
]

Loop-AreBlocked :
    (c : ChangedInner) (xs ys : List ℕ) (r : Answer)
    → Loop c xs ys r
    → AreBlocked c xs
    → r.1 ≡ none
    → AreBlocked r.0 (r.0).indexes
Loop-AreBlocked _ _ _ _ (nothing c xs) h e = h
Loop-AreBlocked _ _ _ _ (blocked c xs rest key r b l) h e =
    Loop-AreBlocked c (xs ++ key ∷ []) rest r l (skip_blocked c xs key b h) e
Loop-AreBlocked _ _ _ _ (gone c xs rest key r b g l) h e = Loop-AreBlocked _ xs rest r l h e
Loop-AreBlocked _ _ _ _ (stale c xs rest key r b g o l) h e = Loop-AreBlocked _ xs rest r l h e
Loop-AreBlocked _ _ _ _ (empty c xs rest key r b g o l) h e = Loop-AreBlocked _ xs rest r l h e
Loop-AreBlocked _ _ _ _ (got_single c xs rest key v b g o) h e = cc
Loop-AreBlocked _ _ _ _ (got_queue c xs rest key v vs b g o) h e = cc

-- When `get` finds nothing in a state where waiting values are scheduled, every id at which a value
-- waits afterwards is blocked by a thread.
pub get-leaves_blocked :
    (c : ChangedInner) (last : Option ℕ)
    → IsScheduled c
    → (get c last).1 ≡ none
    → (id : ℕ) → 0 < size ((get c last).0.values id)
    → (get c last).0.blocked_list id ≡ true
unfolding get
get-leaves_blocked c last h e id waits =
    let d = unblock c last in
    Loop-AreBlocked d [] d.indexes (get_from d [] d.indexes) (get_from-Loop d [] d.indexes)
      (λ x none_left. absurd (omega (arith, none_left))) e id
      (omega (arith, get-IsScheduled c last h id))

-- The answer is taken from an id that nobody held, that is registered, and that is held from then on.
abbrev IsTaken : ChangedInner → Answer → ℕ → Type 0
IsTaken c r id =
    (c.blocked_list id ≡ false) × (c.registered id ≡ true) × ((r.0).blocked_list id ≡ true)

Loop-IsTaken :
    (c : ChangedInner) (xs ys : List ℕ) (r : Answer)
    → Loop c xs ys r
    → (id : ℕ) (v : Bytes) → r.1 ≡ some (id, v)
    → IsTaken c r id
Loop-IsTaken _ _ _ _ (nothing c xs) id v e = cc
Loop-IsTaken _ _ _ _ (blocked c xs rest key r b l) id v e =
    Loop-IsTaken c (xs ++ key ∷ []) rest r l id v e
Loop-IsTaken _ _ _ _ (gone c xs rest key r b g l) id v e = Loop-IsTaken _ xs rest r l id v e
Loop-IsTaken _ _ _ _ (stale c xs rest key r b g o l) id v e = Loop-IsTaken _ xs rest r l id v e
Loop-IsTaken _ _ _ _ (empty c xs rest key r b g o l) id v e = Loop-IsTaken _ xs rest r l id v e
Loop-IsTaken _ _ _ _ (got_single c xs rest key w b g o) id v e =
    let same : key ≡ id = cc in
    (
      ap c.blocked_list (sym same) ∙ b,
      ap c.registered (sym same) ∙ g,
      put_same c.blocked_list id key true
          (subst (λ (x : ℕ). (id == x) ≡ true) (sym same) (==_refl id)),
    )
Loop-IsTaken _ _ _ _ (got_queue c xs rest key w vs b g o) id v e =
    let same : key ≡ id = cc in
    (
      ap c.blocked_list (sym same) ∙ b,
      ap c.registered (sym same) ∙ g,
      put_same c.blocked_list id key true
          (subst (λ (x : ℕ). (id == x) ≡ true) (sym same) (==_refl id)),
    )

-- A value that `get` returns belongs to a registered id that no thread held after the caller gave
-- its last one back, and the id is held afterwards.
pub get-exclusive :
    (c : ChangedInner) (last : Option ℕ) (id : ℕ) (v : Bytes)
    → (get c last).1 ≡ some (id, v)
    → ((unblock c last).blocked_list id ≡ false)
      × ((unblock c last).registered id ≡ true)
      × ((get c last).0.blocked_list id ≡ true)
unfolding get
get-exclusive c last id v e =
    let d = unblock c last in
    Loop-IsTaken d [] d.indexes (get_from d [] d.indexes) (get_from-Loop d [] d.indexes) id v e
