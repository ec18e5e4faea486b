-- ===== src/Signals/Loop.antt =====
-- The runs of the loop of `get` (server/signals.rs) as a relation, with one constructor for what an
-- iteration may find.
use egui_states.Prelude.{
  put, ℕ, ◌≡◌, refl, ap, ◌∙◌, subst, sym, Bytes, true, false, not, List, Option, none, some, [],
  ◌∷◌, ◌++◌, ◌==◌, Bool-cases, inl, inr,
}
use egui_states.Signals.{Signal, single, queue, ChangedInner, retain, get_signal, get_id, get_from}

abbrev pub Answer : Type 0
Answer = ChangedInner × Option (ℕ × Bytes)

-- The state and the value that an iteration returns.
abbrev pub answer : ChangedInner → ℕ → Bytes → Answer
answer c id value = (record c { blocked_list = put c.blocked_list id true }, some (id, value))

pub data Loop : ChangedInner → List ℕ → List ℕ → Answer → Type 0 where
  nothing :
      (c : ChangedInner) (skipped : List ℕ)
      → Loop c skipped [] (record c { indexes = skipped }, none)
  blocked :
      (c : ChangedInner) (skipped rest : List ℕ) (id : ℕ) (r : Answer)
      → c.blocked_list id ≡ true
      → Loop c (skipped ++ id ∷ []) rest r
      → Loop c skipped (id ∷ rest) r
  gone :
      (c : ChangedInner) (skipped rest : List ℕ) (id : ℕ) (r : Answer)
      → c.blocked_list id ≡ false
      → c.registered id ≡ false
      → Loop (record c { values = put c.values id none }) skipped rest r
      → Loop c skipped (id ∷ rest) r
  stale :
      (c : ChangedInner) (skipped rest : List ℕ) (id : ℕ) (r : Answer)
      → c.blocked_list id ≡ false
      → c.registered id ≡ true
      → c.values id ≡ none
      → Loop (record c { indexes = skipped ++ rest }) skipped rest r
      → Loop c skipped (id ∷ rest) r
  empty :
      (c : ChangedInner) (skipped rest : List ℕ) (id : ℕ) (r : Answer)
      → c.blocked_list id ≡ false
      → c.registered id ≡ true
      → c.values id ≡ some (queue [])
      → Loop
          (record c { indexes = skipped ++ rest; values = put c.values id (some (queue [])) })
          skipped
          rest
          r
      → Loop c skipped (id ∷ rest) r
  got_single :
      (c : ChangedInner) (skipped rest : List ℕ) (id : ℕ) (v : Bytes)
      → c.blocked_list id ≡ false
      → c.registered id ≡ true
      → c.values id ≡ some (single v)
      → Loop c skipped (id ∷ rest) (
          answer
            (record c {
              values = put c.values id none;
              indexes = retain (λ single_id. not (single_id == id)) (skipped ++ rest);
            })
            id
            v)
  got_queue :
      (c : ChangedInner) (skipped rest : List ℕ) (id : ℕ) (v : Bytes) (vs : List Bytes)
      → c.blocked_list id ≡ false
      → c.registered id ≡ true
      → c.values id ≡ some (queue (v ∷ vs))
      → Loop c skipped (id ∷ rest) (
          answer
            (record c { indexes = skipped ++ rest; values = put c.values id (some (queue vs)) })
            id
            v)

-- What the loop does with what `get_id` found.
abbrev continue : List ℕ → List ℕ → ℕ → ChangedInner × Option Bytes → Answer
continue skipped rest id p = elim p.1 [
  | none ↦ get_from p.0 skipped rest
  | some value ↦ answer p.0 id value
]

get_from_blocked :
    (c : ChangedInner) (skipped rest : List ℕ) (id : ℕ)
    → c.blocked_list id ≡ true
    → get_from c skipped (id ∷ rest) ≡ get_from c (skipped ++ id ∷ []) rest
unfolding get_from
get_from_blocked c skipped rest id h = rw (get_from, h) refl

get_from_gone :
    (c : ChangedInner) (skipped rest : List ℕ) (id : ℕ)
    → c.blocked_list id ≡ false
    → c.registered id ≡ false
    → get_from c skipped (id ∷ rest)
      ≡ get_from (record c { values = put c.values id none }) skipped rest
unfolding get_from
get_from_gone c skipped rest id h k = rw (get_from, h, k) refl

get_from_id :
    (c : ChangedInner) (skipped rest : List ℕ) (id : ℕ)
    → c.blocked_list id ≡ false
    → c.registered id ≡ true
    → get_from c skipped (id ∷ rest)
      ≡ continue skipped rest id (get_id (record c { indexes = skipped ++ rest }) id)
unfolding get_from
get_from_id c skipped rest id h k = rw (get_from, h, k) refl

get_from_found :
    (c : ChangedInner) (skipped rest : List ℕ) (id : ℕ)
    → c.blocked_list id ≡ false
    → c.registered id ≡ true
    → (o : Option Signal) → c.values id ≡ o
    → get_from c skipped (id ∷ rest)
      ≡ continue skipped rest id (get_signal (record c { indexes = skipped ++ rest }) id o)
unfolding get_id
get_from_found c skipped rest id h k o e =
    get_from_id c skipped rest id h k
    ∙ ap
        (λ (x : Option Signal).
          continue skipped rest id (get_signal (record c { indexes = skipped ++ rest }) id x))
        e

get_from_end :
    (c : ChangedInner) (skipped : List ℕ)
    → get_from c skipped [] ≡ (record c { indexes = skipped }, none)
unfolding get_from
get_from_end c skipped = refl

found-Loop :
    (c : ChangedInner) (skipped rest : List ℕ) (id : ℕ)
    → c.blocked_list id ≡ false
    → c.registered id ≡ true
    → ((d : ChangedInner) → Loop d skipped rest (get_from d skipped rest))
    → (o : Option Signal) → c.values id ≡ o
    → Loop c skipped
        (id ∷ rest)
        (continue skipped rest id (get_signal (record c { indexes = skipped ++ rest }) id o))
found-Loop c skipped rest id h k go none e =
    stale c skipped rest id _ h k e (go (record c { indexes = skipped ++ rest }))
found-Loop c skipped rest id h k go (some (single v)) e = got_single c skipped rest id v h k e
found-Loop c skipped rest id h k go (some (queue [])) e =
    empty c skipped rest id _ h k e
      (go (record c { indexes = skipped ++ rest; values = put c.values id (some (queue [])) }))
found-Loop c skipped rest id h k go (some (queue (v ∷ vs))) e =
    got_queue c skipped rest id v vs h k e

pub get_from-Loop :
    (c : ChangedInner) (skipped rest : List ℕ) → Loop c skipped rest (get_from c skipped rest)
get_from-Loop c skipped [] =
    subst (Loop c skipped []) (sym (get_from_end c skipped)) (nothing c skipped)
get_from-Loop c skipped (id ∷ rest) = elim (Bool-cases (c.blocked_list id)) [
  | inl h ↦
      subst (Loop c skipped (id ∷ rest)) (sym (get_from_blocked c skipped rest id h))
        (blocked c skipped rest id _ h (get_from-Loop c (skipped ++ id ∷ []) rest))
  | inr h ↦ elim (Bool-cases (c.registered id)) [
    | inl k ↦
        subst (Loop c skipped (id ∷ rest))
          (sym (get_from_found c skipped rest id h k (c.values id) refl))
          (found-Loop c skipped rest id h k (λ d. get_from-Loop d skipped rest) (c.values id) refl)
    | inr k ↦ subst (Loop c skipped (id ∷ rest)) (sym (get_from_gone c skipped rest id h k)) (
        gone c skipped rest id _ h k
          (get_from-Loop (record c { values = put c.values id none }) skipped rest))
  ]
]
