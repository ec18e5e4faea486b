-- ===== src/Signals/Schedule.antt =====
-- The schedule of `ChangedInner` (server/signals.rs): `indexes` against the values that wait.
use egui_states.Prelude.{
  put, put_other, put_same, ℕ, ◌+◌, ◌-◌, ◌≤◌, ◌≡◌, refl, ap, Bytes, Bool, true, false, not, List,
  Option, none, some, [], ◌∷◌, ◌++◌, ◌==◌, leb, arith, Bool-cases, inl, inr, ==_to,
}
use egui_states.Signals.{
  Signal, queue, ChangedInner, retain, entry, new, clear, set, unblock, get_from, get, set_to_queue,
  set_to_single, set_register, as_queue, as_single, emptied,
}
use egui_states.Signals.Loop.{
  Loop, Answer, nothing, blocked, gone, stale, empty, got_single, got_queue, get_from-Loop,
}
use egui_states.Signals.Count.{
  size, occurs, one_if, occurs-append, occurs-retain, size-entry, size-as_queue, size-as_single,
  size-emptied,
}

-- The invariant, for the indexes given.
abbrev pub Covers : (ℕ → Option Signal) → List ℕ → List ℕ → Type 0
Covers values xs ys = (id : ℕ) → size (values id) ≤ occurs id xs + occurs id ys

abbrev pub IsScheduled : ChangedInner → Type 0
IsScheduled c = (id : ℕ) → size (c.values id) ≤ occurs id c.indexes

-- One value changes, and its id is taken off the indexes.
step-Covers :
    (f : ℕ → Option Signal) (key : ℕ) (o : Option Signal) (skipped rest : List ℕ)
    → size o ≤ size (f key) - 1
    → Covers f skipped (key ∷ rest)
    → Covers (put f key o) skipped rest
step-Covers f key o skipped rest h k id = elim (Bool-cases (id == key)) [
  | inl e ↦ omega (
    arith,
    h,
    k id,
    ap one_if e,
    ap size (put_same f id key o e),
    ap (λ (x : ℕ). size (f x)) (==_to id key e),
  )
  | inr e ↦ omega (arith, k id, ap one_if e, ap size (put_other f id key o e))
]

move-Covers :
    (f : ℕ → Option Signal) (key : ℕ) (skipped rest : List ℕ)
    → Covers f skipped (key ∷ rest)
    → Covers f (skipped ++ key ∷ []) rest
move-Covers f key skipped rest k id = omega (arith, k id, occurs-append id skipped (key ∷ []))

drop-Covers :
    (f : ℕ → Option Signal) (key : ℕ) (skipped rest : List ℕ)
    → f key ≡ none
    → Covers f skipped (key ∷ rest)
    → Covers f skipped rest
drop-Covers f key skipped rest h k id = elim (Bool-cases (id == key)) [
  | inl e ↦ omega (arith, ap (λ (x : ℕ). size (f x)) (==_to id key e), ap size h)
  | inr e ↦ omega (arith, k id, ap one_if e)
]

-- The filter that `get_id` and `set_register` use takes every mention of one id away.
without-Covers :
    (f : ℕ → Option Signal) (key : ℕ) (o : Option Signal) (xs : List ℕ)
    → size o ≡ 0
    → ((id : ℕ) → (id == key) ≡ false → size (f id) ≤ occurs id xs)
    → (id : ℕ) → size (put f key o id) ≤ occurs id (retain (λ x. not (x == key)) xs)
without-Covers f key o xs h k id = elim (Bool-cases (id == key)) [
  | inl e ↦ omega (arith, h, ap size (put_same f id key o e))
  | inr e ↦ omega (
    arith,
    k id e,
    ap size (put_other f id key o e),
    occurs-retain (λ x. not (x == key)) id xs (ap not e),
  )
]

Loop-IsScheduled :
    (c : ChangedInner) (xs ys : List ℕ) (r : Answer)
    → Loop c xs ys r
    → Covers c.values xs ys
    → IsScheduled r.0
Loop-IsScheduled _ _ _ _ (nothing c xs) k id = omega (arith, k id)
Loop-IsScheduled _ _ _ _ (blocked c xs rest key r b l) k id =
    Loop-IsScheduled c (xs ++ key ∷ []) rest r l (move-Covers c.values key xs rest k) id
Loop-IsScheduled _ _ _ _ (gone c xs rest key r b g l) k id =
    Loop-IsScheduled _ xs rest r l (step-Covers c.values key none xs rest (omega arith) k) id
Loop-IsScheduled _ _ _ _ (stale c xs rest key r b g e l) k id =
    Loop-IsScheduled _ xs rest r l (drop-Covers c.values key xs rest e k) id
Loop-IsScheduled _ _ _ _ (empty c xs rest key r b g e l) k id =
    Loop-IsScheduled _ xs rest r l
      (step-Covers c.values key (some (queue [])) xs rest (omega arith) k) id
Loop-IsScheduled _ _ _ _ (got_single c xs rest key v b g e) k id =
    without-Covers c.values key none (xs ++ rest) refl
      (λ id ne. omega (arith, k id, ap one_if ne, occurs-append id xs rest)) id
Loop-IsScheduled _ _ _ _ (got_queue c xs rest key v vs b g e) k id = omega (
  arith,
  step-Covers c.values key (some (queue vs)) xs rest (omega (arith, ap size e)) k id,
  occurs-append id xs rest,
)

pub get-IsScheduled :
    (c : ChangedInner) (last : Option ℕ) → IsScheduled c → IsScheduled (get c last).0
unfolding get
get-IsScheduled c none h =
    Loop-IsScheduled c [] c.indexes (get_from c [] c.indexes) (get_from-Loop c [] c.indexes)
      (λ id. omega (arith, h id))
get-IsScheduled c (some key) h =
    let d = unblock c (some key) in
    Loop-IsScheduled d [] c.indexes (get_from d [] c.indexes) (get_from-Loop d [] c.indexes)
      (λ id. omega (arith, h id))

pub set-IsScheduled :
    (c : ChangedInner) (key : ℕ) (v : Bytes) → IsScheduled c → IsScheduled (set c key v).0
unfolding set
set-IsScheduled c key v h id = elim (Bool-cases (c.registered key)) [
  | inr g ↦ rw (set, g) (h id)
  | inl g ↦ rw (set, g) (entered c key v h id)
]
  where
    entered :
        (c : ChangedInner) (key : ℕ) (v : Bytes)
        → IsScheduled c
        → (id : ℕ)
        → size (put c.values key (some (entry (c.values key) v)) id)
          ≤ occurs id (c.indexes ++ key ∷ [])
    entered c key v h id = elim (Bool-cases (id == key)) [
      | inl e ↦ omega (
        arith,
        h id,
        ap one_if e,
        ap size (put_same c.values id key (some (entry (c.values key) v)) e),
        ap (λ (x : ℕ). size (c.values x)) (==_to id key e),
        size-entry (c.values key) v,
        occurs-append id c.indexes (key ∷ []),
      )
      | inr e ↦ omega (
        arith,
        h id,
        ap size (put_other c.values id key (some (entry (c.values key) v)) e),
        occurs-append id c.indexes (key ∷ []),
      )
    ]

clear-IsScheduled : (c : ChangedInner) → IsScheduled c → IsScheduled (clear c)
unfolding clear
clear-IsScheduled c h id = elim (Bool-cases (leb id 9)) [
  | inl e ↦ rw e (omega (arith, h id, occurs-retain (λ x. leb x 9) id c.indexes e))
  | inr e ↦ rw e (omega arith)
]

put-IsScheduled :
    (c : ChangedInner) (key : ℕ) (o : Option Signal)
    → size o ≤ size (c.values key)
    → IsScheduled c
    → IsScheduled (record c { values = put c.values key o })
put-IsScheduled c key o le h id = elim (Bool-cases (id == key)) [
  | inl e ↦ omega (
    arith,
    h id,
    le,
    ap size (put_same c.values id key o e),
    ap (λ (x : ℕ). size (c.values x)) (==_to id key e),
  )
  | inr e ↦ omega (arith, h id, ap size (put_other c.values id key o e))
]

set_to_queue-IsScheduled :
    (c : ChangedInner) (key : ℕ) → IsScheduled c → IsScheduled (set_to_queue c key)
unfolding set_to_queue
set_to_queue-IsScheduled c key =
    put-IsScheduled c key (some (queue (as_queue (c.values key))))
      (omega (arith, size-as_queue (c.values key)))

set_to_single-IsScheduled :
    (c : ChangedInner) (key : ℕ) → IsScheduled c → IsScheduled (set_to_single c key)
unfolding set_to_single
set_to_single-IsScheduled c key =
    put-IsScheduled c key (as_single (c.values key)) (size-as_single (c.values key))

set_register-IsScheduled :
    (c : ChangedInner) (key : ℕ) (on : Bool) → IsScheduled c → IsScheduled (set_register c key on)
unfolding set_register
set_register-IsScheduled c key true h id = h id
set_register-IsScheduled c key false h id =
    without-Covers c.values key (emptied (c.values key)) c.indexes (size-emptied (c.values key))
      (λ x ne. h x) id

-- The calls of the manager, each behind its lock.
pub data Call : Type 0 where
  call_set : ℕ → Bytes → Call
  call_get : Option ℕ → Call
  call_clear : Call
  call_to_queue call_to_single : ℕ → Call
  call_register : ℕ → Bool → Call

unfoldable pub run_call : ChangedInner → Call → ChangedInner
run_call c (call_set id v) = (set c id v).0
run_call c (call_get last) = (get c last).0
run_call c call_clear = clear c
run_call c (call_to_queue id) = set_to_queue c id
run_call c (call_to_single id) = set_to_single c id
run_call c (call_register id on) = set_register c id on

unfoldable pub run_calls : ChangedInner → List Call → ChangedInner
unfolding run_call
run_calls c [] = c
run_calls c (k ∷ ks) = run_calls (run_call c k) ks

run_call-IsScheduled : (c : ChangedInner) (k : Call) → IsScheduled c → IsScheduled (run_call c k)
unfolding run_call
run_call-IsScheduled c (call_set id v) h = set-IsScheduled c id v h
run_call-IsScheduled c (call_get last) h = get-IsScheduled c last h
run_call-IsScheduled c call_clear h = clear-IsScheduled c h
run_call-IsScheduled c (call_to_queue id) h = set_to_queue-IsScheduled c id h
run_call-IsScheduled c (call_to_single id) h = set_to_single-IsScheduled c id h
run_call-IsScheduled c (call_register id on) h = set_register-IsScheduled c id on h

-- After any calls, a value that waits at an id is scheduled: the id stands in `indexes` at least as
-- often as values wait there, if this held before.
pub run_calls-IsScheduled :
    (c : ChangedInner) (ks : List Call) → IsScheduled c → IsScheduled (run_calls c ks)
unfolding run_calls
run_calls-IsScheduled c [] h = h
run_calls-IsScheduled c (k ∷ ks) h =
    run_calls-IsScheduled (run_call c k) ks (run_call-IsScheduled c k h)

pub new-IsScheduled : IsScheduled new
unfolding new
new-IsScheduled id = omega arith
