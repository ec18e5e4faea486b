-- ===== src/Signals/Order.antt =====
-- The order in which `ChangedInner` (server/signals.rs) hands out the values of a queue.
use egui_states.Prelude.{
  put, put_other, put_same, ℕ, ◌≡◌, refl, ap, sym, subst, ◌∙◌, Bytes, true, false, not, List,
  Option, none, some, [], ◌∷◌, ◌++◌, append_assoc, append-nil, ◌==◌, if◌then◌else◌, arith,
  Bool-cases, inl, inr, ==_to,
}
use egui_states.Signals.{
  Signal, single, queue, ChangedInner, retain, entry, set, unblock, get_from, get,
}
use egui_states.Signals.Loop.{
  Loop, Answer, answer, nothing, blocked, gone, stale, empty, got_single, got_queue, get_from-Loop,
}

-- A producer sets a value, or a waiting thread takes one.
pub data Call : Type 0 where
  set_value : ℕ → Bytes → Call
  take_value : Option ℕ → Call

-- What of an answer belongs to `id`.
abbrev pub taken : ℕ → Option (ℕ × Bytes) → List Bytes
taken id none = []
taken id (some (key, v)) = if id == key then v ∷ [] else []

-- The values set at `id`, and those taken from it.
abbrev pub all_set : ℕ → List Call → List Bytes
all_set id [] = []
all_set id (set_value key v ∷ ks) = (if id == key then v ∷ [] else []) ++ all_set id ks
all_set id (take_value last ∷ ks) = all_set id ks

unfoldable pub run : ChangedInner → List Call → ChangedInner
run c [] = c
run c (set_value id v ∷ ks) = run (set c id v).0 ks
run c (take_value last ∷ ks) = run (get c last).0 ks

unfoldable pub all_taken : ℕ → ChangedInner → List Call → List Bytes
all_taken id c [] = []
all_taken id c (set_value key v ∷ ks) = all_taken id (set c key v).0 ks
all_taken id c (take_value last ∷ ks) = taken id (get c last).1 ++ all_taken id (get c last).0 ks

-- The id is registered and keeps a queue of these values.
abbrev pub Queues : ChangedInner → ℕ → List Bytes → Type 0
Queues c id vs = (c.registered id ≡ true) × (c.values id ≡ some (queue vs))

-- An update of another id.
other_put :
    (c : ChangedInner) (key id : ℕ) (o : Option Signal) (vs : List Bytes)
    → (id == key) ≡ false
    → Queues c id vs
    → Queues (record c { values = put c.values key o }) id vs
other_put c key id o vs ne q = (q.0, put_other c.values id key o ne ∙ q.1)

differs :
    (c : ChangedInner) (key id : ℕ) (vs : List Bytes)
    → ((id == key) ≡ true → c.values key ≡ some (queue vs) → Path ℕ 0 1)
    → c.values id ≡ some (queue vs)
    → (id == key) ≡ false
differs c key id vs h q = elim (Bool-cases (id == key)) [
  | inr e ↦ e
  | inl e ↦ absurd (omega (arith, h e (ap c.values (sym (==_to id key e)) ∙ q)))
]

taken_same : (id key : ℕ) (v : Bytes) → (id == key) ≡ true → taken id (some (key, v)) ≡ v ∷ []
taken_same id key v e = rw e refl

taken_other : (id key : ℕ) (v : Bytes) → (id == key) ≡ false → taken id (some (key, v)) ≡ []
taken_other id key v e = rw e refl

-- What stays of a queue after an answer.
abbrev Remains : ChangedInner → Answer → ℕ → List Bytes → Type 0
Remains c r id vs = (ws : List Bytes) × Queues r.0 id ws × (vs ≡ taken id r.1 ++ ws)

single-Remains :
    (c : ChangedInner) (key id : ℕ) (v : Bytes) (xs : List ℕ) (vs : List Bytes)
    → c.values key ≡ some (single v)
    → Queues c id vs
    → Remains c (answer (record c { values = put c.values key none; indexes = xs }) key v) id vs
single-Remains c key id v xs vs e q =
    let ne =
      differs c key id vs (λ _ k. let clash : some (single v) ≡ some (queue vs) = sym e ∙ k in cc)
        q.1 in
    let d = other_put c key id none vs ne q in
    (vs, (d.0, d.1), ap (λ (t : List Bytes). t ++ vs) (sym (taken_other id key v ne)))

queue-Remains :
    (c : ChangedInner) (key id : ℕ) (v : Bytes) (xs : List ℕ) (ws vs : List Bytes)
    → c.values key ≡ some (queue (v ∷ ws))
    → Queues c id vs
    → Remains c
        (answer (record c { indexes = xs; values = put c.values key (some (queue ws)) }) key v)
        id
        vs
queue-Remains c key id v xs ws vs e q = elim (Bool-cases (id == key)) [
  | inl same ↦
      let whole : some (queue vs) ≡ some (queue (v ∷ ws)) =
        sym q.1 ∙ ap c.values (==_to id key same) ∙ e in
      let parts : vs ≡ v ∷ ws = cc in
      (
        ws,
        (q.0, put_same c.values id key (some (queue ws)) same),
        parts ∙ ap (λ (t : List Bytes). t ++ ws) (sym (taken_same id key v same)),
      )
  | inr ne ↦
      let d = other_put c key id (some (queue ws)) vs ne q in
      (vs, (d.0, d.1), ap (λ (t : List Bytes). t ++ vs) (sym (taken_other id key v ne)))
]

emptied_queue :
    (c : ChangedInner) (key id : ℕ) (vs : List Bytes)
    → c.values key ≡ some (queue [])
    → Queues c id vs
    → put c.values key (some (queue [])) id ≡ some (queue vs)
emptied_queue c key id vs e q = elim (Bool-cases (id == key)) [
  | inl same ↦
      put_same c.values id key (some (queue [])) same
      ∙ sym e
      ∙ ap c.values (sym (==_to id key same))
      ∙ q.1
  | inr ne ↦ put_other c.values id key (some (queue [])) ne ∙ q.1
]

Loop-Remains :
    (c : ChangedInner) (xs ys : List ℕ) (r : Answer)
    → Loop c xs ys r
    → (id : ℕ) (vs : List Bytes) → Queues c id vs
    → Remains c r id vs
Loop-Remains _ _ _ _ (nothing c xs) id vs q = (vs, q, refl)
Loop-Remains _ _ _ _ (blocked c xs rest key r b l) id vs q =
    Loop-Remains c (xs ++ key ∷ []) rest r l id vs q
Loop-Remains _ _ _ _ (gone c xs rest key r b g l) id vs q =
    let ne : (id == key) ≡ false = elim (Bool-cases (id == key)) [
      | inr ne ↦ ne
      | inl same ↦
          let clash : true ≡ false = sym q.0 ∙ ap c.registered (==_to id key same) ∙ g in cc
    ] in
    Loop-Remains _ xs rest r l id vs (other_put c key id none vs ne q)
Loop-Remains _ _ _ _ (stale c xs rest key r b g e l) id vs q = Loop-Remains _ xs rest r l id vs q
Loop-Remains _ _ _ _ (empty c xs rest key r b g e l) id vs q =
    Loop-Remains _ xs rest r l id vs (q.0, emptied_queue c key id vs e q)
Loop-Remains _ _ _ _ (got_single c xs rest key v b g e) id vs q =
    single-Remains c key id v (retain (λ x. not (x == key)) (xs ++ rest)) vs e q
Loop-Remains _ _ _ _ (got_queue c xs rest key v ws b g e) id vs q =
    queue-Remains c key id v (xs ++ rest) ws vs e q

get-Remains :
    (c : ChangedInner) (last : Option ℕ) (id : ℕ) (vs : List Bytes)
    → Queues c id vs
    → Remains c (get c last) id vs
unfolding get
get-Remains c none id vs q =
    Loop-Remains c [] c.indexes (get_from c [] c.indexes) (get_from-Loop c [] c.indexes) id vs q
get-Remains c (some key) id vs q =
    let d = unblock c (some key) in
    Loop-Remains d [] c.indexes (get_from d [] c.indexes) (get_from-Loop d [] c.indexes) id vs q

set_on :
    (c : ChangedInner) (key : ℕ) (v : Bytes)
    → c.registered key ≡ true
    → (set c key v).0 ≡ record c {
      indexes = c.indexes ++ key ∷ [];
      values = put c.values key (some (entry (c.values key) v));
    }
unfolding set
set_on c key v g = rw (set, g) refl

set_off : (c : ChangedInner) (key : ℕ) (v : Bytes) → c.registered key ≡ false → (set c key v).0 ≡ c
unfolding set
set_off c key v g = rw (set, g) refl

set-Queues_other :
    (c : ChangedInner) (key id : ℕ) (v : Bytes) (vs : List Bytes)
    → (id == key) ≡ false
    → Queues c id vs
    → Queues (set c key v).0 id vs
set-Queues_other c key id v vs ne q = elim (Bool-cases (c.registered key)) [
  | inl g ↦
      let d = other_put c key id (some (entry (c.values key) v)) vs ne q in
      subst (λ (x : ChangedInner). Queues x id vs) (sym (set_on c key v g)) (d.0, d.1)
  | inr g ↦ subst (λ (x : ChangedInner). Queues x id vs) (sym (set_off c key v g)) q
]

set-Queues_same :
    (c : ChangedInner) (key id : ℕ) (v : Bytes) (vs : List Bytes)
    → (id == key) ≡ true
    → Queues c id vs
    → Queues (set c key v).0 id (vs ++ v ∷ [])
set-Queues_same c key id v vs same q =
    let e = ==_to id key same in
    subst (λ (x : ChangedInner). Queues x id (vs ++ v ∷ []))
      (sym (set_on c key v (ap c.registered (sym e) ∙ q.0)))
      (
        q.0,
        put_same c.values id key (some (entry (c.values key) v)) same
            ∙ ap (λ (o : Option Signal). some (entry o v)) (ap c.values (sym e) ∙ q.1),
      )

set-Queues :
    (c : ChangedInner) (key id : ℕ) (v : Bytes) (vs : List Bytes)
    → Queues c id vs
    → Queues (set c key v).0 id (vs ++ (if id == key then v ∷ [] else []))
set-Queues c key id v vs q = elim (Bool-cases (id == key)) [
  | inr ne ↦
      let kept =
        subst (Queues (set c key v).0 id) (sym (append-nil vs))
          (set-Queues_other c key id v vs ne q) in
      rw ne kept
  | inl same ↦ let kept = set-Queues_same c key id v vs same q in rw same kept
]

-- From a registered id with a queue, through any sequence of sets and gets of any ids: what has
-- been taken from the id, followed by what its queue still holds, is what the queue held before,
-- followed by what has been set, in that order.
pub queue_order :
    (id : ℕ) (c : ChangedInner) (ks : List Call) (vs : List Bytes)
    → Queues c id vs
    → (ws : List Bytes) × Queues (run c ks) id ws × (all_taken id c ks ++ ws ≡ vs ++ all_set id ks)
unfolding run all_taken
queue_order id c [] vs q = (vs, q, sym (append-nil vs))
queue_order id c (set_value key v ∷ ks) vs q =
    let (ws, p, e) =
      queue_order id (set c key v).0 ks (vs ++ (if id == key then v ∷ [] else []))
        (set-Queues c key id v vs q) in
    (ws, p, e ∙ append_assoc vs (if id == key then v ∷ [] else []) (all_set id ks))
queue_order id c (take_value last ∷ ks) vs q =
    let (us, p, e) = get-Remains c last id vs q in
    let (ws, p', e') = queue_order id (get c last).0 ks us p in
    (
      ws,
      p',
      append_assoc (taken id (get c last).1) (all_taken id (get c last).0 ks) ws
          ∙ ap (λ (t : List Bytes). taken id (get c last).1 ++ t) e'
          ∙ sym (append_assoc (taken id (get c last).1) us (all_set id ks))
          ∙ ap (λ (t : List Bytes). t ++ all_set id ks) (sym e),
    )
