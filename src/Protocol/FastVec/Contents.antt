-- ===== src/Protocol/FastVec/Contents.antt =====
-- The bytes of a `FastVec` of serialization.rs.
use egui_states.Prelude.{
  ℕ, ◌+◌, ◌≤◌, ◌<◌, ◌≡◌, refl, ap, ap₂, sym, ◌∙◌, subst, ◌&&◌, lt→leb_false, Bytes, Bool, true,
  false, List, [], ◌∷◌, ◌++◌, leb, ltb, if◌then◌else◌, length, take, drop, arith, Bool-cases, inl,
  inr, le→leb, leb→le, ltb→lt, leb_false→lt, ltb_false→le, append_assoc, append-nil, length-append,
  length-take, length-drop, take-append, take_all,
}
use egui_states.Outcome.{ok, ◌>>=◌}
use egui_states.Protocol.FastVec.{
  FastVec, heap, stack, Result, copy_at, first_of, spilled, as_ref, reserve_exact,
  extend_from_slice, extend_from_data, try_push, Call, push, extend, append, reserve, run_call,
  run_calls,
}

abbrev pub contents : FastVec → Bytes
contents (heap xs) = xs
contents (stack xs n) = take n xs

-- The array has its size, and no more of it is in use.
abbrev pub IsWhole : ℕ → FastVec → Type 0
IsWhole size (heap xs) = Unit
IsWhole size (stack xs n) = (length xs ≡ size) × (n ≤ size)

abbrev pub written : Call → Bytes
written (push b) = b ∷ []
written (extend xs) = xs
written (append w) = contents w
written (reserve n) = []

abbrev pub all_written : List Call → Bytes
all_written [] = []
all_written (c ∷ cs) = written c ++ all_written cs

-- A vector that is appended is whole, whatever its size.
abbrev pub IsSound : Call → Type 0
IsSound (push b) = Unit
IsSound (extend xs) = Unit
IsSound (append w) = (m : ℕ) × IsWhole m w
IsSound (reserve n) = Unit

abbrev pub AllSound : List Call → Type 0
AllSound [] = Unit
AllSound (c ∷ cs) = IsSound c × AllSound cs

abbrev copied : Bytes → ℕ → Bytes → Bytes
copied old n xs = take n old ++ (xs ++ drop (n + length xs) old)

copied_front :
    (old : Bytes) (n : ℕ) (xs : Bytes)
    → n ≤ length old
    → take (n + length xs) (copied old n xs) ≡ take n old ++ xs
copied_front old n xs inside =
    let front : length (take n old ++ xs) ≡ n + length xs =
      omega (arith, length-append (take n old) xs, length-take n old) in
    ap (take (n + length xs)) (sym (append_assoc (take n old) xs (drop (n + length xs) old)))
    ∙ ap (λ (k : ℕ). take k ((take n old ++ xs) ++ drop (n + length xs) old)) (sym front)
    ∙ take-append (take n old ++ xs) (drop (n + length xs) old)

copied_sized :
    (old : Bytes) (n : ℕ) (xs : Bytes)
    → n + length xs ≤ length old
    → length (copied old n xs) ≡ length old
copied_sized old n xs inside = omega (
  arith,
  length-append (take n old) (xs ++ drop (n + length xs) old),
  length-append xs (drop (n + length xs) old),
  length-take n old,
  length-drop (n + length xs) old,
)

abbrev pub on_stack : FastVec → Bool
on_stack (heap xs) = false
on_stack (stack xs n) = true

and_assoc : (a b c : Bool) → (a && b) && c ≡ a && (b && c)
and_assoc true b c = refl
and_assoc false b c = refl

-- The room that a call asks for.
abbrev pub room : Call → ℕ
room (reserve n) = n
room c = length (written c)

module _ (size : ℕ) where
  -- A vector with some more bytes, in the array if it was there and the room asked for is.
  abbrev Appended : FastVec → Bytes → ℕ → Result FastVec → Type 0
  Appended v xs asked r =
      (w : FastVec) × (r ≡ ok w)
      × IsWhole size w
      × (contents w ≡ contents v ++ xs)
      × (on_stack w ≡ on_stack v && leb (length (contents v) + asked) size)

  used : (old : Bytes) (n : ℕ) → length old ≡ size → n ≤ size → length (take n old) ≡ n
  used old n whole inside = omega (arith, length-take n old)

  first_lem : (old : Bytes) (n m : ℕ) → length old ≡ m → n ≤ m → first_of old n ≡ ok (take n old)
  first_lem old n m whole inside = rw (le→leb n (length old) (omega arith)) refl

  spilled-Appended :
      (old : Bytes) (n asked : ℕ) (xs : Bytes)
      → length old ≡ size
      → n ≤ size
      → size < n + asked
      → Appended (stack old n) xs asked (spilled size old n xs)
  spilled-Appended old n asked xs whole inside over = (
    heap (take n old ++ xs),
    rw (first_lem old n size whole inside) refl,
    tt,
    refl,
    rw (used old n whole inside) (rw (lt→leb_false (n + asked) size over) refl),
  )

  placed-Appended :
      (old : Bytes) (n : ℕ) (xs : Bytes)
      → length old ≡ size
      → n + length xs ≤ size
      → (a : Bytes) × (copy_at old n xs ≡ ok a)
        × Appended (stack old n) xs (length xs) (ok (stack a (n + length xs)))
  placed-Appended old n xs whole fits = (
    copied old n xs,
    rw (le→leb (n + length xs) (length old) (omega arith)) refl,
    (
      stack (copied old n xs) (n + length xs),
      refl,
      (copied_sized old n xs (omega arith) ∙ whole, fits),
      copied_front old n xs (omega arith),
      rw (used old n whole (omega arith)) (rw (le→leb (n + length xs) size fits) refl),
    ),
  )

  extend_from_slice-Appended :
      (v : FastVec) (xs : Bytes)
      → IsWhole size v
      → Appended v xs (length xs) (extend_from_slice size v xs)
  unfolding extend_from_slice
  extend_from_slice-Appended (heap ys) xs whole = (heap (ys ++ xs), refl, tt, refl, refl)
  extend_from_slice-Appended (stack old n) xs (whole, inside) =
      elim (Bool-cases (leb (n + length xs) size)) [
        | inl fits ↦
            let (a, made, done) = placed-Appended old n xs whole (leb→le _ _ fits) in
            rw fits (rw made done)
        | inr over ↦
            rw over (spilled-Appended old n (length xs) xs whole inside (leb_false→lt _ _ over))
      ]

  extend_from_data-Appended :
      (v w : FastVec) (m : ℕ)
      → IsWhole size v
      → IsWhole m w
      → Appended v (contents w) (length (contents w)) (extend_from_data size v w)
  unfolding extend_from_data as_ref
  extend_from_data-Appended (heap ys) (heap xs) m whole other =
      (heap (ys ++ xs), refl, tt, refl, refl)
  extend_from_data-Appended (heap ys) (stack array k) m whole (sized, inside) =
      rw (first_lem array k m sized inside) (heap (ys ++ take k array), refl, tt, refl, refl)
  extend_from_data-Appended (stack old n) (heap xs) m whole other =
      extend_from_slice-Appended (stack old n) xs whole
  extend_from_data-Appended (stack old n) (stack array k) m whole (sized, inside) =
      let same : length (take k array) ≡ k = omega (arith, length-take k array) in
      rw (first_lem array k m sized inside) (
        subst
          (λ (j : ℕ). Appended (stack old n) (take k array) (length (take k array)) (
            if leb (n + j) size
            then (copy_at old n (take k array) >>= λ a. ok (stack a (n + j)))
            else spilled size old n (take k array)))
          same (extend_from_slice-Appended (stack old n) (take k array) whole))

  try_push-Appended :
      (v : FastVec) (b : ℕ) → IsWhole size v → Appended v (b ∷ []) 1 (try_push size v b)
  unfolding try_push
  try_push-Appended (heap ys) b whole = (heap (ys ++ (b ∷ [])), refl, tt, refl, refl)
  try_push-Appended (stack old n) b (whole, inside) = elim (Bool-cases (ltb n size)) [
    | inl fits ↦
        let lt = ltb→lt _ _ fits in
        let (a, made, done) = placed-Appended old n (b ∷ []) whole (omega arith) in
        rw fits (rw made done)
    | inr full ↦
        let all : take n old ≡ old = take_all n old (omega (arith, ltb_false→le _ _ full)) in
        let over : size < n + 1 = omega (arith, ltb_false→le _ _ full) in
        rw full (
          heap (old ++ (b ∷ [])),
          refl,
          tt,
          ap (λ (o : Bytes). o ++ (b ∷ [])) (sym all),
          rw (used old n whole inside) (rw (lt→leb_false (n + 1) size over) refl),
        )
  ]

  reserve_exact-Appended :
      (v : FastVec) (more : ℕ) → IsWhole size v → Appended v [] more (reserve_exact size v more)
  unfolding reserve_exact
  reserve_exact-Appended (heap ys) more whole = (heap ys, refl, tt, sym (append-nil ys), refl)
  reserve_exact-Appended (stack old n) more (whole, inside) =
      elim (Bool-cases (ltb size (n + more))) [
        | inl over ↦ rw over (spilled-Appended old n more [] whole inside (ltb→lt _ _ over))
        | inr fits ↦ rw fits (
          stack old n,
          refl,
          (whole, inside),
          sym (append-nil (take n old)),
          rw (used old n whole inside) (rw (le→leb (n + more) size (ltb_false→le _ _ fits)) refl),
        )
      ]

  run_call-Appended :
      (v : FastVec) (c : Call)
      → IsWhole size v
      → IsSound c
      → Appended v (written c) (room c) (run_call size v c)
  unfolding run_call
  run_call-Appended v (push b) whole sound = try_push-Appended v b whole
  run_call-Appended v (extend xs) whole sound = extend_from_slice-Appended v xs whole
  run_call-Appended v (append w) whole (m, sound) = extend_from_data-Appended v w m whole sound
  run_call-Appended v (reserve n) whole sound = reserve_exact-Appended v n whole

  -- Every call finds room in the array.
  abbrev pub all_fit : ℕ → List Call → Bool
  all_fit n [] = true
  all_fit n (c ∷ cs) = leb (n + room c) size && all_fit (n + length (written c)) cs

  -- Any calls on a vector whose array has its size, where the vectors that are appended have theirs,
  -- return a vector whose array has its size, with the bytes from before followed by all that were
  -- written. The bytes are in the array exactly if they were and every call found room in it.
  pub run_calls-contents :
      (v : FastVec) (cs : List Call)
      → IsWhole size v
      → AllSound cs
      → (w : FastVec) × (run_calls size v cs ≡ ok w)
        × IsWhole size w
        × (contents w ≡ contents v ++ all_written cs)
        × (on_stack w ≡ on_stack v && all_fit (length (contents v)) cs)
  unfolding run_calls
  run_calls-contents v [] whole sound =
      (v, refl, whole, sym (append-nil (contents v)), ground arith)
  run_calls-contents v (c ∷ cs) whole (sound, more) =
      let (w, done, whole1, has, placed) = run_call-Appended v c whole sound in
      let (u, rest, whole2, has2, placed2) = run_calls-contents w cs whole1 more in
      let sum : length (contents w) ≡ length (contents v) + length (written c) =
        ap length has ∙ length-append (contents v) (written c) in
      (
        u,
        rw done rest,
        whole2,
        has2
            ∙ ap (λ (o : Bytes). o ++ all_written cs) has
            ∙ append_assoc (contents v) (written c) (all_written cs),
        placed2
            ∙ ap₂ (λ a (n : ℕ). a && all_fit n cs) placed sum
            ∙ and_assoc (on_stack v) (leb (length (contents v) + room c) size) _,
      )
