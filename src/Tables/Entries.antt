-- ===== src/Tables/Entries.antt =====
-- The hash maps of server/map_server.rs and client/value_map.rs as association lists, over keys
-- with an equality test.
use egui_states.Prelude.{
  ℕ, ◌≡◌, refl, ap, ap₂, sym, ◌∙◌, subst, ◌++◌, append-nil, append_assoc, Bytes, Bool, true, false,
  List, Option, none, some, [], ◌∷◌, ◌==◌, ◌&&◌, ==_refl, ==_to, if◌then◌else◌, Bool-cases, inl,
  inr,
}

module _ {K V : Type 0} (equal : K → K → Bool) where
  -- `get`
  abbrev pub find_by : K → List (K × V) → Option V
  find_by k [] = none
  find_by k (p ∷ m) = let rest = find_by k m in if equal p.0 k then some p.1 else rest

  -- `insert`: the key that is there stays.
  abbrev pub insert_by : K → V → List (K × V) → List (K × V)
  insert_by k v [] = (k, v) ∷ []
  insert_by k v (p ∷ m) =
      let rest = insert_by k v m in if equal p.0 k then (p.0, v) ∷ m else p ∷ rest

  -- `remove`
  abbrev pub erase_by : K → List (K × V) → List (K × V)
  erase_by k [] = []
  erase_by k (p ∷ m) = let rest = erase_by k m in if equal p.0 k then m else p ∷ rest

  -- No entry has the key.
  abbrev pub IsNew : K → List (K × V) → Type 0
  IsNew k [] = Unit
  IsNew k (p ∷ m) = (equal p.0 k ≡ false) × IsNew k m

  -- The key differs from those of all entries.
  abbrev pub Differs : K → List (K × V) → Type 0
  Differs k [] = Unit
  Differs k (p ∷ m) = (equal k p.0 ≡ false) × Differs k m

  -- The keys of a hash map differ.
  abbrev pub IsDistinct : List (K × V) → Type 0
  IsDistinct [] = Unit
  IsDistinct (p ∷ m) = Differs p.0 m × IsDistinct m

  pub insert_by_new :
      (k : K) (v : V) (m : List (K × V)) → IsNew k m → insert_by k v m ≡ m ++ ((k, v) ∷ [])
  insert_by_new k v [] h = refl
  insert_by_new k v (p ∷ m) (e, h) = rw e (ap (◌∷◌ p) (insert_by_new k v m h))

  IsNew-append :
      (k : K) (p : K × V) (m : List (K × V))
      → IsNew k m
      → equal p.0 k ≡ false
      → IsNew k (m ++ (p ∷ []))
  IsNew-append k p [] h e = (e, tt)
  IsNew-append k p (q ∷ m) (g, h) e = (g, IsNew-append k p m h e)

  Differs-insert_by :
      (j k : K) (v : V) (m : List (K × V))
      → Differs j m
      → equal j k ≡ false
      → Differs j (insert_by k v m)
  Differs-insert_by j k v [] h e = (e, tt)
  Differs-insert_by j k v (p ∷ m) (g, h) e = elim (Bool-cases (equal p.0 k)) [
    | inl here ↦ rw here (g, h)
    | inr there ↦ rw there (g, Differs-insert_by j k v m h e)
  ]

  Differs-erase_by : (j k : K) (m : List (K × V)) → Differs j m → Differs j (erase_by k m)
  Differs-erase_by j k [] h = tt
  Differs-erase_by j k (p ∷ m) (g, h) = elim (Bool-cases (equal p.0 k)) [
    | inl here ↦ rw here h
    | inr there ↦ rw there (g, Differs-erase_by j k m h)
  ]

  pub insert_by-IsDistinct :
      (k : K) (v : V) (m : List (K × V)) → IsDistinct m → IsDistinct (insert_by k v m)
  insert_by-IsDistinct k v [] h = (tt, tt)
  insert_by-IsDistinct k v (p ∷ m) (g, h) = elim (Bool-cases (equal p.0 k)) [
    | inl here ↦ rw here (g, h)
    | inr there ↦ rw there (Differs-insert_by p.0 k v m g there, insert_by-IsDistinct k v m h)
  ]

  pub erase_by-IsDistinct : (k : K) (m : List (K × V)) → IsDistinct m → IsDistinct (erase_by k m)
  erase_by-IsDistinct k [] h = tt
  erase_by-IsDistinct k (p ∷ m) (g, h) = elim (Bool-cases (equal p.0 k)) [
    | inl here ↦ rw here h
    | inr there ↦ rw there (Differs-erase_by p.0 k m g, erase_by-IsDistinct k m h)
  ]

  -- Every entry of the second map has a key that is new to the first.
  abbrev AllNew : List (K × V) → List (K × V) → Type 0
  AllNew acc [] = Unit
  AllNew acc (p ∷ m) = IsNew p.0 acc × AllNew acc m

  AllNew-append :
      (acc : List (K × V)) (p : K × V) (m : List (K × V))
      → AllNew acc m
      → Differs p.0 m
      → AllNew (acc ++ (p ∷ [])) m
  AllNew-append acc p [] h d = tt
  AllNew-append acc p (q ∷ m) (g, h) (e, d) =
      (IsNew-append q.0 p acc g e, AllNew-append acc p m h d)

  -- The entries of a map, inserted one after the other.
  abbrev pub refold : List (K × V) → List (K × V) → List (K × V)
  refold acc [] = acc
  refold acc (p ∷ m) = refold (insert_by p.0 p.1 acc) m

  refold_all : (acc m : List (K × V)) → AllNew acc m → IsDistinct m → refold acc m ≡ acc ++ m
  refold_all acc [] h d = sym (append-nil acc)
  refold_all acc (p ∷ m) (g, h) (e, d) =
      ap (λ (x : List (K × V)). refold x m) (insert_by_new p.0 p.1 acc g)
      ∙ refold_all (acc ++ (p ∷ [])) m (AllNew-append acc p m h e) d
      ∙ append_assoc acc (p ∷ []) m

  all_new : (m : List (K × V)) → AllNew [] m
  all_new [] = tt
  all_new (p ∷ m) = (tt, all_new m)

  -- A map is what its entries make, inserted into the empty one.
  pub refold_lem : (m : List (K × V)) → IsDistinct m → refold [] m ≡ m
  refold_lem m d = refold_all [] m (all_new m) d

-- The test of a derived `Eq`.
pub record IsEquality {K : Type 0} (equal : K → K → Bool) : Type 0 where
  pub equal_refl : (a : K) → equal a a ≡ true
  pub equal_to : (a b : K) → equal a b ≡ true → a ≡ b

abbrev pub same_bytes : Bytes → Bytes → Bool
same_bytes [] [] = true
same_bytes [] (y ∷ ys) = false
same_bytes (x ∷ xs) [] = false
same_bytes (x ∷ xs) (y ∷ ys) = x == y && same_bytes xs ys

same_refl : (a : Bytes) → same_bytes a a ≡ true
same_refl [] = refl
same_refl (x ∷ xs) = rw (==_refl x) (same_refl xs)

both : (a b : Bool) → a && b ≡ true → (a ≡ true) × (b ≡ true)
both true b h = (refl, h)
both false b h = cc

same_to : (a b : Bytes) → same_bytes a b ≡ true → a ≡ b
same_to [] [] h = refl
same_to [] (y ∷ ys) h = cc
same_to (x ∷ xs) [] h = cc
same_to (x ∷ xs) (y ∷ ys) h =
    let (first, rest) = both (x == y) (same_bytes xs ys) h in
    ap₂ (λ (a : ℕ) (rest : Bytes). a ∷ rest) (==_to x y first) (same_to xs ys rest)

pub same_bytes-IsEquality : IsEquality same_bytes
same_bytes-IsEquality = record { equal_refl = same_refl; equal_to = same_to }

equal_flip :
    {K : Type 0} (equal : K → K → Bool) (law : IsEquality equal) (a b : K)
    → equal a b ≡ true
    → equal b a ≡ true
equal_flip equal law a b e = ap (λ c. equal c a) (sym (law.equal_to a b e)) ∙ law.equal_refl a

-- `get` after the changes of a map.
module _ {K V : Type 0} (equal : K → K → Bool) (law : IsEquality equal) where
  not_found : (j : K) (m : List (K × V)) → Differs equal j m → find_by equal j m ≡ none
  not_found j [] h = refl
  not_found j (p ∷ m) (e, h) = elim (Bool-cases (equal p.0 j)) [
    | inl same ↦ absurd (cc (e, equal_flip equal law p.0 j same))
    | inr other ↦ rw other (not_found j m h)
  ]

  pub find-insert_by :
      (k j : K) (v : V) (m : List (K × V))
      → find_by equal j (insert_by equal k v m) ≡ (if equal k j then some v else find_by equal j m)
  find-insert_by k j v [] = refl
  find-insert_by k j v (p ∷ m) = elim (Bool-cases (equal p.0 k)) [
    | inl here ↦
        let same = law.equal_to p.0 k here in
        rw here
          (elim (Bool-cases (equal k j)) [ inl e ↦ rw (same, e) refl | inr e ↦ rw (same, e) refl ])
    | inr there ↦ rw there (elim (Bool-cases (equal p.0 j)) [
      | inr e ↦ rw e (find-insert_by k j v m)
      | inl e ↦ elim (Bool-cases (equal k j)) [
        | inr d ↦ rw (e, d) refl
        | inl d ↦ let key = law.equal_to k j d in absurd (cc (there, e, ap (equal p.0) key))
      ]
    ])
  ]

  pub find-erase_by :
      (k j : K) (m : List (K × V))
      → IsDistinct equal m
      → find_by equal j (erase_by equal k m) ≡ (if equal k j then none else find_by equal j m)
  find-erase_by k j [] h = elim (Bool-cases (equal k j)) [ inl e ↦ rw e refl | inr e ↦ rw e refl ]
  find-erase_by k j (p ∷ m) (g, h) = elim (Bool-cases (equal p.0 k)) [
    | inl here ↦
        let same = law.equal_to p.0 k here in
        rw here (elim (Bool-cases (equal k j)) [
          | inl e ↦
              rw e
                (not_found j m (subst (λ (a : K). Differs equal a m) (same ∙ law.equal_to k j e) g))
          | inr e ↦ rw (same, e) refl
        ])
    | inr there ↦ rw there (elim (Bool-cases (equal p.0 j)) [
      | inr e ↦ rw e (find-erase_by k j m h)
      | inl e ↦ elim (Bool-cases (equal k j)) [
        | inr d ↦ rw (e, d) refl
        | inl d ↦ let key = law.equal_to k j d in absurd (cc (there, e, ap (equal p.0) key))
      ]
    ])
  ]
