-- ===== src/Tables/Written.antt =====
-- Maps of bytes and of the keys and values that were serialized to them, for server/map_server.rs
-- and client/value_map.rs.
use egui_states.Prelude.{
  ℕ, ◌≡◌, refl, ap, sym, ◌∙◌, ◌++◌, Bytes, Bool, true, false, List, some, [], ◌∷◌, length,
  Bool-cases, inl, inr,
}
use egui_states.Outcome.{ok}
use egui_states.Protocol.Codec.{Codec, IsLawful}
use egui_states.Tables.{flat}
use egui_states.Tables.Entries.{
  insert_by, erase_by, refold, IsEquality, same_bytes, same_bytes-IsEquality,
}
use egui_states.Tables.Client.{MapState, read_entries}

module _ {K V : Type 0} (keys : Codec K) (values : Codec V) where
  -- Each entry of the one map is the bytes of that of the other, in the same order.
  pub data Written : List (Bytes × Bytes) → List (K × V) → Type 0 where
    nothing : Written [] []
    one_more :
        {bk bv : Bytes} {k : K} {v : V} {m : List (Bytes × Bytes)} {n : List (K × V)}
        → keys.encode k ≡ some bk
        → values.encode v ≡ some bv
        → Written m n
        → Written ((bk, bv) ∷ m) ((k, v) ∷ n)

  module _ (equal : K → K → Bool) (eq : IsEquality equal) (law : IsLawful keys) where
    -- The bytes of keys are equal exactly if the keys are.
    same_keys :
        (j k : K) (bj bk : Bytes)
        → keys.encode j ≡ some bj
        → keys.encode k ≡ some bk
        → equal j k ≡ same_bytes bj bk
    same_keys j k bj bk ej ek = elim (Bool-cases (equal j k)) [
      | inl h ↦
          let same : some bj ≡ some bk = sym ej ∙ ap keys.encode (eq.equal_to j k h) ∙ ek in
          let bytes : bj ≡ bk = cc in
          h ∙ sym (ap (same_bytes bj) (sym bytes) ∙ same_bytes-IsEquality.equal_refl bj)
      | inr h ↦ elim (Bool-cases (same_bytes bj bk)) [
        | inr g ↦ h ∙ sym g
        | inl g ↦
            let bytes : bj ≡ bk = same_bytes-IsEquality.equal_to bj bk g in
            let pair =
              sym (law.take_from-encode j bj [] ej)
              ∙ ap (λ (b : Bytes). keys.take_from (b ++ [])) bytes
              ∙ law.take_from-encode k bk [] ek in
            let same : j ≡ k = cc in
            let no : true ≡ false = sym (eq.equal_refl j) ∙ ap (equal j) same ∙ h in cc
      ]
    ]

    pub Written-insert_by :
        {m : List (Bytes × Bytes)} {n : List (K × V)} (k : K) (v : V) (bk bv : Bytes)
        → Written m n
        → keys.encode k ≡ some bk
        → values.encode v ≡ some bv
        → Written (insert_by same_bytes bk bv m) (insert_by equal k v n)
    Written-insert_by k v bk bv nothing ek ev = one_more ek ev nothing
    Written-insert_by k v bk bv (one_more {bk = bj} {k = j} dk dv w) ek ev =
        elim (Bool-cases (equal j k)) [
          | inl h ↦ rw (h, sym (same_keys j k bj bk dk ek) ∙ h) (one_more dk ev w)
          | inr h ↦
              rw (h, sym (same_keys j k bj bk dk ek) ∙ h)
                (one_more dk dv (Written-insert_by k v bk bv w ek ev))
        ]

    pub Written-erase_by :
        {m : List (Bytes × Bytes)} {n : List (K × V)} (k : K) (bk : Bytes)
        → Written m n
        → keys.encode k ≡ some bk
        → Written (erase_by same_bytes bk m) (erase_by equal k n)
    Written-erase_by k bk nothing ek = nothing
    Written-erase_by k bk (one_more {bk = bj} {k = j} dk dv w) ek = elim (Bool-cases (equal j k)) [
      | inl h ↦ rw (h, sym (same_keys j k bj bk dk ek) ∙ h) w
      | inr h ↦
          rw (h, sym (same_keys j k bj bk dk ek) ∙ h) (one_more dk dv (Written-erase_by k bk w ek))
    ]

    -- Reading a whole map back.
    pub read_entries-Written :
        {m : List (Bytes × Bytes)} {n : List (K × V)} (item_size : ℕ) (values_law : IsLawful values)
        (c : MapState K V) (acc : List (Bytes × Bytes))
        → Written acc c.dict
        → Written m n
        → (d : List (K × V)) × (read_entries keys values equal item_size (length m) c (flat m)
            ≡ (record c { dict = d }, ok tt))
          × Written (refold same_bytes acc m) d
    unfolding read_entries
    read_entries-Written item_size vl c acc done nothing = (c.dict, refl, done)
    read_entries-Written item_size vl c acc done (one_more {bk} {bv} {k} {v} {m} dk dv w) =
        let (d, read, written) =
          read_entries-Written item_size vl (record c { dict = insert_by equal k v c.dict })
            (insert_by same_bytes bk bv acc) (Written-insert_by k v bk bv done dk dv) w in
        (
          d,
          rw (law.take_from-encode k bk (bv ++ flat m) dk)
              (rw (vl.take_from-encode v bv (flat m) dv) read),
          written,
        )
