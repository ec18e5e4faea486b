-- ===== src/Lists/Written.antt =====
-- Lists of bytes and of the values that were serialized to them, for server/vec_server.rs and
-- client/value_vec.rs.
use egui_states.Prelude.{
  ℕ, ◌≡◌, refl, ap, sym, ◌∙◌, ◌++◌, append-nil, append_assoc, Bytes, List, some, [], ◌∷◌, arith,
  length, zero, suc,
}
use egui_states.Outcome.{ok}
use egui_states.Protocol.Codec.{Codec, IsLawful}
use egui_states.Value.Client.{deserialize}
use egui_states.Lists.{set_nth, remove_nth, concat}
use egui_states.Lists.Client.{VecState, read_items}

module _ {T : Type 0} (wire : Codec T) where
  -- Each element of the one list is the bytes of that of the other.
  pub data Written : List Bytes → List T → Type 0 where
    nothing : Written [] []
    one_more :
        {b : Bytes} {t : T} {bs : List Bytes} {ts : List T}
        → wire.encode t ≡ some b
        → Written bs ts
        → Written (b ∷ bs) (t ∷ ts)

  pub Written-append :
      {bs : List Bytes} {ts : List T} (b : Bytes) (t : T)
      → Written bs ts
      → wire.encode t ≡ some b
      → Written (bs ++ b ∷ []) (ts ++ t ∷ [])
  Written-append b t nothing e = one_more e nothing
  Written-append b t (one_more d w) e = one_more d (Written-append b t w e)

  pub Written-length : {bs : List Bytes} {ts : List T} → Written bs ts → length bs ≡ length ts
  Written-length nothing = refl
  Written-length (one_more d w) = omega (arith, Written-length w)

  pub Written-set_nth :
      {bs : List Bytes} {ts : List T} (n : ℕ) (b : Bytes) (t : T)
      → Written bs ts
      → wire.encode t ≡ some b
      → Written (set_nth n b bs) (set_nth n t ts)
  Written-set_nth n b t nothing e = nothing
  Written-set_nth zero b t (one_more d w) e = one_more e w
  Written-set_nth (suc n) b t (one_more d w) e = one_more d (Written-set_nth n b t w e)

  pub Written-remove_nth :
      {bs : List Bytes} {ts : List T} (n : ℕ)
      → Written bs ts
      → Written (remove_nth n bs) (remove_nth n ts)
  Written-remove_nth n nothing = nothing
  Written-remove_nth zero (one_more d w) = w
  Written-remove_nth (suc n) (one_more d w) = one_more d (Written-remove_nth n w)

  module _ (law : IsLawful wire) (item_size : ℕ) where
    pub deserialize_lem : (t : T) (b : Bytes) → wire.encode t ≡ some b → deserialize wire b ≡ some t
    deserialize_lem t b e =
        ap (mathlib.Core.Option.map (λ (r : T × Bytes). r.0))
          (ap wire.take_from (sym (append-nil b)) ∙ law.take_from-encode t b [] e)

    -- Reading a whole list back.
    pub read_items-Written :
        {bs : List Bytes} {ts : List T} (c : VecState T)
        → Written bs ts
        → read_items wire item_size (length bs) c (concat bs)
          ≡ (record c { list = c.list ++ ts }, ok tt)
    unfolding read_items
    read_items-Written c nothing =
        ap (λ (ts : List T). (record c { list = ts }, ok tt)) (sym (append-nil c.list))
    read_items-Written c (one_more {b} {t} {bs} {ts} d w) =
        rw (law.take_from-encode t b (concat bs) d) (
          read_items-Written (record c { list = c.list ++ t ∷ [] }) w
          ∙ ap (λ (us : List T). (record c { list = us }, ok tt)) (append_assoc c.list (t ∷ []) ts))
