-- ===== src/Lists/Sending.antt =====
-- The messages of `ValueList` (server/vec_server.rs), and how the client's parser reads them.
use egui_states.Prelude.{
  ℕ, ◌^◌, ◌<◌, ◌≡◌, refl, ap, sym, ◌∙◌, ◌++◌, append-nil, Bytes, Bool, true, false, List, some, [],
  ◌∷◌, arith, ltb, length, Option-cases, inl, inr, as_u32,
}
use egui_states.Outcome.{Outcome, ok, err, fault}
use egui_states.Protocol.Headers.{ServerHeader, VecHeader, set, remove}
use egui_states.Protocol.Codec.{Codec, IsLawful}
use egui_states.Messages.{ServerMessage, read_all}
use egui_states.Messages.Frames.{read_all-Frames}
use egui_states.Lists.{
  ValueList, ListError, out_of_bounds, set_nth, remove_nth, vec_message, sent_if, then_change,
  set_item, remove_item,
}
use native.Mathlib.Nat.{mod-eq_of_lt}

module _ (codec : Codec ServerHeader) (lawful : IsLawful codec) (l : ValueList) where
  vec_message_inv :
      (update : Bool) (h : VecHeader) (body m : Bytes)
      → vec_message codec l update h body ≡ ok m
      → (b : Bytes) × (codec.encode
            (ServerHeader.value_vec l.id l.type_id update h (as_u32 (length body)))
          ≡ some b)
        × (m ≡ b ++ body)
  unfolding vec_message
  vec_message_inv update h body m e =
      elim (Option-cases
        (codec.encode (ServerHeader.value_vec l.id l.type_id update h (as_u32 (length body))))) [
          | inl q ↦ ground arith
          | inr q ↦ (q.0, q.1, ground arith)
        ]

  -- A message is read as the update that it was made from.
  pub message_read :
      (update : Bool) (h : VecHeader) (body m : Bytes)
      → vec_message codec l update h body ≡ ok m
      → length body < 2 ^ 32
      → read_all codec m ≡ ok (ServerMessage.value_vec l.id l.type_id update h body ∷ [])
  message_read update h body m e small =
      let (b, q, made) = vec_message_inv update h body m e in
      read_all-Frames codec lawful
        (ServerHeader.value_vec l.id l.type_id update h (as_u32 (length body)), body) [] m
        (
          b,
          [],
          q,
          sym (mod-eq_of_lt {n = length body} {m = 2 ^ 32} small),
          made ∙ ap (λ (x : Bytes). b ++ x) (sym (append-nil body)),
          refl,
        )

  pub sent_inv :
      (o : Outcome ListError Bytes) (m : Bytes) (changed : List Bytes)
      → (then_change codec l (sent_if codec l true o) changed).1 ≡ ok (m ∷ [])
      → (o ≡ ok m)
        × ((then_change codec l (sent_if codec l true o) changed).0 ≡ record l { list = changed })
  sent_inv (ok x) m changed e = (cc, refl)
  sent_inv (err x) m changed e = cc
  sent_inv fault m changed e = cc

module _ (codec : Codec ServerHeader) (lawful : IsLawful codec) (l : ValueList) where
  pub sent_once :
      (o : Outcome ListError Bytes) (m : Bytes) → sent_if codec l true o ≡ ok (m ∷ []) → o ≡ ok m
  sent_once (ok x) m e = cc
  sent_once (err x) m e = cc
  sent_once fault m e = cc

module _ (codec : Codec ServerHeader) (l : ValueList) (idx : ℕ) (value : Bytes)
    (update connected : Bool) where
  pub set_item_in :
      ltb idx (length l.list) ≡ true
      → set_item codec l idx value update connected
        ≡ then_change codec l
            (sent_if codec l connected (vec_message codec l update (set idx) value))
            (set_nth idx value l.list)
  unfolding set_item
  set_item_in h = rw (set_item, h) refl

  pub set_item_out :
      ltb idx (length l.list) ≡ false
      → set_item codec l idx value update connected ≡ (l, err out_of_bounds)
  unfolding set_item
  set_item_out h = rw (set_item, h) refl

module _ (codec : Codec ServerHeader) (l : ValueList) (idx : ℕ) (update connected : Bool) where
  pub remove_item_in :
      ltb idx (length l.list) ≡ true
      → remove_item codec l idx update connected ≡ (
        record l { list = remove_nth idx l.list },
        sent_if codec l connected (vec_message codec l update (remove idx) []),
      )
  unfolding remove_item
  remove_item_in h = rw (remove_item, h) refl

  pub remove_item_out :
      ltb idx (length l.list) ≡ false
      → remove_item codec l idx update connected ≡ (l, err out_of_bounds)
  unfolding remove_item
  remove_item_out h = rw (remove_item, h) refl
