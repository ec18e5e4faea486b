-- ===== src/Lists/Agreement.antt =====
-- `ValueList` of server/vec_server.rs and `VecState` of client/value_vec.rs, joined by the protocol.
use egui_states.Prelude.{
  ℕ, ◌*◌, ◌^◌, ◌<◌, ◌≤◌, ◌≡◌, refl, ap, sym, subst, ◌∙◌, ◌++◌, Bytes, Bool, true, List, some, [],
  ◌∷◌, arith, ltb, length, Bool-cases, inl, inr, le→leb, ==_iff,
}
use egui_states.Outcome.{Outcome, ok, err}
use egui_states.Protocol.Headers.{ServerHeader, VecHeader, all, set, add, remove}
use egui_states.Protocol.Codec.{Codec, IsLawful}
use egui_states.Messages.{ServerMessage, read_all}
use egui_states.Data.Client.{isize_max}
use egui_states.Lists.{
  ValueList, ListError, out_of_bounds, set_nth, remove_nth, concat, vec_message, set_list, set_item,
  remove_item, append_item,
}
use egui_states.Lists.{sync_list}
use egui_states.Prelude.{false}
use egui_states.Lists.Client.{VecState, apply_header, update_list}
use egui_states.Lists.Written.{
  Written, Written-append, Written-length, Written-set_nth, Written-remove_nth, deserialize_lem,
  read_items-Written,
}
use egui_states.Lists.Sending.{
  message_read, sent_inv, sent_once, set_item_in, set_item_out, remove_item_in, remove_item_out,
}

pub data ListOp : Type 0 where
  sets : List Bytes → ListOp
  sets_item : ℕ → Bytes → ListOp
  removes_item : ℕ → ListOp
  appends : Bytes → ListOp

unfoldable pub run_list_op :
    Codec ServerHeader
    → ValueList
    → ListOp
    → Bool
    → Bool
    → ValueList × Outcome ListError (List Bytes)
run_list_op codec l (sets list) update connected = set_list codec l list update connected
run_list_op codec l (sets_item idx value) update connected =
    set_item codec l idx value update connected
run_list_op codec l (removes_item idx) update connected = remove_item codec l idx update connected
run_list_op codec l (appends value) update connected = append_item codec l value update connected

-- The values are bytes of `T`, and a message's size fits its header.
abbrev pub IsWritten : {T : Type 0} → Codec T → ℕ → ListOp → Type 0
IsWritten {T} wire item_size (sets list) =
    ((ts : List T) × Written wire list ts)
    × (length list * item_size ≤ isize_max)
    × (length (concat list) < 2 ^ 32)
IsWritten {T} wire item_size (sets_item idx value) =
    ((t : T) × (wire.encode t ≡ some value)) × (length value < 2 ^ 32)
IsWritten {T} wire item_size (removes_item idx) = Unit
IsWritten {T} wire item_size (appends value) =
    ((t : T) × (wire.encode t ≡ some value)) × (length value < 2 ^ 32)

module _ {T : Type 0} (codec : Codec ServerHeader) (wire : Codec T) (item_size : ℕ) where
  -- The message is read as one update, which the client takes, and then its list is the server's.
  abbrev pub Follows : ValueList → VecState T → Bool → Bytes → ValueList → Type 0
  Follows l c update m after =
      (h : VecHeader) × (body : Bytes) × (d : VecState T) × (read_all codec m
        ≡ ok (ServerMessage.value_vec l.id l.type_id update h body ∷ []))
      × (update_list wire item_size c l.type_id h body ≡ (d, ok tt))
      × Written wire after.list d.list

  update_list_lem :
      (c : VecState T) (type_id : ℕ) (h : VecHeader) (body : Bytes)
      → type_id ≡ c.type_id
      → update_list wire item_size c type_id h body ≡ apply_header wire item_size c h body
  unfolding update_list
  update_list_lem c type_id h body e = rw ((==_iff type_id c.type_id).1 e) refl

  -- For lawful codecs, and a server list of bytes of `T` that fit into memory and whose size fits the
  -- header: if `sync` has a message to send, then a client list of the same type, whatever it holds,
  -- reads that message as one update and accepts it, and has the server's elements after it.
  pub sync_list-Follows :
      (lawful : IsLawful codec) (law : IsLawful wire) (l : ValueList) (c : VecState T) (ts : List T)
      (m : Bytes)
      → c.type_id ≡ l.type_id
      → Written wire l.list ts
      → length l.list * item_size ≤ isize_max
      → length (concat l.list) < 2 ^ 32
      → sync_list codec l ≡ ok (m ∷ [])
      → Follows l c false m l
  unfolding sync_list apply_header
  sync_list-Follows lawful law l c ts m same w room small e = (
    all (length l.list),
    concat l.list,
    record c { list = ts },
    message_read codec lawful l false (all (length l.list)) (concat l.list) m
        (sent_once codec lawful l (vec_message codec l false (all (length l.list)) (concat l.list))
          m e)
        small,
    update_list_lem c l.type_id (all (length l.list)) (concat l.list) (sym same)
        ∙ rw (le→leb (length l.list * item_size) isize_max room)
            (read_items-Written wire law item_size (record c { list = [] }) w),
    w,
  )

  module _ (lawful : IsLawful codec) (law : IsLawful wire) (l : ValueList) (c : VecState T)
      (same : c.type_id ≡ l.type_id) (w : Written wire l.list c.list) (update : Bool)
      (m : Bytes) where
    set_list-Follows :
        (list : List Bytes) (ts : List T)
        → Written wire list ts
        → length list * item_size ≤ isize_max
        → length (concat list) < 2 ^ 32
        → (set_list codec l list update true).1 ≡ ok (m ∷ [])
        → Follows l c update m (set_list codec l list update true).0
    unfolding set_list apply_header
    set_list-Follows list ts new room small e =
        let (made, after) =
          sent_inv codec lawful l (vec_message codec l update (all (length list)) (concat list)) m
            list e in
        (
          all (length list),
          concat list,
          record c { list = ts },
          message_read codec lawful l update (all (length list)) (concat list) m made small,
          update_list_lem c l.type_id (all (length list)) (concat list) (sym same)
              ∙ rw (le→leb (length list * item_size) isize_max room)
                  (read_items-Written wire law item_size (record c { list = [] }) new),
          subst (λ (x : ValueList). Written wire x.list ts) (sym after) new,
        )

    append_item-Follows :
        (value : Bytes) (t : T)
        → wire.encode t ≡ some value
        → length value < 2 ^ 32
        → (append_item codec l value update true).1 ≡ ok (m ∷ [])
        → Follows l c update m (append_item codec l value update true).0
    unfolding append_item apply_header
    append_item-Follows value t enc small e =
        let (made, after) =
          sent_inv codec lawful l (vec_message codec l update add value) m (l.list ++ value ∷ [])
            e in
        (
          add,
          value,
          record c { list = c.list ++ t ∷ [] },
          message_read codec lawful l update add value m made small,
          update_list_lem c l.type_id add value (sym same)
              ∙ rw (deserialize_lem wire law item_size t value enc) refl,
          subst (λ (x : ValueList). Written wire x.list (c.list ++ t ∷ [])) (sym after)
              (Written-append wire value t w enc),
        )

    inside_too : (idx : ℕ) → ltb idx (length l.list) ≡ true → ltb idx (length c.list) ≡ true
    inside_too idx h = subst (λ (n : ℕ). ltb idx n ≡ true) (Written-length wire w) h

    set_item-Follows :
        (idx : ℕ) (value : Bytes) (t : T)
        → wire.encode t ≡ some value
        → length value < 2 ^ 32
        → (set_item codec l idx value update true).1 ≡ ok (m ∷ [])
        → Follows l c update m (set_item codec l idx value update true).0
    unfolding apply_header
    set_item-Follows idx value t enc small e = elim (Bool-cases (ltb idx (length l.list))) [
      | inr out ↦
          let wrong : err out_of_bounds ≡ ok (m ∷ []) =
            sym (ap (λ r. r.1) (set_item_out codec l idx value update true out)) ∙ e in
          cc
      | inl inside ↦
          let eq = set_item_in codec l idx value update true inside in
          let (made, after) =
            sent_inv codec lawful l (vec_message codec l update (set idx) value) m
              (set_nth idx value l.list) (sym (ap (λ r. r.1) eq) ∙ e) in
          (
            set idx,
            value,
            record c { list = set_nth idx t c.list },
            message_read codec lawful l update (set idx) value m made small,
            update_list_lem c l.type_id (set idx) value (sym same)
                ∙ rw (deserialize_lem wire law item_size t value enc, inside_too idx inside) refl,
            subst (λ (x : ValueList). Written wire x.list (set_nth idx t c.list))
                (sym (ap (λ r. r.0) eq ∙ after)) (Written-set_nth wire idx value t w enc),
          )
    ]

    remove_item-Follows :
        (idx : ℕ)
        → (remove_item codec l idx update true).1 ≡ ok (m ∷ [])
        → Follows l c update m (remove_item codec l idx update true).0
    unfolding apply_header
    remove_item-Follows idx e = elim (Bool-cases (ltb idx (length l.list))) [
      | inr out ↦
          let wrong : err out_of_bounds ≡ ok (m ∷ []) =
            sym (ap (λ r. r.1) (remove_item_out codec l idx update true out)) ∙ e in
          cc
      | inl inside ↦
          let eq = remove_item_in codec l idx update true inside in
          let made =
            sent_once codec lawful l (vec_message codec l update (remove idx) []) m
              (sym (ap (λ r. r.1) eq) ∙ e) in
          (
            remove idx,
            [],
            record c { list = remove_nth idx c.list },
            message_read codec lawful l update (remove idx) [] m made (omega arith),
            update_list_lem c l.type_id (remove idx) [] (sym same)
                ∙ rw (inside_too idx inside) refl,
            subst (λ (x : ValueList). Written wire x.list (remove_nth idx c.list))
                (sym (ap (λ r. r.0) eq)) (Written-remove_nth wire idx w),
          )
    ]

    -- For lawful codecs, and a client list that has the server's elements: if a set, a set of one
    -- element, a removal or an append of a connected server, with values that are bytes of `T`, that
    -- fit into memory, and whose size fits the header, has one message to send, then the client
    -- reads that message as one update and accepts it, and has the server's new elements after it.
    pub run_list_op-Follows :
        (op : ListOp)
        → IsWritten wire item_size op
        → (run_list_op codec l op update true).1 ≡ ok (m ∷ [])
        → Follows l c update m (run_list_op codec l op update true).0
    unfolding run_list_op
    run_list_op-Follows (sets list) ((ts, new), room, small) e =
        set_list-Follows list ts new room small e
    run_list_op-Follows (sets_item idx value) ((t, enc), small) e =
        set_item-Follows idx value t enc small e
    run_list_op-Follows (removes_item idx) h e = remove_item-Follows idx e
    run_list_op-Follows (appends value) ((t, enc), small) e =
        append_item-Follows value t enc small e
