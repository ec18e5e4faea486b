-- ===== src/Tables/Following.antt =====
-- A client map (client/value_map.rs) that follows a server map (server/map_server.rs).
use egui_states.Prelude.{
  ℕ, ◌*◌, ◌^◌, ◌<◌, ◌≤◌, ◌≡◌, refl, ap, sym, subst, ◌∙◌, ◌++◌, append-nil, Bytes, Bool, true, false,
  List, Option, none, some, [], ◌∷◌, length, le→leb, ==_iff,
}
use egui_states.Outcome.{ok}
use egui_states.Protocol.Headers.{ServerHeader, MapHeader}
use egui_states.Protocol.Codec.{Codec, IsLawful}
use egui_states.Messages.{ServerMessage, read_all}
use egui_states.Data.Client.{isize_max}
use egui_states.Value.Client.{deserialize}
use egui_states.Tables.{
  ValueMap, flat, map_message, set_map, set_entry, get_entry, remove_found, remove_entry, sync_map,
}
use egui_states.Tables.Entries.{insert_by, erase_by, same_bytes, IsEquality, IsDistinct, refold_lem}
use egui_states.Tables.Client.{
  MapState, with_pair, without_key, read_pair, apply_header, update_map,
}
use egui_states.Tables.Written.{
  Written, nothing, Written-insert_by, Written-erase_by, read_entries-Written,
}
use egui_states.Tables.Agreement.{
  MapOp, sets, sets_entry, removes_entry, run_map_op, message_read, sent_inv, sent_once,
}

module _ {K V : Type 0} (codec : Codec ServerHeader) (keys : Codec K) (values : Codec V)
    (equal : K → K → Bool) (item_size : ℕ) where
  -- The keys and values are bytes of `K` and `V`, keys differ, and a message's size fits its header.
  abbrev pub IsWritten : MapOp → Type 0
  IsWritten (sets m) =
      ((n : List (K × V)) × Written keys values m n)
      × IsDistinct same_bytes m
      × (length m * item_size ≤ isize_max)
      × (length (flat m) < 2 ^ 32)
  IsWritten (sets_entry key value) =
      ((k : K) × (keys.encode k ≡ some key))
      × ((v : V) × (values.encode v ≡ some value))
      × (length (key ++ value) < 2 ^ 32)
  IsWritten (removes_entry key) = ((k : K) × (keys.encode k ≡ some key)) × (length key < 2 ^ 32)

  -- The message is read as one update, which the client takes, and then its map is the server's.
  abbrev pub Follows : ValueMap → MapState K V → Bool → Bytes → ValueMap → Type 0
  Follows l c update m after =
      (h : MapHeader) × (body : Bytes) × (d : MapState K V) × (read_all codec m
        ≡ ok (ServerMessage.value_map l.id l.type_id update h body ∷ []))
      × (update_map keys values equal item_size c l.type_id h body ≡ (d, ok tt))
      × Written keys values after.map d.dict

  update_map_lem :
      (c : MapState K V) (type_id : ℕ) (h : MapHeader) (body : Bytes)
      → type_id ≡ c.type_id
      → update_map keys values equal item_size c type_id h body
        ≡ apply_header keys values equal item_size c h body
  unfolding update_map
  update_map_lem c type_id h body e = rw ((==_iff type_id c.type_id).1 e) refl

  module _ (lawful : IsLawful codec) (key_law : IsLawful keys) (value_law : IsLawful values)
      (eq : IsEquality equal) (l : ValueMap) (c : MapState K V) (same : c.type_id ≡ l.type_id) where
    -- A message with a whole map.
    all-Follows :
        (update : Bool) (m : Bytes) (map : List (Bytes × Bytes)) (n : List (K × V))
        (after : ValueMap)
        → Written keys values map n
        → IsDistinct same_bytes map
        → length map * item_size ≤ isize_max
        → length (flat map) < 2 ^ 32
        → map_message codec l update (MapHeader.all (length map)) (flat map) ≡ ok m
        → after.map ≡ map
        → Follows l c update m after
    unfolding apply_header
    all-Follows update m map n after w distinct room small made e =
        let (d, read, written) =
          read_entries-Written keys values equal eq key_law item_size value_law
            (record c { dict = [] }) [] nothing w in
        (
          MapHeader.all (length map),
          flat map,
          record c { dict = d },
          message_read codec l lawful update (MapHeader.all (length map)) (flat map) m made small,
          update_map_lem c l.type_id (MapHeader.all (length map)) (flat map) (sym same)
              ∙ rw (le→leb (length map * item_size) isize_max room) read,
          subst (λ x. Written keys values x d) (refold_lem same_bytes map distinct ∙ sym e) written,
        )

    -- For lawful codecs, a derived equality of keys, and a server map with different keys, of bytes of `K`
    -- and `V` that fit into memory and whose size fits the header: if `sync` has a message to send, then a
    -- client map of the same type, whatever it holds, reads that message as one update and accepts it,
    -- and has the server's entries after it.
    pub sync_map-Follows :
        (n : List (K × V)) (m : Bytes)
        → Written keys values l.map n
        → IsDistinct same_bytes l.map
        → length l.map * item_size ≤ isize_max
        → length (flat l.map) < 2 ^ 32
        → sync_map codec l ≡ ok (m ∷ [])
        → Follows l c false m l
    unfolding sync_map
    sync_map-Follows n m w distinct room small e =
        all-Follows false m l.map n l w distinct room small
          (sent_once codec l (map_message codec l false (MapHeader.all (length l.map)) (flat l.map))
            m e)
          refl

    module _ (w : Written keys values l.map c.dict) (update : Bool) (m : Bytes) where
      read_pair_lem :
          (k : K) (v : V) (key value : Bytes)
          → keys.encode k ≡ some key
          → values.encode v ≡ some value
          → read_pair keys values equal item_size (key ++ value) ≡ some (k, v)
      read_pair_lem k v key value ek ev =
          rw (read_pair, key_law.take_from-encode k key value ek)
            (rw
              (ap values.take_from (sym (append-nil value))
                ∙ value_law.take_from-encode v value [] ev)
              refl)

      set_entry-Follows :
          (key value : Bytes) (k : K) (v : V)
          → keys.encode k ≡ some key
          → values.encode v ≡ some value
          → length (key ++ value) < 2 ^ 32
          → (set_entry codec l key value update true).1 ≡ ok (m ∷ [])
          → Follows l c update m (set_entry codec l key value update true).0
      unfolding set_entry apply_header
      set_entry-Follows key value k v ek ev small e =
          let (made, after) =
            sent_inv codec l (map_message codec l update MapHeader.set (key ++ value)) m
              (insert_by same_bytes key value l.map) e in
          (
            MapHeader.set,
            key ++ value,
            record c { dict = insert_by equal k v c.dict },
            message_read codec l lawful update MapHeader.set (key ++ value) m made small,
            update_map_lem c l.type_id MapHeader.set (key ++ value) (sym same)
                ∙ ap (with_pair keys values equal item_size c) (read_pair_lem k v key value ek ev),
            subst (λ (x : ValueMap). Written keys values x.map (insert_by equal k v c.dict))
                (sym after) (Written-insert_by keys values equal eq key_law k v key value w ek ev),
          )

      removed :
          (key : Bytes) (k : K) (o : Option Bytes)
          → keys.encode k ≡ some key
          → length key < 2 ^ 32
          → (remove_found codec l key update true o).1 ≡ ok (m ∷ [])
          → Follows l c update m (remove_found codec l key update true o).0
      unfolding remove_found apply_header
      removed key k none ek small e = cc
      removed key k (some old) ek small e =
          let read : deserialize keys key ≡ some k =
            ap (mathlib.Core.Option.map (λ (r : K × Bytes). r.0))
              (ap keys.take_from (sym (append-nil key)) ∙ key_law.take_from-encode k key [] ek) in
          (
            MapHeader.remove,
            key,
            record c { dict = erase_by equal k c.dict },
            message_read codec l lawful update MapHeader.remove key m
                (sent_once codec l (map_message codec l update MapHeader.remove key) m e) small,
            update_map_lem c l.type_id MapHeader.remove key (sym same)
                ∙ ap (without_key keys values equal item_size c) read,
            Written-erase_by keys values equal eq key_law k key w ek,
          )

      set_map-Follows :
          (map : List (Bytes × Bytes)) (n : List (K × V))
          → Written keys values map n
          → IsDistinct same_bytes map
          → length map * item_size ≤ isize_max
          → length (flat map) < 2 ^ 32
          → (set_map codec l map update true).1 ≡ ok (m ∷ [])
          → Follows l c update m (set_map codec l map update true).0
      unfolding set_map
      set_map-Follows map n new distinct room small e =
          let (made, after) =
            sent_inv codec l (map_message codec l update (MapHeader.all (length map)) (flat map)) m
              map e in
          all-Follows update m map n (set_map codec l map update true).0 new distinct room small
            made (ap (λ (x : ValueMap). x.map) after)

      -- For lawful codecs, a derived equality of keys, and a client map that has the server's entries: if a
      -- set, a set of one entry or a removal of a connected server, with keys and values that are bytes of
      -- `K` and `V`, that fit into memory, and whose size fits the header, has one message to send, then
      -- the client reads that message as one update and accepts it, and has the server's new entries after
      -- it.
      pub run_map_op-Follows :
          (op : MapOp)
          → IsWritten op
          → (run_map_op codec l op update true).1 ≡ ok (m ∷ [])
          → Follows l c update m (run_map_op codec l op update true).0
      unfolding run_map_op remove_entry
      run_map_op-Follows (sets map) ((n, new), distinct, room, small) e =
          set_map-Follows map n new distinct room small e
      run_map_op-Follows (sets_entry key value) ((k, ek), (v, ev), small) e =
          set_entry-Follows key value k v ek ev small e
      run_map_op-Follows (removes_entry key) ((k, ek), small) e =
          removed key k (get_entry codec l key) ek small e
