-- ===== src/Data/Take/Synced.antt =====
-- What the operations of server/data_take_server.rs bring to client/data_take.rs.
use egui_states.Prelude.{
  ℕ, ◌*◌, ◌/◌, ◌^◌, ◌<◌, ◌≤◌, ◌≡◌, refl, ap, sym, ◌∙◌, subst, Bytes, Bool, true, false, List,
  Option, none, some, map, length, arith, ◌==◌,
}
use egui_states.Outcome.{ok}
use egui_states.Protocol.DataType.{DataType, item_size, item_size_bounds}
use egui_states.Protocol.Headers.{ServerHeader}
use egui_states.Protocol.Codec.{Codec, IsLawful}
use egui_states.Pack.{pack}
use egui_states.Pack.Split.{Part}
use egui_states.Pack.Plan.{pack-Split}
use egui_states.Pack.Arrays.{Packed, frame, pack_data_take, pack_data_multi_take}
use egui_states.Messages.Spec.{message_of}
use egui_states.Messages.{ServerMessage}
use egui_states.Messages.Groups.{
  AreFrames, read_each, join, flatten, AllNonempty, read_each-AreFrames,
}
use egui_states.Data.Frames.{framed_all-AreFrames}
use egui_states.Data.Client.{isize_max}
use egui_states.Data.Server.{DataHolder}
use egui_states.Data.Take.Client.{Slot, TakeArray, MultiTakeArray, slot_at}
use egui_states.Data.Take.Server.{TakeServer, set_take, sync_take, MultiTakeServer, set_multi_take}
use egui_states.Data.Take.Transfer.{take_message, SlotAccepts, Split-Taken}
use egui_states.Data.Take.Delivery.{
  header_at, header_sized, part_frame, addressed_take, addressed_takes, addressed_take_lem,
  addressed_takes_lem, AcceptsTake, AcceptsTakes, slot_array, slot_multi,
}

-- The reader and the client, over the websocket messages `ws`.
abbrev pub DeliversTake :
    (ℕ → ℕ) → Codec ServerHeader → ℕ → TakeArray → List (List Bytes) → TakeArray → Type 0
DeliversTake alloc codec id c ws d =
    (ms : List ServerMessage) × (read_each codec (map join ws) ≡ ok ms)
    × AcceptsTake alloc c (addressed_take id ms) d

abbrev pub DeliversTakes :
    (ℕ → ℕ) → Codec ServerHeader → ℕ → MultiTakeArray → List (List Bytes) → MultiTakeArray → Type 0
DeliversTakes alloc codec id c ws d =
    (ms : List ServerMessage) × (read_each codec (map join ws) ≡ ok ms)
    × AcceptsTakes alloc c (addressed_takes id ms) d

module _ (alloc : ℕ → ℕ) (codec : Codec ServerHeader) (ws : List (List Bytes)) where
  -- The client takes what was read as its array.
  abbrev pub TakesAt : TakeArray → ℕ → Bytes → Bool → Type 0
  TakesAt c id xs blocking =
      (d : TakeArray) × DeliversTake alloc codec id c ws d
      × (d.slot.inner ≡ some (xs, blocking))
      × (d.acks ≡ c.acks)

  -- The client takes what was read as its array at a key, and has the others as they were.
  abbrev pub TakesKeyed : MultiTakeArray → ℕ → ℕ → Bytes → Bool → Type 0
  TakesKeyed c id key xs blocking =
      (d : MultiTakeArray) × DeliversTakes alloc codec id c ws d
      × (d.inner key ≡ some (xs, blocking))
      × ((j : ℕ) → j == key ≡ false → slot_at d j ≡ slot_at c j)
      × (d.acks ≡ c.acks)

module _ (codec : Codec ServerHeader) (lawful : IsLawful codec) (alloc : ℕ → ℕ)
    (roomy : (n : ℕ) → n ≤ alloc n) (threshold : ℕ) (low : 8 ≤ threshold)
    (high : threshold < 2 ^ 32) (ms : List Packed) (ws : List (List Bytes)) (n : AllNonempty ws)
    (joined : flatten ws ≡ map (λ m. m.0) ms) where
  -- What is read of an array that was packed, and what its slot makes of it.
  packed-Taken :
      (id : ℕ) (target : Option ℕ) (blocking update : Bool) (t : DataType) (count : ℕ) (xs : Bytes)
      (s : Slot)
      → length xs ≡ count * item_size t
      → length xs ≤ isize_max
      → pack threshold
          (item_size t)
          (λ piece size. frame codec (header_at id target blocking t count update piece size))
          xs
        ≡ ok ms
      → (ps : List Part) × (d : Slot) × (read_each codec (map join ws)
          ≡ ok (
              map
                (λ f. message_of f.0 f.1)
                (map (part_frame id target blocking t count update) ps)))
        × SlotAccepts t alloc blocking s (map (take_message t count) ps) d
        × (d.inner ≡ some (xs, blocking))
  packed-Taken id target blocking update t count xs s held small packed =
      let es = item_size t in
      let header = header_at id target blocking t count update in
      let (ps, planned, split) =
        pack-Split threshold es (λ piece size. frame codec (header piece size)) xs
          (item_size_bounds t).0 (omega (arith, item_size_bounds t)) high in
      let frames =
        framed_all-AreFrames codec header (header_sized id target blocking t count update) ps ms
          (sym planned ∙ packed) in
      let (d, accepted, there) =
        Split-Taken t alloc blocking s threshold (threshold / es * es) (threshold / es) count split
          refl held small (roomy count) in
      (
        ps,
        d,
        read_each-AreFrames codec lawful ws (map (part_frame id target blocking t count update) ps)
            n (subst (AreFrames codec _) (sym joined) frames),
        accepted,
        there,
      )

  pack_data_take-Takes :
      (id : ℕ) (blocking update : Bool) (t : DataType) (count : ℕ) (xs : Bytes) (c : TakeArray)
      → c.data_type ≡ t
      → length xs ≡ count * item_size t
      → length xs ≤ isize_max
      → pack_data_take codec threshold id xs count t blocking update ≡ ok ms
      → TakesAt alloc codec ws c id xs blocking
  unfolding pack_data_take
  pack_data_take-Takes id blocking update t count xs c type held small packed =
      let (ps, d, read, accepted, there) =
        packed-Taken id none blocking update t count xs c.slot held small packed in
      (
        record c { slot = d },
        (
          _,
          read,
          subst (λ l. AcceptsTake alloc c l (record c { slot = d }))
              (sym (addressed_take_lem id blocking t count update ps))
              (slot_array alloc blocking c c.slot d (map (take_message t count) ps) (
                subst
                  (λ (u : DataType).
                    SlotAccepts u alloc blocking c.slot (map (take_message t count) ps) d)
                  (sym type) accepted)),
        ),
        there,
        refl,
      )

  pack_data_multi_take-Takes :
      (id key : ℕ) (blocking update : Bool) (t : DataType) (count : ℕ) (xs : Bytes)
      (c : MultiTakeArray)
      → c.data_type ≡ t
      → length xs ≡ count * item_size t
      → length xs ≤ isize_max
      → pack_data_multi_take codec threshold id key xs count t blocking update ≡ ok ms
      → TakesKeyed alloc codec ws c id key xs blocking
  unfolding pack_data_multi_take
  pack_data_multi_take-Takes id key blocking update t count xs c type held small packed =
      let (ps, d, read, accepted, there) =
        packed-Taken id (some key) blocking update t count xs (slot_at c key) held small packed in
      let (e, more, (at_key, apart, acks)) =
        slot_multi alloc blocking t key c (slot_at c key) d (map (take_message t count) ps) type
          refl accepted in
      (
        e,
        (
          _,
          read,
          subst (λ l. AcceptsTakes alloc c l e)
              (sym (addressed_takes_lem id blocking t count update key ps)) more,
        ),
        ap (λ (x : Slot). x.inner) at_key ∙ there,
        apart,
        acks,
      )

  module _ (s : TakeServer) (c : TakeArray) (type : c.data_type ≡ s.data_type) where
    -- With a lawful codec, a threshold from 8 to below 2 ^ 32, `Vec::with_capacity` that allocates at
    -- least what was asked, and a client of the same type: the messages with which `set` waits, of data
    -- that have the count that comes with them and fit into memory, are read and accepted by the client
    -- however they are joined into websocket messages, none of them empty; it has the data with the
    -- blocking flag after the last, and has sent no acknowledgement.
    pub set_take-Takes :
        (h : DataHolder) (blocking update cache : Bool)
        → length h.bytes ≡ h.count * item_size s.data_type
        → length h.bytes ≤ isize_max
        → (set_take threshold codec s h blocking update cache true).1 ≡ ok (some ms)
        → TakesAt alloc codec ws c s.id h.bytes blocking
    unfolding set_take
    set_take-Takes h blocking update cache held small e =
        pack_data_take-Takes s.id blocking update s.data_type h.count h.bytes c type held small
          (ground arith)

    -- With a lawful codec, a threshold from 8 to below 2 ^ 32, `Vec::with_capacity` that allocates at
    -- least what was asked, and a client of the same type: the messages that `sync` returns for a cached
    -- array, which has its count of elements and fits into memory, are read and accepted by the client
    -- however they are joined into websocket messages, none of them empty; it has that array, not
    -- blocking, after the last, and has sent no acknowledgement; and `sync` has set the event.
    pub sync_take-Takes :
        (p : Bytes × ℕ)
        → s.cached ≡ some p
        → length p.0 ≡ p.1 * item_size s.data_type
        → length p.0 ≤ isize_max
        → (sync_take threshold codec s).1 ≡ ok ms
        → TakesAt alloc codec ws c s.id p.0 false × ((sync_take threshold codec s).0.event ≡ true)
    unfolding sync_take
    sync_take-Takes p there held small e = (
      pack_data_take-Takes s.id false false s.data_type p.1 p.0 c type held small (ground arith),
      ground arith,
    )

  module _ (s : MultiTakeServer) (c : MultiTakeArray) (type : c.data_type ≡ s.data_type) where
    -- With a lawful codec, a threshold from 8 to below 2 ^ 32, `Vec::with_capacity` that allocates at
    -- least what was asked, and a client of the same type: the messages with which `set` at an index
    -- waits, of data that have the count that comes with them and fit into memory, are read and accepted
    -- by the client however they are joined into websocket messages, none of them empty; it has the data
    -- at that index with the blocking flag after the last, has the arrays and batch buffers at the other
    -- indices as they were, and has sent no acknowledgement.
    pub set_multi_take-Takes :
        (index : ℕ) (h : DataHolder) (blocking update cache : Bool)
        → length h.bytes ≡ h.count * item_size s.data_type
        → length h.bytes ≤ isize_max
        → (set_multi_take threshold codec s index h blocking update cache true).1 ≡ ok (some ms)
        → TakesKeyed alloc codec ws c s.id index h.bytes blocking
    unfolding set_multi_take
    set_multi_take-Takes index h blocking update cache held small e =
        pack_data_multi_take-Takes s.id index blocking update s.data_type h.count h.bytes c type
          held small (ground arith)
