-- ===== src/Data/Take/Delivery.antt =====
-- `pack_data_take` and `pack_data_multi_take` of server/data_take_server.rs, the parser, and
-- client/data_take.rs together.
use egui_states.Prelude.{
  ℕ, ◌≡◌, refl, ap, ◌∙◌, Bytes, Bool, false, List, Option, none, some, [], ◌∷◌, map, length, ◌==◌,
  ==_refl, ap₂, put, put_at, put_other, if◌then◌else◌,
}
use egui_states.Outcome.{ok}
use egui_states.Protocol.DataType.{DataType}
use egui_states.Protocol.Headers.{DataTakeHeader, DataMultiTakeHeader, ServerHeader}
use egui_states.Pack.{Piece, whole, first, middle, last}
use egui_states.Pack.Split.{Part}
use egui_states.Pack.Arrays.{take_header}
use egui_states.Messages.Frames.{Frame}
use egui_states.Messages.Spec.{message_of, body_size}
use egui_states.Messages.{ServerMessage}
use egui_states.Data.Message.{DataTakeMessage, DataMultiTakeMessage, modify}
use egui_states.Data.Client.{Buffer}
use egui_states.Data.Take.Client.{
  Slot, SlotReply, TakeArray, MultiTakeArray, slot_at, update_slot, update_array, update_at,
  handle_multi_take,
}
use egui_states.Data.Take.Transfer.{take_message, SlotAccepts}

-- The header of one array, or of the array at an index of a collection.
abbrev pub target_header : ℕ → Option ℕ → Bool → DataTakeHeader → ServerHeader
target_header id none blocking h = ServerHeader.data_take id h blocking
target_header id (some k) blocking h =
    ServerHeader.data_multi_take id (DataMultiTakeHeader.modify k h blocking)

abbrev slot_of : Option (Bytes × Bool) → Option Buffer → Slot
slot_of i b = record { inner = i; buffer = b }

module _ (alloc : ℕ → ℕ) where
  -- Every message is accepted, and the last leaves the array as `d`.
  abbrev pub AcceptsTake : TakeArray → List (DataTakeMessage × Bool) → TakeArray → Type 0
  AcceptsTake c [] d = c ≡ d
  AcceptsTake c (m ∷ ms) d =
      (c' : TakeArray) × (update_array alloc c m.0 m.1 ≡ (c', ok tt)) × AcceptsTake c' ms d

  abbrev pub AcceptsTakes : MultiTakeArray → List DataMultiTakeMessage → MultiTakeArray → Type 0
  AcceptsTakes c [] d = c ≡ d
  AcceptsTakes c (m ∷ ms) d =
      (c' : MultiTakeArray) × (handle_multi_take alloc c m ≡ (c', ok tt)) × AcceptsTakes c' ms d

  module _ (blocking : Bool) where
    pub slot_array :
        (c : TakeArray) (s d : Slot) (ms : List DataTakeMessage)
        → SlotAccepts c.data_type alloc blocking s ms d
        → AcceptsTake (record c { slot = s }) (map (λ m. (m, blocking)) ms) (record c { slot = d })
    unfolding update_array
    slot_array c s d [] e = ap (λ (x : Slot). record c { slot = x }) e
    slot_array c s d (m ∷ ms) (s', took, rest) = (
      record c { slot = s' },
      ap (λ (r : SlotReply). (record c { slot = r.0 }, r.1)) took,
      slot_array c s' d ms rest,
    )

    -- The array at the key becomes as the slot, and the others stay.
    abbrev pub Keyed : MultiTakeArray → ℕ → Slot → MultiTakeArray → Type 0
    Keyed c key d c' =
        (slot_at c' key ≡ d)
        × ((j : ℕ) → j == key ≡ false → slot_at c' j ≡ slot_at c j)
        × (c'.acks ≡ c.acks)

    pub slot_multi :
        (t : DataType) (key : ℕ) (c : MultiTakeArray) (s d : Slot) (ms : List DataTakeMessage)
        → c.data_type ≡ t
        → slot_at c key ≡ s
        → SlotAccepts t alloc blocking s ms d
        → (c' : MultiTakeArray) × AcceptsTakes c (map (λ m. modify key m blocking) ms) c'
          × Keyed c key d c'
    unfolding handle_multi_take update_at
    slot_multi t key c s d [] type e same = (c, refl, (e ∙ same, λ j ne. refl, refl))
    slot_multi t key c s d (m ∷ ms) type e (s', took, rest) =
        let c1 = record c {
          inner = put c.inner key s'.inner;
          buffers = put c.buffers key s'.buffer;
        } in
        let (c2, more, (there, apart, acks)) =
          slot_multi t key c1 s' d ms type
            (ap₂ (λ (i : Option (Bytes × Bool)) (b : Option Buffer). slot_of i b)
              (put_at c.inner key s'.inner) (put_at c.buffers key s'.buffer))
            rest in
        (
          c2,
          (
            c1,
            ap
                (λ (r : SlotReply). (
                  record c {
                    inner = put c.inner key r.0.inner;
                    buffers = put c.buffers key r.0.buffer;
                  },
                  r.1,
                ))
                (ap₂ (λ (u : DataType) (x : Slot). update_slot u alloc x m blocking) type e ∙ took),
            more,
          ),
          (
            there,
            λ j ne.
                apart j ne
                ∙ ap₂ (λ (i : Option (Bytes × Bool)) (b : Option Buffer). slot_of i b)
                    (put_other c.inner j key s'.inner ne) (put_other c.buffers j key s'.buffer ne),
            acks,
          ),
        )

-- The messages for the array, or the collection, `id`, as `handle_message` finds it.
abbrev pub addressed_take : ℕ → List ServerMessage → List (DataTakeMessage × Bool)
addressed_take id [] = []
addressed_take id (ServerMessage.data_take i b update m ∷ ms) =
    if i == id then (m, b) ∷ addressed_take id ms else addressed_take id ms
addressed_take id (_ ∷ ms) = addressed_take id ms

abbrev pub addressed_takes : ℕ → List ServerMessage → List DataMultiTakeMessage
addressed_takes id [] = []
addressed_takes id (ServerMessage.data_multi_take i update m ∷ ms) =
    if i == id then m ∷ addressed_takes id ms else addressed_takes id ms
addressed_takes id (_ ∷ ms) = addressed_takes id ms

module _ (id : ℕ) (target : Option ℕ) (blocking : Bool) (data_type : DataType) (count : ℕ)
    (update : Bool) where
  abbrev pub header_at : Piece → ℕ → ServerHeader
  header_at piece n = target_header id target blocking (take_header data_type count update piece n)

  -- The frame of a part.
  abbrev pub part_frame : Part → Frame
  part_frame p = (header_at p.piece (length p.body), p.body)

  abbrev pub parsed : List Part → List ServerMessage
  parsed ps = map (λ f. message_of f.0 f.1) (map part_frame ps)

pub header_sized :
    (id : ℕ) (target : Option ℕ) (blocking : Bool) (data_type : DataType) (count : ℕ)
    (update : Bool) (piece : Piece) (n : ℕ)
    → n ≡ body_size (header_at id target blocking data_type count update piece n)
unfolding take_header
header_sized id none b t k u whole n = refl
header_sized id none b t k u first n = refl
header_sized id none b t k u middle n = refl
header_sized id none b t k u last n = refl
header_sized id (some j) b t k u whole n = refl
header_sized id (some j) b t k u first n = refl
header_sized id (some j) b t k u middle n = refl
header_sized id (some j) b t k u last n = refl

module _ (id : ℕ) (blocking : Bool) (data_type : DataType) (count : ℕ) (update : Bool) where
  addressed_one :
      (piece : Piece) (n : ℕ) (body : Bytes) (single : Bool) (ms : List ServerMessage)
      → addressed_take id
          (message_of (header_at id none blocking data_type count update piece n) body ∷ ms)
        ≡ (
          take_message data_type count (record { piece = piece; body = body; single = single }),
          blocking,
        )
          ∷ addressed_take id ms
  unfolding take_header
  addressed_one whole n body single ms = rw (==_refl id)
  addressed_one _ n body single ms = rw (==_refl id)

  pub addressed_take_lem :
      (ps : List Part)
      → addressed_take id (parsed id none blocking data_type count update ps)
        ≡ map (λ m. (m, blocking)) (map (take_message data_type count) ps)
  addressed_take_lem [] = refl
  addressed_take_lem (p ∷ ps) =
      addressed_one p.piece (length p.body) p.body p.single
        (parsed id none blocking data_type count update ps)
      ∙ ap (◌∷◌ (take_message data_type count p, blocking)) (addressed_take_lem ps)

  module _ (key : ℕ) where
    addressed_key :
        (piece : Piece) (n : ℕ) (body : Bytes) (single : Bool) (ms : List ServerMessage)
        → addressed_takes id
            (message_of (header_at id (some key) blocking data_type count update piece n) body ∷ ms)
          ≡ modify key
              (take_message data_type count
                (record { piece = piece; body = body; single = single }))
              blocking
            ∷ addressed_takes id ms
    unfolding take_header
    addressed_key whole n body single ms = rw (==_refl id)
    addressed_key _ n body single ms = rw (==_refl id)

    pub addressed_takes_lem :
        (ps : List Part)
        → addressed_takes id (parsed id (some key) blocking data_type count update ps)
          ≡ map (λ m. modify key m blocking) (map (take_message data_type count) ps)
    addressed_takes_lem [] = refl
    addressed_takes_lem (p ∷ ps) =
        addressed_key p.piece (length p.body) p.body p.single
          (parsed id (some key) blocking data_type count update ps)
        ∙ ap (◌∷◌ (modify key (take_message data_type count p) blocking)) (addressed_takes_lem ps)
