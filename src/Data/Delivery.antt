-- ===== src/Data/Delivery.antt =====
-- `pack_data` of server/data_server.rs, client/messages.rs and `Data` of client/data.rs together: from
-- the array that is packed to the array that the client has.
use egui_states.Prelude.{
  ℕ, ◌*◌, ◌/◌, ◌^◌, ◌<◌, ◌≤◌, ◌≡◌, refl, ap, sym, ◌∙◌, Bytes, Bool, List, [], ◌∷◌, map, length,
  none, arith, ◌==◌, ==_iff, if◌then◌else◌, subst, ◌+◌,
}
use egui_states.Outcome.{ok}
use egui_states.Protocol.DataType.{DataType, item_size_bounds}
use egui_states.Protocol.Headers.{TransportType, ServerHeader}
use egui_states.Protocol.Codec.{Codec, IsLawful}
use egui_states.Pack.{Piece, whole}
use egui_states.Pack.Split.{Part}
use egui_states.Pack.Plan.{pack-Split}
use egui_states.Pack.Arrays.{Packed, data_header, piece_header, pack_data}
use egui_states.Messages.Spec.{message_of}
use egui_states.Messages.{ServerMessage}
use egui_states.Messages.Groups.{
  AreFrames, read_each, join, flatten, AllNonempty, read_each-AreFrames,
}
use egui_states.Data.Message.{DataMessage}
use egui_states.Data.Frames.{part_frame, emit, emit_all-AreFrames}
use egui_states.Data.Client.{Client, element_size, isize_max}
use egui_states.Data.Client.Save.{Fits, stored}
use egui_states.Data.Client.Transfer.{piece_message, Accepts}
use egui_states.Data.Client.Whole.{Split-Transferred}

-- The messages for the array `id`, as `handle_message` finds the array in `vals.data`.
abbrev pub addressed : ℕ → List ServerMessage → List DataMessage
addressed id [] = []
addressed id (ServerMessage.data_array i update m ∷ ms) =
    if i == id then m ∷ addressed id ms else addressed id ms
addressed id (_ ∷ ms) = addressed id ms

addressed_cons :
    (id : ℕ) (transport : TransportType) (count : ℕ) (data_type : DataType) (update : Bool)
    (piece : Piece) (n : ℕ) (body : Bytes) (single : Bool) (ms : List ServerMessage)
    → addressed id (
        message_of
          (data_header id none (piece_header data_type transport count update piece n))
          body
        ∷ ms)
      ≡ piece_message data_type transport count
          (record { piece = piece; body = body; single = single })
        ∷ addressed id ms
unfolding data_header piece_header
addressed_cons id transport count data_type update whole n body single ms =
    rw ((==_iff id id).1 refl)
addressed_cons id transport count data_type update _ n body single ms = rw ((==_iff id id).1 refl)

addressed_lem :
    (id : ℕ) (transport : TransportType) (count : ℕ) (data_type : DataType) (update : Bool)
    (ps : List Part)
    → addressed id (
        map
          (λ f. message_of f.0 f.1)
          (map (part_frame id transport count data_type none update) ps))
      ≡ map (piece_message data_type transport count) ps
unfolding data_header piece_header
addressed_lem id transport count data_type update [] = refl
addressed_lem id transport count data_type update (p ∷ ps) =
    addressed_cons id transport count data_type update p.piece (length p.body) p.body p.single
      (map (λ f. message_of f.0 f.1) (map (part_frame id transport count data_type none update) ps))
    ∙ ap (◌∷◌ (piece_message data_type transport count p))
        (addressed_lem id transport count data_type update ps)

-- The reader and the client, over the websocket messages `ws`: every message is read, the array's
-- are accepted, and the client is then `d`.
abbrev pub Delivers :
    (ℕ → ℕ) → Codec ServerHeader → ℕ → Client → List (List Bytes) → Client → Type 0
Delivers alloc codec id c ws d =
    (ms : List ServerMessage) × (read_each codec (map join ws) ≡ ok ms)
    × Accepts alloc c (addressed id ms) d

module _ (codec : Codec ServerHeader) (lawful : IsLawful codec) (alloc : ℕ → ℕ) where
  -- With a lawful codec, a threshold from 8 to below 2 ^ 32, bytes that are `count` whole elements,
  -- fit into memory and fit the client's array as the transport type says, and a buffer of exactly
  -- the capacity asked for: if `pack_data` returns messages, then however they are joined into
  -- websocket messages, none of them empty, the client reads and accepts all of them, has stored the
  -- bytes, and has sent one acknowledgement.
  pub pack_data-Delivers :
      (c : Client) (threshold id count : ℕ) (xs : Bytes) (transport : TransportType) (update : Bool)
      (ms : List Packed) (ws : List (List Bytes))
      → 8 ≤ threshold
      → threshold < 2 ^ 32
      → length xs ≡ count * element_size c
      → length xs ≤ isize_max
      → alloc count ≡ count
      → Fits (element_size c) transport xs c.inner
      → pack_data codec threshold id xs transport count c.data_type none update ≡ ok ms
      → AllNonempty ws
      → flatten ws ≡ map (λ m. m.0) ms
      → (d : Client) × Delivers alloc codec id c ws d
        × (d.inner ≡ stored (element_size c) transport xs c.inner)
        × (d.acks ≡ c.acks + 1)
        × (d.data_type ≡ c.data_type)
  unfolding pack_data
  pack_data-Delivers c threshold id count xs transport update ms ws low high held small exact fits
        packed n joined =
      let es = element_size c in
      let (ps, planned, split) =
        pack-Split threshold es (emit codec id transport count c.data_type none update) xs
          (item_size_bounds c.data_type).0 (omega (arith, item_size_bounds c.data_type)) high in
      let frames =
        emit_all-AreFrames codec id transport count c.data_type none update ps ms
          (sym planned ∙ packed) in
      let (d, accepted, inner, acks, kept) =
        Split-Transferred alloc c transport threshold (threshold / es * es) (threshold / es) count
          split refl held small exact fits in
      (
        d,
        (
          map (λ f. message_of f.0 f.1)
              (map (part_frame id transport count c.data_type none update) ps),
          read_each-AreFrames codec lawful ws
              (map (part_frame id transport count c.data_type none update) ps) n
              (subst (AreFrames codec _) (sym joined) frames),
          subst (λ l. Accepts alloc c l d)
              (sym (addressed_lem id transport count c.data_type update ps)) accepted,
        ),
        inner,
        acks,
        kept,
      )
