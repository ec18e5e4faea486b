-- ===== src/Data/Multi/Delivery.antt =====
-- `pack_data` of server/data_server.rs for an array of a collection, the parser, and `DataMulti` of
-- client/data.rs together.
use egui_states.Prelude.{
  ℕ, ◌*◌, ◌/◌, ◌^◌, ◌<◌, ◌≤◌, ◌≡◌, refl, ap, sym, ◌∙◌, Bytes, Bool, List, [], ◌∷◌, map, length,
  some, arith, ◌==◌, ==_iff, if◌then◌else◌, subst, ◌+◌, false,
}
use egui_states.Outcome.{ok}
use egui_states.Protocol.DataType.{DataType, item_size, item_size_bounds}
use egui_states.Protocol.Headers.{TransportType, ServerHeader}
use egui_states.Protocol.Codec.{Codec, IsLawful}
use egui_states.Pack.{Piece, whole}
use egui_states.Pack.Split.{Part}
use egui_states.Pack.Plan.{pack-Split}
use egui_states.Pack.Arrays.{Packed, data_header, piece_header, pack_data}
use egui_states.Messages.Spec.{message_of}
use egui_states.Messages.{ServerMessage}
use egui_states.Messages.Groups.{
  AreFrames, read_each, join, flatten, AllNonempty, read_each-AreFrames,
}
use egui_states.Data.Message.{DataMultiMessage, modify}
use egui_states.Data.Frames.{part_frame, emit, emit_all-AreFrames}
use egui_states.Data.Client.{isize_max}
use egui_states.Data.Client.Save.{Fits, stored}
use egui_states.Data.Client.Transfer.{piece_message}
use egui_states.Data.Client.Whole.{Split-Transferred}
use egui_states.Data.Multi.Client.{MultiClient}
use egui_states.Data.Multi.View.{or_nil, view, HasFor}
use egui_states.Data.Multi.Transfer.{AcceptsMulti, Split-ends, transfer-Brings}

-- The messages for the collection `id`, as `handle_message` finds it in `vals.multi_data`.
abbrev pub addressed_multi : ℕ → List ServerMessage → List DataMultiMessage
addressed_multi id [] = []
addressed_multi id (ServerMessage.data_multi i update m ∷ ms) =
    if i == id then m ∷ addressed_multi id ms else addressed_multi id ms
addressed_multi id (_ ∷ ms) = addressed_multi id ms

module _ (id key : ℕ) (transport : TransportType) (count : ℕ) (data_type : DataType)
    (update : Bool) where
  addressed_cons :
      (piece : Piece) (n : ℕ) (body : Bytes) (single : Bool) (ms : List ServerMessage)
      → addressed_multi id (
          message_of
            (data_header id (some key) (piece_header data_type transport count update piece n))
            body
          ∷ ms)
        ≡ modify key (
            piece_message data_type transport count
              (record { piece = piece; body = body; single = single }))
          ∷ addressed_multi id ms
  unfolding data_header piece_header
  addressed_cons whole n body single ms = rw ((==_iff id id).1 refl)
  addressed_cons _ n body single ms = rw ((==_iff id id).1 refl)

  addressed_multi_lem :
      (ps : List Part)
      → addressed_multi id (
          map
            (λ f. message_of f.0 f.1)
            (map (part_frame id transport count data_type (some key) update) ps))
        ≡ map (modify key) (map (piece_message data_type transport count) ps)
  unfolding data_header piece_header
  addressed_multi_lem [] = refl
  addressed_multi_lem (p ∷ ps) =
      addressed_cons p.piece (length p.body) p.body p.single (
        map (λ f. message_of f.0 f.1)
          (map (part_frame id transport count data_type (some key) update) ps))
      ∙ ap (◌∷◌ (modify key (piece_message data_type transport count p))) (addressed_multi_lem ps)

-- The reader and the collection, over the websocket messages `ws`.
abbrev pub DeliversMulti :
    (ℕ → ℕ) → Codec ServerHeader → ℕ → MultiClient → List (List Bytes) → MultiClient → Type 0
DeliversMulti alloc codec id c ws d =
    (ms : List ServerMessage) × (read_each codec (map join ws) ≡ ok ms)
    × AcceptsMulti alloc c (addressed_multi id ms) d

module _ (codec : Codec ServerHeader) (lawful : IsLawful codec) (alloc : ℕ → ℕ) where
  -- The result of one transfer to the array at `key`: its new bytes, one acknowledgement, and the
  -- other arrays as they were.
  abbrev pub Stored : MultiClient → ℕ → ℕ → Bytes → List (List Bytes) → Type 0
  Stored c id key xs ws =
      (d : MultiClient) × DeliversMulti alloc codec id c ws d
      × (d.inner key ≡ some xs)
      × ((j : ℕ) → j == key ≡ false → d.inner j ≡ c.inner j)
      × (d.acks ≡ c.acks + 1)
      × (d.data_type ≡ c.data_type)

  pub pack_multi-Stored :
      (c : MultiClient) (threshold id key count : ℕ) (xs : Bytes) (transport : TransportType)
      (update : Bool) (ms : List Packed) (ws : List (List Bytes))
      → 8 ≤ threshold
      → threshold < 2 ^ 32
      → length xs ≡ count * item_size c.data_type
      → length xs ≤ isize_max
      → alloc count ≡ count
      → HasFor c key transport
      → Fits (item_size c.data_type) transport xs (or_nil (c.inner key))
      → pack_data codec threshold id xs transport count c.data_type (some key) update ≡ ok ms
      → AllNonempty ws
      → flatten ws ≡ map (λ m. m.0) ms
      → Stored c id key (stored (item_size c.data_type) transport xs (or_nil (c.inner key))) ws
  unfolding pack_data
  pack_multi-Stored c threshold id key count xs transport update ms ws low high held small exact has
        fits packed n joined =
      let es = item_size c.data_type in
      let (ps, planned, split) =
        pack-Split threshold es (emit codec id transport count c.data_type (some key) update) xs
          (item_size_bounds c.data_type).0 (omega (arith, item_size_bounds c.data_type)) high in
      let frames =
        emit_all-AreFrames codec id transport count c.data_type (some key) update ps ms
          (sym planned ∙ packed) in
      let (one, accepted, inner, acks, kept) =
        Split-Transferred alloc (view c key) transport threshold (threshold / es * es)
          (threshold / es) count split refl held small exact fits in
      let (d, taken, viewed, apart, type, there) =
        transfer-Brings alloc key c.data_type count transport ps c one has (Split-ends split)
          accepted in
      (
        d,
        (
          map (λ f. message_of f.0 f.1)
              (map (part_frame id transport count c.data_type (some key) update) ps),
          read_each-AreFrames codec lawful ws
              (map (part_frame id transport count c.data_type (some key) update) ps) n
              (subst (AreFrames codec _) (sym joined) frames),
          subst (λ l. AcceptsMulti alloc c l d)
              (sym (addressed_multi_lem id key transport count c.data_type update ps)) taken,
        ),
        there ∙ ap some inner,
        apart,
        ap (λ (x : egui_states.Data.Client.Client). x.acks) viewed ∙ acks,
        type,
      )
