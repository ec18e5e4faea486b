-- ===== src/Data/Synced.antt =====
-- The operations of `Data` (server/data_server.rs) one by one, with a client that has the array.
use native.Mathlib.Nat.{mod-eq_of_lt}
use egui_states.Prelude.{
  ℕ, ◌+◌, ◌*◌, ◌^◌, ◌<◌, ◌≤◌, ◌≡◌, refl, ap, ap₂, sym, ◌∙◌, subst, Bytes, Bool, true, false, none,
  some, List, [], ◌∷◌, ◌++◌, map, length, take, drop, arith, drop-append, ==_iff, le→leb, add_usize,
}
use egui_states.Outcome.{ok}
use egui_states.Protocol.DataType.{DataType, item_size}
use egui_states.Protocol.Headers.{TransportType, ServerHeader, DataHeader, set, add, replace}
use egui_states.Protocol.Codec.{Codec, IsLawful}
use egui_states.Pack.Arrays.{Packed, pack_data, data_header}
use egui_states.Messages.Groups.{flatten, AllNonempty, AreFrames, read_each-AreFrames}
use egui_states.Messages.Spec.{message_of}
use egui_states.Messages.Frames.{Frame}
use egui_states.Data.Message.{drain}
use egui_states.Data.Client.{Client, isize_max, update_data, element_size}
use egui_states.Data.Client.Save.{Fits, stored, len_lem}
use egui_states.Data.Frames.{frame-IsFrame}
use egui_states.Data.Delivery.{Delivers, pack_data-Delivers}
use egui_states.Data.Server.{Server, DataHolder, set_data, add_data, replace_data, remove_data}
use egui_states.Data.Inversion.{
  first_byte, end_byte, drain_end, set_data_inv, add_data_inv, replace_data_inv, remove_data_inv,
}
use egui_states.Data.Operations.{IsConsistent, end_byte_lem, drain_end_lem, sent_bytes}

-- The client has the array.
pub record InSync (c : Client) (s : Server) : Type 0 where
  pub same_type : c.data_type ≡ s.data_type
  pub same_bytes : c.inner ≡ s.bytes

module _ (codec : Codec ServerHeader) (lawful : IsLawful codec) (alloc : ℕ → ℕ)
    (exact : (n : ℕ) → alloc n ≡ n) (threshold : ℕ) (low : 8 ≤ threshold)
    (high : threshold < 2 ^ 32) where
  -- What a delivery does to a client whose type is `t`.
  abbrev DeliversAt :
      Client
      → ℕ
      → ℕ
      → Bytes
      → TransportType
      → Bool
      → List Packed
      → List (List Bytes)
      → DataType
      → Type 0
  DeliversAt c id count xs transport update ms ws t =
      length xs ≡ count * item_size t
      → length xs ≤ isize_max
      → Fits (item_size t) transport xs c.inner
      → pack_data codec threshold id xs transport count t none update ≡ ok ms
      → (d : Client) × Delivers alloc codec id c ws d
        × (d.inner ≡ stored (item_size t) transport xs c.inner)
        × (d.acks ≡ c.acks + 1)
        × (d.data_type ≡ t)

  delivers_at :
      (c : Client) (id count : ℕ) (xs : Bytes) (transport : TransportType) (update : Bool)
      (ms : List Packed) (ws : List (List Bytes)) (t : DataType)
      → AllNonempty ws
      → flatten ws ≡ map (λ m. m.0) ms
      → c.data_type ≡ t
      → DeliversAt c id count xs transport update ms ws t
  delivers_at c id count xs transport update ms ws t n joined e =
      subst (DeliversAt c id count xs transport update ms ws) e (λ held small fits packed.
        pack_data-Delivers codec lawful alloc c threshold id count xs transport update ms ws low
          high held small (exact count) fits packed n joined)

  module _ (c : Client) (s : Server) (sync : InSync c s) (v : IsConsistent s) (update : Bool)
      (ms : List Packed) (ws : List (List Bytes)) (n : AllNonempty ws)
      (joined : flatten ws ≡ map (λ m. m.0) ms) where
    abbrev pub Synced : Server → Type 0
    Synced s' =
        (d : Client) × Delivers alloc codec s.id c ws d × InSync d s' × (d.acks ≡ c.acks + 1)

    InSync-by :
        (s' : Server) (count : ℕ) (xs : Bytes) (transport : TransportType)
        → s'.data_type ≡ s.data_type
        → stored (item_size s.data_type) transport xs s.bytes ≡ s'.bytes
        → length xs ≡ count * item_size s.data_type
        → length xs ≤ isize_max
        → Fits (item_size s.data_type) transport xs s.bytes
        → pack_data codec threshold s.id xs transport count s.data_type none update ≡ ok ms
        → Synced s'
    InSync-by s' count xs transport kept made held small fits packed =
        let (d, delivered, inner, acks, type) =
          delivers_at c s.id count xs transport update ms ws s.data_type n joined sync.same_type
            held small
            (subst (Fits (item_size s.data_type) transport xs) (sym sync.same_bytes) fits) packed in
        (
          d,
          delivered,
          record {
            same_type = type ∙ sym kept;
            same_bytes =
                inner ∙ ap (stored (item_size s.data_type) transport xs) sync.same_bytes ∙ made;
          },
          acks,
        )

    pub set_data-Synced :
        (h : DataHolder)
        → length h.bytes ≡ h.count * item_size s.data_type
        → length h.bytes ≤ isize_max
        → (set_data threshold codec s h update true).1 ≡ ok (some ms)
        → Synced (set_data threshold codec s h update true).0
    set_data-Synced h sized small e =
        let (state, packed) = set_data_inv threshold codec s h update ms e in
        subst Synced (sym state) (
          InSync-by (record s { bytes = h.bytes; count = h.count }) h.count h.bytes (set h.count)
            refl refl sized small sized packed)

    pub add_data-Synced :
        (h : DataHolder)
        → length h.bytes ≡ h.count * item_size s.data_type
        → length h.bytes ≤ isize_max
        → (add_data threshold codec s h update true).1 ≡ ok (some ms)
        → Synced (add_data threshold codec s h update true).0
    add_data-Synced h sized small e =
        let (state, packed) = add_data_inv threshold codec s h update ms e in
        subst Synced (sym state) (
          InSync-by (record s { bytes = s.bytes ++ h.bytes; count = add_usize s.count h.count })
            h.count h.bytes (add h.count) refl refl sized small sized
            (subst
              (λ xs.
                pack_data codec threshold s.id xs (add h.count) h.count s.data_type none update
                ≡ ok ms)
              (drop-append s.bytes h.bytes) packed))

    pub replace_data-Synced :
        (h : DataHolder) (index : ℕ)
        → length h.bytes ≡ h.count * item_size s.data_type
        → index + h.count < 2 ^ 64
        → length h.bytes ≤ isize_max
        → (replace_data threshold codec s h index update true).1 ≡ ok (some ms)
        → Synced (replace_data threshold codec s h index update true).0
    replace_data-Synced h index sized whole small e =
        let (fits, ordered, inside, state, packed) =
          replace_data_inv threshold codec s h update ms index e in
        let sum = mod-eq_of_lt {n = index + h.count} {m = 2 ^ 64} whole in
        let (i, j, room, split) = end_byte_lem s h index v sized (omega arith) in
        let bytes =
          take (first_byte s index) s.bytes ++ (h.bytes ++ drop (end_byte s h index) s.bytes) in
        subst Synced (sym state) (
          InSync-by (record s { bytes = bytes }) h.count h.bytes (replace index h.count) refl
            (ap₂ (λ a b. take a s.bytes ++ (h.bytes ++ drop b s.bytes)) (sym i) (sym j)) sized small
            (sized, room, whole)
            (subst
              (λ xs.
                pack_data codec threshold s.id xs (replace index h.count) h.count s.data_type none
                  update
                ≡ ok ms)
              (sent_bytes s.bytes h.bytes (first_byte s index) (end_byte s h index) (omega arith)
                (omega arith))
              packed))

    -- `drain` at the client.
    drain_lem :
        (index size : ℕ)
        → index + size < 2 ^ 64
        → index + size ≤ s.count
        → update_data alloc c (drain index size) ≡ (
          record c {
            acks = c.acks + 1;
            inner =
                take (index * element_size c) c.inner
                ++ drop ((index + size) * element_size c) c.inner;
          },
          ok tt,
        )
    unfolding update_data
    drain_lem index size whole inside =
        let counted : length c.inner ≡ s.count * element_size c =
          ap length sync.same_bytes
          ∙ v.counted
          ∙ ap (λ t. s.count * item_size t) (sym sync.same_type) in
        rw (mod-eq_of_lt {n = index + size} {m = 2 ^ 64} whole) (
          rw (len_lem c c.inner s.count counted)
            (rw (le→leb _ _ inside) (rw (le→leb index (index + size) (omega arith)) refl)))

    drained :
        (index size i j : ℕ)
        → i ≡ index * item_size s.data_type
        → j ≡ (index + size) * item_size s.data_type
        → take (index * element_size c) c.inner ++ drop ((index + size) * element_size c) c.inner
          ≡ take i s.bytes ++ drop j s.bytes
    drained index size i j ei ej =
        ap₂
          (λ (t : DataType) xs.
            take (index * item_size t) xs ++ drop ((index + size) * item_size t) xs)
          sync.same_type sync.same_bytes
        ∙ ap₂ (λ a b. take a s.bytes ++ drop b s.bytes) (sym ei) (sym ej)

    pub remove_data-Synced :
        (index size : ℕ)
        → index + size < 2 ^ 64
        → (remove_data threshold codec s index size update true).1 ≡ ok (some ms)
        → Synced (remove_data threshold codec s index size update true).0
    unfolding data_header
    remove_data-Synced index size whole e =
        let (some_there, fits, ordered, inside, state, (m, made, one)) =
          remove_data_inv threshold codec s index size update ms e in
        let sum = mod-eq_of_lt {n = index + size} {m = 2 ^ 64} whole in
        let fit : index + size ≤ s.count = omega arith in
        let (i, j, room, split) = drain_end_lem s index size v fit in
        let f : Frame = (data_header s.id none (DataHeader.drain index size update), []) in
        let frames : AreFrames codec (f ∷ []) (flatten ws) = (
          m.0,
          [],
          joined ∙ ap (map (λ m. m.0)) one,
          frame-IsFrame codec f.0 [] false m refl made,
          refl,
        ) in
        let d = record c {
          acks = c.acks + 1;
          inner =
              take (index * element_size c) c.inner
              ++ drop ((index + size) * element_size c) c.inner;
        } in
        subst Synced (sym state) (
          d,
          (
            message_of f.0 f.1 ∷ [],
            read_each-AreFrames codec lawful ws (f ∷ []) n frames,
            rw ((==_iff s.id s.id).1 refl) (d, drain_lem index size whole fit, refl),
          ),
          record {
            same_type = sync.same_type;
            same_bytes = drained index size (first_byte s index) (drain_end s index size) i j;
          },
          refl,
        )
