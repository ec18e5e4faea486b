-- ===== src/Data/Multi/Synced.antt =====
-- The operations of `DataMulti` (server/data_server.rs) that send bytes, with a client that has the
-- collection.
use native.Mathlib.Nat.{mod-eq_of_lt}
use egui_states.Prelude.{
  ℕ, ◌+◌, ◌*◌, ◌^◌, ◌<◌, ◌≤◌, ◌≡◌, refl, ap, ap₂, sym, ◌∙◌, subst, Bytes, Bool, true, false, none,
  some, Option, List, ◌++◌, map, length, take, drop, arith, drop-append, add_usize, find, insert,
  find-insert_same, find-insert_other, ◌==◌, ==_to, Bool-cases, inl, inr,
}
use egui_states.Outcome.{ok}
use egui_states.Protocol.DataType.{DataType, item_size}
use egui_states.Protocol.Headers.{TransportType, ServerHeader, set, add, replace}
use egui_states.Protocol.Codec.{Codec, IsLawful}
use egui_states.Pack.Arrays.{Packed, pack_data}
use egui_states.Messages.Groups.{flatten, AllNonempty}
use egui_states.Data.Client.{isize_max}
use egui_states.Data.Client.Save.{Fits, stored}
use egui_states.Data.Server.{DataHolder}
use egui_states.Data.Inversion.{first_byte, end_byte}
use egui_states.Data.Operations.{IsConsistent, end_byte_lem, sent_bytes}
use egui_states.Data.Multi.Client.{MultiClient}
use egui_states.Data.Multi.View.{or_nil, HasFor}
use egui_states.Data.Multi.Delivery.{DeliversMulti, Stored, pack_multi-Stored}
use egui_states.Data.Multi.Server.{MultiServer, stored_at, set_multi, add_multi, replace_multi}
use egui_states.Data.Multi.Inversion.{entry, set_multi_inv, add_multi_inv, replace_multi_inv}

-- The bytes of an entry.
abbrev pub bytes_of : Option (Bytes × ℕ) → Option Bytes
bytes_of none = none
bytes_of (some p) = some p.0

-- The client has every array of the collection, and no other.
pub record InSyncMulti (c : MultiClient) (s : MultiServer) : Type 0 where
  pub same_type : c.data_type ≡ s.data_type
  pub same : (j : ℕ) → c.inner j ≡ bytes_of (find j s.values)

==_swap : (a b : ℕ) → a == b ≡ false → b == a ≡ false
==_swap a b h = ground arith

-- One array of the collection has changed on both sides.
pub changed_at :
    (c d : MultiClient) (s : MultiServer) (index : ℕ) (xs : Bytes) (n : ℕ)
    → InSyncMulti c s
    → d.data_type ≡ c.data_type
    → d.inner index ≡ some xs
    → ((j : ℕ) → j == index ≡ false → d.inner j ≡ c.inner j)
    → InSyncMulti d (stored_at s index xs n)
changed_at c d s index xs n sync type there apart = record {
  same_type = type ∙ sync.same_type;
  same = λ j. elim (Bool-cases (j == index)) [
    | inl e ↦
        ap d.inner (==_to j index e)
        ∙ there
        ∙ ap bytes_of (sym (find-insert_same index (xs, n) s.values))
        ∙ ap (λ (k : ℕ). bytes_of (find k (insert index (xs, n) s.values))) (sym (==_to j index e))
    | inr e ↦
        apart j e
        ∙ sync.same j
        ∙ ap bytes_of (sym (find-insert_other j index (xs, n) s.values (==_swap j index e)))
  ];
}

module _ (codec : Codec ServerHeader) (lawful : IsLawful codec) (alloc : ℕ → ℕ)
    (exact : (n : ℕ) → alloc n ≡ n) (threshold : ℕ) (low : 8 ≤ threshold)
    (high : threshold < 2 ^ 32) (c : MultiClient) (s : MultiServer) (sync : InSyncMulti c s)
    (index : ℕ) (update : Bool) (ms : List Packed) (ws : List (List Bytes)) (n : AllNonempty ws)
    (joined : flatten ws ≡ map (λ m. m.0) ms) where
  abbrev pub SyncedMulti : MultiServer → Type 0
  SyncedMulti s' =
      (d : MultiClient) × DeliversMulti alloc codec s.id c ws d
      × InSyncMulti d s'
      × (d.acks ≡ c.acks + 1)

  -- For a type of elements that the client has.
  abbrev StoredAt : ℕ → Bytes → TransportType → DataType → Type 0
  StoredAt count xs transport t =
      length xs ≡ count * item_size t
      → HasFor c index transport
      → Fits (item_size t) transport xs (or_nil (c.inner index))
      → pack_data codec threshold s.id xs transport count t (some index) update ≡ ok ms
      → Stored codec lawful alloc c s.id index
          (stored (item_size t) transport xs (or_nil (c.inner index))) ws

  SyncedMulti-by :
      (xs' : Bytes) (n' count : ℕ) (xs : Bytes) (transport : TransportType)
      → length xs ≡ count * item_size s.data_type
      → length xs ≤ isize_max
      → HasFor c index transport
      → Fits (item_size s.data_type) transport xs (or_nil (c.inner index))
      → pack_data codec threshold s.id xs transport count s.data_type (some index) update ≡ ok ms
      → stored (item_size s.data_type) transport xs (or_nil (c.inner index)) ≡ xs'
      → SyncedMulti (stored_at s index xs' n')
  SyncedMulti-by xs' n' count xs transport held small has fits packed made =
      let (d, delivered, there, apart, acks, type) =
        subst (StoredAt count xs transport) sync.same_type
          (λ held fits packed fits'.
            pack_multi-Stored codec lawful alloc c threshold s.id index count xs transport update ms
              ws low high held small (exact count) fits packed fits' n joined)
          held has fits packed in
      (d, delivered, changed_at c d s index xs' n' sync type (there ∙ ap some made) apart, acks)

  pub set_multi-Synced :
      (h : DataHolder)
      → length h.bytes ≡ h.count * item_size s.data_type
      → length h.bytes ≤ isize_max
      → (set_multi threshold codec s index update true h).1 ≡ ok (some ms)
      → SyncedMulti (set_multi threshold codec s index update true h).0
  set_multi-Synced h sized small e =
      let (state, packed) = set_multi_inv threshold codec s index update ms h e in
      subst SyncedMulti (sym state) (
        SyncedMulti-by h.bytes h.count h.count h.bytes (set h.count) sized small tt sized packed
          refl)

  module _ (p : Bytes × ℕ) (there : find index s.values ≡ some p) where
    had : c.inner index ≡ some p.0
    had = sync.same index ∙ ap bytes_of there

    -- The array that the client has at the index.
    old : or_nil (c.inner index) ≡ p.0
    old = ap or_nil had

    has : c.inner index ≡ some (or_nil (c.inner index))
    has = had ∙ ap some (sym old)

    pub add_multi-Synced :
        (h : DataHolder)
        → length h.bytes ≡ h.count * item_size s.data_type
        → length h.bytes ≤ isize_max
        → (add_multi threshold codec s index update true h).1 ≡ ok (some ms)
        → SyncedMulti (add_multi threshold codec s index update true h).0
    add_multi-Synced h sized small e =
        let (state, packed) = add_multi_inv threshold codec s index update ms p there h e in
        subst SyncedMulti (sym state) (
          SyncedMulti-by (p.0 ++ h.bytes) (add_usize p.1 h.count) h.count h.bytes (add h.count)
            sized small has sized
            (subst
              (λ xs.
                pack_data codec threshold s.id xs (add h.count) h.count s.data_type (some index)
                  update
                ≡ ok ms)
              (drop-append p.0 h.bytes) packed)
            (ap (λ (o : Bytes). o ++ h.bytes) old))

    pub replace_multi-Synced :
        (h : DataHolder) (i : ℕ)
        → IsConsistent (entry s p)
        → length h.bytes ≡ h.count * item_size s.data_type
        → i + h.count < 2 ^ 64
        → length h.bytes ≤ isize_max
        → (replace_multi threshold codec s index update true h i).1 ≡ ok (some ms)
        → SyncedMulti (replace_multi threshold codec s index update true h i).0
    replace_multi-Synced h i v sized whole small e =
        let s1 = entry s p in
        let (fits, ordered, inside, state, packed) =
          replace_multi_inv threshold codec s index update ms p there h i e in
        let sum = mod-eq_of_lt {n = i + h.count} {m = 2 ^ 64} whole in
        let (f, g, room, split) = end_byte_lem s1 h i v sized (omega arith) in
        let xs = take (first_byte s1 i) p.0 ++ (h.bytes ++ drop (end_byte s1 h i) p.0) in
        subst SyncedMulti (sym state) (
          SyncedMulti-by xs p.1 h.count h.bytes (replace i h.count) sized small has
            (
              sized,
              subst (λ (o : Bytes). (i + h.count) * item_size s.data_type ≤ length o) (sym old)
                  room,
              whole,
            )
            (subst
              (λ xs.
                pack_data codec threshold s.id xs (replace i h.count) h.count s.data_type
                  (some index) update
                ≡ ok ms)
              (sent_bytes p.0 h.bytes (first_byte s1 i) (end_byte s1 h i) (omega arith)
                (omega arith))
              packed)
            (ap
                (λ (o : Bytes).
                  take (i * item_size s.data_type) o
                  ++ (h.bytes ++ drop ((i + h.count) * item_size s.data_type) o))
                old
              ∙ ap₂ (λ a b. take a p.0 ++ (h.bytes ++ drop b p.0)) (sym f) (sym g)))
