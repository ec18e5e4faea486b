-- ===== src/Data/Multi/Transfer.antt =====
-- The messages of a split, for one array of a collection (`DataMulti` of client/data.rs).
use egui_states.Prelude.{
  ℕ, ◌≡◌, refl, ap, sym, ◌∙◌, subst, Bytes, Bool, true, false, List, Option, none, some, [], ◌∷◌,
  map, ◌==◌, arith, take, suc,
}
use egui_states.Outcome.{Outcome, ok}
use egui_states.Protocol.DataType.{DataType}
use egui_states.Protocol.Headers.{TransportType, set, add, replace}
use egui_states.Pack.{Piece, whole, first, middle, last}
use egui_states.Pack.Split.{Part, Split, Tail}
use egui_states.Data.Message.{DataMessage, all, batch_end, DataMultiMessage, modify}
use egui_states.Data.Client.{Client, update_data}
use egui_states.Data.Client.Transfer.{Accepts, piece_message}
use egui_states.Data.Multi.Client.{
  MultiClient, handle_multi, update_multi, set_all_multi, batch_last_multi, save_multi, save_add,
  save_replace, splice_at,
}
use egui_states.Data.Multi.View.{or_nil, view, lower, HasFor, IsAlike, update_multi-view}
use egui_states.Data.Multi.Apart.{is_there, update_multi-Apart, update_multi-Stays}

module _ (alloc : ℕ → ℕ) where
  -- Every message is accepted, and the last leaves the collection as `d`.
  abbrev pub AcceptsMulti : MultiClient → List DataMultiMessage → MultiClient → Type 0
  AcceptsMulti c [] d = c ≡ d
  AcceptsMulti c (m ∷ ms) d =
      (c' : MultiClient) × (handle_multi alloc c m ≡ (c', ok tt)) × AcceptsMulti c' ms d

-- A list of parts whose last brings the array.
abbrev pub ends : List Part → Bool
ends [] = false
ends (p ∷ []) = elim p.piece [ whole ↦ true | first ↦ false | middle ↦ false | last ↦ true ]
ends (p ∷ q ∷ ps) = ends (q ∷ ps)

Tail-ends :
    {chunk : ℕ} {xs : Bytes} {ps : List Part} (p : Part) → Tail chunk xs ps → ends (p ∷ ps) ≡ true
Tail-ends p (Tail.final pos low) = refl
Tail-ends {chunk} p (Tail.more {rest} high tail) =
    Tail-ends (record { piece = middle; body = take chunk rest; single = true }) tail

pub Split-ends :
    {threshold chunk : ℕ} {xs : Bytes} {ps : List Part}
    → Split threshold chunk xs ps
    → ends ps ≡ true
Split-ends (Split.one low) = refl
Split-ends {chunk} (Split.many {xs} over high tail) =
    Tail-ends (record { piece = first; body = take chunk xs; single = true }) tail

has_there : (o : Option Bytes) → is_there o ≡ true → o ≡ some (or_nil o)
has_there none h = cc
has_there (some xs) h = refl

there_has : (o : Option Bytes) → o ≡ some (or_nil o) → is_there o ≡ true
there_has none h = cc
there_has (some xs) h = refl

another : (key : ℕ) → (j : ℕ) × (j == key ≡ false)
another key = (suc key, ground arith)

module _ (alloc : ℕ → ℕ) (key : ℕ) (data_type : DataType) (count : ℕ) where
  -- What is accepted at the end of a transfer is there.
  stores_all :
      (c : MultiClient) (xs : Bytes) (t : TransportType)
      → (update_multi alloc c key (all data_type t xs)).1 ≡ ok tt
      → is_there ((update_multi alloc c key (all data_type t xs)).0.inner key) ≡ true
  unfolding update_multi set_all_multi save_multi save_add save_replace splice_at
  stores_all c xs (set n) e = ground arith
  stores_all c xs (add n) e = ground arith
  stores_all c xs (replace i n) e = ground arith

  stores_end :
      (c : MultiClient) (xs : Bytes) (t : TransportType)
      → (update_multi alloc c key (batch_end data_type t xs)).1 ≡ ok tt
      → is_there ((update_multi alloc c key (batch_end data_type t xs)).0.inner key) ≡ true
  unfolding update_multi batch_last_multi save_multi save_add save_replace splice_at
  stores_end c xs (set n) e = ground arith
  stores_end c xs (add n) e = ground arith
  stores_end c xs (replace i n) e = ground arith

  module _ (t : TransportType) where
    -- Whether an update changes what the transport needs.
    stays :
        (c : MultiClient) (m : DataMessage) (u : TransportType)
        → HasFor c key u
        → HasFor (update_multi alloc c key m).0 key u
    stays c m (set n) h = tt
    stays c m (add n) h = has_there _ (update_multi-Stays c key (there_has (c.inner key) h) alloc m)
    stays c m (replace i n) h =
        has_there _ (update_multi-Stays c key (there_has (c.inner key) h) alloc m)

    alike :
        (c : MultiClient) (p : Part)
        → HasFor c key t
        → IsAlike c key (piece_message data_type t count p)
    alike c p h =
        elim p.piece
          as (λ (x : Piece).
            IsAlike c key (piece_message data_type t count (record p { piece = x }))) [
              | whole ↦ h
              | first ↦ tt
              | middle ↦ tt
              | last ↦ h
            ]

    stores :
        (c : MultiClient) (p : Part)
        → ends (p ∷ []) ≡ true
        → (update_multi alloc c key (piece_message data_type t count p)).1 ≡ ok tt
        → is_there ((update_multi alloc c key (piece_message data_type t count p)).0.inner key)
          ≡ true
    stores c p =
        elim p.piece
          as (λ (x : Piece).
            ends (record p { piece = x } ∷ []) ≡ true
            → (update_multi alloc c key
                (piece_message data_type t count (record p { piece = x }))).1
              ≡ ok tt
            → is_there (
                (update_multi alloc c key
                    (piece_message data_type t count (record p { piece = x }))).0.inner
                  key)
              ≡ true) [
                | whole ↦ λ e f. stores_all c p.body t f
                | first ↦ λ e f. cc
                | middle ↦ λ e f. cc
                | last ↦ λ e f. stores_end c p.body t f
              ]

    -- The array at the key becomes what a single array would, and the others stay.
    abbrev pub Brings : MultiClient → List DataMultiMessage → Client → Type 0
    Brings c ms d =
        (c' : MultiClient) × AcceptsMulti alloc c ms c'
        × (view c' key ≡ d)
        × ((j : ℕ) → j == key ≡ false → c'.inner j ≡ c.inner j)
        × (c'.data_type ≡ c.data_type)
        × (c'.inner key ≡ some d.inner)

    one_step :
        (c : MultiClient) (p : Part) (d : Client)
        → HasFor c key t
        → update_data alloc (view c key) (piece_message data_type t count p) ≡ (d, ok tt)
        → (view (update_multi alloc c key (piece_message data_type t count p)).0 key ≡ d)
          × (update_multi alloc c key (piece_message data_type t count p)
              ≡ ((update_multi alloc c key (piece_message data_type t count p)).0, ok tt))
    one_step c p d h e =
        let m = piece_message data_type t count p in
        let both : lower key (update_multi alloc c key m) ≡ (d, ok tt) =
          update_multi-view alloc c key m (alike c p h) ∙ e in
        (
          ap (λ (r : Client × Outcome _ (Unit {0})). r.0) both,
          ap (λ (x : Outcome _ (Unit {0})). ((update_multi alloc c key m).0, x))
              (ap (λ (r : Client × Outcome _ (Unit {0})). r.1) both),
        )

    kept :
        (c : MultiClient) (p : Part)
        → (update_multi alloc c key (piece_message data_type t count p)).0.data_type ≡ c.data_type
    kept c p =
        let (j, ne) = another key in
        (update_multi-Apart c key j ne alloc (piece_message data_type t count p)).2

    pub transfer-Brings :
        (ps : List Part) (c : MultiClient) (d : Client)
        → HasFor c key t
        → ends ps ≡ true
        → Accepts alloc (view c key) (map (piece_message data_type t count) ps) d
        → Brings c (map (modify key) (map (piece_message data_type t count) ps)) d
    unfolding handle_multi
    transfer-Brings [] c d h e a = cc
    transfer-Brings (p ∷ []) c d h e (d1, ok1, same) =
        let m = piece_message data_type t count p in
        let (viewed, took) = one_step c p d1 h ok1 in
        let c1 = (update_multi alloc c key m).0 in
        let there = stores c p e (ap (λ (r : MultiClient × Outcome _ (Unit {0})). r.1) took) in
        (
          c1,
          (c1, took, refl),
          viewed ∙ same,
          λ j ne. (update_multi-Apart c key j ne alloc m).0,
          kept c p,
          has_there (c1.inner key) there ∙ ap (λ (x : Client). some x.inner) (viewed ∙ same),
        )
    transfer-Brings (p ∷ q ∷ ps) c d h e (d1, ok1, rest) =
        let m = piece_message data_type t count p in
        let (viewed, took) = one_step c p d1 h ok1 in
        let c1 = (update_multi alloc c key m).0 in
        let (c2, more, viewed2, apart, type, there) =
          transfer-Brings (q ∷ ps) c1 d (stays c m t h) e (
            subst
              (λ (x : Client). Accepts alloc x (map (piece_message data_type t count) (q ∷ ps)) d)
              (sym viewed) rest) in
        (
          c2,
          (c1, took, more),
          viewed2,
          λ j ne. apart j ne ∙ (update_multi-Apart c key j ne alloc m).0,
          type ∙ kept c p,
          there,
        )
