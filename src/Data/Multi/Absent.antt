-- ===== src/Data/Multi/Absent.antt =====
-- Every message to an array of a collection, there or not: `DataMulti` against `Data`, both of
-- client/data.rs.
use egui_states.Prelude.{
  ℕ, ◌+◌, ◌%◌, ◌≡◌, refl, ap, sym, ◌∙◌, ◌++◌, Bytes, Option, none, some, [], ◌==◌, length, put_at,
  Bool-cases, Option-cases, inl, inr,
}
use egui_states.Outcome.{ok, err, fault}
use egui_states.Protocol.DataType.{DataType, type_eq}
use egui_states.Protocol.Headers.{TransportType, set, add, replace}
use egui_states.Data.Message.{DataMessage, all, batch_start, batch, batch_end, drain, clear}
use egui_states.Data.Client.{
  Client, Buffer, save_data, set_all, batch_last, update_data, no_key, no_header, not_multiple,
  size_mismatch,
}
use egui_states.Data.Client as One
use egui_states.Data.Multi.Client.{
  MultiClient, element_size, len, send_ack, save_add, save_replace, save_multi, set_all_multi,
  batch_last_multi, drain_multi, update_multi, emptied,
}
use egui_states.Data.Multi.View.{
  or_nil, view, lower, taken, taken-view, with_buffer, Has, HasFor, update_multi-view,
}

-- Without an array, what a single array would accept is refused, and there is still no array.
abbrev pub no_array : One.Reply → One.Reply
no_array (d, ok u) = (record d { inner = [] }, err no_key)
no_array (d, err e) = (d, err e)
no_array (d, fault) = (d, fault)

-- What a collection does with a message, by what a single array does with it: one with the array, or
-- with no array at that key. `Clear` leaves the batch buffer, which the single array drops.
module _ (alloc : ℕ → ℕ) (d : Client) where
  abbrev pub with_array : DataMessage → One.Reply
  with_array clear = (record d { inner = [] }, ok tt)
  with_array m = update_data alloc d m

  -- `Add` and `Replace` are checked as a `Set` of as many elements.
  abbrev pub without_array : DataMessage → One.Reply
  without_array (all t (set n) xs) = update_data alloc d (all t (set n) xs)
  without_array (all t (add n) xs) = no_array (update_data alloc d (all t (set n) xs))
  without_array (all t (replace i n) xs) = no_array (update_data alloc d (all t (set n) xs))
  without_array (batch_start count xs) = update_data alloc d (batch_start count xs)
  without_array (batch xs) = update_data alloc d (batch xs)
  without_array (batch_end t (set n) xs) = update_data alloc d (batch_end t (set n) xs)
  without_array (batch_end t (add n) xs) = no_array (update_data alloc d (batch_end t (set n) xs))
  without_array (batch_end t (replace i n) xs) =
      no_array (update_data alloc d (batch_end t (set n) xs))
  without_array (drain index count) = (record d { acks = d.acks + 1 }, err no_key)
  without_array clear = (record d { inner = [] }, ok tt)

  abbrev pub of_array : Option Bytes → DataMessage → One.Reply
  of_array (some xs) m = with_array m
  of_array none m = without_array m

-- A transport that needs an array, and the `Set` of as many elements.
data NeedsArray : TransportType → ℕ → Type 0 where
  adds : (n : ℕ) → NeedsArray (add n) n
  replaces : (i n : ℕ) → NeedsArray (replace i n) n

refused_view :
    (c : MultiClient) (key : ℕ)
    → c.inner key ≡ none
    → ◌≡◌ {A = One.Reply} (view c key, err no_key) (record (view c key) { inner = [] }, err no_key)
refused_view c key e =
    ap (λ (o : Option Bytes). (record (view c key) { inner = or_nil o }, err no_key)) e

save_absent :
    (c : MultiClient) (key : ℕ) (xs : Bytes) {t : TransportType} {n : ℕ}
    → NeedsArray t n
    → c.inner key ≡ none
    → lower key (save_multi c key xs t) ≡ no_array (save_data (view c key) xs (set n))
unfolding save_multi save_add save_replace save_data
save_absent c key xs (adds n) e = elim (Bool-cases (len c xs == n)) [
  | inl h ↦
      rw h (ap (λ (o : Option Bytes). lower key (save_add c key xs o)) e ∙ refused_view c key e)
  | inr h ↦ rw h refl
]
save_absent c key xs (replaces i n) e = elim (Bool-cases (len c xs == n)) [
  | inl h ↦
      rw h
        (ap (λ (o : Option Bytes). lower key (save_replace c key xs i o)) e ∙ refused_view c key e)
  | inr h ↦ rw h refl
]

set_all_absent :
    (c : MultiClient) (key : ℕ) (xs : Bytes) (t : TransportType) (n : ℕ)
    → NeedsArray t n
    → c.inner key ≡ none
    → lower key (set_all_multi c key xs t) ≡ no_array (set_all (view c key) xs (set n))
unfolding set_all_multi set_all
set_all_absent c key xs t n needs e = elim (Bool-cases (length xs % element_size c == 0)) [
  | inl h ↦ rw h (save_absent (send_ack c) key xs needs e)
  | inr h ↦ rw h refl
]

batch_last_absent :
    (c : MultiClient) (key : ℕ) (xs : Bytes) (t : TransportType) (n : ℕ) (o : Option Buffer)
    → NeedsArray t n
    → c.inner key ≡ none
    → lower key (batch_last_multi c key xs t o)
      ≡ no_array (batch_last (with_buffer c key o) xs (set n))
unfolding batch_last_multi batch_last
batch_last_absent c key xs t n none needs e =
    ap (λ (d : Client). (d, err no_header)) (taken-view c key)
batch_last_absent c key xs t n (some b) needs e =
    elim (Bool-cases (length xs % element_size c == 0)) [
      | inr k ↦ rw k (ap (λ (d : Client). (d, err not_multiple)) (taken-view c key))
      | inl k ↦ elim (Bool-cases (len c b.mem + len c xs == b.capacity)) [
        | inr l ↦ rw k (rw l (ap (λ (d : Client). (d, err size_mismatch)) (taken-view c key)))
        | inl l ↦ rw k (
            rw l (
              save_absent (taken c key) key (b.mem ++ xs) needs e
              ∙ ap (λ (d : Client). no_array (save_data d (b.mem ++ xs) (set n)))
                  (taken-view c key)))
      ]
    ]

emptied_nil : (o : Option Bytes) → or_nil (emptied o) ≡ []
emptied_nil none = refl
emptied_nil (some xs) = refl

module _ (alloc : ℕ → ℕ) (c : MultiClient) (key : ℕ) where
  clear_lem :
      (o : Option Bytes)
      → c.inner key ≡ o
      → lower key (update_multi alloc c key clear) ≡ (record (view c key) { inner = [] }, ok tt)
  unfolding update_multi
  clear_lem o e =
      ap (λ (p : Option Bytes). (record (view c key) { inner = or_nil p }, ok tt))
        (put_at c.inner key (emptied (c.inner key)) ∙ ap emptied e)
      ∙ ap (λ (xs : Bytes). (record (view c key) { inner = xs }, ok tt)) (emptied_nil o)

  has_for : (t : TransportType) → Has c key → HasFor c key t
  has_for (set n) h = tt
  has_for (add n) h = h
  has_for (replace i n) h = h

  present :
      (m : DataMessage)
      → Has c key
      → lower key (update_multi alloc c key m) ≡ with_array alloc (view c key) m
  present (all t transport xs) h =
      update_multi-view alloc c key (all t transport xs) (has_for transport h)
  present (batch_start count xs) h = update_multi-view alloc c key (batch_start count xs) tt
  present (batch xs) h = update_multi-view alloc c key (batch xs) tt
  present (batch_end t transport xs) h =
      update_multi-view alloc c key (batch_end t transport xs) (has_for transport h)
  present (drain index count) h = update_multi-view alloc c key (drain index count) h
  present clear h = clear_lem (c.inner key) refl

  all_absent :
      (t : DataType) (transport : TransportType) (n : ℕ) (xs : Bytes)
      → NeedsArray transport n
      → c.inner key ≡ none
      → lower key (update_multi alloc c key (all t transport xs))
        ≡ no_array (update_data alloc (view c key) (all t (set n) xs))
  unfolding update_multi update_data
  all_absent t transport n xs needs e = elim (Bool-cases (type_eq c.data_type t)) [
    | inl k ↦ rw k (set_all_absent c key xs transport n needs e)
    | inr k ↦ rw k refl
  ]

  batch_end_absent :
      (t : DataType) (transport : TransportType) (n : ℕ) (xs : Bytes)
      → NeedsArray transport n
      → c.inner key ≡ none
      → lower key (update_multi alloc c key (batch_end t transport xs))
        ≡ no_array (update_data alloc (view c key) (batch_end t (set n) xs))
  unfolding update_multi update_data
  batch_end_absent t transport n xs needs e = elim (Bool-cases (type_eq c.data_type t)) [
    | inl k ↦ rw k (batch_last_absent c key xs transport n (c.buffers key) needs e)
    | inr k ↦ rw k refl
  ]

  drain_absent :
      (index count : ℕ)
      → c.inner key ≡ none
      → lower key (update_multi alloc c key (drain index count))
        ≡ (record (view c key) { acks = c.acks + 1 }, err no_key)
  unfolding update_multi drain_multi
  drain_absent index count e =
      ap (λ (o : Option Bytes). lower key (drain_multi c key index count o)) e

  absent :
      (m : DataMessage)
      → c.inner key ≡ none
      → lower key (update_multi alloc c key m) ≡ without_array alloc (view c key) m
  absent (all t (set n) xs) e = update_multi-view alloc c key (all t (set n) xs) tt
  absent (all t (add n) xs) e = all_absent t (add n) n xs (adds n) e
  absent (all t (replace i n) xs) e = all_absent t (replace i n) n xs (replaces i n) e
  absent (batch_start count xs) e = update_multi-view alloc c key (batch_start count xs) tt
  absent (batch xs) e = update_multi-view alloc c key (batch xs) tt
  absent (batch_end t (set n) xs) e = update_multi-view alloc c key (batch_end t (set n) xs) tt
  absent (batch_end t (add n) xs) e = batch_end_absent t (add n) n xs (adds n) e
  absent (batch_end t (replace i n) xs) e = batch_end_absent t (replace i n) n xs (replaces i n) e
  absent (drain index count) e = drain_absent index count e
  absent clear e = clear_lem none e

-- An array of a collection takes every message, in every state, as a single array with its bytes, its
-- buffer and its type takes it, errors and panics included, with these differences: `Clear` leaves the
-- batch buffer; and where there is no array, `Add`, `Replace` and the end of such a batch are checked
-- as a `Set` of as many elements and then refused for the missing key, `Drain` is refused and
-- acknowledged, and there is still no element.
pub update_multi-array :
    (alloc : ℕ → ℕ) (c : MultiClient) (key : ℕ) (m : DataMessage)
    → lower key (update_multi alloc c key m) ≡ of_array alloc (view c key) (c.inner key) m
update_multi-array alloc c key m = elim (Option-cases (c.inner key)) [
  | inl e ↦
      absent alloc c key m e ∙ ap (λ (o : Option Bytes). of_array alloc (view c key) o m) (sym e)
  | inr q ↦
      present alloc c key m (q.1 ∙ ap (λ (o : Option Bytes). some (or_nil o)) (sym q.1))
      ∙ ap (λ (o : Option Bytes). of_array alloc (view c key) o m) (sym q.1)
]
