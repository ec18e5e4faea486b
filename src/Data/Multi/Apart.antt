-- ===== src/Data/Multi/Apart.antt =====
-- What an update of one array of a collection (`DataMulti` of client/data.rs) leaves alone.
use egui_states.Prelude.{ℕ, ◌≡◌, Bytes, Bool, true, false, Option, none, some, ◌==◌, arith}
use egui_states.Protocol.Headers.{TransportType, set, add, replace}
use egui_states.Data.Message.{DataMessage, all, batch_start, batch, batch_end, drain, clear}
use egui_states.Data.Client.{Buffer}
use egui_states.Data.Multi.Client.{
  MultiClient, Reply, splice_at, save_add, save_replace, save_multi, set_all_multi,
  batch_more_multi, batch_last_multi, drain_multi, batch_first_multi, update_multi,
}

-- The arrays and buffers at another key are as they were, and so is the type.
abbrev pub Apart : MultiClient → ℕ → Reply → Type 0
Apart c j r =
    (r.0.inner j ≡ c.inner j) × (r.0.buffers j ≡ c.buffers j) × (r.0.data_type ≡ c.data_type)

module _ (c : MultiClient) (key j : ℕ) (ne : j == key ≡ false) where
  save_multi-Apart : (xs : Bytes) (t : TransportType) → Apart c j (save_multi c key xs t)
  unfolding save_multi save_add save_replace splice_at
  save_multi-Apart xs (set n) = ground arith
  save_multi-Apart xs (add n) = ground arith
  save_multi-Apart xs (replace i n) = ground arith

  batch_more_multi-Apart :
      (xs : Bytes) (o : Option Buffer) → Apart c j (batch_more_multi c key xs o)
  unfolding batch_more_multi
  batch_more_multi-Apart xs o = ground arith

  drain_multi-Apart :
      (index count : ℕ) (o : Option Bytes) → Apart c j (drain_multi c key index count o)
  unfolding drain_multi splice_at
  drain_multi-Apart index count o = ground arith

  batch_first_multi-Apart :
      (alloc : ℕ → ℕ) (xs : Bytes) (count : ℕ) → Apart c j (batch_first_multi alloc c key xs count)
  unfolding batch_first_multi
  batch_first_multi-Apart alloc xs count = ground arith

  set_all_multi-Apart : (xs : Bytes) (t : TransportType) → Apart c j (set_all_multi c key xs t)
  unfolding set_all_multi save_multi save_add save_replace splice_at
  set_all_multi-Apart xs (set n) = ground arith
  set_all_multi-Apart xs (add n) = ground arith
  set_all_multi-Apart xs (replace i n) = ground arith

  batch_last_multi-Apart :
      (xs : Bytes) (t : TransportType) (o : Option Buffer)
      → Apart c j (batch_last_multi c key xs t o)
  unfolding batch_last_multi save_multi save_add save_replace splice_at
  batch_last_multi-Apart xs (set n) o = ground arith
  batch_last_multi-Apart xs (add n) o = ground arith
  batch_last_multi-Apart xs (replace i n) o = ground arith

  -- An update of one array leaves the arrays and the batch buffers at the other keys as they were,
  -- whatever the message and the result.
  pub update_multi-Apart :
      (alloc : ℕ → ℕ) (m : DataMessage) → Apart c j (update_multi alloc c key m)
  unfolding update_multi
  update_multi-Apart alloc (all t transport xs) = ground (arith, set_all_multi-Apart xs transport)
  update_multi-Apart alloc (batch_start count xs) = batch_first_multi-Apart alloc xs count
  update_multi-Apart alloc (batch xs) = batch_more_multi-Apart xs (c.buffers key)
  update_multi-Apart alloc (batch_end t transport xs) =
      ground (arith, batch_last_multi-Apart xs transport (c.buffers key))
  update_multi-Apart alloc (drain index count) = drain_multi-Apart index count (c.inner key)
  update_multi-Apart alloc clear = ground arith

-- An array that is there stays there.
abbrev pub is_there : Option Bytes → Bool
is_there none = false
is_there (some xs) = true

module _ (c : MultiClient) (key : ℕ) (h : is_there (c.inner key) ≡ true) where
  abbrev Stays : Reply → Type 0
  Stays r = is_there (r.0.inner key) ≡ true

  set_all_multi-Stays : (xs : Bytes) (t : TransportType) → Stays (set_all_multi c key xs t)
  unfolding set_all_multi save_multi save_add save_replace splice_at
  set_all_multi-Stays xs (set n) = ground arith
  set_all_multi-Stays xs (add n) = ground arith
  set_all_multi-Stays xs (replace i n) = ground arith

  batch_last_multi-Stays :
      (xs : Bytes) (t : TransportType) (o : Option Buffer) → Stays (batch_last_multi c key xs t o)
  unfolding batch_last_multi save_multi save_add save_replace splice_at
  batch_last_multi-Stays xs (set n) o = ground arith
  batch_last_multi-Stays xs (add n) o = ground arith
  batch_last_multi-Stays xs (replace i n) o = ground arith

  drain_multi-Stays : (index count : ℕ) (o : Option Bytes) → Stays (drain_multi c key index count o)
  unfolding drain_multi splice_at
  drain_multi-Stays index count o = ground arith

  pub update_multi-Stays : (alloc : ℕ → ℕ) (m : DataMessage) → Stays (update_multi alloc c key m)
  unfolding update_multi batch_first_multi batch_more_multi
  update_multi-Stays alloc (all t transport xs) = ground (arith, set_all_multi-Stays xs transport)
  update_multi-Stays alloc (batch_start count xs) = ground arith
  update_multi-Stays alloc (batch xs) = ground arith
  update_multi-Stays alloc (batch_end t transport xs) =
      ground (arith, batch_last_multi-Stays xs transport (c.buffers key))
  update_multi-Stays alloc (drain index count) = drain_multi-Stays index count (c.inner key)
  update_multi-Stays alloc clear = ground arith
