-- ===== src/Data/Multi/Refinement.antt =====
-- The operations of `DataMulti` of server/data_server.rs that wait, as one, with `DataMulti` of
-- client/data.rs at the other end of the protocol.
use egui_states.Prelude.{
  ℕ, ◌+◌, ◌^◌, ◌<◌, [], ◌≤◌, ◌≡◌, refl, Bytes, Bool, true, none, some, Option, List, map, find,
  arith,
}
use egui_states.Outcome.{ok}
use egui_states.Protocol.Headers.{ServerHeader}
use egui_states.Protocol.Codec.{Codec, IsLawful}
use egui_states.Pack.Arrays.{Packed}
use egui_states.Messages.Groups.{flatten, AllNonempty}
use egui_states.Data.Server.{DataHolder}
use egui_states.Data.Refinement.{IsSmall}
use egui_states.Data.Operations.{Op, sets, adds, replaces, removes, IsSized, IsConsistent}
use egui_states.Data.Multi.Client.{MultiClient}
use egui_states.Data.Multi.Delivery.{DeliversMulti}
use egui_states.Data.Multi.Server.{
  MultiServer, MultiStep, set_multi, add_multi, replace_multi, remove_multi,
}
use egui_states.Data.Multi.Inversion.{entry}
use egui_states.Data.Multi.Synced.{
  InSyncMulti, set_multi-Synced, add_multi-Synced, replace_multi-Synced,
}
use egui_states.Data.Multi.Removal.{remove_multi-Synced}

-- An operation on the array at an index.
unfoldable pub run_multi_op :
    ℕ → Codec ServerHeader → MultiServer → ℕ → Op → Bool → Bool → MultiStep
run_multi_op threshold codec s index (sets h) update connected =
    set_multi threshold codec s index update connected h
run_multi_op threshold codec s index (adds h) update connected =
    add_multi threshold codec s index update connected h
run_multi_op threshold codec s index (replaces h i) update connected =
    replace_multi threshold codec s index update connected h i
run_multi_op threshold codec s index (removes i size) update connected =
    remove_multi threshold codec s index update connected i size

-- Every array of the collection has the count of its elements.
abbrev pub IsConsistentMulti : MultiServer → Type 0
IsConsistentMulti s = (j : ℕ) (p : Bytes × ℕ) → find j s.values ≡ some p → IsConsistent (entry s p)

module _ (threshold : ℕ) (codec : Codec ServerHeader) (s : MultiServer) (index : ℕ) (update : Bool)
    (ms : List Packed) where
  -- The array that an operation needs.
  abbrev Found : Type 0
  Found = (p : Bytes × ℕ) × (find index s.values ≡ some p)

  found_or : (o : Option (Bytes × ℕ)) → find index s.values ≡ o → (o ≡ none → Found) → Found
  found_or none e f = f refl
  found_or (some p) e f = (p, e)

  add_found :
      (h : DataHolder) → (add_multi threshold codec s index update true h).1 ≡ ok (some ms) → Found
  unfolding add_multi
  add_found h e = found_or (find index s.values) refl (λ gone. ground arith)

  replace_found :
      (h : DataHolder) (i : ℕ)
      → (replace_multi threshold codec s index update true h i).1 ≡ ok (some ms)
      → Found
  unfolding replace_multi
  replace_found h i e = found_or (find index s.values) refl (λ gone. ground arith)

  remove_found :
      (i size : ℕ)
      → (remove_multi threshold codec s index update true i size).1 ≡ ok (some ms)
      → Found
  unfolding remove_multi
  remove_found i size e = found_or (find index s.values) refl (λ gone. ground arith)

-- With a lawful codec, a threshold from 8 to below 2 ^ 32, and `Vec::with_capacity` that allocates
-- exactly: a set, add, replace or remove on the array at an index, whose data have the count that
-- comes with them and fit into memory and whose range does not wrap around, in a collection of
-- consistent arrays that the client has, if it returns messages `ms` to send. Then however these are
-- joined into websocket messages `ws`, none of them empty, the client reads and accepts all of them,
-- has every array of the server's new collection and no other after the last, and has sent one
-- acknowledgement.
pub run_multi_op-refines :
    (codec : Codec ServerHeader) (alloc : ℕ → ℕ) (threshold : ℕ) (c : MultiClient) (s : MultiServer)
    (index : ℕ) (op : Op) (update : Bool) (ms : List Packed) (ws : List (List Bytes))
    → IsLawful codec
    → ((n : ℕ) → alloc n ≡ n)
    → 8 ≤ threshold
    → threshold < 2 ^ 32
    → InSyncMulti c s
    → IsConsistentMulti s
    → IsSized (entry s ([], 0)) op
    → IsSmall op
    → (run_multi_op threshold codec s index op update true).1 ≡ ok (some ms)
    → AllNonempty ws
    → flatten ws ≡ map (λ m. m.0) ms
    → (d : MultiClient) × DeliversMulti alloc codec s.id c ws d
      × InSyncMulti d (run_multi_op threshold codec s index op update true).0
      × (d.acks ≡ c.acks + 1)
unfolding run_multi_op
run_multi_op-refines codec alloc threshold c s index (sets h) update ms ws lawful exact low high
      sync v sized small e n joined =
    set_multi-Synced codec lawful alloc exact threshold low high c s sync index update ms ws n
      joined h sized small e
run_multi_op-refines codec alloc threshold c s index (adds h) update ms ws lawful exact low high
      sync v sized small e n joined =
    let (p, there) = add_found threshold codec s index update ms h e in
    add_multi-Synced codec lawful alloc exact threshold low high c s sync index update ms ws n
      joined p there h sized small e
run_multi_op-refines codec alloc threshold c s index (replaces h i) update ms ws lawful exact low
      high sync v (sized, whole) small e n joined =
    let (p, there) = replace_found threshold codec s index update ms h i e in
    replace_multi-Synced codec lawful alloc exact threshold low high c s sync index update ms ws n
      joined p there h i (v index p there) sized whole small e
run_multi_op-refines codec alloc threshold c s index (removes i size) update ms ws lawful exact low
      high sync v whole small e n joined =
    let (p, there) = remove_found threshold codec s index update ms i size e in
    remove_multi-Synced codec lawful alloc exact threshold low high c s sync index update ms ws n
      joined p there i size (v index p there) whole e
