-- ===== src/Data/Refinement.antt =====
-- `Data` of server/data_server.rs and `Data` of client/data.rs, joined by the protocol.
use egui_states.Prelude.{ℕ, ◌+◌, ◌^◌, ◌<◌, ◌≤◌, ◌≡◌, Bytes, Bool, true, some, List, map, length}
use egui_states.Outcome.{ok}
use egui_states.Protocol.Headers.{ServerHeader}
use egui_states.Protocol.Codec.{Codec, IsLawful}
use egui_states.Pack.Arrays.{Packed}
use egui_states.Messages.Groups.{flatten, AllNonempty}
use egui_states.Data.Client.{Client, isize_max}
use egui_states.Data.Delivery.{Delivers}
use egui_states.Data.Server.{Server}
use egui_states.Data.Operations.{Op, sets, adds, replaces, removes, run_op, IsSized, IsConsistent}
use egui_states.Data.Synced.{
  InSync, set_data-Synced, add_data-Synced, replace_data-Synced, remove_data-Synced,
}

-- The data of an operation fit into memory.
abbrev pub IsSmall : Op → Type 0
IsSmall (sets h) = length h.bytes ≤ isize_max
IsSmall (adds h) = length h.bytes ≤ isize_max
IsSmall (replaces h index) = length h.bytes ≤ isize_max
IsSmall (removes index size) = Unit

-- With a lawful codec, a threshold from 8 to below 2 ^ 32, and `Vec::with_capacity` that allocates
-- exactly: a set, add, replace or remove whose data have the count that comes with them and fit into
-- memory and whose range does not wrap around, on a consistent server array that the client has,
-- if it returns messages `ms` to send. Then however these are joined into websocket messages `ws`,
-- none of them empty, the client reads and accepts all of them, has the server's new array after the
-- last, and has sent one acknowledgement.
pub run_op-refines :
    (codec : Codec ServerHeader) (alloc : ℕ → ℕ) (threshold : ℕ) (c : Client) (s : Server) (op : Op)
    (update : Bool) (ms : List Packed) (ws : List (List Bytes))
    → IsLawful codec
    → ((n : ℕ) → alloc n ≡ n)
    → 8 ≤ threshold
    → threshold < 2 ^ 32
    → InSync c s
    → IsConsistent s
    → IsSized s op
    → IsSmall op
    → (run_op threshold codec s op update true).1 ≡ ok (some ms)
    → AllNonempty ws
    → flatten ws ≡ map (λ m. m.0) ms
    → (d : Client) × Delivers alloc codec s.id c ws d
      × InSync d (run_op threshold codec s op update true).0
      × (d.acks ≡ c.acks + 1)
unfolding run_op
run_op-refines codec alloc threshold c s (sets h) update ms ws lawful exact low high sync v sized
      small e n joined =
    set_data-Synced codec lawful alloc exact threshold low high c s sync v update ms ws n joined h
      sized small e
run_op-refines codec alloc threshold c s (adds h) update ms ws lawful exact low high sync v sized
      small e n joined =
    add_data-Synced codec lawful alloc exact threshold low high c s sync v update ms ws n joined h
      sized small e
run_op-refines codec alloc threshold c s (replaces h index) update ms ws lawful exact low high sync
      v (sized, whole) small e n joined =
    replace_data-Synced codec lawful alloc exact threshold low high c s sync v update ms ws n joined
      h index sized whole small e
run_op-refines codec alloc threshold c s (removes index size) update ms ws lawful exact low high
      sync v whole small e n joined =
    remove_data-Synced codec lawful alloc exact threshold low high c s sync v update ms ws n joined
      index size whole e
