-- ===== src/Data/Client/Whole.antt =====
-- `all` and `batch_start` of client/data.rs (`Data`), and whole transfers.
use native.Mathlib.Nat.{mod-eq_of_lt}
use egui_states.Prelude.{
  ℕ, ◌+◌, ◌-◌, ◌*◌, ◌^◌, ◌≤◌, ◌≡◌, refl, ap, Bytes, List, map, length, take, arith, le→leb, ==_iff,
  some, length-take, length-drop, take-append-drop,
}
use egui_states.Outcome.{ok}
use egui_states.Protocol.DataType.{type_eq_refl}
use egui_states.Protocol.Headers.{TransportType}
use egui_states.Pack.Split.{Part, Split}
use egui_states.Data.Message.{all, batch_start}
use egui_states.Data.Client.{Client, element_size, send_ack, update_data, isize_max}
use egui_states.Data.Client.Save.{stored, Fits, save_data-stored, element_size_pos}
use egui_states.Data.Client.Transfer.{
  Accepts, finish, piece_message, transfer-Tail, sub_mul, mod_of_eq,
}

module _ (alloc : ℕ → ℕ) (c : Client) (xs : Bytes) (transport : TransportType) where
  all_lem :
      (n : ℕ)
      → length xs ≡ n * element_size c
      → Fits (element_size c) transport xs c.inner
      → update_data alloc c (all c.data_type transport xs)
        ≡ (record (send_ack c) { inner = stored (element_size c) transport xs c.inner }, ok tt)
  unfolding update_data
  all_lem n held fits = rw (type_eq_refl c.data_type) (
      rw ((==_iff _ _).1 (mod_of_eq _ n _ (element_size_pos c) held))
        (save_data-stored (send_ack c) xs transport fits))

batch_start_lem :
    (alloc : ℕ → ℕ) (c : Client) (body : Bytes) (q n : ℕ)
    → length body ≡ q * element_size c
    → length body ≤ n * element_size c
    → n * element_size c ≤ isize_max
    → update_data alloc c (batch_start n body)
      ≡ (record c { buffer = some (record { mem = body; capacity = alloc n }) }, ok tt)
unfolding update_data
batch_start_lem alloc c body q n held room small =
    rw (mod-eq_of_lt {n = n * element_size c} {m = 2 ^ 64} (omega arith)) (
      rw (le→leb _ _ room) (
        rw ((==_iff _ _).1 (mod_of_eq _ q _ (element_size_pos c) held))
          (rw (le→leb _ _ small) refl)))

-- The result of a transfer: accepted to the last message, stored, and acknowledged once.
abbrev pub Transferred : (ℕ → ℕ) → Client → TransportType → ℕ → Bytes → List Part → Type 0
Transferred alloc c transport n xs ps =
    (d : Client) × Accepts alloc c (map (piece_message c.data_type transport n) ps) d
    × (d.inner ≡ stored (element_size c) transport xs c.inner)
    × (d.acks ≡ c.acks + 1)
    × (d.data_type ≡ c.data_type)

-- For messages of a split whose chunk is a number of whole elements, of bytes that are `n` whole
-- elements, fit into memory and fit the client's array as the transport type says, where the buffer
-- gets a capacity of exactly `n`: the client accepts every message, has stored the bytes after the
-- last, and has sent one acknowledgement.
pub Split-Transferred :
    (alloc : ℕ → ℕ) (c : Client) (transport : TransportType) (threshold chunk q n : ℕ) {xs : Bytes}
    {ps : List Part}
    → Split threshold chunk xs ps
    → chunk ≡ q * element_size c
    → length xs ≡ n * element_size c
    → length xs ≤ isize_max
    → alloc n ≡ n
    → Fits (element_size c) transport xs c.inner
    → Transferred alloc c transport n xs ps
Split-Transferred alloc c transport threshold chunk q n (Split.one {xs} low) unit held small exact
      fits =
    (
      record (send_ack c) { inner = stored (element_size c) transport xs c.inner },
      (_, all_lem alloc c xs transport n held fits, refl),
      refl,
      refl,
      refl,
    )
Split-Transferred alloc c transport threshold chunk q n (Split.many {xs} over high tail) unit held
      small exact fits =
    let es = element_size c in
    let (less, sub) = sub_mul q n es (element_size_pos c) (omega arith) in
    let part : length (take chunk xs) ≡ q * es = omega (arith, length-take chunk xs) in
    let next = record c { buffer = some (record { mem = take chunk xs; capacity = alloc n }) } in
    (
      finish next transport xs,
      (
        next,
        batch_start_lem alloc c (take chunk xs) q n part (omega (arith, length-take chunk xs))
            (omega arith),
        transfer-Tail alloc chunk q transport n next (take chunk xs) xs q (n - q) tail unit
            (take-append-drop chunk xs) part (omega (arith, length-drop chunk xs))
            (rw exact (ap (λ k. some (record { mem = take chunk xs; capacity = k })) (omega arith)))
            fits,
      ),
      refl,
      refl,
      refl,
    )
