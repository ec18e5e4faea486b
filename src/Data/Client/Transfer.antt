-- ===== src/Data/Client/Transfer.antt =====
-- `batch` and `batch_end` of client/data.rs (`Data`), over the messages of a split after the first.
use native.Mathlib.Nat.{lt_of_mul-lt-mul_right, mul-sub, mul_comm, add-mul}
use egui_states.Prelude.{
  ℕ, ◌+◌, ◌-◌, ◌*◌, ◌%◌, ◌<◌, ◌≤◌, ◌≡◌, refl, ◌∙◌, ap, ◌++◌, Bytes, List, [], ◌∷◌, map, length,
  take, drop, arith, le→leb, ==_iff, none, some, length-append, length-take, length-drop,
  take-append-drop, append_assoc,
}
use egui_states.Outcome.{ok}
use egui_states.Protocol.DataType.{DataType, type_eq_refl}
use egui_states.Protocol.Headers.{TransportType}
use egui_states.Pack.{whole, first, middle, last}
use egui_states.Pack.Split.{Part, Tail}
use egui_states.Data.Message.{DataMessage, all, batch_start, batch, batch_end}
use egui_states.Data.Client.{Client, element_size, update_data, batch_more, batch_last, save_data}
use egui_states.Data.Client.Save.{
  stored, Fits, save_data-stored, len_lem, mul-mod_self, element_size_pos,
}

-- What the parser makes of a message of a split.
abbrev pub piece_message : DataType → TransportType → ℕ → Part → DataMessage
piece_message data_type transport count p = elim p.piece [
  | whole ↦ all data_type transport p.body
  | first ↦ batch_start count p.body
  | middle ↦ batch p.body
  | last ↦ batch_end data_type transport p.body
]

module _ (alloc : ℕ → ℕ) where
  -- Every message is accepted, and the last leaves the client as `d`.
  abbrev pub Accepts : Client → List DataMessage → Client → Type 0
  Accepts c [] d = c ≡ d
  Accepts c (m ∷ ms) d = (c' : Client) × (update_data alloc c m ≡ (c', ok tt)) × Accepts c' ms d

pub sub_mul : (q r es : ℕ) → 0 < es → q * es < r * es → (q < r) × ((r - q) * es ≡ r * es - q * es)
sub_mul q r es h k = (
  lt_of_mul-lt-mul_right es k,
  omega (arith, mul-sub es r q, mul_comm es q, mul_comm es r, mul_comm es (r - q)),
)

pub mod_of_eq : (n k es : ℕ) → 0 < es → n ≡ k * es → n % es ≡ 0
mod_of_eq n k es h e = rw e (mul-mod_self k es h)

module _ (c : Client) (pre xs : Bytes) (k r : ℕ) (held : length pre ≡ k * element_size c)
    (more : length xs ≡ r * element_size c) where
  batch_more_lem :
      (cap : ℕ)
      → c.buffer ≡ some (record { mem = pre; capacity = cap })
      → k + r ≤ cap
      → batch_more c xs
        ≡ (record c { buffer = some (record { mem = pre ++ xs; capacity = cap }) }, ok tt)
  unfolding batch_more
  batch_more_lem cap buffered fits = rw buffered (
      rw ((==_iff _ _).1 (mod_of_eq _ r _ (element_size_pos c) more))
        (rw (len_lem c pre k held, len_lem c xs r more) (rw (le→leb _ _ fits) refl)))

  batch_last_lem :
      (transport : TransportType)
      → c.buffer ≡ some (record { mem = pre; capacity = k + r })
      → batch_last c xs transport
        ≡ save_data (record c { buffer = none; acks = c.acks + 1 }) (pre ++ xs) transport
  unfolding batch_last
  batch_last_lem transport buffered = rw buffered (
      rw ((==_iff _ _).1 (mod_of_eq _ r _ (element_size_pos c) more)) (
        rw (len_lem c pre k held, len_lem c xs r more) (rw ((==_iff (k + r) (k + r)).1 refl) refl)))

-- The client that has the whole array: the buffer is gone, and one acknowledgement is sent.
abbrev pub finish : Client → TransportType → Bytes → Client
finish c transport xs = record c {
  buffer = none;
  acks = c.acks + 1;
  inner = stored (element_size c) transport xs c.inner;
}

module _ (alloc : ℕ → ℕ) (chunk q : ℕ) (transport : TransportType) (count : ℕ) where
  batch_end_lem :
      (c : Client) (pre rest xs : Bytes) (k r : ℕ)
      → pre ++ rest ≡ xs
      → length pre ≡ k * element_size c
      → length rest ≡ r * element_size c
      → c.buffer ≡ some (record { mem = pre; capacity = k + r })
      → Fits (element_size c) transport xs c.inner
      → update_data alloc c (batch_end c.data_type transport rest) ≡ (finish c transport xs, ok tt)
  unfolding update_data
  batch_end_lem c pre rest xs k r e held left buffered fits = rw (type_eq_refl c.data_type) (
      rw (batch_last_lem c pre rest k r held left transport buffered)
        (rw e (save_data-stored (record c { buffer = none; acks = c.acks + 1 }) xs transport fits)))

  -- A buffer with the start of the array, and the messages of the rest.
  pub transfer-Tail :
      (c : Client) (pre xs : Bytes) (k r : ℕ) {rest : Bytes} {ps : List Part}
      → Tail chunk rest ps
      → chunk ≡ q * element_size c
      → pre ++ rest ≡ xs
      → length pre ≡ k * element_size c
      → length rest ≡ r * element_size c
      → c.buffer ≡ some (record { mem = pre; capacity = k + r })
      → Fits (element_size c) transport xs c.inner
      → Accepts alloc c (map (piece_message c.data_type transport count) ps) (finish c transport xs)
  transfer-Tail c pre xs k r (Tail.final {rest} pos low) unit e held left buffered fits =
      (finish c transport xs, batch_end_lem c pre rest xs k r e held left buffered fits, refl)
  transfer-Tail c pre xs k r (Tail.more {rest} high tail) unit e held left buffered fits =
      let es = element_size c in
      let (less, sub) = sub_mul q r es (element_size_pos c) (omega arith) in
      let part : length (take chunk rest) ≡ q * es = omega (arith, length-take chunk rest) in
      let left' : length (drop chunk rest) ≡ (r - q) * es = omega (arith, length-drop chunk rest) in
      let next = record c {
        buffer = some (record { mem = pre ++ take chunk rest; capacity = k + r });
      } in
      (
        next,
        (unfold update_data in
            batch_more_lem c pre (take chunk rest) k q held part (k + r) buffered (omega arith)),
        transfer-Tail next (pre ++ take chunk rest) xs (k + q) (r - q) tail unit
            (append_assoc pre (take chunk rest) (drop chunk rest)
              ∙ ap (◌++◌ pre) (take-append-drop chunk rest)
              ∙ e)
            (omega (arith, length-append pre (take chunk rest), add-mul k q es)) left'
            (ap (λ n. some (record { mem = pre ++ take chunk rest; capacity = n })) (omega arith))
            fits,
      )
