-- ===== src/Data/Take/Transfer.antt =====
-- The messages of a split array at client/data_take.rs.
use native.Mathlib.Nat.{mod-eq_of_lt, add-mul}
use egui_states.Prelude.{
  ℕ, ◌+◌, ◌-◌, ◌*◌, ◌/◌, ◌^◌, ◌%◌, none, ◌<◌, ◌≤◌, ◌≡◌, refl, ap, subst, ◌∙◌, ◌++◌, Bytes, Bool,
  List, [], ◌∷◌, map, length, take, drop, arith, le→leb, ==_iff, some, length-append, length-take,
  length-drop, take-append-drop, append_assoc,
}
use egui_states.Outcome.{ok}
use egui_states.Protocol.DataType.{DataType, type_eq_refl, item_size, item_size_bounds}
use egui_states.Pack.{whole, first, middle, last}
use egui_states.Pack.Split.{Part, Split, Tail}
use egui_states.Data.Message.{DataTakeMessage, all, batch_start, batch, batch_end}
use egui_states.Data.Client.{isize_max}
use egui_states.Data.Client.Save.{len_lem}
use egui_states.Data.Client.Transfer.{sub_mul, mod_of_eq}
use egui_states.Data.Take.Client.{Slot, take_batch, take_last, take_all_of, take_first, update_slot}

-- What the parser makes of a message of a split.
abbrev pub take_message : DataType → ℕ → Part → DataTakeMessage
take_message data_type count p = elim p.piece [
  | whole ↦ all data_type count p.body
  | first ↦ batch_start count p.body
  | middle ↦ batch p.body
  | last ↦ batch_end data_type count p.body
]

module _ (t : DataType) (alloc : ℕ → ℕ) (blocking : Bool) where
  abbrev es : ℕ
  es = item_size t

  -- Every message is accepted, and the last leaves the slot as `d`.
  abbrev pub SlotAccepts : Slot → List DataTakeMessage → Slot → Type 0
  SlotAccepts s [] d = s ≡ d
  SlotAccepts s (m ∷ ms) d =
      (s' : Slot) × (update_slot t alloc s m blocking ≡ (s', ok tt)) × SlotAccepts s' ms d

  es_pos : 0 < es
  es_pos = (item_size_bounds t).0

  product : (n : ℕ) → n * es ≤ isize_max → n * es % 2 ^ 64 ≡ n * es
  product n small = mod-eq_of_lt {n = n * es} {m = 2 ^ 64} (omega arith)

  all_lem :
      (s : Slot) (n : ℕ) (xs : Bytes)
      → length xs ≡ n * es
      → length xs ≤ isize_max
      → update_slot t alloc s (all t n xs) blocking
        ≡ (record s { inner = some (xs, blocking) }, ok tt)
  unfolding update_slot take_all_of
  all_lem s n xs held small = rw (type_eq_refl t) (
      rw (product n (omega arith))
        (rw ((==_iff _ _).1 held) (rw (le→leb (n * es) isize_max (omega arith)) refl)))

  batch_start_lem :
      (s : Slot) (n q : ℕ) (body : Bytes)
      → length body ≡ q * es
      → length body ≤ n * es
      → n * es ≤ isize_max
      → update_slot t alloc s (batch_start n body) blocking
        ≡ (record s { buffer = some (record { mem = body; capacity = alloc n }) }, ok tt)
  unfolding update_slot take_first
  batch_start_lem s n q body held fits small = rw (product n small) (
      rw (le→leb _ _ fits)
        (rw ((==_iff _ _).1 (mod_of_eq _ q _ es_pos held)) (rw (le→leb _ _ small) refl)))

  elements : (xs : Bytes) (k : ℕ) → length xs ≡ k * es → length xs / es ≡ k
  elements xs k held =
      len_lem (record { data_type = t; inner = []; buffer = none; acks = 0 }) xs k held

  module _ (s : Slot) (pre xs : Bytes) (k r cap : ℕ) (held : length pre ≡ k * es)
      (more : length xs ≡ r * es)
      (buffered : s.buffer ≡ some (record { mem = pre; capacity = cap })) (fits : k + r ≤ cap) where
    batch_lem :
        update_slot t alloc s (batch xs) blocking
        ≡ (record s { buffer = some (record { mem = pre ++ xs; capacity = cap }) }, ok tt)
    unfolding update_slot take_batch
    batch_lem = rw buffered (
        rw ((==_iff _ _).1 (mod_of_eq _ r _ es_pos more))
          (rw (elements pre k held, elements xs r more) (rw (le→leb _ _ fits) refl)))

    batch_end_lem :
        update_slot t alloc s (batch_end t (k + r) xs) blocking
        ≡ (record { inner = some (pre ++ xs, blocking); buffer = none }, ok tt)
    unfolding update_slot take_last
    batch_end_lem = rw (type_eq_refl t) (
        rw buffered (
          rw ((==_iff _ _).1 (mod_of_eq _ r _ es_pos more)) (
            rw (elements pre k held, elements xs r more)
              (rw ((==_iff (k + r) (k + r)).1 refl) (rw (le→leb _ _ fits) refl)))))

  -- The slot with the array.
  abbrev filled : Bytes → Slot
  filled xs = record { inner = some (xs, blocking); buffer = none }

  -- A buffer with the start of the array, and the messages of the rest.
  transfer-Tail :
      (chunk q n : ℕ) (s : Slot) (pre xs : Bytes) (k r cap : ℕ) {rest : Bytes} {ps : List Part}
      → Tail chunk rest ps
      → chunk ≡ q * es
      → pre ++ rest ≡ xs
      → length pre ≡ k * es
      → length rest ≡ r * es
      → k + r ≡ n
      → n ≤ cap
      → s.buffer ≡ some (record { mem = pre; capacity = cap })
      → SlotAccepts s (map (take_message t n) ps) (filled xs)
  transfer-Tail chunk q n s pre xs k r cap (Tail.final {rest} pos low) unit e held left sum room
        buffered =
      (
        filled xs,
        subst (λ (m : ℕ). update_slot t alloc s (batch_end t m rest) blocking ≡ (filled xs, ok tt))
            sum
            (batch_end_lem s pre rest k r cap held left buffered (omega arith)
              ∙ ap (λ (ys : Bytes). (filled ys, ok tt)) e),
        refl,
      )
  transfer-Tail chunk q n s pre xs k r cap (Tail.more {rest} high tail) unit e held left sum room
        buffered =
      let (less, sub) = sub_mul q r es es_pos (omega arith) in
      let part : length (take chunk rest) ≡ q * es = omega (arith, length-take chunk rest) in
      let left' : length (drop chunk rest) ≡ (r - q) * es = omega (arith, length-drop chunk rest) in
      let next = record s {
        buffer = some (record { mem = pre ++ take chunk rest; capacity = cap });
      } in
      (
        next,
        batch_lem s pre (take chunk rest) k q cap held part buffered (omega arith),
        transfer-Tail chunk q n next (pre ++ take chunk rest) xs (k + q) (r - q) cap tail unit
            (append_assoc pre (take chunk rest) (drop chunk rest)
              ∙ ap (◌++◌ pre) (take-append-drop chunk rest)
              ∙ e)
            (omega (arith, length-append pre (take chunk rest), add-mul k q es)) left' (omega arith)
            room refl,
      )

  -- For messages of a split whose chunk is a number of whole elements, of bytes that are `n` whole
  -- elements and fit into memory, where the buffer gets a capacity of at least `n`: the client accepts
  -- every message, and has the array with its blocking flag after the last.
  pub Split-Taken :
      (s : Slot) (threshold chunk q n : ℕ) {xs : Bytes} {ps : List Part}
      → Split threshold chunk xs ps
      → chunk ≡ q * es
      → length xs ≡ n * es
      → length xs ≤ isize_max
      → n ≤ alloc n
      → (d : Slot) × SlotAccepts s (map (take_message t n) ps) d × (d.inner ≡ some (xs, blocking))
  Split-Taken s threshold chunk q n (Split.one {xs} low) unit held small room =
      (record s { inner = some (xs, blocking) }, (_, all_lem s n xs held small, refl), refl)
  Split-Taken s threshold chunk q n (Split.many {xs} over high tail) unit held small room =
      let (less, sub) = sub_mul q n es es_pos (omega arith) in
      let part : length (take chunk xs) ≡ q * es = omega (arith, length-take chunk xs) in
      let next = record s { buffer = some (record { mem = take chunk xs; capacity = alloc n }) } in
      (
        filled xs,
        (
          next,
          batch_start_lem s n q (take chunk xs) part (omega (arith, length-take chunk xs))
              (omega arith),
          transfer-Tail chunk q n next (take chunk xs) xs q (n - q) (alloc n) tail unit
              (take-append-drop chunk xs) part (omega (arith, length-drop chunk xs)) (omega arith)
              room refl,
        ),
        refl,
      )
