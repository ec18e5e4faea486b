-- ===== src/Data/Multi/View.antt =====
-- One array of a collection as a single array: `DataMulti` against `Data`, both of client/data.rs.
use egui_states.Prelude.{
  ℕ, ◌+◌, ◌*◌, ◌%◌, ◌≡◌, refl, ap, ap₂, ◌∙◌, ◌++◌, Bytes, Option, none, some, [], leb, ◌==◌,
  if◌then◌else◌, length, take, drop, add_usize, mul_usize, put, put_at, Bool-cases, inl, inr,
}
use egui_states.Outcome.{ok, err}
use egui_states.Protocol.DataType.{type_eq}
use egui_states.Protocol.Headers.{TransportType, set, add, replace}
use egui_states.Data.Message.{DataMessage, all, batch_start, batch, batch_end, drain, clear}
use egui_states.Data.Client.{
  Client, ClientError, Buffer, isize_max, splice, save_data, set_all, batch_first, batch_more,
  batch_last, drain_range, update_data,
}
use egui_states.Data.Client as One
use egui_states.Data.Multi.Client.{
  MultiClient, Reply, element_size, len, send_ack, store, splice_at, save_add, save_replace,
  save_multi, set_all_multi, batch_more_multi, batch_last_multi, drain_multi, batch_first_multi,
  update_multi, emptied,
}

abbrev pub or_nil : Option Bytes → Bytes
or_nil none = []
or_nil (some xs) = xs

-- The array at a key, with its batch buffer and the acknowledgements of the collection.
abbrev pub view : MultiClient → ℕ → Client
view c key = record {
  data_type = c.data_type;
  inner = or_nil (c.inner key);
  buffer = c.buffers key;
  acks = c.acks;
}

abbrev pub lower : ℕ → Reply → One.Reply
lower key r = (view r.0 key, r.1)

store-view :
    (c : MultiClient) (key : ℕ) (xs : Bytes)
    → lower key (store c key xs) ≡ (record (view c key) { inner = xs }, ok tt)
store-view c key xs =
    ap (λ (o : Option Bytes). (record (view c key) { inner = or_nil o }, ok tt))
      (put_at c.inner key (some xs))

buffer-view :
    (c : MultiClient) (key : ℕ) (b : Option Buffer)
    → view (record c { buffers = put c.buffers key b }) key ≡ record (view c key) { buffer = b }
buffer-view c key b =
    ap (λ (o : Option Buffer). record (view c key) { buffer = o }) (put_at c.buffers key b)

-- The array is there.
abbrev pub Has : MultiClient → ℕ → Type 0
Has c key = c.inner key ≡ some (or_nil (c.inner key))

-- What a transport needs: `Set` makes an array that is not there.
abbrev pub HasFor : MultiClient → ℕ → TransportType → Type 0
HasFor c key (set n) = Unit
HasFor c key (add n) = Has c key
HasFor c key (replace i n) = Has c key

splice_at-view :
    (c : MultiClient) (key : ℕ) (xs : Bytes) (i j : ℕ)
    → lower key (splice_at c key (view c key).inner i j xs) ≡ splice (view c key) i j xs
unfolding splice_at splice
splice_at-view c key xs i j = elim (Bool-cases (leb i j)) [
  | inl h ↦
      let old = (view c key).inner in
      rw h
        (store-view c key (take (i * element_size c) old ++ (xs ++ drop (j * element_size c) old)))
  | inr h ↦ rw h refl
]

save_replace-view :
    (c : MultiClient) (key : ℕ) (xs : Bytes) (start : ℕ)
    → lower key (save_replace c key xs start (some (view c key).inner)) ≡ (
        if leb (add_usize start (len c xs)) (len c (view c key).inner)
        then splice (view c key) start (add_usize start (len c xs)) xs
        else (view c key, err One.out_of_range))
unfolding save_replace
save_replace-view c key xs start =
    elim (Bool-cases (leb (add_usize start (len c xs)) (len c (view c key).inner))) [
      | inl h ↦ rw h (splice_at-view c key xs start (add_usize start (len c xs)))
      | inr h ↦ rw h refl
    ]

save_multi-view :
    (c : MultiClient) (key : ℕ) (xs : Bytes) (transport : TransportType)
    → HasFor c key transport
    → lower key (save_multi c key xs transport) ≡ save_data (view c key) xs transport
unfolding save_multi save_add save_data
save_multi-view c key xs (set count) e = elim (Bool-cases (len c xs == count)) [
  | inl h ↦ rw h (store-view c key xs)
  | inr h ↦ rw h refl
]
save_multi-view c key xs (add count) e = elim (Bool-cases (len c xs == count)) [
  | inl h ↦ rw h (
      ap (λ (o : Option Bytes). lower key (save_add c key xs o)) e
      ∙ store-view c key ((view c key).inner ++ xs))
  | inr h ↦ rw h refl
]
save_multi-view c key xs (replace start count) e = elim (Bool-cases (len c xs == count)) [
  | inl h ↦ rw h (
      ap (λ (o : Option Bytes). lower key (save_replace c key xs start o)) e
      ∙ save_replace-view c key xs start)
  | inr h ↦ rw h refl
]

set_all_multi-view :
    (c : MultiClient) (key : ℕ) (xs : Bytes) (transport : TransportType)
    → HasFor c key transport
    → lower key (set_all_multi c key xs transport) ≡ set_all (view c key) xs transport
unfolding set_all_multi set_all
set_all_multi-view c key xs transport e = elim (Bool-cases (length xs % element_size c == 0)) [
  | inl h ↦ rw h (save_multi-view (send_ack c) key xs transport e)
  | inr h ↦ rw h refl
]

-- The view with a given batch buffer.
abbrev pub with_buffer : MultiClient → ℕ → Option Buffer → Client
with_buffer c key o = record (view c key) { buffer = o }

fail-view :
    (c : MultiClient) (key : ℕ) (o : Option Buffer) (x : ClientError)
    → c.buffers key ≡ o
    → ◌≡◌ {A = One.Reply} (view c key, err x) (with_buffer c key o, err x)
fail-view c key o x e = ap (λ (b : Option Buffer). (with_buffer c key b, err x)) e

batch_more_multi-view :
    (c : MultiClient) (key : ℕ) (xs : Bytes) (o : Option Buffer)
    → c.buffers key ≡ o
    → lower key (batch_more_multi c key xs o) ≡ batch_more (with_buffer c key o) xs
unfolding batch_more_multi batch_more
batch_more_multi-view c key xs none e = fail-view c key none One.no_header e
batch_more_multi-view c key xs (some b) e = elim (Bool-cases (length xs % element_size c == 0)) [
  | inr h ↦ rw h (fail-view c key (some b) One.not_multiple e)
  | inl h ↦ elim (Bool-cases (leb (len c b.mem + len c xs) b.capacity)) [
    | inl k ↦ rw h (
        rw k (
          ap (λ (d : Client). (d, ok tt))
            (buffer-view c key (some (record b { mem = b.mem ++ xs })))))
    | inr k ↦ rw h (rw k (fail-view c key (some b) One.too_large e))
  ]
]

-- The collection without the buffer, and with the acknowledgement.
abbrev pub taken : MultiClient → ℕ → MultiClient
taken c key = record c { buffers = put c.buffers key none; acks = c.acks + 1 }

abbrev pub taken_one : MultiClient → ℕ → Client
taken_one c key = record (view c key) { buffer = none; acks = c.acks + 1 }

pub taken-view : (c : MultiClient) (key : ℕ) → view (taken c key) key ≡ taken_one c key
taken-view c key = buffer-view (send_ack c) key none

batch_last_multi-view :
    (c : MultiClient) (key : ℕ) (xs : Bytes) (transport : TransportType) (o : Option Buffer)
    → HasFor c key transport
    → lower key (batch_last_multi c key xs transport o)
      ≡ batch_last (with_buffer c key o) xs transport
unfolding batch_last_multi batch_last
batch_last_multi-view c key xs transport none h =
    ap (λ (d : Client). (d, err One.no_header)) (taken-view c key)
batch_last_multi-view c key xs transport (some b) h =
    elim (Bool-cases (length xs % element_size c == 0)) [
      | inr k ↦ rw k (ap (λ (d : Client). (d, err One.not_multiple)) (taken-view c key))
      | inl k ↦ elim (Bool-cases (len c b.mem + len c xs == b.capacity)) [
        | inr l ↦ rw k (rw l (ap (λ (d : Client). (d, err One.size_mismatch)) (taken-view c key)))
        | inl l ↦ rw k (
            rw l (
              save_multi-view (taken c key) key (b.mem ++ xs) transport h
              ∙ ap (λ (d : Client). save_data d (b.mem ++ xs) transport) (taken-view c key)))
      ]
    ]

drain_multi-view :
    (c : MultiClient) (key index count : ℕ)
    → Has c key
    → lower key (drain_multi c key index count (c.inner key)) ≡ drain_range (view c key) index count
unfolding drain_multi drain_range
drain_multi-view c key index count e =
    ap (λ (o : Option Bytes). lower key (drain_multi c key index count o)) e
    ∙ (elim (Bool-cases (leb (add_usize index count) (len c (view c key).inner))) [
      | inl h ↦ rw h (splice_at-view (send_ack c) key [] index (add_usize index count))
      | inr h ↦ rw h refl
    ])

batch_first_multi-view :
    (alloc : ℕ → ℕ) (c : MultiClient) (key : ℕ) (xs : Bytes) (count : ℕ)
    → lower key (batch_first_multi alloc c key xs count) ≡ batch_first alloc (view c key) xs count
unfolding batch_first_multi batch_first
batch_first_multi-view alloc c key xs count =
    elim (Bool-cases (leb (length xs) (mul_usize count (element_size c)))) [
      | inr h ↦ rw h refl
      | inl h ↦ elim (Bool-cases (length xs % element_size c == 0)) [
        | inr k ↦ rw h (rw k refl)
        | inl k ↦ elim (Bool-cases (leb (count * element_size c) isize_max)) [
          | inr l ↦ rw h (rw k (rw l refl))
          | inl l ↦ rw h (
              rw k (
                rw l (
                  ap (λ (d : Client). (d, ok tt))
                    (buffer-view c key (some (record { mem = xs; capacity = alloc count }))))))
        ]
      ]
    ]

-- Where the two do the same: an array is there for what needs one, and no batch is under way at `Clear`.
abbrev pub IsAlike : MultiClient → ℕ → DataMessage → Type 0
IsAlike c key (all t transport xs) = HasFor c key transport
IsAlike c key (batch_start count xs) = Unit
IsAlike c key (batch xs) = Unit
IsAlike c key (batch_end t transport xs) = HasFor c key transport
IsAlike c key (drain index count) = Has c key
IsAlike c key clear = Has c key × (c.buffers key ≡ none)

-- There an array of a collection takes a message as a single array takes it.
pub update_multi-view :
    (alloc : ℕ → ℕ) (c : MultiClient) (key : ℕ) (m : DataMessage)
    → IsAlike c key m
    → lower key (update_multi alloc c key m) ≡ update_data alloc (view c key) m
unfolding update_multi update_data
update_multi-view alloc c key (all t transport xs) a = elim (Bool-cases (type_eq c.data_type t)) [
  | inl k ↦ rw k (set_all_multi-view c key xs transport a)
  | inr k ↦ rw k refl
]
update_multi-view alloc c key (batch_start count xs) a = batch_first_multi-view alloc c key xs count
update_multi-view alloc c key (batch xs) a = batch_more_multi-view c key xs (c.buffers key) refl
update_multi-view alloc c key (batch_end t transport xs) a =
    elim (Bool-cases (type_eq c.data_type t)) [
      | inl k ↦ rw k (batch_last_multi-view c key xs transport (c.buffers key) a)
      | inr k ↦ rw k refl
    ]
update_multi-view alloc c key (drain index count) a = drain_multi-view c key index count a
update_multi-view alloc c key clear a =
    ap₂
      (λ (o : Option Bytes) (b : Option Buffer).
        (record (view c key) { inner = or_nil o; buffer = b }, ok tt))
      (put_at c.inner key (emptied (c.inner key)) ∙ ap emptied a.0) a.1
