-- ===== src/Transport/Grouping.antt =====
-- What `DataReceiver` of server/server_core.rs makes of the messages of the channel.
use mathlib.Core.List.{map-append}
use egui_states.Prelude.{
  ℕ, ◌+◌, ◌≡◌, ◌≢◌, refl, ap, sym, ◌∙◌, Bytes, Bool, true, false, List, Option, none, some, [], ◌∷◌,
  ◌++◌, map, leb, ltb, ◌||◌, ap₂, subst, length, append-nil, append_assoc, Bool-cases, Option-cases,
  inl, inr,
}
use egui_states.Outcome.{ok}
use egui_states.Protocol.Headers.{ServerHeader}
use egui_states.Protocol.Codec.{Codec, IsLawful}
use egui_states.Messages.Spec.{message_of}
use egui_states.Messages.Frames.{Frame}
use egui_states.Messages.Groups.{
  join, flatten, AllNonempty, AreFrames, read_each, read_each-AreFrames,
}
use egui_states.Transport.Receiver.{
  Item, Receiver, Batch, message, ended, waiting, new, collect, receive, next, Run, start, arrives,
  written,
}

-- The messages of the channel before it is closed.
abbrev pub until_close : List Item → List Bytes
until_close [] = []
until_close (none ∷ items) = []
until_close (some p ∷ items) = p.0 ∷ until_close items

abbrev first_of : Option Bytes → List Bytes
first_of none = []
first_of (some bytes) = bytes ∷ []

abbrev open_messages : Bool → List Item → List Bytes
open_messages true items = []
open_messages false items = until_close items

-- The messages that are still to be sent.
abbrev pub pending : Receiver → List Bytes
pending r = first_of r.send_next ++ open_messages r.is_closed r.channel

-- Whether the channel was closed, or will be by an item in it.
abbrev has_close : List Item → Bool
has_close [] = false
has_close (none ∷ items) = true
has_close (some p ∷ items) = has_close items

abbrev over : Receiver → Bool
over r = r.is_closed || has_close r.channel

-- What an item adds to the messages to be sent.
abbrev added : Bool → Item → List Bytes
added true item = []
added false none = []
added false (some p) = p.0 ∷ []

until_close-append :
    (items : List Item) (item : Item)
    → until_close (items ++ (item ∷ [])) ≡ until_close items ++ added (has_close items) item
until_close-append [] none = refl
until_close-append [] (some p) = refl
until_close-append (none ∷ items) item = refl
until_close-append (some p ∷ items) item = ap (◌∷◌ p.0) (until_close-append items item)

has_close-append :
    (items : List Item) (item : Item)
    → has_close (items ++ (item ∷ [])) ≡ has_close items || has_close (item ∷ [])
has_close-append [] item = refl
has_close-append (none ∷ items) item = refl
has_close-append (some p ∷ items) item = has_close-append items item

-- An item comes into the channel.
pending-append :
    (r : Receiver) (item : Item)
    → pending (record r { channel = r.channel ++ (item ∷ []) }) ≡ pending r ++ added (over r) item
pending-append r item = elim (Bool-cases r.is_closed) [
  | inl c ↦ rw c (sym (append-nil _))
  | inr c ↦ rw c (
      ap (λ (xs : List Bytes). first_of r.send_next ++ xs) (until_close-append r.channel item)
      ∙ sym (
          append_assoc (first_of r.send_next) (until_close r.channel)
            (added (has_close r.channel) item)))
]

or_assoc : (a b c : Bool) → (a || b) || c ≡ a || (b || c)
or_assoc true b c = refl
or_assoc false b c = refl

flatten-append : (vs ws : List (List Bytes)) → flatten (vs ++ ws) ≡ flatten vs ++ flatten ws
flatten-append [] ws = refl
flatten-append (v ∷ vs) ws =
    ap (◌++◌ v) (flatten-append vs ws) ∙ sym (append_assoc v (flatten vs) (flatten ws))

AllNonempty-append :
    (vs : List (List Bytes)) (w : List Bytes)
    → AllNonempty vs
    → w ≢ []
    → AllNonempty (vs ++ (w ∷ []))
AllNonempty-append [] w h k = (k, tt)
AllNonempty-append (v ∷ vs) w (e, h) k = (e, AllNonempty-append vs w h k)

module _ (threshold max_count : ℕ) where
  -- A message that is the join of a group, and what is left.
  abbrev Grouped : List Bytes → Bytes × Receiver → Type 0
  Grouped ms r = (g : List Bytes) × (r.0 ≡ join g) × (g ≢ []) × (ms ≡ g ++ pending r.1)

  collect-Grouped :
      (msg : Bytes) (counter : ℕ) (items : List Item)
      → (g : List Bytes) × ((collect threshold max_count msg counter items).0 ≡ msg ++ join g)
        × (until_close items ≡ g ++ pending (collect threshold max_count msg counter items).1)
  unfolding collect join
  collect-Grouped msg k [] = ([], sym (append-nil msg), refl)
  collect-Grouped msg k (none ∷ rest) =
      elim (Bool-cases (ltb threshold (length msg) || leb max_count k)) [
        | inl h ↦ rw h ([], sym (append-nil msg), refl)
        | inr h ↦ rw h ([], sym (append-nil msg), refl)
      ]
  collect-Grouped msg k (some (m, true) ∷ rest) =
      elim (Bool-cases (ltb threshold (length msg) || leb max_count k)) [
        | inl h ↦ rw h ([], sym (append-nil msg), refl)
        | inr h ↦ rw h ([], sym (append-nil msg), refl)
      ]
  collect-Grouped msg k (some (m, false) ∷ rest) =
      elim (Bool-cases (ltb threshold (length msg) || leb max_count k)) [
        | inl h ↦ rw h ([], sym (append-nil msg), refl)
        | inr h ↦
            let (g, made, left) = collect-Grouped (msg ++ m) (k + 1) rest in
            rw h (m ∷ g, made ∙ append_assoc msg m (join g), ap (◌∷◌ m) left)
      ]

  collect-over :
      (msg : Bytes) (counter : ℕ) (items : List Item)
      → over (collect threshold max_count msg counter items).1 ≡ has_close items
  unfolding collect
  collect-over msg k [] = refl
  collect-over msg k (none ∷ rest) =
      elim (Bool-cases (ltb threshold (length msg) || leb max_count k)) [
        | inl h ↦ rw h refl
        | inr h ↦ rw h refl
      ]
  collect-over msg k (some (m, true) ∷ rest) =
      elim (Bool-cases (ltb threshold (length msg) || leb max_count k)) [
        | inl h ↦ rw h refl
        | inr h ↦ rw h refl
      ]
  collect-over msg k (some (m, false) ∷ rest) =
      elim (Bool-cases (ltb threshold (length msg) || leb max_count k)) [
        | inl h ↦ rw h refl
        | inr h ↦ rw h (collect-over (msg ++ m) (k + 1) rest)
      ]

  -- A message that is returned, as a group of those that were to be sent.
  abbrev Returned : Receiver → Bytes → Receiver → Type 0
  Returned r bytes t =
      (g : List Bytes) × (bytes ≡ join g)
      × (g ≢ [])
      × (pending r ≡ g ++ pending t)
      × (over t ≡ over r)

  abbrev Returns : Receiver → Batch × Receiver → Type 0
  Returns r (message bytes, t) = Returned r bytes t
  Returns r (ended, t) = Unit
  Returns r (waiting, t) = Unit

  not_empty : (m : Bytes) (g : List Bytes) → m ∷ g ≢ []
  not_empty m g e = cc

  alone : (m : Bytes) → m ≡ join (m ∷ [])
  unfolding join
  alone m = sym (append-nil m)

  receive-Returns :
      (items : List Item) → Returns (new items) (receive threshold max_count (new items) items)
  unfolding receive new join
  receive-Returns [] = tt
  receive-Returns (none ∷ rest) = tt
  receive-Returns (some (m, true) ∷ rest) = (m ∷ [], alone m, not_empty m [], refl, refl)
  receive-Returns (some (m, false) ∷ rest) =
      let (g, made, left) = collect-Grouped m 0 rest in
      (m ∷ g, made, not_empty m g, ap (◌∷◌ m) left, collect-over m 0 rest)

  next-Returns : (r : Receiver) → Returns r (next threshold max_count r)
  unfolding next new
  next-Returns r = elim (Option-cases r.send_next) [
    | inr (m, e) ↦ rw e (m ∷ [], alone m, not_empty m [], refl, refl)
    | inl e ↦ elim (Bool-cases r.is_closed) [
      | inl c ↦ rw e (rw c tt)
      | inr c ↦ rw e (rw c (receive-Returns r.channel))
    ]
  ]

  -- The websocket messages are joins of groups, none of them empty, of the messages that came.
  abbrev pub Grouping : List Item → List Bytes → Receiver → Type 0
  Grouping items out r =
      (ws : List (List Bytes)) × (out ≡ map join ws)
      × AllNonempty ws
      × (until_close items ≡ flatten ws ++ pending r)
      × (has_close items ≡ over r)

  -- From a new receiver with an empty channel, however items come into the channel between the calls
  -- of `next`, and whether they are single: the messages that it returned are joins of groups, none of
  -- them empty, which followed by the messages still to be sent are all messages that came before the
  -- channel was closed, in order.
  pub Run-Grouping :
      (items : List Item) (out : List Bytes) (r : Receiver)
      → Run threshold max_count (new []) items out r
      → Grouping items out r
  unfolding new
  Run-Grouping _ _ _ (start _) = ([], refl, tt, refl, refl)
  Run-Grouping _ _ _ (arrives {s} {items} {out} item run) =
      let (ws, made, some_there, all, closed) = Run-Grouping items out s run in
      (
        ws,
        made,
        some_there,
        until_close-append items item
            ∙ ap₂ (λ (xs : List Bytes) b. xs ++ added b item) all closed
            ∙ append_assoc (flatten ws) (pending s) (added (over s) item)
            ∙ ap (◌++◌ (flatten ws)) (sym (pending-append s item)),
        has_close-append items item
            ∙ ap (λ b. b || has_close (item ∷ [])) closed
            ∙ or_assoc s.is_closed (has_close s.channel) (has_close (item ∷ []))
            ∙ ap (λ b. s.is_closed || b) (sym (has_close-append s.channel item)),
      )
  Run-Grouping _ _ _ (written {s} {items} {out} bytes t run e) =
      let (ws, made, some_there, all, closed) = Run-Grouping items out s run in
      let (g, joined, nonempty, left, same) = subst (Returns s) e (next-Returns s) in
      (
        ws ++ (g ∷ []),
        ap₂ (λ (xs : List Bytes) (b : Bytes). xs ++ (b ∷ [])) made joined
            ∙ sym (map-append join ws (g ∷ [])),
        AllNonempty-append ws g some_there nonempty,
        all
            ∙ ap (◌++◌ (flatten ws)) left
            ∙ sym (append_assoc (flatten ws) g (pending t))
            ∙ ap (λ (xs : List Bytes). xs ++ pending t)
                (ap (◌++◌ (flatten ws)) (sym (append-nil g)) ∙ sym (flatten-append ws (g ∷ []))),
        closed ∙ sym same,
      )

-- The writer and the client's reader together. With a lawful codec, whatever the two constants are:
-- from a new receiver with an empty channel, if the messages that came before the channel was closed
-- are one frame each, and none is still to be sent, then the client's reader has the message of each
-- frame, in order, and nothing else.
pub written-read_each :
    (codec : Codec ServerHeader) (threshold max_count : ℕ) (items : List Item) (out : List Bytes)
    (r : Receiver) (fs : List Frame)
    → IsLawful codec
    → Run threshold max_count (new []) items out r
    → pending r ≡ []
    → AreFrames codec fs (until_close items)
    → read_each codec out ≡ ok (map (λ f. message_of f.0 f.1) fs)
written-read_each codec threshold max_count items out r fs lawful run sent frames =
    let (ws, made, some_there, all, closed) = Run-Grouping threshold max_count items out r run in
    ap (read_each codec) made
    ∙ read_each-AreFrames codec lawful ws fs some_there (
        subst (AreFrames codec fs) (all ∙ ap (◌++◌ (flatten ws)) sent ∙ append-nil (flatten ws))
          frames)
