-- ===== src/Transport/Receiver.antt =====
-- `DataReceiver` of server/server_core.rs, which joins messages of the server's channel. A `None` in
-- the channel closes it. `extend_from_data` appends, and the two constants are parameters.
use egui_states.Prelude.{
  ℕ, ◌+◌, ◌≡◌, Bytes, Bool, true, false, List, Option, none, some, [], ◌∷◌, ◌++◌, leb, ltb, ◌||◌,
  if◌then◌else◌, length,
}

-- `Some((message, single))`, or `None`.
abbrev pub Item : Type 0
Item = Option (Bytes × Bool)

pub record Receiver : Type 0 where
  pub channel : List Item
  pub send_next : Option Bytes
  pub is_closed : Bool

-- What a call of `next` does: it returns a message, returns `None`, or waits for the channel.
pub data Batch : Type 0 where
  message : Bytes → Batch
  ended waiting : Batch

-- `DataReceiver::new`
unfoldable pub new : List Item → Receiver
new channel = record { channel = channel; send_next = none; is_closed = false }

module _ (threshold max_count : ℕ) where
  -- The loop over `try_recv`.
  unfoldable pub collect : Bytes → ℕ → List Item → Bytes × Receiver
  collect msg counter [] = (msg, record { channel = []; send_next = none; is_closed = false })
  collect msg counter (none ∷ rest) =
      if ltb threshold (length msg) || leb max_count counter
      then (msg, record { channel = none ∷ rest; send_next = none; is_closed = false })
      else (msg, record { channel = rest; send_next = none; is_closed = true })
  collect msg counter (some (next_msg, true) ∷ rest) =
      if ltb threshold (length msg) || leb max_count counter
      then (
        msg,
        record { channel = some (next_msg, true) ∷ rest; send_next = none; is_closed = false },
      )
      else (msg, record { channel = rest; send_next = some next_msg; is_closed = false })
  collect msg counter (some (next_msg, false) ∷ rest) =
      let more = collect (msg ++ next_msg) (counter + 1) rest in
      if ltb threshold (length msg) || leb max_count counter
      then (
        msg,
        record { channel = some (next_msg, false) ∷ rest; send_next = none; is_closed = false },
      )
      else more

  abbrev sent : Bytes × Receiver → Batch × Receiver
  sent r = (message r.0, r.1)

  unfoldable pub receive : Receiver → List Item → Batch × Receiver
  unfolding collect
  receive r [] = (waiting, r)
  receive r (none ∷ rest) = (ended, record r { channel = rest })
  receive r (some (msg, true) ∷ rest) = (message msg, record r { channel = rest })
  receive r (some (msg, false) ∷ rest) = sent (collect msg 0 rest)

  -- `next`
  unfoldable pub next : Receiver → Batch × Receiver
  unfolding receive
  next r = elim r.send_next [
    | some data_next ↦ (message data_next, record r { send_next = none })
    | none ↦ if r.is_closed then (ended, r) else receive r r.channel
  ]

  -- What happens to a receiver: an item comes into its channel, or the writer calls `next`.
  pub data Run : Receiver → List Item → List Bytes → Receiver → Type 0 where
    start : (r : Receiver) → Run r [] [] r
    arrives :
        {r s : Receiver} {items : List Item} {out : List Bytes} (item : Item)
        → Run r items out s
        → Run r (items ++ (item ∷ [])) out (record s { channel = s.channel ++ (item ∷ []) })
    written :
        {r s : Receiver} {items : List Item} {out : List Bytes} (bytes : Bytes) (t : Receiver)
        → Run r items out s
        → next s ≡ (message bytes, t)
        → Run r items (out ++ (bytes ∷ [])) t
