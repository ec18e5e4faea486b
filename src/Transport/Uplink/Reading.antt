-- ===== src/Transport/Uplink/Reading.antt =====
-- The reader of server/socket_reader.rs on what client/messages.rs has serialized.
use native.Mathlib.Nat.{mod-eq_of_lt}
use egui_states.Prelude.{
  ℕ, zero, suc, ◌+◌, ◌-◌, ◌^◌, ◌<◌, ◌≤◌, ◌≡◌, refl, ap, ap₂, sym, ◌∙◌, Bytes, List, Option, none,
  some, [], ◌∷◌, ◌++◌, map, length, as_u32, slice_at, drop-append, length-append, append_assoc,
  lt→ltb, le→ltb_false, arith,
}
use egui_states.Outcome.{Outcome, ok, ◌>>=◌}
use egui_states.Protocol.Headers.{ClientHeader}
use egui_states.Protocol.Codec.{Codec, IsLawful}
use egui_states.Value.Client.{ChannelMessage}
use egui_states.Transport.Uplink.{
  ClientMessage, ReadError, header_of, payload_of, left_behind, with_body, received_as, opened,
  next_message, read_fuel, read_whole,
}

-- What the server should have of a message.
abbrev pub received : ChannelMessage → ClientMessage
received (ChannelMessage.value id type_id with_signal bytes) =
    ClientMessage.value id type_id with_signal bytes
received (ChannelMessage.signal id type_id bytes) = ClientMessage.signal id type_id bytes
received (ChannelMessage.message bytes) = ClientMessage.message bytes
received (ChannelMessage.ack id) = ClientMessage.ack id

-- The size of the payload fits its header.
abbrev pub IsShort : ChannelMessage → Type 0
IsShort m = length (payload_of m) < 2 ^ 32

abbrev pub AllShort : List ChannelMessage → Type 0
AllShort [] = Unit
AllShort (m ∷ ms) = IsShort m × AllShort ms

module _ (codec : Codec ClientHeader) where
  -- The bytes of messages, one after the other.
  abbrev pub Serialized : List ChannelMessage → Bytes → Type 0
  Serialized [] bytes = bytes ≡ []
  Serialized (m ∷ ms) bytes =
      (b : Bytes) × (rest : Bytes) × (codec.encode (header_of m) ≡ some b)
      × (bytes ≡ b ++ (payload_of m ++ rest))
      × Serialized ms rest

  abbrev rest_of : Bytes → Option Bytes
  rest_of [] = none
  rest_of (x ∷ xs) = some (x ∷ xs)

  behind : (pre rest : Bytes) → left_behind codec (pre ++ rest) (length pre) ≡ rest_of rest
  behind pre [] =
      rw
        (le→ltb_false (length pre) (length (pre ++ []))
          (omega (arith, length-append pre (let e : Bytes = [] in e))))
        refl
  behind pre (x ∷ xs) =
      rw
        (lt→ltb (length pre) (length (pre ++ (x ∷ xs))) (omega (arith, length-append pre (x ∷ xs))))
        (ap (λ (r : Bytes). some r) (drop-append pre (x ∷ xs)))

  behind_body :
      (b body rest : Bytes)
      → left_behind codec (b ++ (body ++ rest)) (length b + length body) ≡ rest_of rest
  behind_body b body rest =
      ap₂ (λ (xs : Bytes) (n : ℕ). left_behind codec xs n) (sym (append_assoc b body rest))
        (sym (length-append b body))
      ∙ behind (b ++ body) rest

  body_lem :
      (b body rest : Bytes) (make : Bytes → ClientMessage)
      → with_body codec (b ++ (body ++ rest)) (length b) (length body) make
        ≡ ok (make body, rest_of rest)
  body_lem b body rest make =
      rw
        (le→ltb_false (length (b ++ (body ++ rest))) (length b + length body)
          (omega (arith, length-append b (body ++ rest), length-append body rest)))
        (ap₂ (λ (xs : Bytes) (o : Option Bytes). ok (make xs, o))
          (slice_at (b ++ (body ++ rest)) body rest (length b) (length body)
            (drop-append b (body ++ rest)) refl)
          (behind_body b body rest))

  sized_lem :
      (b body rest : Bytes) (make : Bytes → ClientMessage)
      → length body < 2 ^ 32
      → with_body codec (b ++ (body ++ rest)) (length b) (as_u32 (length body)) make
        ≡ ok (make body, rest_of rest)
  sized_lem b body rest make short =
      rw (mod-eq_of_lt {n = length body} {m = 2 ^ 32} short) (body_lem b body rest make)

  received_lem :
      (m : ChannelMessage) (b rest : Bytes)
      → IsShort m
      → received_as codec (b ++ (payload_of m ++ rest)) (length b) (header_of m)
        ≡ ok (received m, rest_of rest)
  received_lem (ChannelMessage.value id type_id s body) b rest short =
      sized_lem b body rest (ClientMessage.value id type_id s) short
  received_lem (ChannelMessage.signal id type_id body) b rest short =
      sized_lem b body rest (ClientMessage.signal id type_id) short
  received_lem (ChannelMessage.message body) b rest short =
      sized_lem b body rest ClientMessage.message short
  received_lem (ChannelMessage.ack id) b rest short =
      ap (λ (o : Option Bytes). ok (ClientMessage.ack id, o)) (behind b rest)

  module _ (lawful : IsLawful codec) where
    next_message_lem :
        (m : ChannelMessage) (b rest : Bytes)
        → codec.encode (header_of m) ≡ some b
        → IsShort m
        → next_message codec (b ++ (payload_of m ++ rest)) ≡ ok (received m, rest_of rest)
    unfolding next_message
    next_message_lem m b rest e short =
        let size : length (b ++ (payload_of m ++ rest)) - length (payload_of m ++ rest) ≡ length b =
          omega (arith, length-append b (payload_of m ++ rest)) in
        ap (opened codec (b ++ (payload_of m ++ rest)))
          (lawful.take_from-encode (header_of m) b (payload_of m ++ rest) e)
        ∙ ap (λ (k : ℕ). received_as codec (b ++ (payload_of m ++ rest)) k (header_of m)) size
        ∙ received_lem m b rest short

    no_bytes : (ms : List ChannelMessage) → Serialized ms [] → ms ≡ []
    no_bytes [] e = refl
    no_bytes (m ∷ ms) (b, rest, enc, e, more) =
        let size = length-append b (payload_of m ++ rest) in
        let none_there : length (b ++ (payload_of m ++ rest)) ≡ 0 = ap length (sym e) in
        absurd (omega (arith, lawful.encode_pos (header_of m) b enc, size))

    -- One message, and those behind it.
    read_step :
        (n : ℕ) (m : ChannelMessage) (b rest : Bytes)
        → codec.encode (header_of m) ≡ some b
        → IsShort m
        → read_fuel codec (suc n) (b ++ (payload_of m ++ rest)) ≡ (elim (rest_of rest) [
          | none ↦ ok (received m ∷ [])
          | some more ↦ read_fuel codec n more >>= λ ms. ok (received m ∷ ms)
        ])
    unfolding read_fuel
    read_step n m b rest e short = rw (next_message_lem m b rest e short) refl

    read_fuel-Serialized :
        (n : ℕ) (m : ChannelMessage) (ms : List ChannelMessage) (bytes : Bytes)
        → Serialized (m ∷ ms) bytes
        → AllShort (m ∷ ms)
        → length bytes ≤ n
        → read_fuel codec n bytes ≡ ok (map received (m ∷ ms))
    read_fuel-Serialized zero m ms bytes (b, rest, enc, e, more) shorts le = absurd (
        omega (
          arith,
          lawful.encode_pos (header_of m) b enc,
          length-append b (payload_of m ++ rest),
          ap length e,
        ))
    read_fuel-Serialized (suc n) m [] bytes (b, rest, enc, e, more) (short, shorts) le =
        ap (read_fuel codec (suc n)) (e ∙ ap (λ (r : Bytes). b ++ (payload_of m ++ r)) more)
        ∙ read_step n m b [] enc short
    read_fuel-Serialized (suc n) m (k ∷ ms) bytes (b, [], enc, e, more) (short, shorts) le =
        let none_left = no_bytes (k ∷ ms) more in cc
    read_fuel-Serialized (suc n) m (k ∷ ms) bytes (b, x ∷ xs, enc, e, more) (short, shorts) le =
        ap (read_fuel codec (suc n)) e
        ∙ read_step n m b (x ∷ xs) enc short
        ∙ ap (λ (r : Outcome ReadError (List ClientMessage)). r >>= λ rs. ok (received m ∷ rs))
            (read_fuel-Serialized n k ms (x ∷ xs) more shorts (
              omega (
                arith,
                lawful.encode_pos (header_of m) b enc,
                length-append b (payload_of m ++ (x ∷ xs)),
                length-append (payload_of m) (x ∷ xs),
                ap length e,
              )))

    pub read_whole-Serialized :
        (m : ChannelMessage) (ms : List ChannelMessage) (bytes : Bytes)
        → Serialized (m ∷ ms) bytes
        → AllShort (m ∷ ms)
        → read_whole codec bytes ≡ ok (map received (m ∷ ms))
    unfolding read_whole
    read_whole-Serialized m ms bytes h shorts =
        read_fuel-Serialized (length bytes) m ms bytes h shorts (omega arith)
