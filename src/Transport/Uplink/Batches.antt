-- ===== src/Transport/Uplink/Batches.antt =====
-- The batches of `MessagesSerializer` (client/messages.rs) at server/socket_reader.rs.
use egui_states.Prelude.{
  ℕ, ◌+◌, ◌≡◌, ◌≢◌, refl, ap, sym, ◌∙◌, subst, Bytes, Bool, true, false, List, Option, none, some,
  [], ◌∷◌, ◌++◌, map, ltb, ◌||◌, if◌then◌else◌, length, append-nil, append_assoc, Bool-cases,
  Option-cases, inl, inr,
}
use egui_states.Outcome.{Outcome, ok, >>=-eq-ok, ok-injective}
use egui_states.Protocol.Headers.{ClientHeader}
use egui_states.Protocol.Codec.{Codec, IsLawful}
use egui_states.Value.Client.{ChannelMessage}
use egui_states.Transport.Uplink.{
  ReadError, header_of, payload_of, Serializer, parse_to_send, fill, next_data, read_whole,
}
use egui_states.Transport.Uplink.Reading.{received, AllShort, Serialized, read_whole-Serialized}

-- The messages of the channel before it stops.
abbrev pub until_stop : List (Option ChannelMessage) → List ChannelMessage
until_stop [] = []
until_stop (none ∷ items) = []
until_stop (some m ∷ items) = m ∷ until_stop items

-- The messages that are still to be sent.
abbrev pub to_come : Serializer → List ChannelMessage
to_come s = if s.stopped then [] else until_stop s.channel

AllShort-front : (ms ns : List ChannelMessage) → AllShort (ms ++ ns) → AllShort ms
AllShort-front [] ns h = tt
AllShort-front (m ∷ ms) ns (e, h) = (e, AllShort-front ms ns h)

-- The bytes and the state that `next` returns.
abbrev unwrap :
    Bytes × Serializer → Outcome ReadError (Option Bytes × Serializer) → Bytes × Serializer
unwrap default (ok (some bytes, t)) = (bytes, t)
unwrap default _ = default

module _ (codec : Codec ClientHeader) where
  Serialized-append :
      (ms : List ChannelMessage) (m : ChannelMessage) (bytes b : Bytes)
      → Serialized codec ms bytes
      → codec.encode (header_of m) ≡ some b
      → Serialized codec (ms ++ (m ∷ [])) (bytes ++ (b ++ payload_of m))
  Serialized-append [] m bytes b h e = (
    b,
    [],
    e,
    ap (λ (xs : Bytes). xs ++ (b ++ payload_of m)) h
        ∙ ap (◌++◌ b) (sym (append-nil (payload_of m))),
    refl,
  )
  Serialized-append (k ∷ ms) m bytes b (c, rest, enc, made, more) e = (
    c,
    rest ++ (b ++ payload_of m),
    enc,
    ap (λ (xs : Bytes). xs ++ (b ++ payload_of m)) made
        ∙ append_assoc c (payload_of k ++ rest) (b ++ payload_of m)
        ∙ ap (◌++◌ c) (append_assoc (payload_of k) rest (b ++ payload_of m)),
    Serialized-append ms m rest b more e,
  )

  parse_to_send_inv :
      (m : ChannelMessage) (bytes longer : Bytes)
      → parse_to_send codec m bytes ≡ ok longer
      → (b : Bytes) × (codec.encode (header_of m) ≡ some b)
        × (longer ≡ bytes ++ (b ++ payload_of m))
  unfolding parse_to_send
  parse_to_send_inv m bytes longer e = elim (Option-cases (codec.encode (header_of m))) [
    | inl gone ↦ cc (rw (gone, parse_to_send) at e)
    | inr (b, enc) ↦ (b, enc, sym (ok-injective (rw (enc, parse_to_send) at e)))
  ]

  module _ (threshold max_count : ℕ) where
    -- A batch of messages, and what is left.
    abbrev Filled : List ChannelMessage → List ChannelMessage → Bytes → Serializer → Type 0
    Filled before items bytes t =
        (g : List ChannelMessage) × (items ≡ g ++ to_come t) × Serialized codec (before ++ g) bytes

    -- The loop ends with a batch `g` behind what it started with.
    stopped_here :
        (before g : List ChannelMessage) (d bytes : Bytes) (u t : Serializer)
        → Serialized codec (before ++ g) d
        → ◌≡◌ {A = Outcome ReadError (Bytes × Serializer)} (ok (d, u)) (ok (bytes, t))
        → Filled before (g ++ to_come u) bytes t
    stopped_here before g d bytes u t h e =
        let same = ok-injective e in
        (
          g,
          ap (λ (r : Bytes × Serializer). g ++ to_come r.1) same,
          subst (λ (r : Bytes × Serializer). Serialized codec (before ++ g) r.0) same h,
        )

    ended_here :
        (before : List ChannelMessage) (d bytes : Bytes) (u t : Serializer)
        → Serialized codec before d
        → ◌≡◌ {A = Outcome ReadError (Bytes × Serializer)} (ok (d, u)) (ok (bytes, t))
        → Filled before (to_come u) bytes t
    ended_here before d bytes u t h e =
        stopped_here before [] d bytes u t
          (subst (λ ms. Serialized codec ms d) (sym (append-nil before)) h) e

    fill-Filled :
        (before : List ChannelMessage) (counter : ℕ) (data_bytes : Bytes)
        (items : List (Option ChannelMessage)) (bytes : Bytes) (t : Serializer)
        → Serialized codec before data_bytes
        → fill codec threshold max_count counter data_bytes items ≡ ok (bytes, t)
        → Filled before (until_stop items) bytes t
    unfolding fill
    fill-Filled before k data_bytes [] bytes t h e =
        ended_here before data_bytes bytes (record { channel = []; stopped = false }) t h e
    fill-Filled before k data_bytes (none ∷ items) bytes t h e =
        ended_here before data_bytes bytes (record { channel = items; stopped = true }) t h e
    fill-Filled before k data_bytes (some m ∷ items) bytes t h e =
        let (longer, made, more) = >>=-eq-ok (parse_to_send codec m data_bytes) _ e in
        let (b, enc, same) = parse_to_send_inv m data_bytes longer made in
        let next : Serialized codec (before ++ (m ∷ [])) longer =
          subst (Serialized codec (before ++ (m ∷ []))) (sym same)
            (Serialized-append before m data_bytes b h enc) in
        elim (Bool-cases (ltb max_count (k + 1) || ltb threshold (length longer))) [
          | inl full ↦
              stopped_here before (m ∷ []) longer bytes
                (record { channel = items; stopped = false }) t next (rw full at more)
          | inr room ↦
              let (g, left, all) =
                fill-Filled (before ++ (m ∷ [])) (k + 1) longer items bytes t next
                  (rw room at more) in
              (
                m ∷ g,
                ap (◌∷◌ m) left,
                subst (λ ms. Serialized codec ms bytes) (append_assoc before (m ∷ []) g) all,
              )
        ]

    abbrev Read : Serializer → Bytes → Serializer → Type 0
    Read s bytes t =
        (g : List ChannelMessage) × (g ≢ [])
        × (to_come s ≡ g ++ to_come t)
        × (read_whole codec bytes ≡ ok (map received g))

    not_empty : (m : ChannelMessage) (ms : List ChannelMessage) → m ∷ ms ≢ []
    not_empty m ms e = cc

    next_lem :
        (channel : List (Option ChannelMessage)) (stopped : Bool) (t : Serializer) (bytes : Bytes)
        → IsLawful codec
        → AllShort (to_come (record { channel = channel; stopped = stopped }))
        → next_data codec threshold max_count (record { channel = channel; stopped = stopped })
          ≡ ok (some bytes, t)
        → Read (record { channel = channel; stopped = stopped }) bytes t
    unfolding next_data
    next_lem items true t bytes lawful short e = cc
    next_lem [] false t bytes lawful short e = cc
    next_lem (none ∷ rest) false t bytes lawful short e = cc
    next_lem (some m ∷ rest) false t bytes lawful short e =
        let (first, made, more) = >>=-eq-ok (parse_to_send codec m []) _ e in
        let ((d, u), filled, last) =
          >>=-eq-ok (fill codec threshold max_count 0 first rest) _ more in
        let (b, enc, same) = parse_to_send_inv m [] first made in
        let start =
          subst (Serialized codec (m ∷ [])) (sym same) (Serialized-append [] m [] b refl enc) in
        let (g, left, all) = fill-Filled (m ∷ []) 0 first rest d u start filled in
        let same_end : ◌≡◌ {A = Bytes × Serializer} (d, u) (bytes, t) = ap (unwrap (d, u)) last in
        subst
          (λ (r : Bytes × Serializer).
            Read (record { channel = some m ∷ rest; stopped = false }) r.0 r.1)
          same_end
          (
            m ∷ g,
            not_empty m g,
            ap (◌∷◌ m) left,
            read_whole-Serialized codec lawful m g d all
                (AllShort-front (m ∷ g) (to_come u) (subst AllShort (ap (◌∷◌ m) left) short)),
          )

    -- With a lawful codec: if `next` returns data, then they are those of a batch of the messages that are
    -- to be sent, not empty, and what is left to be sent are the messages behind it; and if the payloads of
    -- these messages have sizes below 2 ^ 32, the server's reader has the messages of the batch from the
    -- data, in order, and nothing else.
    pub next_data-read_whole :
        (s t : Serializer) (bytes : Bytes)
        → IsLawful codec
        → AllShort (to_come s)
        → next_data codec threshold max_count s ≡ ok (some bytes, t)
        → (g : List ChannelMessage) × (g ≢ [])
          × (to_come s ≡ g ++ to_come t)
          × (read_whole codec bytes ≡ ok (map received g))
    unfolding next_data
    next_data-read_whole s t bytes lawful short e =
        next_lem s.channel s.stopped t bytes lawful short e
