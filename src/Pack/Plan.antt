-- ===== src/Pack/Plan.antt =====
-- The loop of `pack_data` (server/data_server.rs): its bounds, its end, and its messages.
use native.Mathlib.Nat.{mod-eq_of_lt}
use egui_states.Prelude.{
  ℕ, zero, suc, ◌+◌, ◌-◌, ◌*◌, ◌/◌, ◌^◌, ◌<◌, ◌≤◌, ◌≡◌, refl, ap, ◌∙◌, Bool, true, false, Bytes,
  length, take, drop, slice, List, [], ◌∷◌, arith, tests, leb, Bool-cases, inl, inr, take_all,
  length-take, length-drop, drop-drop, lt→ltb, le→leb, lt→leb_false, leb→le, leb_false→lt, min,
}
use egui_states.Outcome.{Outcome, ok, ◌>>=◌}
use egui_states.Pack.{Piece, whole, first, middle, last, message, batches, pack}
use egui_states.Pack.Split.{Part, Tail, Split, emit_all}

pub chunk_size_bounds :
    (threshold element_size : ℕ)
    → 0 < element_size
    → element_size ≤ threshold
    → (0 < threshold / element_size * element_size)
      × (threshold / element_size * element_size ≤ threshold)
chunk_size_bounds threshold element_size h k = (grind arith, grind arith)

module _ {E M : Type 0} (threshold element_size : ℕ) (emit : Piece → ℕ → Bytes → Bool → Outcome E M)
    (bytes : Bytes) where
  abbrev c : ℕ
  c = threshold / element_size * element_size

  message_lem :
      (piece : Piece) (size i j : ℕ) (single : Bool)
      → i ≤ j
      → j ≤ length bytes
      → size ≡ j - i
      → size < 2 ^ 32
      → message threshold element_size emit bytes piece size i j single
        ≡ emit piece (length (slice bytes i j)) (slice bytes i j) single
  unfolding message
  message_lem piece size i j single h k e b =
      rw (le→leb _ _ h, le→leb _ _ k)
        (rw (mod-eq_of_lt b)
          (ap (λ n. emit piece n (slice bytes i j) single) (omega (arith, length_slice))))
    where
      length_slice : length (slice bytes i j) ≡ min (j - i) (length bytes - i)
      length_slice = length-take (j - i) (drop i bytes) ∙ ap (min (j - i)) (length-drop i bytes)

  batches_last :
      (fuel processed : ℕ)
      → processed < length bytes
      → length bytes - processed ≤ c
      → c < 2 ^ 32
      → batches threshold element_size emit bytes (suc fuel) processed
        ≡ emit_all emit (record { piece = last; body = drop processed bytes; single = false } ∷ [])
  unfolding batches emit_all
  batches_last fuel processed h k b =
      let made =
        message_lem last (length bytes - processed) processed (length bytes) false (omega arith)
          (omega arith) refl (omega arith) in
      rw (lt→ltb _ _ h, le→leb _ _ k)
        (rw made (
          rw
            (take_all (length bytes - processed) (drop processed bytes)
              (omega (arith, length-drop processed bytes)))
            refl))

  batches_more :
      (fuel processed : ℕ)
      → c < length bytes - processed
      → c < 2 ^ 32
      → batches threshold element_size emit bytes (suc fuel) processed ≡ (
          emit middle (length (take c (drop processed bytes))) (take c (drop processed bytes)) true
          >>= λ m.
              batches threshold element_size emit bytes fuel (processed + c) >>= λ ms. ok (m ∷ ms))
  unfolding batches
  batches_more fuel processed h b =
      let made =
        message_lem middle c processed (processed + c) true (omega arith) (omega arith)
          (omega arith) b in
      let exact : processed + c - processed ≡ c = omega arith in
      rw (lt→ltb processed (length bytes) (omega arith), lt→leb_false _ _ h)
        (rw made (rw exact refl))

  -- From inside the array the loop makes the messages of a tail.
  batches-Tail :
      (fuel processed : ℕ)
      → 0 < c
      → c < 2 ^ 32
      → processed < length bytes
      → length bytes - processed ≤ fuel
      → (ps : List Part) × (batches threshold element_size emit bytes fuel processed
          ≡ emit_all emit ps)
        × Tail c (drop processed bytes) ps
  unfolding emit_all
  batches-Tail zero processed cp cb h f = absurd (omega arith)
  batches-Tail (suc fuel) processed cp cb h f =
      let n = length-drop processed bytes in
      elim (Bool-cases (leb (length bytes - processed) c)) [
        | inl end ↦
            let low = leb→le (length bytes - processed) c end in
            (
              record { piece = last; body = drop processed bytes; single = false } ∷ [],
              batches_last fuel processed h low cb,
              Tail.final (omega arith) (omega arith),
            )
        | inr next ↦
            let high = leb_false→lt (length bytes - processed) c next in
            let (ps, made, tail) =
              batches-Tail fuel (processed + c) cp cb (omega arith) (omega arith) in
            (
              record { piece = middle; body = take c (drop processed bytes); single = true } ∷ ps,
              batches_more fuel processed high cb ∙ rw made refl,
              Tail.more (omega arith) (rw drop-drop tail),
            )
      ]

  -- For an element size above 0 and up to the threshold, and a threshold below 2 ^ 32: `pack` neither
  -- faults by itself nor runs out of fuel, and it makes the messages of a split of the bytes, in order,
  -- up to the first that cannot be made.
  pub pack-Split :
      0 < element_size
      → element_size ≤ threshold
      → threshold < 2 ^ 32
      → (ps : List Part) × (pack threshold element_size emit bytes ≡ emit_all emit ps)
        × Split threshold c bytes ps
  unfolding pack emit_all
  pack-Split h k b =
      let (pos, le) = chunk_size_bounds threshold element_size h k in
      elim (Bool-cases (leb (length bytes) threshold)) [
        | inl small ↦ (
          record { piece = whole; body = bytes; single = true } ∷ [],
          rw small (rw (mod-eq_of_lt {n = length bytes} {m = 2 ^ 32} (omega (tests))) refl),
          Split.one (leb→le _ _ small),
        )
        | inr big ↦
            let high = leb_false→lt (length bytes) threshold big in
            let (ps, made, tail) =
              batches-Tail (length bytes) c pos (omega arith) (omega arith) (omega arith) in
            let head =
              message_lem first c 0 c true (omega arith) (omega arith) (omega arith)
                (omega arith) in
            let exact : c - 0 ≡ c = omega arith in
            (
              record { piece = first; body = take c bytes; single = true } ∷ ps,
              rw big (rw head (rw (exact, made) refl)),
              Split.many high (omega arith) tail,
            )
      ]
