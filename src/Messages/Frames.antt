-- ===== src/Messages/Frames.antt =====
-- The parser of client/messages.rs over one websocket message of several frames.
use egui_states.Prelude.{
  ℕ, zero, suc, ◌+◌, ◌-◌, ◌<◌, ◌≤◌, ◌≡◌, refl, ap, ◌∙◌, sym, Bytes, false, List, [], ◌∷◌, ◌++◌, map,
  length, drop, slice_at, arith, none, some, le→leb, lt→leb_false, length-append, length-drop,
  drop-append, Bool-cases, inl, inr, drop-drop,
}
use egui_states.Outcome.{ok}
use egui_states.Protocol.Headers.{ServerHeader}
use egui_states.Protocol.Codec.{Codec, IsLawful}
use egui_states.Messages.{Parser, next_inner, next, read_rest, read_all}
use egui_states.Messages.Spec.{body_size, message_of}
use egui_states.Messages.Process.{moved, process_lem}

-- A frame: a header and the bytes that follow it.
abbrev pub Frame : Type 0
Frame = ServerHeader × Bytes

module _ (codec : Codec ServerHeader) where
  -- `bytes` are the frames one after the other, each header serialized and followed by as many
  -- bytes as it announces.
  abbrev pub Frames : List Frame → Bytes → Type 0
  Frames [] bytes = bytes ≡ []
  Frames ((h, body) ∷ fs) bytes =
      (b rest : Bytes) × (codec.encode h ≡ some b)
      × (length body ≡ body_size h)
      × (bytes ≡ b ++ (body ++ rest))
      × Frames fs rest

-- What stands behind what stands at a pointer.
drop_past : (xs ys zs : Bytes) (i : ℕ) → drop i xs ≡ ys ++ zs → drop (i + length ys) xs ≡ zs
drop_past xs ys zs i here =
    sym (drop-drop (length ys) i xs) ∙ ap (drop (length ys)) here ∙ drop-append ys zs

module _ (codec : Codec ServerHeader) (lawful : IsLawful codec) where
  -- From a pointer where a frame starts, its message, and the pointer behind it.
  next_inner_lem :
      (p : Parser) (h : ServerHeader) (b body rest : Bytes)
      → p.pointer ≤ length p.bytes
      → drop p.pointer p.bytes ≡ b ++ (body ++ rest)
      → codec.encode h ≡ some b
      → length body ≡ body_size h
      → next_inner codec p ≡ ok (message_of h body, moved (moved p (length b)) (length body))
  unfolding next_inner
  next_inner_lem p h b body rest inside here encoded sized =
      let q = moved p (length b) in
      let all : length p.bytes ≡ p.pointer + length b + length body + length rest = omega (
        arith,
        ap length here,
        length-drop p.pointer p.bytes,
        length-append b (body ++ rest),
        length-append body rest,
      ) in
      let used : length (drop p.pointer p.bytes) - length (body ++ rest) ≡ length b =
        omega (arith, ap length here, length-append b (body ++ rest)) in
      let cut =
        slice_at p.bytes body rest q.pointer (body_size h)
          (drop_past p.bytes b (body ++ rest) p.pointer here) sized in
      rw (le→leb _ _ inside) (
        rw here (
          rw (lawful.take_from-encode h b (body ++ rest) encoded)
            (rw used (process_lem q h (omega arith) ∙ rw (cut, sized)))))

  next_end : (p : Parser) → drop p.pointer p.bytes ≡ [] → next codec p ≡ ok none
  unfolding next
  next_end p here = elim (Bool-cases p.is_empty) [
    | inl gone ↦ rw gone
    | inr live ↦ rw live (
        rw
          (le→leb (length p.bytes) p.pointer
            (omega (arith, ap length here, length-drop p.pointer p.bytes)))
          refl)
  ]

  next_frame :
      (p : Parser) (h : ServerHeader) (b body rest : Bytes)
      → p.is_empty ≡ false
      → drop p.pointer p.bytes ≡ b ++ (body ++ rest)
      → codec.encode h ≡ some b
      → length body ≡ body_size h
      → next codec p ≡ ok (some (message_of h body, moved (moved p (length b)) (length body)))
  unfolding next
  next_frame p h b body rest live here encoded sized =
      let inside : p.pointer < length p.bytes = omega (
        arith,
        ap length here,
        length-drop p.pointer p.bytes,
        length-append b (body ++ rest),
        lawful.encode_pos h b encoded,
      ) in
      rw (next_inner_lem p h b body rest (omega arith) here encoded sized)
        (rw (lt→leb_false (length p.bytes) p.pointer inside) (simp live))

  -- The loop of `read` over the frames that are left.
  read_rest_lem :
      (fs : List Frame) (fuel : ℕ) (p : Parser) (rest : Bytes)
      → Frames codec fs rest
      → p.is_empty ≡ false
      → drop p.pointer p.bytes ≡ rest
      → length fs < fuel
      → read_rest codec fuel p ≡ ok (map (λ f. message_of f.0 f.1) fs)
  unfolding read_rest
  read_rest_lem fs zero p rest f live here enough = absurd (omega arith)
  read_rest_lem [] (suc fuel) p rest f live here enough = rw (next_end p (here ∙ f), read_rest) refl
  read_rest_lem ((h, body) ∷ fs) (suc fuel) p rest (b, left, encoded, sized, split, f) live here
        enough =
      let q = moved (moved p (length b)) (length body) in
      let behind =
        drop_past p.bytes body left (p.pointer + length b)
          (drop_past p.bytes b (body ++ left) p.pointer (here ∙ split)) in
      rw (next_frame p h b body left live (here ∙ split) encoded sized, read_rest)
        (rw (read_rest_lem fs fuel q left f live behind (omega arith)) refl)

  length-Frames :
      (fs : List Frame) (bytes : Bytes) → Frames codec fs bytes → length fs ≤ length bytes
  length-Frames [] bytes f = omega arith
  length-Frames ((h, body) ∷ fs) bytes (b, rest, encoded, sized, split, f) = omega (
    arith,
    length-Frames fs rest f,
    lawful.encode_pos h b encoded,
    ap length split,
    length-append b (body ++ rest),
    length-append body rest,
  )

  -- A websocket message that holds one frame or more is read as the messages of its frames.
  pub read_all-Frames :
      (f : Frame) (fs : List Frame) (bytes : Bytes)
      → Frames codec (f ∷ fs) bytes
      → read_all codec bytes ≡ ok (map (λ g. message_of g.0 g.1) (f ∷ fs))
  unfolding read_all
  read_all-Frames (h, body) fs bytes (b, rest, encoded, sized, split, left) =
      let p : Parser = record { bytes = bytes; pointer = 0; is_empty = false } in
      let q = moved (moved p (length b)) (length body) in
      let behind =
        drop_past bytes body rest (0 + length b) (drop_past bytes b (body ++ rest) 0 split) in
      let enough : length fs < suc (length bytes) = omega (
        arith,
        length-Frames fs rest left,
        ap length split,
        length-append b (body ++ rest),
        length-append body rest,
      ) in
      rw (next_inner_lem p h b body rest (omega arith) split encoded sized)
        (rw (read_rest_lem fs (suc (length bytes)) q rest left refl behind enough) refl)
