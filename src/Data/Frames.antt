-- ===== src/Data/Frames.antt =====
-- The messages of `pack_data` (server/data_server.rs) as frames of the protocol.
use egui_states.Prelude.{
  ℕ, ◌≡◌, refl, ap, sym, Bytes, Bool, List, [], ◌∷◌, ◌++◌, map, length, none, some, Option,
  Option-cases, inl, inr,
}
use egui_states.Outcome.{Outcome, ok, >>=-eq-ok, ok-injective}
use egui_states.Protocol.DataType.{DataType}
use egui_states.Protocol.Headers.{TransportType, ServerHeader}
use egui_states.Protocol.Codec.{Codec}
use egui_states.Pack.{Piece, whole, first, middle, last}
use egui_states.Pack.Split.{Part, emit_all}
use egui_states.Pack.Arrays.{DataError, Packed, data_header, piece_header, frame}
use egui_states.Messages.Frames.{Frame}
use egui_states.Messages.Spec.{body_size}
use egui_states.Messages.Groups.{AreFrames, IsFrame}

sized_lem :
    (id : ℕ) (transport : TransportType) (count : ℕ) (data_type : DataType) (multi : Option ℕ)
    (update : Bool) (piece : Piece) (n : ℕ)
    → n ≡ body_size (data_header id multi (piece_header data_type transport count update piece n))
unfolding data_header piece_header
sized_lem id transport count data_type none update whole n = refl
sized_lem id transport count data_type none update first n = refl
sized_lem id transport count data_type none update middle n = refl
sized_lem id transport count data_type none update last n = refl
sized_lem id transport count data_type (some k) update whole n = refl
sized_lem id transport count data_type (some k) update first n = refl
sized_lem id transport count data_type (some k) update middle n = refl
sized_lem id transport count data_type (some k) update last n = refl

module _ (id : ℕ) (transport : TransportType) (count : ℕ) (data_type : DataType) (multi : Option ℕ)
    (update : Bool) where
  -- The frame of a part.
  abbrev pub part_frame : Part → Frame
  part_frame p = (
    data_header id multi (piece_header data_type transport count update p.piece (length p.body)),
    p.body,
  )

-- What `frame` makes of a header and its bytes is a frame.
pub frame-IsFrame :
    (codec : Codec ServerHeader) (h : ServerHeader) (body : Bytes) (single : Bool) (m : Packed)
    → length body ≡ body_size h
    → frame codec h body single ≡ ok m
    → IsFrame codec (h, body) m.0
unfolding frame
frame-IsFrame codec h body single m sized e = elim (Option-cases (codec.encode h)) [
  | inl failed ↦ cc (rw (failed, frame) at e)
  | inr (b, encoded) ↦
      let made : (b ++ body, single) ≡ m = ok-injective (rw (encoded, frame) at e) in
      (b, encoded, sized, ap (λ (x : Packed). x.0) (sym made))
]

-- The messages that any header by the place of a message gives.
module _ (codec : Codec ServerHeader) (header : Piece → ℕ → ServerHeader)
    (sized : (piece : Piece) (n : ℕ) → n ≡ body_size (header piece n)) where
  abbrev pub frame_of : Part → Frame
  frame_of p = (header p.piece (length p.body), p.body)

  pub framed_all-AreFrames :
      (ps : List Part) (ms : List Packed)
      → emit_all (λ piece size. frame codec (header piece size)) ps ≡ ok ms
      → AreFrames codec (map frame_of ps) (map (λ m. m.0) ms)
  unfolding emit_all
  framed_all-AreFrames [] ms e = ap (map (λ (m : Packed). m.0)) (sym (ok-injective e))
  framed_all-AreFrames (p ∷ ps) ms e =
      let (m, made, e') =
        >>=-eq-ok (frame codec (header p.piece (length p.body)) p.body p.single) _ e in
      let (ms', rest, e'') =
        >>=-eq-ok (emit_all (λ piece size. frame codec (header piece size)) ps) _ e' in
      (
        m.0,
        map (λ (x : Packed). x.0) ms',
        ap (map (λ (x : Packed). x.0)) (sym (ok-injective e'')),
        frame-IsFrame codec (header p.piece (length p.body)) p.body p.single m
            (sized p.piece (length p.body)) made,
        framed_all-AreFrames ps ms' rest,
      )

module _ (codec : Codec ServerHeader) (id : ℕ) (transport : TransportType) (count : ℕ)
    (data_type : DataType) (multi : Option ℕ) (update : Bool) where
  abbrev pub emit : Piece → ℕ → Bytes → Bool → Outcome DataError Packed
  emit piece size =
      frame codec (data_header id multi (piece_header data_type transport count update piece size))

  pub emit_all-AreFrames :
      (ps : List Part) (ms : List Packed)
      → emit_all emit ps ≡ ok ms
      → AreFrames codec
          (map (part_frame id transport count data_type multi update) ps)
          (map (λ m. m.0) ms)
  emit_all-AreFrames ps ms e =
      framed_all-AreFrames codec
        (λ piece size.
          data_header id multi (piece_header data_type transport count update piece size))
        (sized_lem id transport count data_type multi update) ps ms e
