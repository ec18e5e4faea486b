-- ===== src/Messages/Groups.antt =====
-- The reader of client/websocket.rs over websocket messages into which single frames are joined.
use mathlib.Core.List.{map-append}
use egui_states.Prelude.{
  subst, ◌≢◌, ◌≡◌, refl, ap, ◌∙◌, sym, Bytes, List, [], ◌∷◌, ◌++◌, map, length, some, append_assoc,
}
use egui_states.Outcome.{Outcome, ok, ◌>>=◌}
use egui_states.Protocol.Headers.{ServerHeader}
use egui_states.Protocol.Codec.{Codec, IsLawful}
use egui_states.Messages.{ServerMessage, ParseError, read_all}
use egui_states.Messages.Spec.{body_size, message_of}
use egui_states.Messages.Frames.{Frame, Frames, read_all-Frames}

-- The bytes of messages, one after the other.
unfoldable pub join : List Bytes → Bytes
join [] = []
join (b ∷ bs) = b ++ join bs

-- No group is empty.
abbrev pub AllNonempty : List (List Bytes) → Type 0
AllNonempty [] = Unit
AllNonempty (w ∷ ws) = (w ≢ []) × AllNonempty ws

-- All messages of all groups.
abbrev pub flatten : List (List Bytes) → List Bytes
flatten [] = []
flatten (w ∷ ws) = w ++ flatten ws

head_eq : {x y : Bytes} {xs ys : List Bytes} → x ∷ xs ≡ y ∷ ys → x ≡ y
head_eq e = cc

tail_eq : {x y : Bytes} {xs ys : List Bytes} → x ∷ xs ≡ y ∷ ys → xs ≡ ys
tail_eq e = cc

module _ (codec : Codec ServerHeader) where
  -- A message of the server: one serialized header and its bytes.
  abbrev pub IsFrame : Frame → Bytes → Type 0
  IsFrame (h, body) m =
      (b : Bytes) × (codec.encode h ≡ some b) × (length body ≡ body_size h) × (m ≡ b ++ body)

  abbrev pub AreFrames : List Frame → List Bytes → Type 0
  AreFrames [] ms = ms ≡ []
  AreFrames (f ∷ fs) ms =
      (m : Bytes) × (rest : List Bytes) × (ms ≡ m ∷ rest) × IsFrame f m × AreFrames fs rest

  -- The reader of the client, over the websocket messages in order.
  unfoldable pub read_each : List Bytes → Outcome ParseError (List ServerMessage)
  read_each [] = ok []
  read_each (w ∷ ws) = do ms ← read_all codec w; rest ← read_each ws; ok (ms ++ rest)

  pub AreFrames-Frames :
      (fs : List Frame) (ms : List Bytes) → AreFrames fs ms → Frames codec fs (join ms)
  unfolding join
  AreFrames-Frames [] ms e = ap join e
  AreFrames-Frames ((h, body) ∷ fs) ms (m, rest, e, (b, encoded, sized, made), more) = (
    b,
    join rest,
    encoded,
    sized,
    ap join e ∙ ap (λ x. x ++ join rest) made ∙ append_assoc b body (join rest),
    AreFrames-Frames fs rest more,
  )

  -- The frames of messages in two parts.
  AreFrames-append :
      (v w : List Bytes) (fs : List Frame)
      → AreFrames fs (v ++ w)
      → (gs hs : List Frame) × (fs ≡ gs ++ hs) × AreFrames gs v × AreFrames hs w
  AreFrames-append [] w fs h = ([], fs, refl, refl, h)
  AreFrames-append (m ∷ v) w [] h = cc
  AreFrames-append (m ∷ v) w (f ∷ fs) (m', rest, e, frame, more) =
      let (gs, hs, split, left, right) =
        AreFrames-append v w fs (subst (AreFrames fs) (sym (tail_eq e)) more) in
      (
        f ∷ gs,
        hs,
        ap (◌∷◌ f) split,
        (m, v, refl, subst (IsFrame f) (sym (head_eq e)) frame, left),
        right,
      )

  read_group :
      IsLawful codec
      → (w : List Bytes) (fs : List Frame) → w ≢ []
      → AreFrames fs w
      → read_all codec (join w) ≡ ok (map (λ f. message_of f.0 f.1) fs)
  read_group lawful w [] some_there h = absurd (some_there h)
  read_group lawful w (f ∷ fs) some_there h =
      read_all-Frames codec lawful f fs (join w) (AreFrames-Frames (f ∷ fs) w h)

  -- With a lawful codec, and however the writer joins messages of one frame each into websocket
  -- messages `ws`, none of them empty: the reader has the message of each frame, in order, and
  -- nothing else.
  pub read_each-AreFrames :
      IsLawful codec
      → (ws : List (List Bytes)) (fs : List Frame) → AllNonempty ws
      → AreFrames fs (flatten ws)
      → read_each (map join ws) ≡ ok (map (λ f. message_of f.0 f.1) fs)
  unfolding read_each
  read_each-AreFrames lawful [] [] n h = refl
  read_each-AreFrames lawful [] (f ∷ fs) n (m, rest, e, frame, more) = cc
  read_each-AreFrames lawful (w ∷ ws) fs (n, ns) h =
      let (gs, hs, split, left, right) = AreFrames-append w (flatten ws) fs h in
      rw (read_group lawful w gs n left) (
        rw (read_each-AreFrames lawful ws hs ns right)
          (rw split (ap ok (sym (map-append (λ f. message_of f.0 f.1) gs hs)))))
