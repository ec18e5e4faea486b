-- ===== src/Images/Client.antt =====
-- `Image` of client/image.rs. Code of egui is a parameter: `filled` is the pixels that
-- `ColorImage::filled` makes for a size, or `none` if it panics, and a texture is the list of the calls
-- that it got. `acks` counts the acknowledgements that are sent.
use egui_states.Prelude.{
  ℕ, ◌+◌, ◌*◌, ◌++◌, Bytes, Option, none, some, List, [], ◌∷◌, ltb, leb, ◌==◌, ◌&&◌, ◌||◌,
  if◌then◌else◌, length, take, drop, mul_usize,
}
use egui_states.Outcome.{Outcome, ok, err, fault}
use egui_states.Protocol.Headers.{ImageType}
use egui_states.Messages.{ImageSetMessage}
use egui_states.Images.Pixels.{Pixel, bytes_per_pixel, fill}

-- The kinds of the error texts.
pub data ImageError : Type 0 where
  size_mismatch too_many_pixels no_buffer too_large : ImageError

pub record ColorImage : Type 0 where
  pub width : ℕ
  pub height : ℕ
  pub pixels : List Pixel

-- `TextureHandle::set` and `set_partial`.
pub data TextureCall : Type 0 where
  set : ColorImage → TextureCall
  set_partial : ℕ × ℕ → ColorImage → TextureCall

-- `inner` is the calls of the texture, oldest first, with the saved size; `buffer` is the image that
-- is under way with the number of its pixels that are there.
pub record Image : Type 0 where
  pub inner : Option (List TextureCall × (ℕ × ℕ))
  pub buffer : Option (ColorImage × ℕ)
  pub acks : ℕ

abbrev pub Reply : Type 0
Reply = Image × Outcome ImageError (Unit {0})

abbrev pub white : Pixel
white = record { red = 255; green = 255; blue = 255; alpha = 255 }

abbrev pub transparent : Pixel
transparent = record { red = 0; green = 0; blue = 0; alpha = 0 }

abbrev send_ack : Image → Image
send_ack c = record c { acks = c.acks + 1 }

-- A read of raw memory.
abbrev pub read_raw : Option (List Pixel) → Outcome ImageError (List Pixel)
read_raw none = fault
read_raw (some ps) = ok ps

-- A write of raw memory, from a pixel on: beyond the pixels of the image it is a fault.
abbrev pub write_raw : List Pixel → ℕ → List Pixel → Outcome ImageError (List Pixel)
write_raw old actual ps =
    if leb (actual + length ps) (length old)
    then ok (take actual old ++ (ps ++ drop (actual + length ps) old))
    else fault

-- `update_c_image`, on the pixels of the image.
unfoldable pub update_c_image :
    List Pixel → ℕ → ℕ → Bytes → ImageType → Outcome ImageError (List Pixel)
update_c_image old actual pixels data_bytes t =
    if ltb (length old) (actual + pixels)
    then err too_many_pixels
    else (if bytes_per_pixel t * pixels == length data_bytes
        then elim (read_raw (fill t pixels data_bytes)) [
          | ok ps ↦ write_raw old actual ps
          | err e ↦ err e
          | fault ↦ fault
        ]
        else err size_mismatch)

-- `texture_handle.set(image)`, with the saved size, if there is a texture.
abbrev pub shown : Image → ColorImage → Image
shown c image = elim c.inner [
  | none ↦ c
  | some p ↦ record c { inner = some (p.0 ++ (set image ∷ []), (image.width, image.height)) }
]

abbrev pub made : Image → ℕ → ℕ → (List Pixel → Image) → Outcome ImageError (List Pixel) → Reply
made c w h next (ok ps) = (next ps, ok tt)
made c w h next (err e) = (c, err e)
made c w h next fault = (c, fault)

module _ (filled : ℕ → ℕ → Pixel → Option (List Pixel)) where
  abbrev byte_size : ImageType → ℕ → ℕ → ℕ
  byte_size t w h = mul_usize (mul_usize (bytes_per_pixel t) w) h

  -- The copy into a new image.
  abbrev pub copied : List Pixel → Outcome ImageError (List Pixel) → Outcome ImageError (List Pixel)
  copied old (ok ps) = write_raw old 0 ps
  copied old (err e) = err e
  copied old fault = fault

  -- `create_c_image`, after its first test.
  abbrev pub into : ImageType → ℕ → Bytes → Option (List Pixel) → Outcome ImageError (List Pixel)
  into t n data_bytes none = fault
  into t n data_bytes (some old) = copied old (read_raw (fill t n data_bytes))

  unfoldable pub create_c_image : ImageType → ℕ → ℕ → Bytes → Outcome ImageError (List Pixel)
  create_c_image t w h data_bytes =
      if byte_size t w h == length data_bytes
      then into t (mul_usize w h) data_bytes (filled w h transparent)
      else err size_mismatch

  -- `ImageSetMessage::All`
  unfoldable pub set_all : Image → ImageType → ℕ → ℕ → Bytes → Reply
  unfolding create_c_image
  set_all c t w h data_bytes =
      let c' = send_ack c in
      made c' w h (λ ps. shown c' (record { width = w; height = h; pixels = ps }))
        (create_c_image t w h data_bytes)

  abbrev pub started : Image → ImageType → ℕ → ℕ → ℕ → Bytes → Option (List Pixel) → Reply
  started c t w h pixels data_bytes none = (c, fault)
  started c t w h pixels data_bytes (some old) =
      made c w h
        (λ ps. record c { buffer = some (record { width = w; height = h; pixels = ps }, pixels) })
        (update_c_image old 0 pixels data_bytes t)

  -- `ImageSetMessage::Start`
  unfoldable pub set_start : Image → ImageType → ℕ → ℕ → ℕ → Bytes → Reply
  unfolding update_c_image
  set_start c t w h pixels data_bytes = started c t w h pixels data_bytes (filled w h white)

  -- `ImageSetMessage::Batch`
  unfoldable pub set_batch : Image → ImageType → ℕ → Bytes → Option (ColorImage × ℕ) → Reply
  unfolding update_c_image
  set_batch c t pixels data_bytes none = (c, err no_buffer)
  set_batch c t pixels data_bytes (some (image, actual)) =
      if leb (length image.pixels) (actual + pixels)
      then (c, err too_many_pixels)
      else made c 0 0
          (λ ps. record c { buffer = some (record image { pixels = ps }, actual + pixels) })
          (update_c_image image.pixels actual pixels data_bytes t)

  -- `ImageSetMessage::End`: the buffer is taken before the checks.
  unfoldable pub set_end : Image → ImageType → ℕ → Bytes → Option (ColorImage × ℕ) → Reply
  unfolding update_c_image
  set_end c t pixels data_bytes none =
      (record c { buffer = none; acks = c.acks + 1 }, err no_buffer)
  set_end c t pixels data_bytes (some (image, actual)) =
      let c' = record c { buffer = none; acks = c.acks + 1 } in
      if actual + pixels == length image.pixels
      then made c' 0 0 (λ ps. shown c' (record image { pixels = ps }))
          (update_c_image image.pixels actual pixels data_bytes t)
      else (c', err size_mismatch)

  -- `set_image`
  unfoldable pub set_image : Image → ImageSetMessage → ImageType → Bytes → Reply
  unfolding set_all set_start set_batch set_end
  set_image c (ImageSetMessage.all (w, h)) t data_bytes = set_all c t w h data_bytes
  set_image c (ImageSetMessage.start (w, h) pixels) t data_bytes =
      set_start c t w h pixels data_bytes
  set_image c (ImageSetMessage.batch pixels) t data_bytes = set_batch c t pixels data_bytes c.buffer
  set_image c (ImageSetMessage.end_set pixels) t data_bytes = set_end c t pixels data_bytes c.buffer

  -- The texture gets a part, if it lies inside.
  abbrev pub placed : Image → Option (List TextureCall × (ℕ × ℕ)) → ℕ → ℕ → ColorImage → Reply
  placed c none x y image = (c, ok tt)
  placed c (some (calls, (w, h))) x y image =
      if w == image.width && h == image.height && x == 0 && y == 0
      then (record c { inner = some (calls ++ (set image ∷ []), (w, h)) }, ok tt)
      else (if ltb w (x + image.width) || ltb h (y + image.height) then (c, err too_large) else (
        record c { inner = some (calls ++ (set_partial (x, y) image ∷ []), (w, h)) },
        ok tt,
      ))

  abbrev pub placed_from : Image → ℕ → ℕ → ℕ → ℕ → Outcome ImageError (List Pixel) → Reply
  placed_from c x y w h (ok ps) =
      placed c c.inner x y (record { width = w; height = h; pixels = ps })
  placed_from c x y w h (err e) = (c, err e)
  placed_from c x y w h fault = (c, fault)

  -- `update_image`
  unfoldable pub update_image : Image → ℕ × ℕ × ℕ × ℕ → ImageType → Bytes → Reply
  unfolding create_c_image
  update_image c (x, y, w, h) t data_bytes =
      let c' = send_ack c in placed_from c' x y w h (create_c_image t w h data_bytes)
