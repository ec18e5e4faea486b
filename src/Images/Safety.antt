-- ===== src/Images/Safety.antt =====
-- The raw memory accesses of client/image.rs.
use native.Mathlib.Nat.{mod-eq_of_lt, mul-le-mul_right}
use egui_states.Prelude.{
  ℕ, zero, suc, ◌+◌, ◌*◌, ◌^◌, ◌%◌, ◌<◌, ◌≤◌, ◌≡◌, ◌≢◌, refl, ap, sym, ◌∙◌, subst, Bytes, Option,
  none, some, List, ◌==◌, ==_to, ltb, leb, le→leb, ltb_false→le, length, mul_usize, arith,
  Bool-cases, inl, inr,
}
use egui_states.Outcome.{Outcome, ok, err, fault}
use egui_states.Protocol.Headers.{ImageType}
use egui_states.Messages.{ImageSetMessage}
use egui_states.Data.Client.{isize_max}
use egui_states.Images.Pixels.{Pixel, bytes_per_pixel, fill-append}
use egui_states.Images.Client.{
  white, TextureCall, Image, ImageError, ColorImage, Reply, update_c_image, create_c_image, copied,
  into, made, set_all, set_start, set_batch, set_end, set_image, update_image, placed, placed_from,
  started, read_raw,
}

abbrev IsSafe : {A : Type 0} → Outcome ImageError A → Type 0
IsSafe r = r ≢ fault

err-IsSafe : {A : Type 0} (e : ImageError) → IsSafe (let r : Outcome ImageError A = err e in r)
err-IsSafe e h = cc

ok-IsSafe : {A : Type 0} (a : A) → IsSafe (let r : Outcome ImageError A = ok a in r)
ok-IsSafe a h = cc

update_c_image-IsSafe :
    (old : List Pixel) (actual pixels : ℕ) (data_bytes : Bytes) (t : ImageType)
    → IsSafe (update_c_image old actual pixels data_bytes t)
unfolding update_c_image
update_c_image-IsSafe old actual pixels data_bytes t =
    elim (Bool-cases (ltb (length old) (actual + pixels))) [
      | inl over ↦ rw over (err-IsSafe _)
      | inr fits ↦ elim (Bool-cases (bytes_per_pixel t * pixels == length data_bytes)) [
        | inr differ ↦ rw fits (rw differ (err-IsSafe _))
        | inl same ↦
            let e = ==_to _ _ same in
            let (ps, count, read, more) = fill-append t pixels data_bytes (omega (arith, e)) in
            rw fits (
              rw same (
                rw read (
                  rw
                    (le→leb (actual + length ps) (length old)
                      (omega (arith, count, ltb_false→le _ _ fits)))
                    (ok-IsSafe _))))
      ]
    ]

made-IsSafe :
    (c : Image) (w h : ℕ) (next : List Pixel → Image) (r : Outcome ImageError (List Pixel))
    → IsSafe r
    → IsSafe (made c w h next r).1
made-IsSafe c w h next (ok ps) s = ok-IsSafe tt
made-IsSafe c w h next (err e) s = err-IsSafe e
made-IsSafe c w h next fault s = absurd (s refl)

-- What `ColorImage::filled` returns: an image of that size, which fits into memory at four bytes a
-- pixel.
abbrev pub IsFilling : (ℕ → ℕ → Pixel → Option (List Pixel)) → Type 0
IsFilling filled =
    (w h : ℕ) (p : Pixel) (ps : List Pixel)
    → filled w h p ≡ some ps
    → (length ps ≡ w * h) × (length ps * 4 ≤ isize_max)

-- The image of a message fits into memory.
abbrev pub Fits : (ℕ → ℕ → Pixel → Option (List Pixel)) → ImageSetMessage → Type 0
Fits filled (ImageSetMessage.all size) =
    (p : Pixel) → (ps : List Pixel) × (filled size.0 size.1 p ≡ some ps)
Fits filled (ImageSetMessage.start size pixels) =
    (p : Pixel) → (ps : List Pixel) × (filled size.0 size.1 p ≡ some ps)
Fits filled (ImageSetMessage.batch pixels) = Unit
Fits filled (ImageSetMessage.end_set pixels) = Unit

pixel_bounds : (t : ImageType) → (0 < bytes_per_pixel t) × (bytes_per_pixel t ≤ 4)
unfolding bytes_per_pixel
pixel_bounds egui_states.Protocol.Headers.ImageType.color = (omega arith, omega arith)
pixel_bounds egui_states.Protocol.Headers.ImageType.color_alpha = (omega arith, omega arith)
pixel_bounds egui_states.Protocol.Headers.ImageType.gray = (omega arith, omega arith)
pixel_bounds egui_states.Protocol.Headers.ImageType.gray_alpha = (omega arith, omega arith)

-- The sizes of an image that fits into memory do not wrap.
byte_size_lem :
    (b w h : ℕ)
    → b ≤ 4
    → w * h * 4 ≤ isize_max
    → (mul_usize (mul_usize b w) h ≡ w * h * b) × (mul_usize w h ≡ w * h)
byte_size_lem b w zero low small = (omega arith, omega arith)
byte_size_lem b w (suc k) low small =
    let all : b * (w * suc k) ≤ 4 * (w * suc k) = mul-le-mul_right (w * suc k) low in
    let inner : b * w % 2 ^ 64 ≡ b * w = mod-eq_of_lt {n = b * w} {m = 2 ^ 64} (omega arith) in
    (
      ap (λ n. n * suc k % 2 ^ 64) inner
          ∙ mod-eq_of_lt {n = b * w * suc k} {m = 2 ^ 64} (omega arith)
          ∙ omega arith,
      mod-eq_of_lt {n = w * suc k} {m = 2 ^ 64} (omega arith),
    )

module _ (filled : ℕ → ℕ → Pixel → Option (List Pixel)) (law : IsFilling filled) where
  create_c_image-IsSafe :
      (t : ImageType) (w h : ℕ) (data_bytes : Bytes)
      → ((p : Pixel) → (ps : List Pixel) × (filled w h p ≡ some ps))
      → IsSafe (create_c_image filled t w h data_bytes)
  unfolding create_c_image
  create_c_image-IsSafe t w h data_bytes fits =
      let (old, there) = fits egui_states.Images.Client.transparent in
      let (count, small) = law w h egui_states.Images.Client.transparent old there in
      let b = bytes_per_pixel t in
      let (whole, product) =
        byte_size_lem b w h (pixel_bounds t).1 (subst (λ n. n * 4 ≤ isize_max) count small) in
      elim (Bool-cases (mul_usize (mul_usize b w) h == length data_bytes)) [
        | inr differ ↦ rw differ (err-IsSafe _)
        | inl same ↦
            let e = ==_to _ _ same in
            let (ps, many, read, more) = fill-append t (w * h) data_bytes (sym e ∙ whole) in
            rw same (
              rw there (
                rw product
                  (rw read (rw (le→leb (0 + length ps) (length old) (omega arith)) (ok-IsSafe _)))))
      ]

  set_start-IsSafe :
      (c : Image) (t : ImageType) (w h pixels : ℕ) (data_bytes : Bytes)
      → ((p : Pixel) → (ps : List Pixel) × (filled w h p ≡ some ps))
      → IsSafe (set_start filled c t w h pixels data_bytes).1
  unfolding set_start
  set_start-IsSafe c t w h pixels data_bytes fits =
      let (old, there) = fits white in
      rw there (made-IsSafe c w h _ _ (update_c_image-IsSafe old 0 pixels data_bytes t))

  set_batch-IsSafe :
      (c : Image) (t : ImageType) (pixels : ℕ) (data_bytes : Bytes) (o : Option (ColorImage × ℕ))
      → IsSafe (set_batch filled c t pixels data_bytes o).1
  unfolding set_batch
  set_batch-IsSafe c t pixels data_bytes none = err-IsSafe _
  set_batch-IsSafe c t pixels data_bytes (some (image, actual)) =
      elim (Bool-cases (leb (length image.pixels) (actual + pixels))) [
        | inl over ↦ rw over (err-IsSafe _)
        | inr fits ↦
            rw fits (
              made-IsSafe c 0 0 _ _ (update_c_image-IsSafe image.pixels actual pixels data_bytes t))
      ]

  set_end-IsSafe :
      (c : Image) (t : ImageType) (pixels : ℕ) (data_bytes : Bytes) (o : Option (ColorImage × ℕ))
      → IsSafe (set_end filled c t pixels data_bytes o).1
  unfolding set_end
  set_end-IsSafe c t pixels data_bytes none = err-IsSafe _
  set_end-IsSafe c t pixels data_bytes (some (image, actual)) =
      elim (Bool-cases (actual + pixels == length image.pixels)) [
        | inl whole ↦
            rw whole (
              made-IsSafe _ 0 0 _ _ (update_c_image-IsSafe image.pixels actual pixels data_bytes t))
        | inr differ ↦ rw differ (err-IsSafe _)
      ]

  -- If `ColorImage::filled` returns images of the size asked for, which fit into memory, and it does for
  -- the size that the message brings: whatever the message, its bytes and the state, `set_image` neither
  -- panics nor reads or writes raw memory beyond its bounds.
  pub set_image-IsSafe :
      (c : Image) (m : ImageSetMessage) (t : ImageType) (data_bytes : Bytes)
      → Fits filled m
      → (set_image filled c m t data_bytes).1 ≢ fault
  unfolding set_image set_all
  set_image-IsSafe c (ImageSetMessage.all size) t data_bytes fits =
      made-IsSafe _ size.0 size.1 _ _ (create_c_image-IsSafe t size.0 size.1 data_bytes fits)
  set_image-IsSafe c (ImageSetMessage.start size pixels) t data_bytes fits =
      set_start-IsSafe c t size.0 size.1 pixels data_bytes fits
  set_image-IsSafe c (ImageSetMessage.batch pixels) t data_bytes fits =
      set_batch-IsSafe c t pixels data_bytes c.buffer
  set_image-IsSafe c (ImageSetMessage.end_set pixels) t data_bytes fits =
      set_end-IsSafe c t pixels data_bytes c.buffer

  placed-IsSafe :
      (c : Image) (o : Option (List TextureCall × (ℕ × ℕ))) (x y : ℕ) (image : ColorImage)
      → IsSafe (placed filled c o x y image).1
  placed-IsSafe c o x y image = ground arith

  placed_from-IsSafe :
      (c : Image) (x y w h : ℕ) (r : Outcome ImageError (List Pixel))
      → IsSafe r
      → IsSafe (placed_from filled c x y w h r).1
  placed_from-IsSafe c x y w h (ok ps) s =
      placed-IsSafe c c.inner x y (record { width = w; height = h; pixels = ps })
  placed_from-IsSafe c x y w h (err e) s = err-IsSafe e
  placed_from-IsSafe c x y w h fault s = absurd (s refl)

  -- On the same conditions on `ColorImage::filled` and the size of the rectangle: whatever its origin, the
  -- bytes and the state, `update_image` neither panics nor reads or writes raw memory beyond its bounds.
  pub update_image-IsSafe :
      (c : Image) (x y w h : ℕ) (t : ImageType) (data_bytes : Bytes)
      → ((p : Pixel) → (ps : List Pixel) × (filled w h p ≡ some ps))
      → (update_image filled c (x, y, w, h) t data_bytes).1 ≢ fault
  unfolding update_image
  update_image-IsSafe c x y w h t data_bytes fits =
      placed_from-IsSafe _ x y w h _ (create_c_image-IsSafe t w h data_bytes fits)
