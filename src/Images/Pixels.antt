-- ===== src/Images/Pixels.antt =====
-- The pixels of client/image.rs: `fill_c_image`, which writes a pixel of four bytes for each pixel that
-- it reads from a raw pointer. `none` is a read beyond the data.
use egui_states.Prelude.{
  ℕ, zero, suc, ◌+◌, ◌*◌, ◌≤◌, ◌≡◌, refl, ap, sym, ◌∙◌, append-nil, Bytes, Option, none, some, List,
  [], ◌∷◌, ◌++◌, length, arith,
}
use mathlib.Core.Option
use native.Mathlib.Nat.{zero-add, suc-mul, suc-add}
use egui_states.Protocol.Headers.{ImageType, color, color_alpha, gray, gray_alpha}

pub record Pixel : Type 0 where
  pub red : ℕ
  pub green : ℕ
  pub blue : ℕ
  pub alpha : ℕ

-- `ImageType::bytes_per_pixel`
unfoldable pub bytes_per_pixel : ImageType → ℕ
bytes_per_pixel color = 3
bytes_per_pixel color_alpha = 4
bytes_per_pixel gray = 1
bytes_per_pixel gray_alpha = 2

abbrev rgba : ℕ → ℕ → ℕ → ℕ → Pixel
rgba r g b a = record { red = r; green = g; blue = b; alpha = a }

-- One turn of the loop.
unfoldable pub next_pixel : ImageType → Bytes → Option (Pixel × Bytes)
next_pixel color (r ∷ g ∷ b ∷ rest) = some (rgba r g b 255, rest)
next_pixel color_alpha (r ∷ g ∷ b ∷ a ∷ rest) = some (rgba r g b a, rest)
next_pixel gray (p ∷ rest) = some (rgba p p p 255, rest)
next_pixel gray_alpha (p ∷ a ∷ rest) = some (rgba p p p a, rest)
next_pixel _ _ = none

-- `fill_c_image`
unfoldable pub fill : ImageType → ℕ → Bytes → Option (List Pixel)
unfolding next_pixel
fill t zero data_bytes = some []
fill t (suc n) data_bytes = elim (next_pixel t data_bytes) [
  | none ↦ none
  | some (p, rest) ↦ Option.map (λ ps. p ∷ ps) (fill t n rest)
]

-- A pixel is there.
next_there :
    (t : ImageType) (xs : Bytes)
    → bytes_per_pixel t ≤ length xs
    → (p : Pixel) × (rest : Bytes) × (length xs ≡ bytes_per_pixel t + length rest)
      × ((ys : Bytes) → next_pixel t (xs ++ ys) ≡ some (p, rest ++ ys))
unfolding next_pixel bytes_per_pixel
next_there color (r ∷ g ∷ b ∷ rest) h = (rgba r g b 255, rest, omega arith, λ ys. refl)
next_there color_alpha (r ∷ g ∷ b ∷ a ∷ rest) h = (rgba r g b a, rest, omega arith, λ ys. refl)
next_there gray (p ∷ rest) h = (rgba p p p 255, rest, omega arith, λ ys. refl)
next_there gray_alpha (p ∷ a ∷ rest) h = (rgba p p p a, rest, omega arith, λ ys. refl)
next_there color [] h = absurd (omega arith)
next_there color (r ∷ []) h = absurd (omega arith)
next_there color (r ∷ g ∷ []) h = absurd (omega arith)
next_there color_alpha [] h = absurd (omega arith)
next_there color_alpha (r ∷ []) h = absurd (omega arith)
next_there color_alpha (r ∷ g ∷ []) h = absurd (omega arith)
next_there color_alpha (r ∷ g ∷ b ∷ []) h = absurd (omega arith)
next_there gray [] h = absurd (omega arith)
next_there gray_alpha [] h = absurd (omega arith)
next_there gray_alpha (r ∷ []) h = absurd (omega arith)

-- A turn of the loop that finds a pixel.
fill_turn :
    (t : ImageType) (n : ℕ) (xs rest : Bytes) (p : Pixel) (ps : List Pixel)
    → next_pixel t xs ≡ some (p, rest)
    → fill t n rest ≡ some ps
    → fill t (suc n) xs ≡ some (p ∷ ps)
unfolding fill
fill_turn t n xs rest p ps e f = rw (fill, e) (rw f refl)

-- Pixels whose bytes are there are read, as many as asked for, whatever follows the bytes, and those
-- that follow are read on.
pub fill-append :
    (t : ImageType) (m : ℕ) (xs : Bytes)
    → length xs ≡ m * bytes_per_pixel t
    → (ps : List Pixel) × (length ps ≡ m)
      × (fill t m xs ≡ some ps)
      × ((n : ℕ) (ys : Bytes) (qs : List Pixel)
          → fill t n ys ≡ some qs
          → fill t (m + n) (xs ++ ys) ≡ some (ps ++ qs))
unfolding fill
fill-append t zero [] sized = ([], refl, refl, λ n ys qs e. ap (λ k. fill t k ys) (zero-add n) ∙ e)
fill-append t zero (x ∷ xs) sized = absurd (omega arith)
fill-append t (suc m) xs sized =
    let enough : bytes_per_pixel t ≤ length xs = omega (arith, suc-mul m (bytes_per_pixel t)) in
    let (p, rest, split, read) = next_there t xs enough in
    let (ps, count, done, more) =
      fill-append t m rest (omega (arith, suc-mul m (bytes_per_pixel t))) in
    (
      p ∷ ps,
      omega arith,
      fill_turn t m xs rest p ps
          (ap (next_pixel t) (sym (append-nil xs))
            ∙ read []
            ∙ ap (λ r. some (p, r)) (append-nil rest))
          done,
      λ n ys qs e.
          ap (λ k. fill t k (xs ++ ys)) (suc-add m n)
          ∙ fill_turn t (m + n) (xs ++ ys) (rest ++ ys) p (ps ++ qs) (read ys) (more n ys qs e),
    )
