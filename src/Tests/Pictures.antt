-- ===== src/Tests/Pictures.antt =====
-- An image of two gray pixels, at a client without a texture.
use egui_states.Prelude.{
  ℕ, ◌*◌, ◌≤◌, ◌≡◌, ◌≢◌, refl, subst, List, Option, some, none, [], ◌∷◌, leb, leb→le, length,
  replicate, length-replicate, if◌then◌else◌, Bool-cases, inl, inr, arith,
}
use egui_states.Outcome.{fault}
use egui_states.Protocol.Headers.{gray}
use egui_states.Messages.{ImageSetMessage}
use egui_states.Data.Client.{isize_max}
use egui_states.Images.Pixels.{Pixel}
use egui_states.Images.Client.{Image, set_image, update_image}
use egui_states.Images.Safety.{IsFilling, set_image-IsSafe, update_image-IsSafe}

abbrev filled : ℕ → ℕ → Pixel → Option (List Pixel)
filled w h p = if leb (w * h * 4) isize_max then some (replicate (w * h) p) else none

filled-IsFilling : IsFilling filled
filled-IsFilling w h p ps e = elim (Bool-cases (leb (w * h * 4) isize_max)) [
  | inr large ↦ cc (rw large at e)
  | inl small ↦
      let made = rw small at e in
      let same : replicate (w * h) p ≡ ps = cc in
      subst (λ (xs : List Pixel). (length xs ≡ w * h) × (length xs * 4 ≤ isize_max)) same
        (length-replicate (w * h) p, omega (arith, length-replicate (w * h) p, leb→le _ _ small))
]

abbrev client : Image
client = record { inner = none; buffer = none; acks = 0 }

set_image-IsSafe_example :
    (set_image filled client (ImageSetMessage.start (2, 1) 1) gray (9 ∷ [])).1 ≢ fault
set_image-IsSafe_example =
    set_image-IsSafe filled filled-IsFilling client (ImageSetMessage.start (2, 1) 1) gray (9 ∷ [])
      (λ p. (p ∷ p ∷ [], refl))

update_image-IsSafe_example : (update_image filled client (0, 0, 2, 1) gray (9 ∷ 8 ∷ [])).1 ≢ fault
update_image-IsSafe_example =
    update_image-IsSafe filled filled-IsFilling client 0 0 2 1 gray (9 ∷ 8 ∷ [])
      (λ p. (p ∷ p ∷ [], refl))
