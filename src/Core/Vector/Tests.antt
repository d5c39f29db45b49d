-- ===== src/Core/Vector/Tests.antt =====
-- Pushes at concrete inputs.
use usb_sentinel.Prelude.{ℕ, ◌≡◌, refl, [], ◌∷◌, leb, arith}
use usb_sentinel.Core.Vector
use usb_sentinel.Core.Vector.{Vector}
use usb_sentinel.Core.Vector.Push.{Fits, push-Fits}
use usb_sentinel.Status.{ok, no_memory}

abbrev full : Vector ℕ
full = record { items = 1 ∷ 2 ∷ 3 ∷ 4 ∷ []; capacity = 4 }

grown :
    Vector.push (λ n. leb n 80) 4 10 full 5
    ≡ (ok, record { items = 1 ∷ 2 ∷ 3 ∷ 4 ∷ 5 ∷ []; capacity = 8 })
unfolding Vector.push
grown = refl

refused : Vector.push (λ n. leb n 79) 4 10 full 5 ≡ (no_memory, full)
unfolding Vector.push
refused = refl

push-Fits_example : Fits 4 (Vector.push (λ n. leb n 80) 4 10 full 5).1
push-Fits_example =
    push-Fits (λ n. leb n 80) 4 10 full 5 (record { room = omega arith; near = omega arith })
      (omega arith) (omega arith)
