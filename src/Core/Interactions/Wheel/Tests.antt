-- ===== src/Core/Interactions/Wheel/Tests.antt =====
-- Scrolling 100 pixels down, in steps of 40 and more.
use browserd.Shared.{ℕ, true, List, [], ◌∷◌, arith}
use browserd.Platform.Json.{pos}
use browserd.Core.Interactions.Wheel
use browserd.Core.Interactions.Wheel.Directions

abbrev meeting : ℕ → Wheel.Meeting
meeting n = record { random = n; has_view = true }

abbrev meetings : List Wheel.Meeting
meetings = meeting 3 ∷ meeting 40 ∷ meeting 0 ∷ meeting 7 ∷ []

scroll-Scrolled_example :
    Directions.Scrolled (pos 0) (pos 100) (Wheel.scroll (pos 0) (pos 100) meetings)
scroll-Scrolled_example =
    Directions.scroll-Scrolled (pos 0) (pos 100) meetings (omega arith) (omega arith)
