-- ===== src/Core/Interactions/Typing/Tests.antt =====
-- Typing "Hi" on a page that keeps its render view, and on one that loses it.
use browserd.Shared.{◌≡◌, Bool, true, false, List, [], ◌∷◌, Text, arith}
use browserd.Core.Interactions.Typing
use browserd.Core.Interactions.Typing.Strokes
use browserd.Core.Interactions.Typing.Strokes.{strokes}
use browserd.Core.Interactions.Typing.Ascii
use browserd.Core.Interactions.Typing.Ends

abbrev hi : Text
hi = 72 ∷ 105 ∷ []

type-Types_example :
    Ascii.Types hi (Typing.run_tasks (Typing.new_typing hi) (Strokes.tasks hi)).keys
    × ((Typing.run_tasks (Typing.new_typing hi) (Strokes.tasks hi)).stage ≡ Typing.reporting)
type-Types_example =
    Ascii.type-Types hi ((omega arith, omega arith), ((omega arith, omega arith), tt))

-- The view is gone when the second key is to be released.
abbrev views : List Bool
views = true ∷ true ∷ true ∷ false ∷ true ∷ []

type-IsEnded_example : Ends.IsEnded (Typing.run_tasks (Typing.new_typing hi) views).stage
type-IsEnded_example = Ends.type-IsEnded hi views (omega arith)

type-IsBeginning_example :
    Ends.IsBeginning (Typing.run_tasks (Typing.new_typing hi) views).keys (strokes hi)
type-IsBeginning_example = Ends.type-IsBeginning hi views

type-reporting_example :
    (Typing.run_tasks (Typing.new_typing hi) (Strokes.tasks hi)).keys ≡ strokes hi
type-reporting_example = Ends.type-reporting hi (Strokes.tasks hi) (Strokes.type-strokes hi).1
