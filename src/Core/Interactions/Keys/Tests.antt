-- ===== src/Core/Interactions/Keys/Tests.antt =====
-- The character "A", and a key that is named.
use browserd.Shared.{◌≡◌, some, arith}
use browserd.Core.Interactions.Keys
use browserd.Core.Interactions.Keys.Layout

map_character-character_of_example : Layout.character_of (Keys.map_character 65) ≡ some 65
map_character-character_of_example =
    Layout.map_character-character_of 65 (omega arith) (omega arith)
