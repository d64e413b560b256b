-- ===== src/Switches/Tests.antt =====
-- A policy for a GPU process and the browser.
use browserd.Shared.{◌≡◌, refl, some, List, [], ◌∷◌, String, Text, codes, ◌||◌}
use browserd.Platform.Samples.Texts.{strings}
use browserd.Platform.Samples.Lines.{lines}
use browserd.Switches
use browserd.Switches.Merge
use browserd.Switches.Children

abbrev policy : List Switches.EmbedderSwitch
policy =
    record { name = "disable-features"; value = some (codes "A,B"); scope = 2 }
    ∷ record { name = "lang"; value = some (codes "en"); scope = 8 }
    ∷ []

abbrev gpu_line : List (String × Text)
gpu_line = ("type", codes "gpu-process") ∷ ("disable-features", codes "B,C") ∷ []

merge_comma_separated_values-split_example :
    Switches.has_text
      (strings.split (Switches.merge_comma_separated_values strings (codes "A,B") (codes "B,C")))
      (codes "C")
    ≡ Switches.has_text (strings.split (codes "A,B")) (codes "C")
      || Switches.has_text (strings.split (codes "B,C")) (codes "C")
merge_comma_separated_values-split_example =
    Merge.merge_comma_separated_values-split strings (codes "A,B") (codes "B,C") (codes "C")

append_embedder_switches_for_child-IsGuarded_example :
    (d : List (String × Text)) × (Switches.append_embedder_switches_for_child strings lines policy
        (some gpu_line)
      ≡ some d)
    × Children.IsGuarded strings lines d
append_embedder_switches_for_child-IsGuarded_example =
    Children.append_embedder_switches_for_child-IsGuarded strings lines policy gpu_line refl
