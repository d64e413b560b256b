-- ===== src/Core/Interactions/Press.antt =====
-- browserd/core/browser_interactions.cc: `PressKey` of a tab that resolves.
use browserd.Shared.{Bool, true, false, not, String, List, [], ◌∷◌, All, if◌then◌else◌, ◌≡◌, refl}
use browserd.Core.Result.{BrowserStatus, ok_status}
use browserd.Core.Interactions.Keys.{KeyMapping, map_key}
use browserd.Core.Interactions.Typing
use browserd.Core.Interactions.Typing.{no_render_view}

-- The key of both events: its code and its `DomKey`, with `kNoModifiers`.
abbrev unmodified : KeyMapping → KeyMapping
unmodified mapping = record mapping { shift = false }

-- The events that the page gets, and the answer; whether there is a render view when the key goes
-- down, and when it comes up.
unfoldable pub press_key : String → Bool → Bool → List Typing.KeyEvent × BrowserStatus
press_key key has_view has_view_later =
    let mapping = unmodified (map_key key) in
    if not has_view
    then ([], no_render_view)
    else if not has_view_later
    then (Typing.raw_key_down mapping ∷ [], no_render_view)
    else (Typing.raw_key_down mapping ∷ Typing.key_up mapping ∷ [], ok_status)

-- An event with no modifier, that gives no character.
abbrev IsPlain : Typing.KeyEvent → Type 0
IsPlain (Typing.raw_key_down mapping) = mapping.shift ≡ false
IsPlain (Typing.char c t mapping) = true ≡ false
IsPlain (Typing.key_up mapping) = mapping.shift ≡ false

-- Whatever key is pressed, an upper case letter too, the page gets no shift and no character.
press_key-IsPlain : (key : String) (v w : Bool) → All IsPlain (press_key key v w).0
unfolding press_key
press_key-IsPlain key false w = tt
press_key-IsPlain key true false = (refl, tt)
press_key-IsPlain key true true = (refl, (refl, tt))
