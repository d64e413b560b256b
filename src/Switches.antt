-- ===== src/Switches.antt =====
-- browserd/embedder_switches.cc: switches that the embedder gives the browser and its child processes.
pub mod Merge
pub mod Children
mod Tests
use browserd.Shared.{
  ℕ, zero, suc, ◌+◌, ◌/◌, ◌%◌, Bool, true, false, not, ◌&&◌, ◌||◌, Option, none, some, List, [],
  ◌∷◌, ◌++◌, String, Text, codes, is_empty, eqb, text_eq, if◌then◌else◌, ◌==◌,
}
use browserd.Platform.Strings.{Strings}
use browserd.Platform.CommandLines.{CommandLines}

abbrev pub scope_browser : ℕ
scope_browser = 1

abbrev pub scope_gpu_child : ℕ
scope_gpu_child = 2

abbrev pub scope_renderer_child : ℕ
scope_renderer_child = 4

abbrev pub scope_all_children : ℕ
scope_all_children = 8

pub record EmbedderSwitch : Type 0 where
  pub name : String
  pub value : Option Text
  pub scope : ℕ

-- Whether `a & b` is not 0, for numbers of so many bits.
unfoldable pub intersects : ℕ → ℕ → ℕ → Bool
intersects zero a b = false
intersects (suc bits) a b = eqb (a % 2) 1 && eqb (b % 2) 1 || intersects bits (a / 2) (b / 2)

-- `std::ranges::find(values, value) != values.end()`
abbrev pub has_text : List Text → Text → Bool
has_text [] v = false
has_text (x ∷ xs) v = text_eq x v || has_text xs v

unfoldable pub add_all : List Text → List Text → List Text
add_all values [] = values
add_all values (v ∷ vs) =
    let same = add_all values vs in
    let more = add_all (values ++ v ∷ []) vs in if has_text values v then same else more

unfoldable pub join : Text → List Text → Text
join merged [] = merged
join merged (v ∷ vs) =
    let first = join v vs in
    let next = join (merged ++ b',' ∷ v) vs in if is_empty merged then first else next

abbrev pub fallback_to_sw_if_gles3_not_supported : Text
fallback_to_sw_if_gles3_not_supported = codes "FallbackToSWIfGLES3NotSupported"

module _ (S : Strings) where
  open S use {split}

  pub merge_comma_separated_values : Text → Text → Text
  unfolding add_all join
  merge_comma_separated_values existing incoming =
      if is_empty existing
      then incoming
      else if is_empty incoming
      then existing
      else join [] (add_all (split existing) (split incoming))

  module _ (L : CommandLines) where
    open L use {
      CommandLine, value, append_switch_ascii, remove_switch, disable_features, enable_features,
      process_type, gpu_process, renderer_process,
    }

    pub is_comma_merged_switch : String → Bool
    is_comma_merged_switch name = name == disable_features || name == enable_features

    pub has_comma_separated_value : CommandLine → String → Text → Bool
    has_comma_separated_value c name expected = has_text (split (value c name)) expected

    -- `AppendSwitch`, for a command line that is there.
    pub append_switch : CommandLine → EmbedderSwitch → CommandLine
    unfolding is_comma_merged_switch merge_comma_separated_values
    append_switch c s = if s.name == "" then c else elim s.value [
      | none ↦ append_switch_ascii (remove_switch c s.name) s.name []
      | some v ↦
          if is_comma_merged_switch s.name
          then append_switch_ascii c s.name (merge_comma_separated_values (value c s.name) v)
          else append_switch_ascii (remove_switch c s.name) s.name v
    ]

    pub scope_for_child_process : CommandLine → ℕ
    scope_for_child_process c =
        if text_eq (value c process_type) gpu_process
        then scope_all_children + scope_gpu_child
        else if text_eq (value c process_type) renderer_process
        then scope_all_children + scope_renderer_child
        else scope_all_children

    -- The loop of `AppendSwitchesForScope` over a snapshot of the policy; a `uint32_t` has 32 bits.
    pub append_each : List EmbedderSwitch → ℕ → CommandLine → CommandLine
    unfolding append_switch intersects
    append_each [] scope c = c
    append_each (s ∷ switches) scope c =
        append_each switches scope (if intersects 32 s.scope scope then append_switch c s else c)

    pub append_switches_for_scope : List EmbedderSwitch → ℕ → CommandLine → CommandLine
    unfolding append_each
    append_switches_for_scope switches scope c =
        if eqb scope 0 then c else append_each switches scope c

    abbrev pub gpu_switch : String → Option Text → EmbedderSwitch
    gpu_switch name v = record { name = name; value = v; scope = scope_gpu_child }

    pub append_default_gpu_child_switches : ℕ → CommandLine → CommandLine
    unfolding intersects append_switch has_comma_separated_value
    append_default_gpu_child_switches scope c =
        if not (intersects 32 scope scope_gpu_child)
        then c
        else (let c₁ = append_switch c (gpu_switch "disable-wayland-gbm-surfaceless" none) in
            let c₂ = append_switch c₁ (gpu_switch "browserd-force-gles2-context" none) in
            if has_comma_separated_value c₂ enable_features fallback_to_sw_if_gles3_not_supported
            then c₂
            else append_switch c₂
                (gpu_switch disable_features (some fallback_to_sw_if_gles3_not_supported)))

    -- The functions of the header, on the switches of the policy; a null command line is `none`.
    pub append_embedder_switches_for_browser :
        List EmbedderSwitch → Option CommandLine → Option CommandLine
    unfolding append_switches_for_scope
    append_embedder_switches_for_browser policy none = none
    append_embedder_switches_for_browser policy (some c) =
        some (append_switches_for_scope policy scope_browser c)

    pub append_embedder_switches_for_child :
        List EmbedderSwitch → Option CommandLine → Option CommandLine
    unfolding append_switches_for_scope append_default_gpu_child_switches scope_for_child_process
    append_embedder_switches_for_child policy none = none
    append_embedder_switches_for_child policy (some c) =
        let scope = scope_for_child_process c in
        some (append_default_gpu_child_switches scope (append_switches_for_scope policy scope c))

-- `SetEmbedderSwitches` and `ClearEmbedderSwitches`, on the policy's switches.
pub set_embedder_switches : List EmbedderSwitch → List EmbedderSwitch → List EmbedderSwitch
set_embedder_switches switches policy = switches

pub clear_embedder_switches : List EmbedderSwitch → List EmbedderSwitch
unfolding set_embedder_switches
clear_embedder_switches policy = set_embedder_switches [] policy
