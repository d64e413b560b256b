-- ===== src/Switches/Children.antt =====
-- browserd/embedder_switches.cc: what the browser and its child processes are given.
use browserd.Shared.{
  ℕ, ◌≡◌, ◌≢◌, ◌<◌, refl, sym, subst, ◌∙◌, ◌⊎◌, inl, inr, Bool, true, not, ◌&&◌, ◌||◌, none, some,
  List, [], ◌∷◌, String, Text, All, text_eq_refl, if_elim, of_not-true, Bool-cases, Option-cases,
  ltb, false≢true, arith, ◌==◌, eq_iff, eq_refl,
}
use browserd.Platform.Strings.{Strings}
use browserd.Platform.CommandLines.{CommandLines}
use browserd.Switches
use browserd.Switches.Merge

abbrev all_above : Text → Bool
all_above [] = true
all_above (c ∷ s) = ltb b',' c && all_above s

all_above-All : (s : Text) → all_above s ≡ true → All (λ c. b',' < c) s
all_above-All [] h = tt
all_above-All (c ∷ s) h = (ground (arith, h), all_above-All s (ground (arith, h)))

module _ (S : Strings) (L : CommandLines) where
  open L use {
    CommandLine, value, has_switch, append_switch_ascii, remove_switch, disable_features,
    enable_features, gpu_process, process_type,
  }

  has-append_any :
      (c : CommandLine) (n m : String) (v : Text)
      → has_switch c m ≡ true
      → has_switch (append_switch_ascii c n v) m ≡ true
  has-append_any c n m v h = elim (Bool-cases (m == n)) [
    | inl same ↦
        subst (λ i. has_switch (append_switch_ascii c n v) i ≡ true) (sym ((eq_iff m n).0 same))
          (L.has-append c n v)
    | inr other ↦ L.has-append-other c n m v (λ e. false≢true (sym other ∙ (eq_iff m n).1 e)) ∙ h
  ]

  -- A switch with another name is left alone.
  append_switch-other :
      (c : CommandLine) (s : Switches.EmbedderSwitch) (m : String)
      → m ≢ s.name
      → value (Switches.append_switch S L c s) m ≡ value c m
  unfolding Switches.append_switch
  append_switch-other c s m h = elim (Option-cases s.value) [
    | inl e ↦
        rw (e, Switches.append_switch) (if_elim Same (s.name == "") (λ _. refl) (λ _. removed []))
    | inr (v, e) ↦
        rw (e, Switches.append_switch)
          (if_elim Same (s.name == "") (λ _. refl)
            (λ _.
              if_elim Same (Switches.is_comma_merged_switch S L s.name)
                (λ _.
                  L.value-append-other c s.name m
                    (Switches.merge_comma_separated_values S (value c s.name) v) h)
                (λ _. removed v)))
  ]
    where
      Same : CommandLine → Type 0
      Same d = value d m ≡ value c m

      removed : (v : Text) → Same (append_switch_ascii (remove_switch c s.name) s.name v)
      removed v =
          L.value-append-other (remove_switch c s.name) s.name m v h
          ∙ L.value-remove-other c s.name m h

  append_each-other :
      (policy : List Switches.EmbedderSwitch) (scope : ℕ) (c : CommandLine) (m : String)
      → All
          (λ (s : Switches.EmbedderSwitch).
            Switches.intersects 32 s.scope scope ≡ true → m ≢ s.name)
          policy
      → value (Switches.append_each S L policy scope c) m ≡ value c m
  unfolding Switches.append_each
  append_each-other [] scope c m h = refl
  append_each-other (s ∷ policy) scope c m (h, hs) =
      append_each-other policy scope _ m hs
      ∙ if_elim (λ d. value d m ≡ value c m) (Switches.intersects 32 s.scope scope)
          (λ e. append_switch-other c s m (h e)) (λ _. refl)

  -- A switch of the browser that no entry of the policy for the browser names is left alone.
  pub append_embedder_switches_for_browser-other :
      (policy : List Switches.EmbedderSwitch) (c : CommandLine) (m : String)
      → All
          (λ (s : Switches.EmbedderSwitch).
            Switches.intersects 32 s.scope Switches.scope_browser ≡ true → m ≢ s.name)
          policy
      → (d : CommandLine) × (Switches.append_embedder_switches_for_browser S L policy (some c)
          ≡ some d)
        × (value d m ≡ value c m)
  unfolding Switches.append_embedder_switches_for_browser Switches.append_switches_for_scope
  append_embedder_switches_for_browser-other policy c m h =
      (_, refl, append_each-other policy Switches.scope_browser c m h)

  -- A command line that has both switches, and has the fallback to software among its enabled or its
  -- disabled features.
  pub record IsGuarded (c : CommandLine) : Type 0 where
    pub surfaceless : has_switch c "disable-wayland-gbm-surfaceless" ≡ true
    pub context : has_switch c "browserd-force-gles2-context" ≡ true
    pub fallback :
        (Switches.has_comma_separated_value S L c enable_features
            Switches.fallback_to_sw_if_gles3_not_supported
          ≡ true)
        ⊎ (Switches.has_comma_separated_value S L c disable_features
              Switches.fallback_to_sw_if_gles3_not_supported
            ≡ true)

  fallback-IsItem : S.IsItem Switches.fallback_to_sw_if_gles3_not_supported
  fallback-IsItem =
      S.word-IsItem Switches.fallback_to_sw_if_gles3_not_supported (λ e. cc)
        (all_above-All Switches.fallback_to_sw_if_gles3_not_supported refl)

  append_switch-disables :
      (c : CommandLine) (v : Text)
      → Switches.append_switch S L c (Switches.gpu_switch S L disable_features (some v))
        ≡ append_switch_ascii c disable_features
            (Switches.merge_comma_separated_values S (value c disable_features) v)
  unfolding Switches.append_switch Switches.is_comma_merged_switch
  append_switch-disables c v =
      if_elim Same (disable_features == "")
        (λ e. absurd (L.disable-ne-nil ((eq_iff disable_features "").0 e)))
        (λ _.
          if_elim Same (disable_features == disable_features || disable_features == enable_features)
            (λ _. refl) (λ e. absurd (ground (arith, e, eq_refl disable_features))))
    where
      Same : CommandLine → Type 0
      Same d =
          d
          ≡ append_switch_ascii c disable_features
              (Switches.merge_comma_separated_values S (value c disable_features) v)

  disables :
      (c : CommandLine) (v : Text)
      → S.IsItem v
      → Switches.has_comma_separated_value S L
          (Switches.append_switch S L c (Switches.gpu_switch S L disable_features (some v)))
          disable_features
          v
        ≡ true
  unfolding Switches.has_comma_separated_value
  disables c v h =
      rw
        (
          append_switch-disables c v,
          L.value-append,
          Merge.merge_comma_separated_values-split S (value c disable_features) v v,
          S.split-item v h,
          text_eq_refl v,
        )
        (ground arith)

  -- A switch stays, whatever is appended.
  append_switch-keeps :
      (c : CommandLine) (s : Switches.EmbedderSwitch) (m : String)
      → has_switch c m ≡ true
      → has_switch (Switches.append_switch S L c s) m ≡ true
  unfolding Switches.append_switch
  append_switch-keeps c s m h = elim (Option-cases s.value) [
    | inl e ↦ rw (e, Switches.append_switch) (if_elim Has (s.name == "") (λ _. h) (λ _. moved []))
    | inr (v, e) ↦
        rw (e, Switches.append_switch)
          (if_elim Has (s.name == "") (λ _. h)
            (λ _.
              if_elim Has (Switches.is_comma_merged_switch S L s.name)
                (λ _.
                  has-append_any c s.name m
                    (Switches.merge_comma_separated_values S (value c s.name) v) h)
                (λ _. moved v)))
  ]
    where
      Has : CommandLine → Type 0
      Has d = has_switch d m ≡ true

      moved : (v : Text) → Has (append_switch_ascii (remove_switch c s.name) s.name v)
      moved v = elim (Bool-cases (m == s.name)) [
        | inl same ↦
            subst (λ i. has_switch (append_switch_ascii (remove_switch c s.name) s.name v) i ≡ true)
              (sym ((eq_iff m s.name).0 same)) (L.has-append (remove_switch c s.name) s.name v)
        | inr other ↦
            let n : m ≢ s.name = λ e. false≢true (sym other ∙ (eq_iff m s.name).1 e) in
            L.has-append-other (remove_switch c s.name) s.name m v n
            ∙ L.has-remove-other c s.name m n
            ∙ h
      ]

  append_default_gpu_child_switches-IsGuarded :
      (scope : ℕ) (c : CommandLine)
      → Switches.intersects 32 scope Switches.scope_gpu_child ≡ true
      → IsGuarded (Switches.append_default_gpu_child_switches S L scope c)
  unfolding Switches.append_default_gpu_child_switches
  append_default_gpu_child_switches-IsGuarded scope c h =
      if_elim IsGuarded (not (Switches.intersects 32 scope Switches.scope_gpu_child))
        (λ e. absurd (
          false≢true
            (sym (of_not-true (Switches.intersects 32 scope Switches.scope_gpu_child) e) ∙ h)))
        (λ _.
          if_elim IsGuarded
            (Switches.has_comma_separated_value S L c₂ enable_features
              Switches.fallback_to_sw_if_gles3_not_supported)
            (λ e. record { surfaceless = first; context = second; fallback = inl e })
            (λ e. record {
              surfaceless =
                  append_switch-keeps c₂ no_fallback "disable-wayland-gbm-surfaceless" first;
              context = append_switch-keeps c₂ no_fallback "browserd-force-gles2-context" second;
              fallback =
                  inr (disables c₂ Switches.fallback_to_sw_if_gles3_not_supported fallback-IsItem);
            }))
    where
      c₁ : CommandLine
      c₁ =
          Switches.append_switch S L c
            (Switches.gpu_switch S L "disable-wayland-gbm-surfaceless" none)

      context_switch : Switches.EmbedderSwitch
      context_switch = Switches.gpu_switch S L "browserd-force-gles2-context" none

      c₂ : CommandLine
      c₂ =
          Switches.append_switch S L c₁
            (Switches.gpu_switch S L "browserd-force-gles2-context" none)

      no_fallback : Switches.EmbedderSwitch
      no_fallback =
          Switches.gpu_switch S L disable_features
            (some Switches.fallback_to_sw_if_gles3_not_supported)

      first : has_switch c₂ "disable-wayland-gbm-surfaceless" ≡ true
      first = append_switch-keeps c₁ context_switch "disable-wayland-gbm-surfaceless" (
          L.has-append (remove_switch c "disable-wayland-gbm-surfaceless")
            "disable-wayland-gbm-surfaceless" [])

      second : has_switch c₂ "browserd-force-gles2-context" ≡ true
      second =
          L.has-append (remove_switch c₁ "browserd-force-gles2-context")
            "browserd-force-gles2-context" []

  scope_for_child_process-gpu :
      (c : CommandLine)
      → value c process_type ≡ gpu_process
      → Switches.intersects 32 (Switches.scope_for_child_process S L c) Switches.scope_gpu_child
        ≡ true
  unfolding Switches.scope_for_child_process Switches.intersects
  scope_for_child_process-gpu c h = rw (h, text_eq_refl gpu_process) refl

  -- Whatever the policy says, the command line of a GPU process has the two switches of its drivers,
  -- and the fallback to software is either enabled on it or disabled.
  pub append_embedder_switches_for_child-IsGuarded :
      (policy : List Switches.EmbedderSwitch) (c : CommandLine)
      → value c process_type ≡ gpu_process
      → (d : CommandLine) × (Switches.append_embedder_switches_for_child S L policy (some c)
          ≡ some d)
        × IsGuarded d
  unfolding Switches.append_embedder_switches_for_child
  append_embedder_switches_for_child-IsGuarded policy c h =
      let scope = Switches.scope_for_child_process S L c in
      let c' = Switches.append_switches_for_scope S L policy scope c in
      (
        Switches.append_default_gpu_child_switches S L scope c',
        refl,
        append_default_gpu_child_switches-IsGuarded scope c' (scope_for_child_process-gpu c h),
      )
