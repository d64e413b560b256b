-- ===== src/Headless/Tabs.antt =====
-- browserd/headless_runtime.cc: the active tab, and the targets that name tabs.
use browserd.Shared.{
  ℕ, ◌+◌, ◌≡◌, ◌≢◌, ◌⊎◌, ◌↔◌, refl, sym, ap, subst, ◌∙◌, inl, inr, true, false, Option, none, some,
  some-injective, List, [], ◌∷◌, String, eqb, eqb_iff, has_value, if_elim, ◌==◌, eq_iff,
  Option-cases, false≢true,
}
use browserd.Platform.Contexts.{Contexts, Tab, Has}
use browserd.Core.Runtime.{TabInfo}
use browserd.Headless

-- The web contents of one of the tabs, that is not closing.
abbrev Remains : ℕ → List Tab → ℕ → Type 0
Remains closing ts w = (t : Tab) × Has t ts × (t.web_contents ≡ some w) × (t.contents ≢ closing)

module _ (K : Contexts) where
  abbrev Runtime : Type 0
  Runtime = Headless.Runtime K

  -- The active web contents, if any, are those of a tab of the context.
  pub record IsOpen (s : Runtime) : Type 0 where
    pub active :
        (w : ℕ)
        → s.active_web_contents ≡ some w
        → (t : Tab) × Has t (Headless.context_tabs K s) × (t.web_contents ≡ some w)

  later :
      (closing : ℕ) (u : Tab) (ts : List Tab) (w : ℕ)
      → Remains closing ts w
      → Remains closing (u ∷ ts) w
  later closing u ts w (t, h, e, n) = (t, inr h, e, n)

  -- What the loop has chosen: the contents of a tab that stays, or none where no such tab has any.
  Chosen : ℕ → List Tab → Option ℕ → Type 0
  Chosen closing ts none = (t : Tab) → Has t ts → t.contents ≢ closing → t.web_contents ≡ none
  Chosen closing ts (some w) = Remains closing ts w

  skip :
      (closing : ℕ) (u : Tab) (ts : List Tab) (o : Option ℕ)
      → (u.contents ≢ closing → u.web_contents ≡ none)
      → Chosen closing ts o
      → Chosen closing (u ∷ ts) o
  unfolding Chosen
  skip closing u ts (some w) h r = later closing u ts w r
  skip closing u ts none h r = λ t k n. elim k [
    | inl e ↦ ap (λ (x : Tab). x.web_contents) e ∙ h (λ x. n (ap (λ (y : Tab). y.contents) e ∙ x))
    | inr k ↦ r t k n
  ]

  choose_fallback-Chosen :
      (closing : ℕ) (ts : List Tab) → Chosen closing ts (Headless.choose_fallback K closing ts)
  unfolding Headless.choose_fallback Chosen
  choose_fallback-Chosen closing [] = λ t h n. absurd h
  choose_fallback-Chosen closing (u ∷ ts) =
      let rest = choose_fallback-Chosen closing ts in
      if_elim (Chosen closing (u ∷ ts)) (eqb u.contents closing)
        (λ e.
          skip closing u ts (Headless.choose_fallback K closing ts)
            (λ n. absurd (n ((eqb_iff u.contents closing).0 e))) rest)
        (λ other. elim (Option-cases u.web_contents) [
          | inl e ↦ rw e (
              skip closing (record u { web_contents = none }) ts
                (Headless.choose_fallback K closing ts) (λ n. refl) rest)
          | inr (w, e) ↦ rw e (
            record u { web_contents = some w },
            inl refl,
            refl,
            (λ k. false≢true (sym other ∙ (eqb_iff u.contents closing).1 k)),
          )
        ])

  closes-all :
      (o : Option K.Context) (closing : ℕ) (t : Tab)
      → Has t (elim (Headless.close_in K o closing) [ none ↦ [] | some c ↦ K.all c ])
        ↔ (Has t (elim o [ none ↦ [] | some c ↦ K.all c ]) × (t.contents ≢ closing))
  closes-all none closing t = ((λ h. absurd h), (λ h. absurd h.0))
  closes-all (some c) closing t = K.close-all c closing t

  -- A tab is gone and the others stay; one of them is active, or none has web contents and the browser
  -- is shut down.
  pub record Closes (s : Runtime) (closing : ℕ) (s' : Runtime) : Type 0 where
    pub tabs :
        (t : Tab)
        → Has t (Headless.context_tabs K s')
          ↔ (Has t (Headless.context_tabs K s) × (t.contents ≢ closing))
    pub next :
        ((w : ℕ) × (s'.active_web_contents ≡ some w)
          × ((t : Tab) × Has t (Headless.context_tabs K s') × (t.web_contents ≡ some w))
          × (s'.shutdowns ≡ s.shutdowns))
        ⊎ ((s'.active_web_contents ≡ none)
            × ((t : Tab) → Has t (Headless.context_tabs K s') → t.web_contents ≡ none)
            × (s'.shutdowns ≡ s.shutdowns + 1))

  close_contents-Closes :
      (s : Runtime) (closing : ℕ) → Closes s closing (Headless.close_contents K s closing)
  unfolding Headless.close_contents Headless.shutdown Chosen
  close_contents-Closes s closing =
      let chosen = choose_fallback-Chosen closing (Headless.context_tabs K s) in
      elim (Option-cases (Headless.choose_fallback K closing (Headless.context_tabs K s))) [
        | inl e ↦
            let none_left = subst (Chosen closing (Headless.context_tabs K s)) e chosen in
            rw e (record {
              tabs = closes-all s.browser_context closing;
              next = inr (
                refl,
                (λ t h.
                    none_left t ((closes-all s.browser_context closing t).0 h).0
                      ((closes-all s.browser_context closing t).0 h).1),
                refl,
              );
            })
        | inr (w, e) ↦
            let left = subst (Chosen closing (Headless.context_tabs K s)) e chosen in
            rw e (record {
              tabs = closes-all s.browser_context closing;
              next = inl (
                w,
                refl,
                (left.0, (closes-all s.browser_context closing left.0).1 (left.1, left.3), left.2),
                refl,
              );
            })
      ]

  close_contents-IsOpen : (s : Runtime) (closing : ℕ) → IsOpen (Headless.close_contents K s closing)
  close_contents-IsOpen s closing = record {
    active = λ w e. elim (close_contents-Closes s closing).next [
      | inl (v, a, t, k) ↦ (t.0, t.1, t.2 ∙ ap some (some-injective _ _ (sym a ∙ e)))
      | inr (a, h, k) ↦ cc
    ];
  }

  built-Has :
      (o : Option K.Context) (url : String) (c : K.Context) (t : Tab)
      → Headless.build_in K o url ≡ some (c, t)
      → Has t (K.all c)
  built-Has none url c t e = cc
  built-Has (some b) url c t e = (K.build-all b c url t t e).1 (inl refl)

  step-IsOpen : (s : Runtime) (e : Headless.TabEvent K) → IsOpen s → IsOpen (Headless.step K s e)
  unfolding Headless.step Headless.create_tab Headless.close_tab
  step-IsOpen s (Headless.create url) h =
      elim (Option-cases (Headless.build_in K s.browser_context url)) [
        | inl e ↦ rw (e, Headless.step, Headless.create_tab) h
        | inr ((c, t), e) ↦
            rw (e, Headless.step, Headless.create_tab)
              (record { active = λ w k. (t, built-Has s.browser_context url c t e, k) })
      ]
  step-IsOpen s (Headless.close_target id) h = elim (Option-cases (Headless.target K s id)) [
    | inl e ↦ rw (e, Headless.step, Headless.close_tab) h
    | inr (t, e) ↦ rw (e, Headless.step, Headless.close_tab) (close_contents-IsOpen s t.contents)
  ]

  -- Whatever tabs are created and closed, the active web contents stay those of an open tab, if they
  -- were so at the start.
  pub run-IsOpen :
      (s : Runtime) (events : List (Headless.TabEvent K))
      → IsOpen s
      → IsOpen (Headless.run K s events)
  unfolding Headless.run
  run-IsOpen s [] h = h
  run-IsOpen s (e ∷ es) h = run-IsOpen (Headless.step K s e) es (step-IsOpen s e h)

  -- `CloseTab` gives true exactly when its target is there. Then that tab is gone and the others stay;
  -- one of them becomes active, or none has web contents and the browser is shut down once.
  pub close_tab-cases :
      (s : Runtime) (id : Option String)
      → ((Headless.target K s id ≡ none) × (Headless.close_tab K s id ≡ (s, false)))
        ⊎ ((t : Tab) × (Headless.target K s id ≡ some t)
            × ((Headless.close_tab K s id).1 ≡ true)
            × Closes s t.contents (Headless.close_tab K s id).0)
  unfolding Headless.close_tab
  close_tab-cases s id = elim (Option-cases (Headless.target K s id)) [
    | inl e ↦ inl (e, rw (e, Headless.close_tab) refl)
    | inr (t, e) ↦ inr (
      t,
      e,
      rw (e, Headless.close_tab) refl,
      rw (e, Headless.close_tab) (close_contents-Closes s t.contents),
    )
  ]

  find_in-Has :
      (c : K.Context) (t : Tab) (ts : List Tab)
      → Has t (K.all c)
      → ((u : Tab) → Has u ts → Has u (K.all c))
      → Has t ts
      → Headless.find_in K ts (K.target_id t.contents) ≡ some t
  unfolding Headless.find_in
  find_in-Has c t [] h sub k = absurd k
  find_in-Has c t (u ∷ us) h sub k =
      let rest = find_in-Has c t us h (λ v l. sub v (inr l)) in
      if_elim (λ (o : Option Tab). o ≡ some t) (K.target_id u.contents == K.target_id t.contents)
        (λ e. ap some (
          K.same c u t (sub u (inl refl)) h (
            K.target_id-injective u.contents t.contents
              ((eq_iff (K.target_id u.contents) (K.target_id t.contents)).0 e))))
        (λ other. elim k [
          | inl e ↦ absurd (
              false≢true (
                sym other
                ∙ (eq_iff (K.target_id u.contents) (K.target_id t.contents)).1
                    (ap (λ (x : Tab). K.target_id x.contents) (sym e))))
          | inr l ↦ rest l
        ])

  pub make_tab_info-target :
      (t : Tab) → (Headless.make_tab_info K t).target_id ≡ K.target_id t.contents
  unfolding Headless.make_tab_info
  make_tab_info-target t =
      if_elim (λ (i : TabInfo). i.target_id ≡ K.target_id t.contents) (has_value t.web_contents)
        (λ _. refl) (λ _. refl)

  -- Each tab is found by the target id that `ListTabs` gives for it.
  pub find_by_target_id-make_tab_info :
      (s : Runtime) (c : K.Context) (t : Tab)
      → s.browser_context ≡ some c
      → Has t (K.all c)
      → Headless.find_by_target_id K s (Headless.make_tab_info K t).target_id ≡ some t
  unfolding Headless.find_by_target_id
  find_by_target_id-make_tab_info s c t e h =
      rw (make_tab_info-target t) (rw e (find_in-Has c t (K.all c) h (λ u k. k) h))
