-- ===== src/Clientset/Simple/Lookups.antt =====
-- What a simple fake clientset has of the objects that it is made with.
use lvs_nginx_controller.Base.{
  ◌≡◌, ◌≢◌, refl, ap, ◌∙◌, ◌⊎◌, inl, inr, Bool, true, false, ◌&&◌, Option, none, some, List, [],
  ◌∷◌, map, ◌==◌, if◌then◌else◌, nat_eq, list_eq, Option-cases,
}
use lvs_nginx_controller.Base.Text.{Text, codes}
use lvs_nginx_controller.Api.{Meta, Configuration}
use lvs_nginx_controller.Clientset.{Machinery}
use lvs_nginx_controller.Clientset.Fake.{
  Action, get_action, Fake, configurations_resource, fake_get, fake_configurations,
}
use lvs_nginx_controller.Clientset.Simple.{
  Reaction, WatchReaction, Testing, SimpleClientset, add_objects, watch_reaction,
  new_simple_clientset, fake_lvscontroller_v1alpha1, configurations_of,
}

module _ (M : Meta) (G : Machinery M) (namespace : M.ObjectMeta → Text) where
  abbrev is_named : Text → Text → Configuration M → Bool
  is_named ns n c = ns == namespace c.object_meta && n == G.name c.object_meta

  -- The first of the objects with a namespace and a name.
  abbrev pub find : Text → Text → List (Configuration M) → Option (Configuration M)
  find ns n [] = none
  find ns n (c ∷ cs) = if is_named ns n c then some c else find ns n cs

  -- The objects from the last to the first, before those that were there.
  abbrev pub pushed : List (Configuration M) → List (Configuration M) → List (Configuration M)
  pushed [] old = old
  pushed (c ∷ cs) old = pushed cs (c ∷ old)

  -- No object has the namespace and the name of one before it.
  abbrev pub all_new : List (Configuration M) → List (Configuration M) → Bool
  all_new [] old = true
  all_new (c ∷ cs) old = elim (find (namespace c.object_meta) (G.name c.object_meta) old) [
    | none ↦ all_new cs (c ∷ old)
    | some d ↦ false
  ]

  -- The answer of a reaction, or the default where it has not handled the action.
  abbrev pub answered :
      {A W : Type 0}
      → A
      → ((Bool × Option A) × Option G.Error) × W
      → (Option A × Option G.Error) × W
  answered a (((true, b), e), w) = ((b, e), w)
  answered a (((false, b), e), w) = ((some a, none), w)

  module _ {W : Type 0} (L : Testing M G W) where
    -- The fake with one reaction to all actions and one to all watches.
    abbrev pub fake_with : Reaction M G W → WatchReaction M G W → Fake M G W
    fake_with r v =
        L.fake
          (L.add_watch_reactor (codes "*") v (L.add_reactor (codes "*") (codes "*") r L.no_chains))

    -- What is documented of package testing: the tracker keeps one object for a namespace and a
    -- name, `Add` refuses a second one, and a get finds the one that is kept; a fake records the
    -- action and asks the first reaction that handles it.
    pub record IsTesting : Type 1 where
      pub kept : L.Tracker → W → Text → Text → Option (Configuration M)
      pub recorded : Action M G → W → W
      pub not_found : Text → G.Error
      pub starts :
          (w : W) (ns n : Text)
          → kept (L.new_object_tracker w).0 (L.new_object_tracker w).1 ns n ≡ none
      pub adds :
          (t : L.Tracker) (c : Configuration M) (w : W)
          → kept t w (namespace c.object_meta) (G.name c.object_meta) ≡ none
          → ((L.add t (L.configuration c) w).0 ≡ none)
            × ((ns n : Text)
                → kept t (L.add t (L.configuration c) w).1 ns n
                  ≡ (if is_named ns n c then some c else kept t w ns n))
      pub refuses :
          (t : L.Tracker) (c d : Configuration M) (w : W)
          → kept t w (namespace c.object_meta) (G.name c.object_meta) ≡ some d
          → (e : G.Error) × ((L.add t (L.configuration c) w).0 ≡ some e)
      pub records :
          (t : L.Tracker) (a : Action M G) (w : W) (ns n : Text)
          → kept t (recorded a w) ns n ≡ kept t w ns n
      pub gets :
          (t : L.Tracker) (w : W) (ns n : Text)
          → ns ≢ []
          → n ≢ []
          → (L.object_reaction t).react (get_action configurations_resource ns n) w ≡ (
            (
              (true, kept t w ns n),
              elim (kept t w ns n) [ none ↦ some (not_found n) | some c ↦ none ],
            ),
            w,
          )
      pub invokes :
          (r : Reaction M G W) (v : WatchReaction M G W) (a : Action M G) (c : Configuration M)
          (w : W)
          → (fake_with r v).invokes a c w ≡ answered c (r.react a (recorded a w))

    module _ (T : IsTesting) where
      add_objects_lem :
          (t : L.Tracker) (cs old : List (Configuration M)) (w : W)
          → ((ns n : Text) → T.kept t w ns n ≡ find ns n old)
          → let r = add_objects M G W L t (map L.configuration cs) w in
            ((all_new cs old ≡ true)
              × (r.0 ≡ true)
              × ((ns n : Text) → T.kept t r.1 ns n ≡ find ns n (pushed cs old)))
            ⊎ ((all_new cs old ≡ false) × (r.0 ≡ false))
      unfolding add_objects
      add_objects_lem t [] old w same = inl (refl, refl, same)
      add_objects_lem t (c ∷ cs) old w same =
          elim (Option-cases (find (namespace c.object_meta) (G.name c.object_meta) old)) [
            | inl e ↦
                let added = T.adds t c w (same _ _ ∙ e) in
                rw (e, added.0, all_new, add_objects)
                  (add_objects_lem t cs (c ∷ old) (L.add t (L.configuration c) w).1 (λ ns n.
                    added.1 ns n ∙ ap (λ x. if is_named ns n c then some c else x) (same ns n)))
            | inr (d, e) ↦
                let refused = T.refuses t c d w (same _ _ ∙ e) in
                inr (rw (e, all_new) refl, rw (refused.1, add_objects) refl)
          ]

      -- What Get returns for the object that was found, or not.
      abbrev pub got : Text → Option (Configuration M) → Option (Configuration M) × Option G.Error
      got n none = (none, some (T.not_found n))
      got n (some c) = (some c, none)

      get_lem :
          (t : L.Tracker) (v : WatchReaction M G W) (ns n : Text) (options : G.GetOptions) (w : W)
          → ns ≢ []
          → n ≢ []
          → (fake_get M G (fake_with (L.object_reaction t) v) ns n options w).0
            ≡ got n (T.kept t w ns n)
      unfolding fake_get
      get_lem t v ns n options w e d =
          rw
            (
              T.invokes (L.object_reaction t) v (get_action configurations_resource ns n) _ w,
              T.gets t (T.recorded (get_action configurations_resource ns n) w) ns n e d,
              T.records t (get_action configurations_resource ns n) w ns n,
            )
            (elim (Option-cases (T.kept t w ns n)) [
              | inl missing ↦ rw missing refl
              | inr (c, found) ↦ rw found refl
            ])

      abbrev clientset_with : L.Tracker → SimpleClientset M G W L
      clientset_with t = record {
        chains =
            L.add_watch_reactor (codes "*") (watch_reaction M G W L t)
              (L.add_reactor (codes "*") (codes "*") (L.object_reaction t) L.no_chains);
      }

      -- Let the objects be configurations, and ask for a namespace and a name that are not empty. If
      -- no two of the objects have the same namespace and name, the clientset is made, and Get of
      -- its fake client returns the object that has those asked for, or if none has them, the error
      -- that it was not found. Else `NewSimpleClientset` panics.
      pub new_simple_clientset-find :
          (cs : List (Configuration M)) (w : W) (ns n : Text) (options : G.GetOptions)
          → ns ≢ []
          → n ≢ []
          → let made = new_simple_clientset M G W L (map L.configuration cs) w in
            ((all_new cs [] ≡ true)
              × (clientset : SimpleClientset M G W L) × (made.0 ≡ some clientset)
              × (let group = fake_lvscontroller_v1alpha1 M G W L clientset in
                  ((configurations_of M G W L group ns).get n options made.1).0
                  ≡ got n (find ns n (pushed cs []))))
            ⊎ ((all_new cs [] ≡ false) × (made.0 ≡ none))
      unfolding new_simple_clientset fake_lvscontroller_v1alpha1 configurations_of
          fake_configurations
      new_simple_clientset-find cs w ns n options e d =
          let t = (L.new_object_tracker w).0 in
          elim (add_objects_lem t cs [] (L.new_object_tracker w).1 (T.starts w)) [
            | inl (new, ended, same) ↦ inl (
              new,
              clientset_with t,
              rw ended refl,
              rw ended (
                  get_lem t (watch_reaction M G W L t) ns n options _ e d ∙ ap (got n) (same ns n)),
            )
            | inr (old, ended) ↦ inr (old, rw ended refl)
          ]
