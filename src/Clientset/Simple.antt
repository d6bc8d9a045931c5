-- ===== src/Clientset/Simple.antt =====
-- The simple fake clientset (pkg/client/clientset/versioned/fake/clientset_generated.go) and the
-- fake group client (fake_lvscontroller_client.go). The tracker of objects and the chains of
-- reactions of client-go's package testing are parameters.
pub mod Lookups
use lvs_nginx_controller.Base.{
  Bool, true, false, Option, none, some, List, [], ◌∷◌, ◌≡◌, ◌⊎◌, inl, inr, ◌==◌, ◌&&◌, nat_eq,
  list_eq, if◌then◌else◌,
}
use lvs_nginx_controller.Base.Text.{Text, codes}
use lvs_nginx_controller.Api.{Meta, Configuration}
use lvs_nginx_controller.Clientset.{Machinery, Items, ConfigurationInterface}
use lvs_nginx_controller.Clientset.Fake.{
  Action, get_action, Fake, Resource, configurations_resource, fake_configurations,
}

module _ (M : Meta) (G : Machinery M) (W : Type 0) where
  -- `testing.ReactionFunc`, whose object is nil, a configuration or a list of them: whether it has
  -- handled the action, the object and the error.
  pub record Reaction : Type 0 where
    pub react : Action M G → W → ((Bool × Option (Configuration M)) × Option G.Error) × W
    pub react_list : Action M G → W → ((Bool × Option (Items M G)) × Option G.Error) × W

  -- `testing.WatchReactionFunc`
  abbrev pub WatchReaction : Type 0
  WatchReaction = Action M G → W → ((Bool × Option G.Watch) × Option G.Error) × W

  -- What the clientset calls of package testing.
  pub record Testing : Type 1 where
    -- `runtime.Object`
    pub Object : Type 0
    pub configuration : Configuration M → Object
    -- `testing.ObjectTracker`
    pub Tracker : Type 0
    pub new_object_tracker : W → Tracker × W
    pub add : Tracker → Object → W → Option G.Error × W
    pub watch : Tracker → Resource → Text → W → (Option G.Watch × Option G.Error) × W
    pub object_reaction : Tracker → Reaction
    -- `testing.Fake` and its zero value
    pub Chains : Type 0
    pub no_chains : Chains
    pub add_reactor : Text → Text → Reaction → Chains → Chains
    pub add_watch_reactor : Text → WatchReaction → Chains → Chains
    pub fake : Chains → Fake M G W
    -- `GetResource` and `GetNamespace` of an action
    pub resource_of : Action M G → Resource
    pub namespace_of : Action M G → Text

  module _ (L : Testing) where
    -- `Clientset`, without the fake of the discovery client, which reads the same chains.
    pub record SimpleClientset : Type 0 where
      pub chains : L.Chains

    -- The loop of `NewSimpleClientset`, and whether it gets to its end: an error panics.
    unfoldable pub add_objects : L.Tracker → List L.Object → W → Bool × W
    add_objects o [] w = (true, w)
    add_objects o (obj ∷ objects) w =
        let (e, w₁) = L.add o obj w in
        elim e [ none ↦ add_objects o objects w₁ | some x ↦ (false, w₁) ]

    abbrev pub handled_watch :
        (Option G.Watch × Option G.Error) × W → ((Bool × Option G.Watch) × Option G.Error) × W
    handled_watch ((watch, none), w) = (((true, watch), none), w)
    handled_watch ((watch, some e), w) = (((false, none), some e), w)

    -- The reaction to a watch
    unfoldable pub watch_reaction : L.Tracker → WatchReaction
    watch_reaction o action w =
        let gvr = L.resource_of action in
        let ns = L.namespace_of action in handled_watch (L.watch o gvr ns w)

    -- `NewSimpleClientset`, or its panic
    unfoldable pub new_simple_clientset : List L.Object → W → Option SimpleClientset × W
    new_simple_clientset objects w =
        let (o, w₁) = L.new_object_tracker w in
        let (ended, w₂) = add_objects o objects w₁ in
        if ended
        then (
          some (record {
            chains =
                L.add_watch_reactor (codes "*") (watch_reaction o)
                  (L.add_reactor (codes "*") (codes "*") (L.object_reaction o) L.no_chains);
          }),
          w₂,
        )
        else (none, w₂)

    -- `FakeLvscontrollerV1alpha1`
    pub record FakeLvscontroller : Type 0 where
      pub chains : L.Chains

    -- `LvscontrollerV1alpha1` and `Lvscontroller`
    unfoldable pub fake_lvscontroller_v1alpha1 : SimpleClientset → FakeLvscontroller
    fake_lvscontroller_v1alpha1 c = record { chains = c.chains }

    -- `Configurations`
    unfoldable pub configurations_of : FakeLvscontroller → Text → ConfigurationInterface M G W
    configurations_of c namespace = fake_configurations M G (L.fake c.chains) namespace
