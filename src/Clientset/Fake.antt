-- ===== src/Clientset/Fake.antt =====
-- The fake client of configurations
-- (pkg/client/clientset/versioned/typed/lvscontroller/v1alpha1/fake/fake_configuration.go). An
-- action is a value, and `testing.Fake`, which answers it, is a parameter.
use lvs_nginx_controller.Base.{Option, none, some, List, [], ◌∷◌, ◌++◌, if◌then◌else◌}
use lvs_nginx_controller.Base.Text.{Text, codes}
use lvs_nginx_controller.Api.{Meta, Configuration}
use lvs_nginx_controller.Clientset.{
  Machinery, Items, ConfigurationInterface, no_configuration, no_items,
}

-- `schema.GroupVersionResource`
pub record Resource : Type 0 where
  pub group : Text
  pub version : Text
  pub resource : Text

-- `schema.GroupVersionKind`
pub record Kind : Type 0 where
  pub group : Text
  pub version : Text
  pub kind : Text

abbrev pub configurations_resource : Resource
configurations_resource = record {
  group = codes "lvscontroller.k8s.io";
  version = codes "v1alpha1";
  resource = codes "configurations";
}

abbrev pub configurations_kind : Kind
configurations_kind = record {
  group = codes "lvscontroller.k8s.io";
  version = codes "v1alpha1";
  kind = codes "Configuration";
}

module _ (M : Meta) (G : Machinery M) where
  -- `testing.NewGetAction` and the others
  pub data Action : Type 0 where
    get_action : Resource → Text → Text → Action
    list_action : Resource → Kind → Text → G.ListOptions → Action
    watch_action : Resource → Text → G.ListOptions → Action
    create_action : Resource → Text → Configuration M → Action
    update_action : Resource → Text → Configuration M → Action
    delete_action : Resource → Text → Text → Action
    delete_collection_action : Resource → Text → G.ListOptions → Action
    patch_subresource_action : Resource → Text → Text → Text → List Text → Action

  -- `testing.Fake`. `Invokes` returns nil, or an object of the type of the one it is given.
  pub record Fake (W : Type 0) : Type 1 where
    pub invokes : Action → Configuration M → W → (Option (Configuration M) × Option G.Error) × W
    pub invokes_list : Action → Items M G → W → (Option (Items M G) × Option G.Error) × W
    pub invokes_watch : Action → W → (Option G.Watch × Option G.Error) × W

  -- `if label == nil { label = labels.Everything() }`
  abbrev pub label_or_everything : Option G.Selector → G.Selector
  label_or_everything none = G.everything
  label_or_everything (some label) = label

  -- The loop of `List`.
  unfoldable pub append_matching :
      G.Selector → List (Configuration M) → List (Configuration M) → List (Configuration M)
  append_matching label [] items = items
  append_matching label (item ∷ rest) items =
      append_matching label rest
        (if G.matches label (G.labels item.object_meta) then items ++ (item ∷ []) else items)

  -- `if obj == nil { return nil, err }`, and else the object.
  abbrev pub asserted :
      {W : Type 0}
      → (Option (Configuration M) × Option G.Error) × W
      → (Option (Configuration M) × Option G.Error) × W
  asserted ((none, e), w) = ((none, e), w)
  asserted ((some c, e), w) = ((some c, e), w)

  -- What `List` makes of what `Invokes` returns.
  abbrev pub matching :
      {W : Type 0}
      → G.Selector
      → (Option (Items M G) × Option G.Error) × W
      → (Option (Items M G) × Option G.Error) × W
  matching label ((none, e), w) = ((none, e), w)
  matching label ((some list, e), w) = (
    (
      some (record {
        type_meta = G.no_type_meta;
        list_meta = list.list_meta;
        items = append_matching label list.items [];
      }),
      e,
    ),
    w,
  )

  -- `FakeConfigurations`, with its fake and its namespace.
  module _ {W : Type 0} (fake : Fake W) (ns : Text) where
    unfoldable pub fake_get :
        Text → G.GetOptions → W → (Option (Configuration M) × Option G.Error) × W
    fake_get n options w =
        asserted (fake.invokes (get_action configurations_resource ns n) (no_configuration M G) w)

    unfoldable pub fake_list : G.ListOptions → W → (Option (Items M G) × Option G.Error) × W
    fake_list options w = matching (label_or_everything (G.extract_label options)) (
        fake.invokes_list (list_action configurations_resource configurations_kind ns options)
          (no_items M G) w)

    unfoldable pub fake_watch : G.ListOptions → W → (Option G.Watch × Option G.Error) × W
    fake_watch options w = fake.invokes_watch (watch_action configurations_resource ns options) w

    unfoldable pub fake_create :
        Configuration M → W → (Option (Configuration M) × Option G.Error) × W
    fake_create c w =
        asserted
          (fake.invokes (create_action configurations_resource ns c) (no_configuration M G) w)

    unfoldable pub fake_update :
        Configuration M → W → (Option (Configuration M) × Option G.Error) × W
    fake_update c w =
        asserted
          (fake.invokes (update_action configurations_resource ns c) (no_configuration M G) w)

    unfoldable pub fake_delete : Text → G.DeleteOptions → W → Option G.Error × W
    fake_delete n options w =
        let ((obj, e), w₁) =
          fake.invokes (delete_action configurations_resource ns n) (no_configuration M G) w in
        (e, w₁)

    unfoldable pub fake_delete_collection : G.DeleteOptions → G.ListOptions → W → Option G.Error × W
    fake_delete_collection options list_options w =
        let ((obj, e), w₁) =
          fake.invokes_list (delete_collection_action configurations_resource ns list_options)
            (no_items M G) w in
        (e, w₁)

    unfoldable pub fake_patch :
        Text → G.PatchType → Text → List Text → W → (Option (Configuration M) × Option G.Error) × W
    fake_patch n pt content subresources w = asserted (
        fake.invokes (patch_subresource_action configurations_resource ns n content subresources)
          (no_configuration M G) w)

    -- The interface that `FakeConfigurations` implements.
    unfoldable pub fake_configurations : ConfigurationInterface M G W
    fake_configurations = record {
      create = fake_create;
      update = fake_update;
      delete = fake_delete;
      delete_collection = fake_delete_collection;
      get = fake_get;
      list = fake_list;
      watch = fake_watch;
      patch = fake_patch;
    }
