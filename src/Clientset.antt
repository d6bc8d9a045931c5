-- ===== src/Clientset.antt =====
-- The typed client of configurations (pkg/client/clientset/versioned/typed/lvscontroller/v1alpha1).
-- A request is the chain of calls that builds it, and what sends it is a parameter.
pub mod Fake
pub mod Connect
pub mod Simple
use lvs_nginx_controller.Base.{Bool, Option, none, some, List, [], ◌∷◌}
use lvs_nginx_controller.Base.Text.{Text, codes}
use lvs_nginx_controller.Api.{Meta, Configuration}

-- What the clients use of client-go and of package meta/v1.
pub record Machinery (M : Meta) : Type 1 where
  pub Error : Type 0
  pub GetOptions : Type 0
  pub ListOptions : Type 0
  pub DeleteOptions : Type 0
  pub PatchType : Type 0
  pub Watch : Type 0
  pub Labels : Type 0
  pub Selector : Type 0
  -- the zero values
  pub no_type_meta : M.TypeMeta
  pub no_object_meta : M.ObjectMeta
  pub no_list_meta : M.ListMeta
  pub name : M.ObjectMeta → Text
  pub labels : M.ObjectMeta → Labels
  -- `opts.Watch = true`
  pub set_watch : ListOptions → ListOptions
  -- the label selector that `testing.ExtractFromListOptions` finds
  pub extract_label : ListOptions → Option Selector
  -- `labels.Everything()` and `Matches`
  pub everything : Selector
  pub matches : Selector → Labels → Bool

module _ (M : Meta) (G : Machinery M) where
  -- A `ConfigurationList` whose items are in a list of their own.
  pub record Items : Type 0 where
    pub type_meta : M.TypeMeta
    pub list_meta : M.ListMeta
    pub items : List (Configuration M)

  pub data Verb : Type 0 where
    get : Verb
    post : Verb
    put : Verb
    delete : Verb
    patch : G.PatchType → Verb

  -- The calls on a request that add to it.
  pub data Part : Type 0 where
    namespace : Text → Part
    resource : Text → Part
    name : Text → Part
    sub_resource : List Text → Part
    get_params : G.GetOptions → Part
    list_params : G.ListOptions → Part
    configuration_body : Configuration M → Part
    delete_body : G.DeleteOptions → Part
    patch_body : Text → Part

  pub record Request : Type 0 where
    pub verb : Verb
    pub parts : List Part

  -- `rest.Interface`: the last calls on a request. `into` is given the object to fill, and returns
  -- it with the error.
  pub record Rest (W : Type 0) : Type 1 where
    pub into : Request → Configuration M → W → (Configuration M × Option G.Error) × W
    pub into_list : Request → Items → W → (Items × Option G.Error) × W
    pub error : Request → W → Option G.Error × W
    pub watch : Request → W → (Option G.Watch × Option G.Error) × W

  -- `ConfigurationInterface`, where a pointer is nil or its structure.
  pub record ConfigurationInterface (W : Type 0) : Type 1 where
    pub create : Configuration M → W → (Option (Configuration M) × Option G.Error) × W
    pub update : Configuration M → W → (Option (Configuration M) × Option G.Error) × W
    pub delete : Text → G.DeleteOptions → W → Option G.Error × W
    pub delete_collection : G.DeleteOptions → G.ListOptions → W → Option G.Error × W
    pub get : Text → G.GetOptions → W → (Option (Configuration M) × Option G.Error) × W
    pub list : G.ListOptions → W → (Option Items × Option G.Error) × W
    pub watch : G.ListOptions → W → (Option G.Watch × Option G.Error) × W
    pub patch :
        Text → G.PatchType → Text → List Text → W → (Option (Configuration M) × Option G.Error) × W

  -- `&v1alpha1.Configuration{}`
  abbrev pub no_configuration : Configuration M
  no_configuration = record {
    type_meta = G.no_type_meta;
    object_meta = G.no_object_meta;
    tcp_endpoints = none;
    udp_endpoints = none;
  }

  -- `&v1alpha1.ConfigurationList{}`
  abbrev pub no_items : Items
  no_items = record { type_meta = G.no_type_meta; list_meta = G.no_list_meta; items = [] }

  abbrev plural : Text
  plural = codes "configurations"

  -- A result that is a pointer to the object that was filled.
  abbrev pub pointed : {A W : Type 0} → (A × Option G.Error) × W → (Option A × Option G.Error) × W
  pointed ((a, e), w) = ((some a, e), w)

  -- `configurations`, with its client and its namespace.
  module _ {W : Type 0} (client : Rest W) (ns : Text) where
    unfoldable pub get_configuration :
        Text → G.GetOptions → W → (Option (Configuration M) × Option G.Error) × W
    get_configuration n options w = pointed (
        client.into
          (record {
            verb = get;
            parts = namespace ns ∷ resource plural ∷ name n ∷ get_params options ∷ [];
          })
          no_configuration w)

    unfoldable pub list_configurations : G.ListOptions → W → (Option Items × Option G.Error) × W
    list_configurations options w = pointed (
        client.into_list
          (record { verb = get; parts = namespace ns ∷ resource plural ∷ list_params options ∷ [] })
          no_items w)

    unfoldable pub watch_configurations : G.ListOptions → W → (Option G.Watch × Option G.Error) × W
    watch_configurations options w =
        client.watch
          (record {
            verb = get;
            parts = namespace ns ∷ resource plural ∷ list_params (G.set_watch options) ∷ [];
          })
          w

    unfoldable pub create_configuration :
        Configuration M → W → (Option (Configuration M) × Option G.Error) × W
    create_configuration c w = pointed (
        client.into
          (record {
            verb = post;
            parts = namespace ns ∷ resource plural ∷ configuration_body c ∷ [];
          })
          no_configuration w)

    unfoldable pub update_configuration :
        Configuration M → W → (Option (Configuration M) × Option G.Error) × W
    update_configuration c w = pointed (
        client.into
          (record {
            verb = put;
            parts =
                namespace ns
                ∷ resource plural
                ∷ name (G.name c.object_meta)
                ∷ configuration_body c
                ∷ [];
          })
          no_configuration w)

    unfoldable pub delete_configuration : Text → G.DeleteOptions → W → Option G.Error × W
    delete_configuration n options w =
        client.error
          (record {
            verb = delete;
            parts = namespace ns ∷ resource plural ∷ name n ∷ delete_body options ∷ [];
          })
          w

    unfoldable pub delete_configurations : G.DeleteOptions → G.ListOptions → W → Option G.Error × W
    delete_configurations options list_options w =
        client.error
          (record {
            verb = delete;
            parts =
                namespace ns
                ∷ resource plural
                ∷ list_params list_options
                ∷ delete_body options
                ∷ [];
          })
          w

    unfoldable pub patch_configuration :
        Text → G.PatchType → Text → List Text → W → (Option (Configuration M) × Option G.Error) × W
    patch_configuration n pt content subresources w = pointed (
        client.into
          (record {
            verb = patch pt;
            parts =
                namespace ns
                ∷ resource plural
                ∷ sub_resource subresources
                ∷ name n
                ∷ patch_body content
                ∷ [];
          })
          no_configuration w)

    -- What `newConfigurations` returns, as the interface that it implements.
    unfoldable pub new_configurations : ConfigurationInterface W
    new_configurations = record {
      create = create_configuration;
      update = update_configuration;
      delete = delete_configuration;
      delete_collection = delete_configurations;
      get = get_configuration;
      list = list_configurations;
      watch = watch_configurations;
      patch = patch_configuration;
    }
