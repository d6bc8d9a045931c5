-- ===== src/Informers.antt =====
-- The factory of shared informers (pkg/client/informers/externalversions/factory.go). An informer
-- is an object of client-go, here a parameter, and `reflect.Type` is the name of a type.
pub mod Calls
pub mod Waits
pub mod Configurations
use lvs_nginx_controller.Base.{
  Bool, true, false, not, Option, none, some, List, [], ◌∷◌, ◌++◌, if◌then◌else◌, nat_eq, list_eq,
}
use lvs_nginx_controller.Base.Text.{Text}
use lvs_nginx_controller.Base.Dict.{Dict, lookup, insert}

-- What the factory uses of client-go and of the clientset.
pub record Library : Type 1 where
  pub Client : Type 0
  pub Duration : Type 0
  -- `cache.SharedIndexInformer`
  pub Informer : Type 0
  -- `v1.ListOptions`
  pub ListOptions : Type 0

-- `internalinterfaces.TweakListOptionsFunc`: nil, or a function that changes the options.
abbrev pub Tweak : Library → Type 0
Tweak L = Option (L.ListOptions → L.ListOptions)

module _ (L : Library) where
  -- `sharedInformerFactory`, without its lock, which every call holds from its first to its last
  -- access of the maps.
  pub record Factory : Type 0 where
    pub client : L.Client
    pub namespace : Text
    pub tweak_list_options : Tweak L
    pub default_resync : L.Duration
    pub custom_resync : Dict Text L.Duration
    pub informers : Dict Text L.Informer
    pub started_informers : Dict Text Bool

  -- What a call does besides: it makes an informer, or starts a goroutine that runs one.
  pub data Event : Type 0 where
    created : Text → L.Duration → Event
    launched : Text → L.Informer → Event

  -- `SharedInformerOption`
  abbrev pub FactoryOption : Type 0
  FactoryOption = Factory → Factory

  abbrev set_all : Dict Text L.Duration → Dict Text L.Duration → Dict Text L.Duration
  set_all [] custom = custom
  set_all ((k, v) ∷ config) custom = set_all config (insert k v custom)

  unfoldable pub with_custom_resync_config : Dict Text L.Duration → FactoryOption
  with_custom_resync_config config f = record f { custom_resync = set_all config f.custom_resync }

  unfoldable pub with_tweak_list_options : Tweak L → FactoryOption
  with_tweak_list_options tweak f = record f { tweak_list_options = tweak }

  unfoldable pub with_namespace : Text → FactoryOption
  with_namespace namespace f = record f { namespace = namespace }

  abbrev apply_all : List FactoryOption → Factory → Factory
  apply_all [] f = f
  apply_all (option ∷ options) f = apply_all options (option f)

  -- `NewSharedInformerFactoryWithOptions`; `v1.NamespaceAll` is the empty text.
  unfoldable pub new_factory_with_options : L.Client → L.Duration → List FactoryOption → Factory
  new_factory_with_options client default_resync options = apply_all options (record {
    client = client;
    namespace = [];
    tweak_list_options = none;
    default_resync = default_resync;
    custom_resync = [];
    informers = [];
    started_informers = [];
  })

  -- `NewSharedInformerFactory`
  unfoldable pub new_factory : L.Client → L.Duration → Factory
  new_factory client default_resync = new_factory_with_options client default_resync []

  -- `NewFilteredSharedInformerFactory`
  unfoldable pub new_filtered_factory : L.Client → L.Duration → Text → Tweak L → Factory
  new_filtered_factory client default_resync namespace tweak =
      new_factory_with_options client default_resync
        (with_namespace namespace ∷ with_tweak_list_options tweak ∷ [])

  -- A key that a map of type `bool` has not reads as false.
  abbrev value_or_false : Option Bool → Bool
  value_or_false none = false
  value_or_false (some b) = b

  unfoldable pub is_started : Text → Dict Text Bool → Bool
  is_started t started = value_or_false (lookup t started)

  -- The loop of `Start`: the goroutines that it starts, and the types that are then started.
  unfoldable pub start_loop : Dict Text L.Informer → Dict Text Bool → List Event × Dict Text Bool
  start_loop [] started = ([], started)
  start_loop ((t, informer) ∷ informers) started =
      let skip = start_loop informers started in
      let (events, after) = start_loop informers (insert t true started) in
      if not (is_started t started) then (launched t informer ∷ events, after) else skip

  -- `Start`
  unfoldable pub start : Factory → List Event × Factory
  start f =
      let (events, started) = start_loop f.informers f.started_informers in
      (events, record f { started_informers = started })

  abbrev value_or : {A : Type 0} → A → Option A → A
  value_or a none = a
  value_or a (some b) = b

  -- `InformerFor`, where `new_func` makes the informer of a type.
  unfoldable pub informer_for :
      Text → (L.Client → L.Duration → L.Informer) → Factory → (L.Informer × List Event) × Factory
  informer_for t new_func f = elim (lookup t f.informers) [
    | some informer ↦ ((informer, []), f)
    | none ↦
        let resync = value_or f.default_resync (lookup t f.custom_resync) in
        let informer = new_func f.client resync in
        ((informer, created t resync ∷ []), record f { informers = insert t informer f.informers })
  ]

  -- The first loop of `WaitForCacheSync`.
  unfoldable pub started_only :
      Dict Text L.Informer → Dict Text Bool → Dict Text L.Informer → Dict Text L.Informer
  started_only [] started found = found
  started_only ((t, informer) ∷ informers) started found =
      started_only informers started
        (if is_started t started then insert t informer found else found)

  -- The second loop, over the call that waits for one informer and what it does to the world.
  unfoldable pub wait_loop :
      {W : Type 0}
      → (L.Informer → W → Bool × W)
      → Dict Text L.Informer
      → Dict Text Bool
      → W
      → Dict Text Bool × W
  wait_loop wait [] res w = (res, w)
  wait_loop wait ((t, informer) ∷ informers) res w =
      let (synced, w₁) = wait informer w in wait_loop wait informers (insert t synced res) w₁

  -- `WaitForCacheSync`
  unfoldable pub wait_for_cache_sync :
      {W : Type 0} → (L.Informer → W → Bool × W) → Factory → W → Dict Text Bool × W
  wait_for_cache_sync wait f w =
      wait_loop wait (started_only f.informers f.started_informers []) [] w
