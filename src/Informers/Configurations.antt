-- ===== src/Informers/Configurations.antt =====
-- The informer of configurations (lvscontroller/v1alpha1/configuration.go, the interfaces beside
-- it, and generic.go, all under pkg/client/informers/externalversions). The structures `group`,
-- `version` and `configurationInformer` point to the factory, which is the state here.
use lvs_nginx_controller.Base.{
  Bool, ◌&&◌, Option, none, some, List, ◌==◌, if◌then◌else◌, nat_eq, list_eq,
}
use lvs_nginx_controller.Base.Text.{Text, codes}
use lvs_nginx_controller.Api.{Meta}
use lvs_nginx_controller.Listers.{
  Indexer, GroupResource, ConfigurationLister, new_configuration_lister,
}
use lvs_nginx_controller.Informers.{Library, Tweak, Factory, Event, informer_for}

-- What the informer uses: the calls of the clientset, and `cache.NewSharedIndexInformer` with the
-- functions to list and to watch.
pub record Source (M : Meta) (L : Library) : Type 1 where
  pub ListCall : Type 0
  pub WatchCall : Type 0
  pub Indexers : Type 0
  -- `cache.Indexers{cache.NamespaceIndex: cache.MetaNamespaceIndexFunc}`
  pub namespace_index : Indexers
  -- `client.LvscontrollerV1alpha1().Configurations(namespace).List(options)`, and `Watch`
  pub list : L.Client → Text → L.ListOptions → ListCall
  pub watch : L.Client → Text → L.ListOptions → WatchCall
  -- `GetIndexer`
  pub get_indexer : L.Informer → Indexer M
  -- `cache.NewGenericLister`
  pub GenericLister : Type 0
  pub new_generic_lister : Indexer M → GroupResource → GenericLister
  pub new_shared_index_informer :
      (L.ListOptions → ListCall)
      → (L.ListOptions → WatchCall)
      → Text
      → L.Duration
      → Indexers
      → L.Informer

-- `schema.GroupVersionResource`
pub record Resource : Type 0 where
  pub group : Text
  pub version : Text
  pub resource : Text

-- `v1alpha1.SchemeGroupVersion`
abbrev pub group_name : Text
group_name = codes "lvscontroller.k8s.io"

abbrev pub version_name : Text
version_name = codes "v1alpha1"

-- The name of the type of `&lvscontrollerv1alpha1.Configuration{}`.
abbrev pub configuration_type : Text
configuration_type = codes "Configuration"

module _ (M : Meta) (L : Library) (S : Source M L) where
  -- `if tweakListOptions != nil { tweakListOptions(&options) }`
  abbrev tweaked : Tweak L → L.ListOptions → L.ListOptions
  tweaked none options = options
  tweaked (some tweak) options = tweak options

  -- `NewFilteredConfigurationInformer`
  unfoldable pub new_filtered_configuration_informer :
      L.Client → Text → L.Duration → S.Indexers → Tweak L → L.Informer
  new_filtered_configuration_informer client namespace resync indexers tweak =
      S.new_shared_index_informer (λ options. S.list client namespace (tweaked tweak options))
        (λ options. S.watch client namespace (tweaked tweak options)) configuration_type resync
        indexers

  -- `NewConfigurationInformer`
  unfoldable pub new_configuration_informer : L.Client → Text → L.Duration → S.Indexers → L.Informer
  new_configuration_informer client namespace resync indexers =
      new_filtered_configuration_informer client namespace resync indexers none

  -- `configurationInformer`, `version` and `group`, which have the same fields.
  pub record ConfigurationInformer : Type 0 where
    pub namespace : Text
    pub tweak_list_options : Tweak L

  pub record Version : Type 0 where
    pub namespace : Text
    pub tweak_list_options : Tweak L

  pub record Group : Type 0 where
    pub namespace : Text
    pub tweak_list_options : Tweak L

  -- `Lvscontroller` of the factory
  unfoldable pub lvscontroller : Factory L → Group
  lvscontroller f = record { namespace = f.namespace; tweak_list_options = f.tweak_list_options }

  -- `V1alpha1` of the group
  unfoldable pub v1alpha1 : Group → Version
  v1alpha1 g = record { namespace = g.namespace; tweak_list_options = g.tweak_list_options }

  -- `Configurations` of the version
  unfoldable pub configurations : Version → ConfigurationInformer
  configurations v = record { namespace = v.namespace; tweak_list_options = v.tweak_list_options }

  -- `defaultInformer`
  unfoldable pub default_informer : ConfigurationInformer → L.Client → L.Duration → L.Informer
  default_informer c client resync =
      new_filtered_configuration_informer client c.namespace resync S.namespace_index
        c.tweak_list_options

  -- `Informer`
  unfoldable pub informer :
      ConfigurationInformer → Factory L → (L.Informer × List (Event L)) × Factory L
  informer c f = informer_for L configuration_type (default_informer c) f

  -- `Lister`: the lister on the indexer of the informer, which the call may have to make
  unfoldable pub lister :
      ConfigurationInformer → Factory L → (ConfigurationLister M × List (Event L)) × Factory L
  lister c f =
      let ((i, events), f₁) = informer c f in
      ((new_configuration_lister M (S.get_indexer i), events), f₁)

  -- `genericInformer`
  pub record GenericInformer : Type 0 where
    pub informer : L.Informer
    pub resource : GroupResource

  -- `Lister` of the generic informer
  unfoldable pub generic_lister : GenericInformer → S.GenericLister
  generic_lister g = S.new_generic_lister (S.get_indexer g.informer) g.resource

  abbrev is_configurations : Resource → Bool
  is_configurations r =
      r.group == group_name && (r.version == version_name && r.resource == codes "configurations")

  -- `ForResource`: the informer of the resource, or `none` for the error that there is none.
  unfoldable pub for_resource :
      Resource → Factory L → Option (GenericInformer × List (Event L)) × Factory L
  for_resource r f =
      let ((i, events), f₁) = informer (configurations (v1alpha1 (lvscontroller f))) f in
      let generic : GenericInformer = record {
        informer = i;
        resource = record { group = r.group; resource = r.resource };
      } in
      if is_configurations r then (some (generic, events), f₁) else (none, f)
