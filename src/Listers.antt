-- ===== src/Listers.antt =====
-- The lister of configurations (pkg/client/listers/lvscontroller/v1alpha1/configuration.go), over an
-- indexer, which is a parameter.
pub mod Lookup
use lvs_nginx_controller.Base.{◌⊎◌, inl, inr, Option, none, some, List, [], ◌∷◌, ◌++◌}
use lvs_nginx_controller.Base.Text.{Text, codes}
use lvs_nginx_controller.Api.{Meta, Configuration}

-- `schema.GroupResource`
pub record GroupResource : Type 0 where
  pub group : Text
  pub resource : Text

-- `v1alpha1.Resource`
unfoldable pub resource : Text → GroupResource
resource r = record { group = codes "lvscontroller.k8s.io"; resource = r }

module _ (M : Meta) where
  -- `cache.Indexer`, at one time, and what the lister calls of package cache: the objects that
  -- `ListAll` and `ListAllByNamespace` pass to the function they are given, one after the other.
  pub record Indexer : Type 1 where
    pub Error : Type 0
    pub Selector : Type 0
    pub get_by_key : Text → Error ⊎ Option (Configuration M)
    pub list_all : Selector → List (Configuration M) × Option Error
    pub list_all_by_namespace : Text → Selector → List (Configuration M) × Option Error

  -- `configurationLister`
  pub record ConfigurationLister : Type 1 where
    pub indexer : Indexer

  -- `NewConfigurationLister`
  unfoldable pub new_configuration_lister : Indexer → ConfigurationLister
  new_configuration_lister indexer = record { indexer = indexer }

  -- `append` is called for each object.
  unfoldable pub append_each :
      List (Configuration M) → List (Configuration M) → List (Configuration M)
  append_each ret [] = ret
  append_each ret (m ∷ ms) = append_each (ret ++ (m ∷ [])) ms

  module _ (indexer : Indexer) where
    -- An error of the indexer, or `errors.NewNotFound`.
    pub data GetError : Type 0 where
      of_indexer : indexer.Error → GetError
      not_found : GroupResource → Text → GetError

    -- `List` of the lister
    unfoldable pub list : indexer.Selector → List (Configuration M) × Option indexer.Error
    list selector = let (objects, err) = indexer.list_all selector in (append_each [] objects, err)

    -- `List` of `configurationNamespaceLister`, with its namespace
    unfoldable pub list_namespace :
        Text → indexer.Selector → List (Configuration M) × Option indexer.Error
    list_namespace namespace selector =
        let (objects, err) = indexer.list_all_by_namespace namespace selector in
        (append_each [] objects, err)

    -- `Get`
    unfoldable pub get : Text → Text → GetError ⊎ Configuration M
    get namespace name = elim (indexer.get_by_key (namespace ++ (codes "/" ++ name))) [
      | inl err ↦ inl (of_indexer err)
      | inr none ↦ inl (not_found (resource (codes "configuration")) name)
      | inr (some obj) ↦ inr obj
    ]
