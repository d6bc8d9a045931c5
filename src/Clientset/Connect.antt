-- ===== src/Clientset/Connect.antt =====
-- How the clients are made from a configuration of the connection (clientset.go and
-- typed/lvscontroller/v1alpha1/lvscontroller_client.go, both under pkg/client/clientset/versioned).
-- `NewForConfig` of both copies the configuration that the caller's pointer leads to, so that the
-- configuration here is a value.
pub mod Shared
use lvs_nginx_controller.Base.{
  Bool, true, false, not, ◌&&◌, ◌⊎◌, inl, inr, Option, none, some, List, [], ◌∷◌, if◌then◌else◌,
}
use lvs_nginx_controller.Base.Text.{Text, codes}

-- The types of client-go.
pub record Types : Type 1 where
  pub Error : Type 0
  -- `flowcontrol.RateLimiter`
  pub Limiter : Type 0
  -- `rest.Interface`
  pub RestClient : Type 0
  -- `*discovery.DiscoveryClient`
  pub Discovery : Type 0
  pub Serializer : Type 0
  -- `float32` and `int`
  pub Qps : Type 0
  pub Burst : Type 0
  -- the fields of `rest.Config` that this code does not touch
  pub Rest : Type 0

module _ (T : Types) where
  -- `rest.Config`
  pub record RestConfig : Type 0 where
    pub group_version : Option (Text × Text)
    pub api_path : Text
    pub serializer : Option T.Serializer
    pub user_agent : Text
    pub qps : T.Qps
    pub burst : T.Burst
    pub rate_limiter : Option T.Limiter
    pub rest : T.Rest

  -- The functions of client-go, over the state of the world.
  pub record Connector (W : Type 0) : Type 0 where
    pub is_positive : T.Qps → Bool
    -- `flowcontrol.NewTokenBucketRateLimiter`
    pub new_limiter : T.Qps → T.Burst → W → T.Limiter × W
    -- `rest.DefaultKubernetesUserAgent`
    pub default_user_agent : Text
    -- `serializer.DirectCodecFactory{CodecFactory: scheme.Codecs}`
    pub direct_codecs : T.Serializer
    -- `rest.RESTClientFor`
    pub rest_client_for : RestConfig → W → (T.Error ⊎ T.RestClient) × W
    -- `discovery.NewDiscoveryClientForConfig`
    pub new_discovery_client : RestConfig → W → (T.Error ⊎ T.Discovery) × W
    -- `discovery.NewDiscoveryClient`
    pub discovery_of : T.RestClient → T.Discovery

  -- `LvscontrollerV1alpha1Client`
  pub record LvsClient : Type 0 where
    pub rest_client : T.RestClient

  -- `Clientset`
  pub record Clientset : Type 0 where
    pub discovery_client : T.Discovery
    pub lvscontroller_v1alpha1 : LvsClient

  -- `New` of the typed client
  unfoldable pub new_client : T.RestClient → LvsClient
  new_client c = record { rest_client = c }

  -- `RESTClient`, of a pointer that is nil or leads to the client
  unfoldable pub rest_client_of : Option LvsClient → Option T.RestClient
  rest_client_of none = none
  rest_client_of (some c) = some c.rest_client

  -- `Discovery`
  unfoldable pub discovery_of_clientset : Option Clientset → Option T.Discovery
  discovery_of_clientset none = none
  discovery_of_clientset (some cs) = some cs.discovery_client

  -- Or the panic of the functions that end in `OrDie`.
  abbrev or_die : {A W : Type 0} → (T.Error ⊎ A) × W → Option A × W
  or_die (inl e, w) = (none, w)
  or_die (inr a, w) = (some a, w)

  abbrev is_none : {A : Type 0} → Option A → Bool
  is_none none = true
  is_none (some a) = false

  abbrev is_empty : Text → Bool
  is_empty [] = true
  is_empty (c ∷ s) = false

  module _ {W : Type 0} (k : Connector W) where
    -- `setConfigDefaults`
    unfoldable pub set_config_defaults : RestConfig → Option T.Error × RestConfig
    set_config_defaults config = (
      none,
      record config {
        group_version = some (codes "lvscontroller.k8s.io", codes "v1alpha1");
        api_path = codes "/apis";
        serializer = some k.direct_codecs;
        user_agent = if is_empty config.user_agent then k.default_user_agent else config.user_agent;
      },
    )

    abbrev pub as_client : (T.Error ⊎ T.RestClient) × W → (T.Error ⊎ LvsClient) × W
    as_client (inl err, w) = (inl err, w)
    as_client (inr client, w) = (inr (record { rest_client = client }), w)

    -- `NewForConfig` of the typed client
    unfoldable pub new_client_for_config : RestConfig → W → (T.Error ⊎ LvsClient) × W
    new_client_for_config c w =
        let (failure, config) = set_config_defaults c in
        elim failure [ some err ↦ (inl err, w) | none ↦ as_client (k.rest_client_for config w) ]

    -- `NewForConfigOrDie` of the typed client
    unfoldable pub new_client_for_config_or_die : RestConfig → W → Option LvsClient × W
    new_client_for_config_or_die c w = or_die (new_client_for_config c w)

    -- The rate limiter of the copy.
    unfoldable pub limited : RestConfig → W → RestConfig × W
    limited c w =
        let (limiter, w₁) = k.new_limiter c.qps c.burst w in
        if is_none c.rate_limiter && k.is_positive c.qps
        then (record c { rate_limiter = some limiter }, w₁)
        else (c, w)

    abbrev pub with_discovery : LvsClient → (T.Error ⊎ T.Discovery) × W → (T.Error ⊎ Clientset) × W
    with_discovery client (inl err, w) = (inl err, w)
    with_discovery client (inr discovery, w) =
        (inr (record { discovery_client = discovery; lvscontroller_v1alpha1 = client }), w)

    abbrev pub with_client : RestConfig → (T.Error ⊎ LvsClient) × W → (T.Error ⊎ Clientset) × W
    with_client copy (inl err, w) = (inl err, w)
    with_client copy (inr client, w) = with_discovery client (k.new_discovery_client copy w)

    -- `NewForConfig`
    unfoldable pub new_for_config : RestConfig → W → (T.Error ⊎ Clientset) × W
    new_for_config c w =
        let (copy, w₁) = limited c w in with_client copy (new_client_for_config copy w₁)

    abbrev joined : LvsClient → Option T.Discovery × W → Option Clientset × W
    joined client (none, w) = (none, w)
    joined client (some discovery, w) =
        (some (record { discovery_client = discovery; lvscontroller_v1alpha1 = client }), w)

    abbrev then_discovery : RestConfig → Option LvsClient × W → Option Clientset × W
    then_discovery c (none, w) = (none, w)
    then_discovery c (some client, w) = joined client (or_die (k.new_discovery_client c w))

    -- `NewForConfigOrDie`, or `none` where it panics
    unfoldable pub new_for_config_or_die : RestConfig → W → Option Clientset × W
    new_for_config_or_die c w = then_discovery c (new_client_for_config_or_die c w)

    -- `New`
    unfoldable pub new : T.RestClient → Clientset
    new c = record { discovery_client = k.discovery_of c; lvscontroller_v1alpha1 = new_client c }
