-- ===== src/Clientset/Connect/Shared.antt =====
-- One rate limiter for all the requests of a clientset.
use lvs_nginx_controller.Base.{
  ◌≡◌, ◌≢◌, refl, sym, ◌∙◌, true, ◌⊎◌, inl, inr, none, some, arith, Option-cases,
}
use lvs_nginx_controller.Clientset.Connect.{
  Types, RestConfig, Connector, LvsClient, Clientset, set_config_defaults, new_client_for_config,
  limited, as_client, new_for_config, with_client, with_discovery,
}

module _ (T : Types) {W : Type 0} (k : Connector T W) where
  -- The clients of client-go keep the rate limiter of their configuration, where it has one.
  pub record KeepsLimiter (of_rest : T.RestClient → T.Limiter)
      (of_discovery : T.Discovery → T.Limiter) : Type 0 where
    pub rest_keeps :
        (c : RestConfig T) (limiter : T.Limiter) (w w' : W) (client : T.RestClient)
        → c.rate_limiter ≡ some limiter
        → k.rest_client_for c w ≡ (inr client, w')
        → of_rest client ≡ limiter
    pub discovery_keeps :
        (c : RestConfig T) (limiter : T.Limiter) (w w' : W) (client : T.Discovery)
        → c.rate_limiter ≡ some limiter
        → k.new_discovery_client c w ≡ (inr client, w')
        → of_discovery client ≡ limiter

  made_client :
      (r : (T.Error ⊎ T.RestClient) × W) (client : LvsClient T) (w' : W)
      → as_client T k r ≡ (inr client, w')
      → r ≡ (inr client.rest_client, w')
  made_client (inl err, w) client w' e = ground (arith, e)
  made_client (inr rest, w) client w' e = ground (arith, e)

  client_keeps :
      (of_rest : T.RestClient → T.Limiter) (of_discovery : T.Discovery → T.Limiter)
      → KeepsLimiter of_rest of_discovery
      → (c : RestConfig T) (limiter : T.Limiter) (w w' : W) (client : LvsClient T)
      → c.rate_limiter ≡ some limiter
      → new_client_for_config T k c w ≡ (inr client, w')
      → of_rest client.rest_client ≡ limiter
  unfolding new_client_for_config set_config_defaults
  client_keeps of_rest of_discovery keeps c limiter w w' client has e =
      keeps.rest_keeps _ limiter _ _ _ has (made_client _ client w' e)

  -- Both clients of a clientset were made.
  made_discovery :
      (client : LvsClient T) (r : (T.Error ⊎ T.Discovery) × W) (cs : Clientset T) (w' : W)
      → with_discovery T k client r ≡ (inr cs, w')
      → (cs.lvscontroller_v1alpha1 ≡ client) × (r ≡ (inr cs.discovery_client, w'))
  made_discovery client (inl err, w) cs w' e = ground (arith, e)
  made_discovery client (inr discovery, w) cs w' e = ground (arith, e)

  refused :
      (copy : RestConfig T) (err : T.Error) (w w' : W) (cs : Clientset T)
      → with_client T k copy (inl err, w) ≢ (inr cs, w')
  refused copy err w w' cs e = ground (arith, e)

  made_clients :
      (copy : RestConfig T) (r : (T.Error ⊎ LvsClient T) × W) (cs : Clientset T) (w' : W)
      → with_client T k copy r ≡ (inr cs, w')
      → (w₁ : W) × (r ≡ (inr cs.lvscontroller_v1alpha1, w₁))
        × (k.new_discovery_client copy w₁ ≡ (inr cs.discovery_client, w'))
  made_clients copy (inl err, w) cs w' e = elim (refused copy err w w' cs e) [ ]
  made_clients copy (inr client, w) cs w' e =
      let (same, made) = made_discovery client _ cs w' e in (w, rw same refl, made)

  limited_lem :
      (c : RestConfig T) (w : W)
      → (c.rate_limiter ≢ none) ⊎ (k.is_positive c.qps ≡ true)
      → (limiter : T.Limiter) × ((limited T k c w).0.rate_limiter ≡ some limiter)
        × ((given : T.Limiter) → c.rate_limiter ≡ some given → limiter ≡ given)
  unfolding limited
  limited_lem c w h = elim (Option-cases c.rate_limiter) [
    | inr (limiter, e) ↦ (limiter, ground (arith, e), λ given e'. ground (arith, e, e'))
    | inl e ↦
        ((k.new_limiter c.qps c.burst w).0, ground (arith, e, h), λ given e'. ground (arith, e, e'))
  ]

  -- Let the configuration have a rate limiter or a positive number of queries per second, and let
  -- the clients of client-go keep the limiter of their configuration. When NewForConfig returns a
  -- clientset, its typed client and its discovery client have the same limiter, which is the one
  -- of the configuration where it has one.
  pub new_for_config_shared :
      (of_rest : T.RestClient → T.Limiter) (of_discovery : T.Discovery → T.Limiter)
      → KeepsLimiter of_rest of_discovery
      → (c : RestConfig T) (w w' : W) (cs : Clientset T)
      → (c.rate_limiter ≢ none) ⊎ (k.is_positive c.qps ≡ true)
      → new_for_config T k c w ≡ (inr cs, w')
      → (of_rest cs.lvscontroller_v1alpha1.rest_client ≡ of_discovery cs.discovery_client)
        × ((limiter : T.Limiter)
            → c.rate_limiter ≡ some limiter
            → of_rest cs.lvscontroller_v1alpha1.rest_client ≡ limiter)
  unfolding new_for_config
  new_for_config_shared of_rest of_discovery keeps c w w' cs h e =
      let (limiter, has, own) = limited_lem c w h in
      let (w₁, made, discovered) = made_clients _ _ cs w' e in
      let typed = client_keeps of_rest of_discovery keeps _ limiter _ _ _ has made in
      (
        typed ∙ sym (keeps.discovery_keeps _ limiter _ _ _ has discovered),
        λ given e'. typed ∙ own given e',
      )
