-- ===== src/Tests/Connect.antt =====
-- The theorem on the rate limiter of a clientset, with clients that are their limiters.
use lvs_nginx_controller.Base.{ℕ, suc, ◌≡◌, refl, true, inr, Option, none, some, arith, []}
use lvs_nginx_controller.Base.Text.{Text, codes}
use lvs_nginx_controller.Clientset.Connect.{
  Types, RestConfig, Connector, Clientset, new_for_config, set_config_defaults, limited,
  new_client_for_config,
}
use lvs_nginx_controller.Clientset.Connect.Shared.{KeepsLimiter, new_for_config_shared}

-- A limiter is a number, and so are the clients that keep it.
abbrev types : Types
types = record {
  Error = Text;
  Limiter = ℕ;
  RestClient = ℕ;
  Discovery = ℕ;
  Serializer = Unit;
  Qps = ℕ;
  Burst = ℕ;
  Rest = Text;
}

abbrev kept : Option ℕ → ℕ
kept none = 0
kept (some limiter) = limiter

-- The state is the number of limiters that were made.
abbrev connector : Connector types ℕ
connector = record {
  is_positive = λ qps. true;
  new_limiter = λ qps burst w. (suc w, suc w);
  default_user_agent = codes "agent";
  direct_codecs = tt;
  rest_client_for = λ c w. (inr (kept c.rate_limiter), w);
  new_discovery_client = λ c w. (inr (kept c.rate_limiter), w);
  discovery_of = λ r. r;
}

abbrev same : ℕ → ℕ
same limiter = limiter

connector-KeepsLimiter : KeepsLimiter types connector same same
connector-KeepsLimiter = record {
  rest_keeps = λ c limiter w w' client e made. ground (arith, e, made);
  discovery_keeps = λ c limiter w w' client e made. ground (arith, e, made);
}

abbrev config : RestConfig types
config = record {
  group_version = none;
  api_path = [];
  serializer = none;
  user_agent = [];
  qps = 5;
  burst = 10;
  rate_limiter = none;
  rest = codes "https://10.0.0.1";
}

abbrev clients : Clientset types
clients = record { discovery_client = 1; lvscontroller_v1alpha1 = record { rest_client = 1 } }

new_for_config_shared_example :
    (same clients.lvscontroller_v1alpha1.rest_client ≡ same clients.discovery_client)
    × ((limiter : ℕ)
        → config.rate_limiter ≡ some limiter
        → same clients.lvscontroller_v1alpha1.rest_client ≡ limiter)
unfolding new_for_config limited new_client_for_config set_config_defaults
new_for_config_shared_example =
    new_for_config_shared types connector same same connector-KeepsLimiter config 0 1 clients
      (inr refl) refl
