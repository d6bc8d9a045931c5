-- ===== src/Command.antt =====
-- The start of the program (cmd/lvs-controller): `RunController` and its options. The calls that
-- build the client of the cluster are parameters.
pub mod Start
pub mod Flags
pub mod Goroutines
pub mod Main
use lvs_nginx_controller.Base.{Bool, false, [], ◌∷◌, ◌++◌}
use lvs_nginx_controller.Base.Text.{Text, codes}
use lvs_nginx_controller.Config.{Config, Flag, string_flag, bool_flag, App, add_config_flags}
use lvs_nginx_controller.Ipvs.Go.{Result, ok, Run, ◌>>=◌}
use lvs_nginx_controller.Ipvs.System.{System}
use lvs_nginx_controller.Controller.Cluster.{Client}
use lvs_nginx_controller.Controller.State.{Controller, new_controller}
use lvs_nginx_controller.Controller.Handlers.{initial}

-- `Options`
pub record Options : Type 0 where
  pub kubeconfig : Text
  pub debug : Bool
  pub cfg : Config

-- `NewOptions`
unfoldable pub new_options : Options
new_options = record {
  kubeconfig = [];
  debug = false;
  cfg = record { nginx_server = []; sched_name = []; vip = []; pnmpp = false; idle_timeout = [] };
}

-- `AddFlags` of the options
unfoldable pub add_flags : App Options → App Options
add_flags app =
    let with_config = add_config_flags (λ change o. record o { cfg = change o.cfg }) app in
    record with_config {
      flags =
          with_config.flags
          ++ (string_flag (codes "kubeconfig") (codes "Path to a kube config.")
                (λ v o. record o { kubeconfig = v })
              ∷ bool_flag (codes "debug") (codes "Run with debug mode")
                  (λ v o. record o { debug = v })
              ∷ []);
    }

module _ (S : System) where
  -- What `RunController` calls of client-go: `BuildConfigFromFlags` and `NewForConfig`.
  pub record Kubernetes : Type 1 where
    pub RestConfig : Type 0
    pub build_config_from_flags : Text → Run S.World RestConfig
    pub new_for_config : RestConfig → Run S.World (Client S.World)

  -- The call of `Initial`. Its error is only logged: `Fatalf` of the logger does not exit.
  abbrev pub started : Client S.World → Controller S → Run S.World (Client S.World × Controller S)
  started C c w = (ok (C, (initial S C (c, w)).1.0), (initial S C (c, w)).1.1)

  -- `RunController` up to the call of `Run`, with the client and the controller that this is
  -- called with.
  unfoldable pub run_controller : Kubernetes → Options → Run S.World (Client S.World × Controller S)
  run_controller k opts = do
    config ← k.build_config_from_flags opts.kubeconfig
    clientset ← k.new_for_config config
    controller ← new_controller S opts.cfg
    started clientset controller
