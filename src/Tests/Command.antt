-- ===== src/Tests/Command.antt =====
-- The theorems on the start of the program, with a cluster that lists no config maps.
use lvs_nginx_controller.Base.{◌≡◌, ◌⊎◌, refl, true, false, List, [], ◌∷◌, nat_eq, list_eq}
use lvs_nginx_controller.Base.Text.{codes, remove_all}
use lvs_nginx_controller.Store.{new_lb_store}
use lvs_nginx_controller.Ipvs.Go.{ok}
use lvs_nginx_controller.Ipvs.Manager.{init, interface_name, flush_iptables, new_lvs_manager}
use lvs_nginx_controller.Controller.State.{Controller, plb, new_controller}
use lvs_nginx_controller.Controller.Handlers.{initial}
use lvs_nginx_controller.Controller.Steps.{Reach}
use lvs_nginx_controller.Command.Flags.{
  Argument, text_argument, bool_argument, set_arguments, set_defaults, HoldsLast, accepts,
}
use lvs_nginx_controller.Config.{add_config_flags}
use lvs_nginx_controller.Command.{Options, new_options, add_flags, Kubernetes, run_controller}
use lvs_nginx_controller.Command.Start.{run_controller-blocked}
use lvs_nginx_controller.Tests.{memory, table, config}
use lvs_nginx_controller.Tests.Events.{cluster}
use lvs_nginx_controller.Controller.Threads.{Threads, Execution, run}
use lvs_nginx_controller.Controller.Threads.Progress.{CanTurn, Quiet, PassEnds}
use lvs_nginx_controller.Command.Main.{
  flag_name, text_less, Cli, coded, main, main_program, sort, insert_sorted,
}
use lvs_nginx_controller.Command.Main.Endings.{Ends, main-Ends}
use lvs_nginx_controller.Command.Goroutines.{run_controller-progress}
use lvs_nginx_controller.Tests.Runs.{built, unreachable}

abbrev kubernetes : Kubernetes memory
kubernetes = record {
  RestConfig = Unit {0};
  build_config_from_flags = λ path t. (ok tt, t);
  new_for_config = λ rest t. (ok unreachable, t);
}

abbrev options : Options
options = record { kubeconfig = codes "kubeconfig"; debug = false; cfg = config }

abbrev stuck : Controller memory
stuck = (initial memory unreachable (built, [])).1.0

starts : (run_controller memory kubernetes options table).0 ≡ ok (unreachable, stuck)
unfolding run_controller new_controller init interface_name flush_iptables new_lvs_manager
    new_lb_store remove_all nat_eq list_eq
starts = refl

run_controller-blocked_example :
    ((stuck.locked ≡ false) × (stuck.lbstore ≡ plb ∷ []))
    ⊎ ((stuck.locked ≡ true)
        × ((t : Controller memory × memory.World)
            → Reach memory unreachable (stuck, (run_controller memory kubernetes options table).1) t
            → (t.0.locked ≡ true)
              × (t.0.lbstore ≡ [])
              × (t.1 ≡ (run_controller memory kubernetes options table).1)))
run_controller-blocked_example =
    run_controller-blocked memory kubernetes options table unreachable stuck starts

-- With the cluster that lists a config map, `Initial` succeeds.
abbrev reachable : Kubernetes memory
reachable = record kubernetes { new_for_config = λ rest t. (ok cluster, t) }

abbrev running : Controller memory
running = (initial memory cluster (built, [])).1.0

starts_reachable : (run_controller memory reachable options table).0 ≡ ok (cluster, running)
unfolding run_controller new_controller init interface_name flush_iptables new_lvs_manager
    new_lb_store remove_all nat_eq list_eq
starts_reachable = refl

run_controller-progress_example :
    let after = (run_controller memory reachable options table).1 in
    let start = run memory cluster running.nginx_server 5 running after in
    ((running.locked ≡ false)
      × ((t : Threads memory cluster running.nginx_server)
          → Execution memory cluster running.nginx_server start t
          → PassEnds memory cluster running.nginx_server t
          → CanTurn memory cluster running.nginx_server t
            ⊎ Quiet memory cluster running.nginx_server t))
    ⊎ ((running.locked ≡ true)
        × ((t : Threads memory cluster running.nginx_server)
            → Execution memory cluster running.nginx_server start t
            → (¬ CanTurn memory cluster running.nginx_server t) × (t.shared.1 ≡ after)))
run_controller-progress_example =
    run_controller-progress memory reachable options table cluster running starts_reachable

-- A library that keeps to what is documented.
abbrev library : Cli memory
library = record {
  less = λ f g. text_less (flag_name f) (flag_name g);
  run = λ p args o w.
      coded memory (p.action (set_arguments p.app.flags args (set_defaults p.app.flags o)) w);
  print = λ e. [];
}

-- An address that is given twice, and the flag for marks.
abbrev arguments : List Argument
arguments =
    text_argument (codes "vip") (codes "10.0.0.1")
    ∷ bool_argument (codes "pnmpp") true
    ∷ text_argument (codes "vip") (codes "10.0.0.2")
    ∷ []

accepted : accepts (main_program memory library reachable).app.flags arguments ≡ true
unfolding main_program add_flags add_config_flags sort insert_sorted text_less nat_eq list_eq
accepted = refl

main-Ends_example :
    (o : Options) × HoldsLast new_options arguments o
    × Ends memory library reachable o table (main memory library reachable arguments table)
main-Ends_example =
    main-Ends memory library reachable
      (record { less_by_name = λ f g. refl; runs = λ p args o w plain accepted. refl }) arguments
      table accepted
