-- ===== src/Tests/Passes.antt =====
-- The theorems on events of pods and on the emptying of the channel, at the cluster of
-- Tests/Events.
use lvs_nginx_controller.Base.{◌≡◌, refl, not, ◌&&◌, [], ◌∷◌, ◌==◌, nat_eq, list_eq}
use lvs_nginx_controller.Base.Text.{codes, contains_text, starts_with}
use lvs_nginx_controller.Base.Text.Number.{atoi}
use lvs_nginx_controller.Base.Dict.{insert, clear}
use lvs_nginx_controller.Validate.{validate_port}
use lvs_nginx_controller.Net.{is_ipv4, parse_ip, long_form}
use lvs_nginx_controller.Ipvs.Go.{ok}
use lvs_nginx_controller.Ipvs.Manager.Sound.{service_route}
use lvs_nginx_controller.Ipvs.Table.Serves.{serves}
use lvs_nginx_controller.Ipvs.Table.Formed.{Sound}
use lvs_nginx_controller.Controller.State.{Controller, plb, clb}
use lvs_nginx_controller.Controller.Listing.{list_cm, add_config_maps, add_ports}
use lvs_nginx_controller.Controller.Handlers.{addr_update_func}
use lvs_nginx_controller.Controller.Worker.{process_func}
use lvs_nginx_controller.Controller.PodPass.{addr_update_func-reconciles}
use lvs_nginx_controller.Tests.{memory, memory-IsKernel, manager, table}
use lvs_nginx_controller.Tests.Events.{pod, leaving, cluster, controller, both, valid}
use lvs_nginx_controller.Tests.Reconcile.{pod_address}
use lvs_nginx_controller.Tests.Runs.{sound, mixed, serving}

addr_update_func-reconciles_example :
    let s' = addr_update_func memory cluster leaving pod (controller [], table) in
    let pass = process_func memory s'.0 plb s'.1 in
    let m = pod_address in
    let before = serves (service_route memory manager 6 80) (80 ∷ m) table in
    (pass.0 ≡ ok tt)
    × (serves (service_route memory manager 6 80) (80 ∷ m) pass.1
        ≡ (not (m == long_form (parse_ip memory.parse_ipv6 (codes "10.1.0.2"))) && before))
    × Sound manager.vip pass.1
unfolding list_cm validate_port atoi nat_eq list_eq add_config_maps contains_text add_ports insert
    clear is_ipv4 starts_with parse_ip
addr_update_func-reconciles_example =
    addr_update_func-reconciles memory cluster tt memory-IsKernel leaving pod (controller []) table
      (codes "10.1.0.2") (both ∷ []) 80 pod_address refl (λ e. cc) valid (λ e. refl) refl refl
      serving refl sound (record { addr = tt; tcp = tt; udp = tt }) refl refl refl refl

-- Two pointers to one store, and one to the other.
abbrev pub backlog : Controller memory
backlog = record (controller []) { plbdata = mixed; lbstore = plb ∷ clb ∷ plb ∷ [] }
