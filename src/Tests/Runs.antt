-- ===== src/Tests/Runs.antt =====
-- The theorems on the worker and on whole runs, at the cluster of Tests/Events.
use lvs_nginx_controller.Base.{◌^◌, ◌≡◌, refl, none, [], ◌∷◌, nat_eq, list_eq, arith}
use lvs_nginx_controller.Base.Text.{codes, remove_all, split, starts_with}
use lvs_nginx_controller.Base.Text.Number.{atoi, low_word}
use lvs_nginx_controller.Net.{is_ipv4, long_form, parse_ip}
use lvs_nginx_controller.Store.{LbStore, addition, new_lb_store}
use lvs_nginx_controller.Ipvs.Go.{ok, crash}
use lvs_nginx_controller.Ipvs.Manager.{
  service_of, destination_of, atoi_value, init, interface_name, flush_iptables, new_lvs_manager,
}
use lvs_nginx_controller.Ipvs.Manager.Sound.{routes}
use lvs_nginx_controller.Ipvs.Table.{
  CanServe, is_packed, is_complete, service_key, destination_key, has_service, has_destination,
}
use lvs_nginx_controller.Ipvs.Table.Formed.{Sound}
use lvs_nginx_controller.Controller.Cluster.{Client}
use lvs_nginx_controller.Controller.State.{Controller, plb, new_controller}
use lvs_nginx_controller.Controller.Handlers.{initial}
use lvs_nginx_controller.Controller.Worker.{process_func}
use lvs_nginx_controller.Controller.Panic.{process_func-panics}
use lvs_nginx_controller.Ipvs.Table.Serves.{serves}
use lvs_nginx_controller.Controller.Processing.{process_func-refines, route_addresses, Parses}
use lvs_nginx_controller.Tests.{memory, memory-IsKernel, manager, table, config}
use lvs_nginx_controller.Tests.Events.{cluster, controller}

-- A store that adds port 8080 at one address and takes the other address away.
abbrev pub mixed : LbStore
mixed = record {
  addr = (codes "adding_a", codes "10.1.0.3") ∷ (codes "deleting_b", codes "10.1.0.2") ∷ [];
  tcp = (8080, addition) ∷ [];
  udp = (53, addition) ∷ [];
}

abbrev waiting : Controller memory
waiting = record (controller []) { plbdata = mixed; lbstore = plb ∷ [] }

-- The kernel serves the manager's address, with its scheduler.
pub serving : CanServe memory tt memory-IsKernel manager.vip manager.sched_name
unfolding is_ipv4 starts_with nat_eq list_eq
serving = (refl, refl)

pub parses : Parses memory mixed.addr
unfolding is_ipv4 starts_with nat_eq list_eq split parse_ip
parses = ((λ e. refl), ((λ e. refl), tt))

pub sound : Sound manager.vip table
unfolding is_packed is_ipv4 starts_with is_complete has_service has_destination service_key
    destination_key long_form nat_eq list_eq
sound = ((refl, tt), (refl, refl, (refl, refl, (refl, refl, tt)), tt))

process_func-refines_example :
    let r = process_func memory waiting plb table in
    (r.0 ≡ ok tt)
    × (routes r.1 ≡ route_addresses memory manager mixed mixed.addr (routes table))
    × Sound manager.vip r.1
process_func-refines_example =
    process_func-refines memory waiting tt memory-IsKernel plb table refl refl serving parses
      ((λ e. cc), tt) ((λ e. cc), tt) sound

-- A store that adds port 8080 at five octets, which `ValidateIPv4` accepts.
abbrev unparsed : LbStore
unparsed = record mixed { addr = (codes "adding_a", codes "10.1.0.4.5") ∷ [] }

abbrev poisoned : Controller memory
poisoned = record (controller []) { plbdata = unparsed; lbstore = plb ∷ [] }

process_func-panics_example : (process_func memory poisoned plb table).0 ≡ crash
unfolding is_ipv4 starts_with parse_ip split serves service_key destination_key has_destination
    service_of destination_of long_form nat_eq list_eq
process_func-panics_example =
    process_func-panics memory tt memory-IsKernel poisoned plb table (codes "adding_a")
      (codes "10.1.0.4.5") [] 8080 [] refl refl serving (refl, tt) refl refl refl
      (λ e. omega (arith, e)) refl refl

-- A cluster that lists no config maps.
abbrev pub unreachable : Client memory.World
unreachable = record cluster { list_config_maps = λ namespace t. (none, t) }

abbrev blocked : Controller memory × memory.World
blocked = (initial memory unreachable (controller [], table)).1

abbrev pub built : Controller memory
built = record (controller []) {
  lvs_manager = record manager {
    vip = parse_ip memory.parse_ipv6 config.vip;
    timeout = low_word (2 ^ 32) (atoi_value (atoi config.idle_timeout));
  };
}

builds : (new_controller memory config table).0 ≡ ok built
unfolding new_controller init interface_name flush_iptables new_lvs_manager new_lb_store remove_all
    nat_eq list_eq
builds = refl
