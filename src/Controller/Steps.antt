-- ===== src/Controller/Steps.antt =====
-- A run of the controller: the events and the workers in any order. Each handler holds the lock
-- for the whole of its step, once the wait for room or for an element is over.
pub mod Invariant
pub mod Start
use lvs_nginx_controller.Base.{
  ℕ, suc, ◌+◌, ◌≡◌, ◌≢◌, ◌≤◌, refl, sym, ◌∙◌, ap, Bool, true, false, ◌&&◌, not, Option, none, some,
  List, [], ◌∷◌, ◌++◌, ◌==◌, if◌then◌else◌, nat_eq, list_eq, arith, length, length-append,
  Bool-cases, inl, inr,
}
use lvs_nginx_controller.Base.Text.{Text}
use lvs_nginx_controller.Base.Dict.{Dict, keys, clear, NodupKeys, clear-eq-nil}
use lvs_nginx_controller.Base.Dict.DeepEqual.{deep_equal}
use lvs_nginx_controller.Validate.{validate_ipv4}
use lvs_nginx_controller.Store.{LbStore, PortMap, Compared, l4_compare}
use lvs_nginx_controller.Store.Compare.{l4_compare-NodupKeys}
use lvs_nginx_controller.Ipvs.Go.{ok}
use lvs_nginx_controller.Ipvs.System.{System}
use lvs_nginx_controller.Controller.Cluster.{Pod, ConfigMap, Client}
use lvs_nginx_controller.Controller.State.{
  Controller, Pointer, clb, plb, proto_tcp, proto_udp, tcp_service, udp_service,
}
use lvs_nginx_controller.Controller.Listing.{
  Failure, list_cm, list_nginx, list_nginx_ports, is_nginx,
}
use lvs_nginx_controller.Controller.Handlers.{
  initial, update_tcp, update_udp, update_ports, addr_add_func, addr_update_func, collect_ports,
  know_all, put_valid, event_key,
}
use lvs_nginx_controller.Controller.Collect.{collect_ports-NodupKeys}
use lvs_nginx_controller.Controller.Unique.{
  IsUnique, list_nginx-IsUnique, list_cm-IsUnique, put_valid-NodupKeys, know_all-NodupKeys,
}
use lvs_nginx_controller.Controller.Worker.{process_func}

module _ (S : System) (C : Client S.World) where
  -- The lock is free, and the channel has room.
  pub record HasRoom (c : Controller S) : Type 0 where
    pub unlocked : c.locked ≡ false
    pub room : length c.lbstore ≢ 3

  -- Informers pass the old object first. A worker that panics ends the program, so that its step
  -- asks for a pass that ends. The one handler that takes no lock needs none.
  pub data Step (s t : Controller S × S.World) : Type 0 where
    config_map_updated :
        (old new : ConfigMap) → HasRoom s.0 → t ≡ update_ports S C old new s → Step s t
    pod_updated : (old new : Pod) → HasRoom s.0 → t ≡ addr_update_func S C old new s → Step s t
    pod_added : (pod : Pod) → t ≡ addr_add_func S C pod s → Step s t
    item_processed :
        (p : Pointer) (rest : List Pointer)
        → s.0.locked ≡ false
        → s.0.lbstore ≡ p ∷ rest
        → (process_func S s.0 p s.1).0 ≡ ok tt
        → t ≡ (record s.0 { lbstore = rest }, (process_func S s.0 p s.1).1)
        → Step s t

  pub data Reach (s : Controller S × S.World) : Controller S × S.World → Type 0 where
    here : Reach s s
    next : {t u : Controller S × S.World} → Reach s t → Step t u → Reach s u
