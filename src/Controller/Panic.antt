-- ===== src/Controller/Panic.antt =====
-- How an address that libipvs cannot pack ends the worker.
use lvs_nginx_controller.Base.{ℕ, ◌≡◌, ◌≢◌, refl, inl, false, some, ◌∷◌, nat_eq, list_eq, arith}
use lvs_nginx_controller.Base.Text.{Text, split}
use lvs_nginx_controller.Base.Dict.{Dict}
use lvs_nginx_controller.Net.{parse_ip, is_ipv4}
use lvs_nginx_controller.Store.{PortMap, addition}
use lvs_nginx_controller.Ipvs.Go.{crash}
use lvs_nginx_controller.Ipvs.System.{System}
use lvs_nginx_controller.Ipvs.Manager.{ipproto_tcp, service_of, destination_of}
use lvs_nginx_controller.Ipvs.Manager.Unpacked.{add-del_unpacked}
use lvs_nginx_controller.Ipvs.Table.{
  IsKernel, CanServe, is_packed, is_complete, service_key, destination_key,
}
use lvs_nginx_controller.Ipvs.Table.Serves.{serves}
use lvs_nginx_controller.Ipvs.Table.Managed.{Managed}
use lvs_nginx_controller.Controller.State.{Controller, Pointer, proto_tcp, deref}
use lvs_nginx_controller.Controller.Worker.{
  first_part, process_ports, process_address, process_addresses, process_func,
}

module _ (S : System) (h : S.Handle) (K : IsKernel S h) (c : Controller S) (p : Pointer)
    (w : S.World) where
  open K use {view}

  -- Let the store of a received pointer begin with the addition of an address that does not parse
  -- as one of IPv4, and its TCP ports with the addition of a port other than 0, which the kernel
  -- does not serve at what the address parses to. This is with an open handle, a virtual address of
  -- IPv4, a scheduler that the kernel knows, no marks, and a table that belongs to the virtual
  -- address. Then the worker's pass over the store panics, whatever else the store holds.
  pub process_func-panics :
      (key addr : Text) (addrs : Dict Text Text) (port : ℕ) (ports : PortMap)
      → c.lvs_manager.handle ≡ some h
      → c.lvs_manager.marked ≡ false
      → CanServe S h K c.lvs_manager.vip c.lvs_manager.sched_name
      → Managed c.lvs_manager.vip (view w)
      → (deref S p c).addr ≡ (key, addr) ∷ addrs
      → first_part (split 95 key) ≡ addition
      → (deref S p c).tcp ≡ (port, addition) ∷ ports
      → port ≢ 0
      → is_ipv4 (parse_ip S.parse_ipv6 addr) ≡ false
      → serves
          (service_key (service_of S c.lvs_manager port ipproto_tcp 0))
          (destination_key (destination_of S addr port))
          (view w)
        ≡ false
      → (process_func S c p w).0 ≡ crash
  unfolding process_func process_addresses process_address process_ports is_complete is_packed
      service_of destination_of list_eq nat_eq
  process_func-panics key addr addrs port ports open_handle unmarked addressed m first action one
        nonzero unparsed unserved =
      let added =
        add-del_unpacked S h K c.lvs_manager open_handle addr port ipproto_tcp proto_tcp w unmarked
          (inl (refl, refl)) (ground (arith, addressed.0, nonzero)) addressed.1 m unparsed
          unserved in
      rw (first, one, action, added.0) refl
