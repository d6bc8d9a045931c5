-- ===== src/Controller/UdpPass.antt =====
-- From a config map to the kernel: what an event of UDP ports and the worker's pass over its store
-- make of the served routes.
use lvs_nginx_controller.Base.{
  ℕ, ◌≡◌, ◌∙◌, ap, false, ◌&&◌, none, some, List, [], ◌∷◌, nat_eq, list_eq,
}
use lvs_nginx_controller.Base.Text.{Text}
use lvs_nginx_controller.Base.Dict.{lookup, has, NodupKeys, keys}
use lvs_nginx_controller.Store.{Compared, l4_compare}
use lvs_nginx_controller.Ipvs.System.{System}
use lvs_nginx_controller.Ipvs.Manager.{ipproto_udp}
use lvs_nginx_controller.Ipvs.Manager.Sound.{routes, service_route}
use lvs_nginx_controller.Controller.Processing.{
  route_addresses, NonZero, Parses, process_func-refines,
}
use lvs_nginx_controller.Controller.Worker.{process_func}
use lvs_nginx_controller.Store.Compare.{change, l4_compare-NodupKeys}
use lvs_nginx_controller.Ipvs.Go.{ok}
use lvs_nginx_controller.Ipvs.Table.{IsKernel, CanServe}
use lvs_nginx_controller.Ipvs.Table.Serves.{serves}
use lvs_nginx_controller.Ipvs.Table.Formed.{Sound}
use lvs_nginx_controller.Controller.Cluster.{entries, ConfigMap, Client}
use lvs_nginx_controller.Controller.State.{Controller, clb, proto_udp}
use lvs_nginx_controller.Controller.Listing.{list_nginx, list_nginx_ports}
use lvs_nginx_controller.Controller.Handlers.{update_udp}
use lvs_nginx_controller.Controller.Collect.{names, named, collected, collect_ports-NodupKeys}
use lvs_nginx_controller.Controller.Routing.{AllAdding, holds_address, route_addresses_at_udp}
use lvs_nginx_controller.Controller.Reconcile.{list_nginx-AllAdding, lookup-NonZero, settled}
use lvs_nginx_controller.Controller.UdpUpdates.{update_udp_changed}

module _ (S : System) (C : Client S.World) where
  pub update_udp-NodupKeys :
      (cm : ConfigMap) (c : Controller S) (w : S.World)
      → NodupKeys c.ex_udp
      → NodupKeys c.nw_udp
      → NodupKeys c.clbdata.udp
      → let c' = (update_udp S C cm (c, w)).0 in
        NodupKeys c'.ex_udp × NodupKeys c'.nw_udp × NodupKeys c'.clbdata.udp
  unfolding update_udp
  update_udp-NodupKeys cm c w u v d =
      (unique.0, unique.1, rw (list_nginx_ports C c.nginx_server _ w).1 unique.2)
    where
      r : Compared
      r = l4_compare c.ex_udp (collected proto_udp cm c.nw_udp) c.clbdata.udp

      unique : NodupKeys r.old_one × NodupKeys r.new_one × NodupKeys r.delta_one
      unique =
          l4_compare-NodupKeys c.ex_udp (collected proto_udp cm c.nw_udp) c.clbdata.udp u
            (collect_ports-NodupKeys proto_udp (keys (entries cm)) c.nw_udp v) d

module _ (S : System) (C : Client S.World) (h : S.Handle) (K : IsKernel S h) where
  open K use {view}

  -- Let an event name other UDP ports than the known ones, with nothing left over from before, and
  -- let the worker then pass over the store. If the kernel served a route exactly if its port was
  -- known and its address is one of those listed by the event, it serves it after the pass exactly
  -- if the config map names its port and its address is one of those listed. The pass ends without
  -- a panic. This is with an open handle, a virtual address of IPv4, a scheduler that the kernel
  -- knows, no marks, no port 0 in the maps and no two entries for a port, a well-formed table, only
  -- additions among the addresses of the store, which parse as addresses of IPv4, and a client that
  -- does not touch the kernel.
  pub update_udp-reconciles :
      (cm : ConfigMap) (c : Controller S) (w : S.World) (j : ℕ) (m : List ℕ)
      (open_handle : c.lvs_manager.handle ≡ some h) (unmarked : c.lvs_manager.marked ≡ false)
      (addressed : CanServe S h K c.lvs_manager.vip c.lvs_manager.sched_name)
      (quiet : (namespace : Text) (w' : S.World) → view (C.list_pods namespace w').1 ≡ view w')
      → Sound c.lvs_manager.vip (view w)
      → NodupKeys c.ex_udp
      → NodupKeys c.clbdata.udp
      → c.nw_udp ≡ []
      → AllAdding c.clbdata.addr
      → lookup 0 c.ex_udp ≡ none
      → names (keys (entries cm)) 0 ≡ false
      → NonZero c.clbdata.tcp
      → ¬ ((i : ℕ) → lookup i c.ex_udp ≡ named proto_udp cm i)
      → let s' = update_udp S C cm (c, w) in
        let k = service_route S c.lvs_manager ipproto_udp j in
        Parses S s'.0.clbdata.addr
        → serves k (j ∷ m) (view w) ≡ (has j c.ex_udp && holds_address S s'.0.clbdata.addr m)
        → let done = process_func S s'.0 clb s'.1 in
          (done.0 ≡ ok tt)
          × (serves k (j ∷ m) (view done.1)
              ≡ (names (keys (entries cm)) j && holds_address S s'.0.clbdata.addr m))
          × Sound c.lvs_manager.vip (view done.1)
  unfolding update_udp list_nginx
  update_udp-reconciles cm c w j m open_handle unmarked addressed quiet s u d empty all zero zero'
        tcp differ parses known =
      (done.0, route, done.2)
    where
      s' : Controller S × S.World
      s' = update_udp S C cm (c, w)

      same_view : view s'.1 ≡ view w
      same_view = quiet c.nginx_server w

      delta :
          (i : ℕ) → lookup i s'.0.clbdata.udp ≡ change (lookup i c.ex_udp) (named proto_udp cm i)
      delta i = ((update_udp_changed S C cm c w u empty differ).0 i).0

      unique : NodupKeys s'.0.clbdata.udp
      unique = (update_udp-NodupKeys S C cm c w u (rw empty tt) d).2

      done :
          ((process_func S s'.0 clb s'.1).0 ≡ ok tt)
          × (routes (view (process_func S s'.0 clb s'.1).1)
              ≡ route_addresses S c.lvs_manager s'.0.clbdata s'.0.clbdata.addr (routes (view s'.1)))
          × Sound c.lvs_manager.vip (view (process_func S s'.0 clb s'.1).1)
      done =
          process_func-refines S s'.0 h K clb s'.1 open_handle unmarked addressed parses
            (rw (list_nginx_ports C c.nginx_server _ w).0 tcp)
            (lookup-NonZero s'.0.clbdata.udp (delta 0 ∙ rw (zero, zero'))) (rw same_view s)

      adding : AllAdding s'.0.clbdata.addr
      adding = list_nginx-AllAdding C c.nginx_server _ w all

      k : List ℕ
      k = service_route S c.lvs_manager ipproto_udp j

      route :
          serves k (j ∷ m) (view (process_func S s'.0 clb s'.1).1)
          ≡ (names (keys (entries cm)) j && holds_address S s'.0.clbdata.addr m)
      route =
          ap (λ r. r k (j ∷ m)) done.1
          ∙ route_addresses_at_udp S c.lvs_manager s'.0.clbdata j m unique s'.0.clbdata.addr
              (routes (view s'.1)) adding
          ∙ settled proto_udp j c.ex_udp (lookup j s'.0.clbdata.udp) (names (keys (entries cm)) j)
              (holds_address S s'.0.clbdata.addr m) (serves k (j ∷ m) (view s'.1)) (delta j)
              (rw same_view known)
