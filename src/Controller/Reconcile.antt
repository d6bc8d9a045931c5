-- ===== src/Controller/Reconcile.antt =====
-- From a config map to the kernel: what an event of TCP ports and the worker's pass over its store
-- make of the served routes.
use lvs_nginx_controller.Base.{
  ℕ, ◌≡◌, refl, ◌∙◌, ap, Bool, false, ◌&&◌, Option, none, some, List, [], ◌∷◌, if◌then◌else◌,
  nat_eq, list_eq, arith, Option-cases, inl, inr,
}
use lvs_nginx_controller.Base.Text.{Text, split}
use lvs_nginx_controller.Base.Dict.{
  Dict, lookup, has, NodupKeys, lookup-cons, keys, insert, clear, clear-eq-nil,
}
use lvs_nginx_controller.Store.{LbStore, PortMap, addition}
use lvs_nginx_controller.Ipvs.System.{System}
use lvs_nginx_controller.Ipvs.Manager.{ipproto_tcp}
use lvs_nginx_controller.Ipvs.Manager.Sound.{routes, service_route}
use lvs_nginx_controller.Controller.Processing.{
  route_addresses, NonZero, Parses, process_func-refines,
}
use lvs_nginx_controller.Controller.Worker.{first_part, process_func}
use lvs_nginx_controller.Base.Text.Split.{split-append}
use lvs_nginx_controller.Validate.{validate_ipv4}
use lvs_nginx_controller.Store.Compare.{change}
use lvs_nginx_controller.Ipvs.Go.{ok}
use lvs_nginx_controller.Ipvs.Table.{IsKernel, CanServe}
use lvs_nginx_controller.Ipvs.Table.Serves.{serves}
use lvs_nginx_controller.Ipvs.Table.Formed.{Sound}
use lvs_nginx_controller.Controller.Cluster.{entries, Pod, ConfigMap, Client}
use lvs_nginx_controller.Controller.State.{Controller, clb, proto_tcp}
use lvs_nginx_controller.Controller.Listing.{adding_key, add_pods, list_nginx, list_nginx_ports}
use lvs_nginx_controller.Controller.Handlers.{update_tcp}
use lvs_nginx_controller.Controller.Collect.{names, named}
use lvs_nginx_controller.Controller.Updates.{update_tcp_changed, update_tcp-NodupKeys}
use lvs_nginx_controller.Controller.Routing.{AllAdding, holds_address, route_addresses_at, decided}

insert-AllAdding :
    (key addr : Text) (addrs : Dict Text Text)
    → first_part (split 95 key) ≡ addition
    → AllAdding addrs
    → AllAdding (insert key addr addrs)
unfolding insert
insert-AllAdding key addr [] adding all = (adding, tt)
insert-AllAdding key addr ((k, a) ∷ addrs) adding (first, all) =
    ground (arith, insert-AllAdding key addr addrs adding all)

first_part-adding_key : (name : Text) → first_part (split 95 (adding_key name)) ≡ addition
unfolding list_eq nat_eq
first_part-adding_key name = rw (split-append 95 addition name refl)

add_pods-AllAdding :
    (pods : List Pod) (addrs : Dict Text Text) → AllAdding addrs → AllAdding (add_pods pods addrs).0
unfolding add_pods
add_pods-AllAdding [] addrs all = all
add_pods-AllAdding (pod ∷ pods) addrs all = ground (
  arith,
  add_pods-AllAdding pods addrs all,
  add_pods-AllAdding pods (insert (adding_key pod.name) (validate_ipv4 pod.pod_ip).1 addrs),
  insert-AllAdding (adding_key pod.name) (validate_ipv4 pod.pod_ip).1 addrs
      (first_part-adding_key pod.name) all,
)

pub list_nginx-AllAdding :
    {W : Type 0} (C : Client W) (nginx_server : Text) (lb : LbStore) (w : W)
    → AllAdding lb.addr
    → AllAdding (list_nginx C nginx_server lb w).0.0.addr
unfolding list_nginx
list_nginx-AllAdding C nginx_server lb w all = elim (Option-cases (C.list_pods nginx_server w).0) [
  | inl e ↦ rw e all
  | inr (pods, e) ↦ rw e (add_pods-AllAdding pods (clear lb.addr) (rw (clear-eq-nil lb.addr) tt))
]

pub lookup-NonZero : (ports : PortMap) → lookup 0 ports ≡ none → NonZero ports
lookup-NonZero [] h = tt
lookup-NonZero ((port, act) ∷ ports) h =
    ground (arith, lookup-cons 0 port act ports, lookup-NonZero ports)

-- The action of a comparison settles whether a route is served.
pub settled :
    (proto : Text) (j : ℕ) (ex : PortMap) (action : Option Text) (is_named is_held before : Bool)
    → action ≡ change (lookup j ex) (if is_named then some proto else none)
    → before ≡ (has j ex && is_held)
    → (if is_held then decided action before else before) ≡ (is_named && is_held)
unfolding list_eq nat_eq
settled proto j ex action is_named is_held before a b = ground arith

module _ (S : System) (C : Client S.World) (h : S.Handle) (K : IsKernel S h) where
  open K use {view}

  -- Let an event name other TCP ports than the known ones, with nothing left over from before, and
  -- let the worker then pass over the store. If the kernel served a route exactly if its port was
  -- known and its address is one of those listed by the event, it serves it after the pass exactly
  -- if the config map names its port and its address is one of those listed. The pass ends without
  -- a panic. This is with an open handle, a virtual address of IPv4, a scheduler that the kernel
  -- knows, no marks, no port 0 in the maps and no two entries for a port, a well-formed table, only
  -- additions among the addresses of the store, which parse as addresses of IPv4, and a client that
  -- does not touch the kernel.
  pub update_tcp-reconciles :
      (cm : ConfigMap) (c : Controller S) (w : S.World) (j : ℕ) (m : List ℕ)
      (open_handle : c.lvs_manager.handle ≡ some h) (unmarked : c.lvs_manager.marked ≡ false)
      (addressed : CanServe S h K c.lvs_manager.vip c.lvs_manager.sched_name)
      (quiet : (namespace : Text) (w' : S.World) → view (C.list_pods namespace w').1 ≡ view w')
      → Sound c.lvs_manager.vip (view w)
      → NodupKeys c.ex_tcp
      → NodupKeys c.clbdata.tcp
      → c.nw_tcp ≡ []
      → AllAdding c.clbdata.addr
      → lookup 0 c.ex_tcp ≡ none
      → names (keys (entries cm)) 0 ≡ false
      → NonZero c.clbdata.udp
      → ¬ ((i : ℕ) → lookup i c.ex_tcp ≡ named proto_tcp cm i)
      → let s' = update_tcp S C cm (c, w) in
        let k = service_route S c.lvs_manager ipproto_tcp j in
        Parses S s'.0.clbdata.addr
        → serves k (j ∷ m) (view w) ≡ (has j c.ex_tcp && holds_address S s'.0.clbdata.addr m)
        → let done = process_func S s'.0 clb s'.1 in
          (done.0 ≡ ok tt)
          × (serves k (j ∷ m) (view done.1)
              ≡ (names (keys (entries cm)) j && holds_address S s'.0.clbdata.addr m))
          × Sound c.lvs_manager.vip (view done.1)
  unfolding update_tcp list_nginx
  update_tcp-reconciles cm c w j m open_handle unmarked addressed quiet s u d empty all zero zero'
        udp differ parses known =
      (done.0, route, done.2)
    where
      s' : Controller S × S.World
      s' = update_tcp S C cm (c, w)

      same_view : view s'.1 ≡ view w
      same_view = quiet c.nginx_server w

      delta :
          (i : ℕ) → lookup i s'.0.clbdata.tcp ≡ change (lookup i c.ex_tcp) (named proto_tcp cm i)
      delta i = ((update_tcp_changed S C cm c w u empty differ).0 i).0

      unique : NodupKeys s'.0.clbdata.tcp
      unique = (update_tcp-NodupKeys S C cm c w u (rw empty tt) d).2

      done :
          ((process_func S s'.0 clb s'.1).0 ≡ ok tt)
          × (routes (view (process_func S s'.0 clb s'.1).1)
              ≡ route_addresses S c.lvs_manager s'.0.clbdata s'.0.clbdata.addr (routes (view s'.1)))
          × Sound c.lvs_manager.vip (view (process_func S s'.0 clb s'.1).1)
      done =
          process_func-refines S s'.0 h K clb s'.1 open_handle unmarked addressed parses
            (lookup-NonZero s'.0.clbdata.tcp (delta 0 ∙ rw (zero, zero')))
            (rw (list_nginx_ports C c.nginx_server _ w).1 udp) (rw same_view s)

      adding : AllAdding s'.0.clbdata.addr
      adding = list_nginx-AllAdding C c.nginx_server _ w all

      k : List ℕ
      k = service_route S c.lvs_manager ipproto_tcp j

      route :
          serves k (j ∷ m) (view (process_func S s'.0 clb s'.1).1)
          ≡ (names (keys (entries cm)) j && holds_address S s'.0.clbdata.addr m)
      route =
          ap (λ r. r k (j ∷ m)) done.1
          ∙ route_addresses_at S c.lvs_manager s'.0.clbdata j m unique s'.0.clbdata.addr
              (routes (view s'.1)) adding
          ∙ settled proto_tcp j c.ex_tcp (lookup j s'.0.clbdata.tcp) (names (keys (entries cm)) j)
              (holds_address S s'.0.clbdata.addr m) (serves k (j ∷ m) (view s'.1)) (delta j)
              (rw same_view known)
