-- ===== src/Controller/PodPass.antt =====
-- From an event of a pod to the kernel: what the handler and the worker's pass over its store make
-- of the served routes.
use lvs_nginx_controller.Base.{
  ℕ, ◌≡◌, ◌≢◌, refl, sym, ◌∙◌, ap, Bool, true, false, not, ◌&&◌, ◌||◌, none, some, List, [], ◌∷◌,
  ◌++◌, ◌==◌, if◌then◌else◌, nat_eq, list_eq, arith,
}
use lvs_nginx_controller.Base.Text.{Text, split}
use lvs_nginx_controller.Base.Dict.{NodupKeys, lookup, lookup-nil, insert, clear-eq-nil}
use lvs_nginx_controller.Net.{parse_ip, long_form, is_ipv4}
use lvs_nginx_controller.Validate.{validate_ipv4}
use lvs_nginx_controller.Store.{LbStore, PortMap, addition}
use lvs_nginx_controller.Ipvs.Go.{ok}
use lvs_nginx_controller.Ipvs.System.{System}
use lvs_nginx_controller.Ipvs.Manager.{LvsManager, ipproto_tcp}
use lvs_nginx_controller.Ipvs.Manager.Sound.{Routes, routes, service_route}
use lvs_nginx_controller.Ipvs.Table.{IsKernel, CanServe}
use lvs_nginx_controller.Ipvs.Table.Serves.{serves}
use lvs_nginx_controller.Ipvs.Table.Formed.{Sound}
use lvs_nginx_controller.Controller.Cluster.{Pod, ConfigMap, Client}
use lvs_nginx_controller.Controller.State.{Controller, plb, tcp_service, udp_service}
use lvs_nginx_controller.Controller.Listing.{list_cm, list_cm-addr}
use lvs_nginx_controller.Controller.Listed.{maps_name, list_cm_succeeds}
use lvs_nginx_controller.Controller.Handlers.{addr_update_func, event_key}
use lvs_nginx_controller.Controller.Pods.{first_part-event_key}
use lvs_nginx_controller.Controller.Unique.{IsUnique, list_cm-IsUnique}
use lvs_nginx_controller.Controller.Worker.{process_func, first_part}
use lvs_nginx_controller.Controller.Processing.{process_func-refines, route_addresses}
use lvs_nginx_controller.Controller.Routing.{route_addresses_at, decided}
use lvs_nginx_controller.Controller.Reconcile.{lookup-NonZero}

-- A key of a pod that is not deleted is one to add.
if_added :
    {P : Type 0} (is_deleted : Bool) (name : Text)
    → (is_deleted ≡ false → P)
    → first_part (split 95 (event_key is_deleted name)) ≡ addition
    → P
unfolding list_eq nat_eq
if_added false name p e = p refl
if_added true name p e = let other = sym (first_part-event_key true name) ∙ e in absurd cc

-- Ports that are only added, at an address that is here or not.
added_here :
    (j : ℕ) (ports : PortMap) (is_named is_here before : Bool)
    → lookup j ports ≡ (if is_named then some addition else none)
    → (if is_here then decided (lookup j ports) before else before)
      ≡ ((is_here && is_named) || before)
unfolding list_eq nat_eq
added_here j ports is_named is_here before e = ground arith

module _ (S : System) (lm : LvsManager S) (lb : LbStore) (u : NodupKeys lb.tcp) (j : ℕ) (m : List ℕ)
    (name ip : Text) (is_named : Bool)
    (e : lookup j lb.tcp ≡ (if is_named then some addition else none)) where
  abbrev is_here : Bool
  is_here = m == long_form (parse_ip S.parse_ipv6 ip)

  -- What the only address of a store makes of a route.
  route_single :
      (is_deleted : Bool) (r : Routes)
      → let before = r (service_route S lm ipproto_tcp j) (j ∷ m) in
        route_addresses S lm lb
          ((event_key is_deleted name, ip) ∷ [])
          r
          (service_route S lm ipproto_tcp j)
          (j ∷ m)
        ≡ (if is_deleted then not is_here && before else (is_here && is_named) || before)
  unfolding list_eq nat_eq
  route_single true r = rw (first_part-event_key true name)
  route_single false r =
      route_addresses_at S lm lb j m u ((event_key false name, ip) ∷ []) r
        (first_part-event_key false name, tt)
      ∙ ground (
        arith,
        added_here j lb.tcp is_named is_here (r (service_route S lm ipproto_tcp j) (j ∷ m)),
      )

module _ (S : System) (C : Client S.World) (h : S.Handle) (K : IsKernel S h) where
  open K use {view}

  -- The store that the handler fills, before it lists the config maps.
  abbrev pub addressed_store : Pod → Controller S → Text → LbStore
  addressed_store first c ip = record c.plbdata {
    addr = (event_key first.is_deleted first.name, ip) ∷ [];
  }

  -- For a pod of the namespace with a valid address, the handler lists into that store and sends it.
  addr_update_func_parts :
      (first second : Pod) (c : Controller S) (w : S.World) (ip : Text)
      → first.namespace ≡ c.nginx_server
      → first.pod_ip ≢ []
      → validate_ipv4 first.pod_ip ≡ (true, ip)
      → addr_update_func S C first second (c, w) ≡ (
        record c {
          plbdata = (list_cm C c.nginx_server (addressed_store first c ip) w).0.0;
          lbstore = c.lbstore ++ (plb ∷ []);
        },
        (list_cm C c.nginx_server (addressed_store first c ip) w).1,
      )
  unfolding addr_update_func insert
  addr_update_func_parts first second c w ip here addressed valid =
      ground (arith, clear-eq-nil c.plbdata.addr)

  module _ (first second : Pod) (c : Controller S) (w : S.World) (ip : Text) (cms : List ConfigMap)
      (j : ℕ) (m : List ℕ) where
    pub addr_update_func-reconciles :
        first.namespace ≡ c.nginx_server
        → first.pod_ip ≢ []
        → validate_ipv4 first.pod_ip ≡ (true, ip)
        → (first.is_deleted ≡ false → is_ipv4 (parse_ip S.parse_ipv6 ip) ≡ true)
        → c.lvs_manager.handle ≡ some h
        → c.lvs_manager.marked ≡ false
        → CanServe S h K c.lvs_manager.vip c.lvs_manager.sched_name
        → view (list_cm C c.nginx_server (addressed_store first c ip) w).1 ≡ view w
        → Sound c.lvs_manager.vip (view w)
        → IsUnique c.plbdata
        → (C.list_config_maps c.nginx_server w).0 ≡ some cms
        → (list_cm C c.nginx_server (addressed_store first c ip) w).0.1 ≡ none
        → maps_name tcp_service cms 0 ≡ false
        → maps_name udp_service cms 0 ≡ false
        → let s' = addr_update_func S C first second (c, w) in
          let pass = process_func S s'.0 plb s'.1 in
          let before = serves (service_route S c.lvs_manager ipproto_tcp j) (j ∷ m) (view w) in
          let is_here = m == long_form (parse_ip S.parse_ipv6 ip) in
          (pass.0 ≡ ok tt)
          × (serves (service_route S c.lvs_manager ipproto_tcp j) (j ∷ m) (view pass.1) ≡ (
              if first.is_deleted
              then not is_here && before
              else (is_here && maps_name tcp_service cms j) || before))
          × Sound c.lvs_manager.vip (view pass.1)
    addr_update_func-reconciles here located valid parses open_handle unmarked addressed quiet s u
          maps done zero zero' =
        rw (addr_update_func_parts first second c w ip here located valid) (
          pass.0,
          ap (λ r. r k (j ∷ m)) pass.1
              ∙ ap (λ t. route_addresses S c.lvs_manager lb lb.addr (routes t) k (j ∷ m)) quiet
              ∙ ap (λ a. route_addresses S c.lvs_manager lb a (routes (view w)) k (j ∷ m))
                  (list_cm-addr C c.nginx_server (addressed_store first c ip) w)
              ∙ route_single S c.lvs_manager lb unique.tcp j m first.name ip
                  (maps_name tcp_service cms j) (ports j).0 first.is_deleted (routes (view w)),
          pass.2,
        )
      where
        lb : LbStore
        lb = (list_cm C c.nginx_server (addressed_store first c ip) w).0.0

        w₁ : S.World
        w₁ = (list_cm C c.nginx_server (addressed_store first c ip) w).1

        c' : Controller S
        c' = record c { plbdata = lb; lbstore = c.lbstore ++ (plb ∷ []) }

        ports :
            (i : ℕ)
            → (lookup i lb.tcp ≡ (if maps_name tcp_service cms i then some addition else none))
              × (lookup i lb.udp ≡ (if maps_name udp_service cms i then some addition else none))
        ports i =
            let named = list_cm_succeeds C c.nginx_server (addressed_store first c ip) w done in
            let same : named.0 ≡ cms = cc (named.1, maps) in rw (← same) (named.2 i)

        unique : IsUnique lb
        unique = list_cm-IsUnique C c.nginx_server (addressed_store first c ip) w (record {
          addr = (lookup-nil {V = Text} (event_key first.is_deleted first.name), tt);
          tcp = u.tcp;
          udp = u.udp;
        })

        k : List ℕ
        k = service_route S c.lvs_manager ipproto_tcp j

        pass :
            ((process_func S c' plb w₁).0 ≡ ok tt)
            × (routes (view (process_func S c' plb w₁).1)
                ≡ route_addresses S c.lvs_manager lb lb.addr (routes (view w₁)))
            × Sound c.lvs_manager.vip (view (process_func S c' plb w₁).1)
        pass =
            process_func-refines S c' h K plb w₁ open_handle unmarked addressed
              (rw (list_cm-addr C c.nginx_server (addressed_store first c ip) w)
                (if_added first.is_deleted first.name parses, tt))
              (lookup-NonZero lb.tcp ((ports 0).0 ∙ rw zero))
              (lookup-NonZero lb.udp ((ports 0).1 ∙ rw zero')) (rw quiet s)
