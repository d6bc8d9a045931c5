-- ===== src/Controller/FirstPass.antt =====
-- From the start to the kernel: what `Initial` and the worker's pass over its store make of the
-- served routes.
use mathlib.Core.Path.{subst}
use lvs_nginx_controller.Base.{
  ℕ, ◌≡◌, refl, sym, ◌∙◌, ap, Bool, false, ◌&&◌, none, some, List, [], ◌∷◌, if◌then◌else◌, nat_eq,
  list_eq, arith, Option-cases, inl, inr,
}
use lvs_nginx_controller.Base.Text.{Text}
use lvs_nginx_controller.Base.Dict.{lookup, has}
use lvs_nginx_controller.Store.{LbStore, PortMap, addition}
use lvs_nginx_controller.Ipvs.Go.{ok}
use lvs_nginx_controller.Ipvs.System.{System}
use lvs_nginx_controller.Ipvs.Manager.{ipproto_tcp}
use lvs_nginx_controller.Ipvs.Manager.Sound.{routes, service_route}
use lvs_nginx_controller.Ipvs.Table.{IsKernel, CanServe}
use lvs_nginx_controller.Ipvs.Table.Serves.{serves}
use lvs_nginx_controller.Ipvs.Table.Formed.{Sound}
use lvs_nginx_controller.Controller.Cluster.{ConfigMap, Client}
use lvs_nginx_controller.Controller.State.{Controller, plb, tcp_service, udp_service}
use lvs_nginx_controller.Controller.Listing.{list_cm, list_nginx, list_nginx_ports, list_cm-addr}
use lvs_nginx_controller.Controller.Listed.{maps_name, list_cm_succeeds}
use lvs_nginx_controller.Controller.Handlers.{initial}
use lvs_nginx_controller.Controller.Unique.{IsUnique, list_cm-IsUnique, list_nginx-IsUnique}
use lvs_nginx_controller.Controller.Worker.{process_func}
use lvs_nginx_controller.Controller.Processing.{process_func-refines, Parses, route_addresses}
use lvs_nginx_controller.Controller.Routing.{AllAdding, holds_address, route_addresses_at, decided}
use lvs_nginx_controller.Controller.Reconcile.{lookup-NonZero, list_nginx-AllAdding}

module _ (S : System) (C : Client S.World) (c : Controller S) (w : S.World) where
  abbrev listed : LbStore
  listed = (list_cm C c.nginx_server c.plbdata w).0.0

  abbrev listed_world : S.World
  listed_world = (list_cm C c.nginx_server c.plbdata w).1

  -- An `Initial` without an error is the two listings, one after the other.
  initial_parts :
      (initial S C (c, w)).0 ≡ none
      → ((list_cm C c.nginx_server c.plbdata w).0.1 ≡ none)
        × ((initial S C (c, w)).1.0.plbdata ≡ (list_nginx C c.nginx_server listed listed_world).0.0)
        × ((initial S C (c, w)).1.0.lvs_manager ≡ c.lvs_manager)
        × ((initial S C (c, w)).1.1 ≡ (list_nginx C c.nginx_server listed listed_world).1)
  unfolding initial
  initial_parts = elim (Option-cases (list_cm C c.nginx_server c.plbdata w).0.1) [
    | inr (x, e) ↦ rw (e, initial) (λ h. cc)
    | inl e ↦ elim (Option-cases (list_nginx C c.nginx_server listed listed_world).0.1) [
      | inr (x, f) ↦ rw (e, f, initial) (λ h. cc)
      | inl f ↦ rw (e, f, initial) (λ h. (refl, refl, refl, refl))
    ]
  ]

  -- After an `Initial` without an error, its store marks for addition exactly the ports that the
  -- listed config maps for TCP and for UDP name, whatever it held before.
  pub initial_ports :
      (initial S C (c, w)).0 ≡ none
      → let lb = (initial S C (c, w)).1.0.plbdata in
        (cms : List ConfigMap) × ((C.list_config_maps c.nginx_server w).0 ≡ some cms)
        × ((j : ℕ)
            → (lookup j lb.tcp ≡ (if maps_name tcp_service cms j then some addition else none))
              × (lookup j lb.udp ≡ (if maps_name udp_service cms j then some addition else none)))
  initial_ports done =
      let parts = initial_parts done in
      let named = list_cm_succeeds C c.nginx_server c.plbdata w parts.0 in
      let same = list_nginx_ports C c.nginx_server listed listed_world in
      (named.0, named.1, λ j. rw (parts.1, same.0, same.1) (named.2 j))

-- A port of a store that marks only additions is served after the pass.
added_only :
    (j : ℕ) (ports : PortMap) (is_named is_held : Bool)
    → lookup j ports ≡ (if is_named then some addition else none)
    → (if is_held then decided (lookup j ports) false else false) ≡ (has j ports && is_held)
unfolding list_eq nat_eq
added_only j ports is_named is_held e = ground arith

module _ (S : System) (C : Client S.World) (h : S.Handle) (K : IsKernel S h) where
  open K use {view}

  -- Let `Initial` return no error on an empty table, and let the worker then pass over its store.
  -- The pass ends without a panic, the table is well-formed, and among the routes of TCP it serves
  -- exactly those whose port and address stand in the store. This is with an open handle, a virtual
  -- address of IPv4, a scheduler that the kernel knows, no marks, no port 0 in the store, whose
  -- addresses parse as addresses of IPv4, a client that does not touch the kernel, and an earlier
  -- store without double entries and with only additions among its addresses.
  pub initial-reconciles :
      (c : Controller S) (w : S.World) (j : ℕ) (m : List ℕ)
      (open_handle : c.lvs_manager.handle ≡ some h) (unmarked : c.lvs_manager.marked ≡ false)
      (addressed : CanServe S h K c.lvs_manager.vip c.lvs_manager.sched_name)
      (quiet_pods : (namespace : Text) (w' : S.World) → view (C.list_pods namespace w').1 ≡ view w')
      (quiet_maps : (namespace : Text) (w' : S.World)
        → view (C.list_config_maps namespace w').1 ≡ view w')
      → view w ≡ []
      → IsUnique c.plbdata
      → AllAdding c.plbdata.addr
      → (initial S C (c, w)).0 ≡ none
      → let s' = (initial S C (c, w)).1 in
        let lb = s'.0.plbdata in
        let pass = process_func S s'.0 plb s'.1 in
        lookup 0 lb.tcp ≡ none
        → lookup 0 lb.udp ≡ none
        → Parses S lb.addr
        → (pass.0 ≡ ok tt)
          × (serves (service_route S c.lvs_manager ipproto_tcp j) (j ∷ m) (view pass.1)
              ≡ (has j lb.tcp && holds_address S lb.addr m))
          × Sound c.lvs_manager.vip (view pass.1)
  unfolding list_cm list_nginx serves
  initial-reconciles c w j m open_handle unmarked addressed quiet_pods quiet_maps empty u all done
        zero zero' parses =
      (
        pass.0,
        route,
        subst
            (λ lm.
              Sound lm.vip
                (view (process_func S (initial S C (c, w)).1.0 plb (initial S C (c, w)).1.1).1))
            parts.2 pass.2,
      )
    where
      parts :
          ((list_cm C c.nginx_server c.plbdata w).0.1 ≡ none)
          × ((initial S C (c, w)).1.0.plbdata
              ≡ (list_nginx C c.nginx_server (listed S C c w) (listed_world S C c w)).0.0)
          × ((initial S C (c, w)).1.0.lvs_manager ≡ c.lvs_manager)
          × ((initial S C (c, w)).1.1
              ≡ (list_nginx C c.nginx_server (listed S C c w) (listed_world S C c w)).1)
      parts = initial_parts S C c w done

      s' : Controller S × S.World
      s' = (initial S C (c, w)).1

      same_view : view s'.1 ≡ []
      same_view = rw (parts.3, quiet_pods, quiet_maps) empty

      adding : AllAdding s'.0.plbdata.addr
      adding = rw parts.1 (
          list_nginx-AllAdding C c.nginx_server (listed S C c w) (listed_world S C c w)
            (rw (list_cm-addr C c.nginx_server c.plbdata w) all))

      unique : IsUnique s'.0.plbdata
      unique = rw parts.1 (
          list_nginx-IsUnique C c.nginx_server (listed S C c w) (listed_world S C c w)
            (list_cm-IsUnique C c.nginx_server c.plbdata w u))

      ports :
          (cms : List ConfigMap) × ((C.list_config_maps c.nginx_server w).0 ≡ some cms)
          × ((i : ℕ)
              → (lookup i s'.0.plbdata.tcp
                  ≡ (if maps_name tcp_service cms i then some addition else none))
                × (lookup i s'.0.plbdata.udp
                    ≡ (if maps_name udp_service cms i then some addition else none)))
      ports = initial_ports S C c w done

      pass :
          ((process_func S s'.0 plb s'.1).0 ≡ ok tt)
          × (routes (view (process_func S s'.0 plb s'.1).1)
              ≡ route_addresses S s'.0.lvs_manager s'.0.plbdata s'.0.plbdata.addr
                  (routes (view s'.1)))
          × Sound s'.0.lvs_manager.vip (view (process_func S s'.0 plb s'.1).1)
      pass =
          process_func-refines S s'.0 h K plb s'.1 (rw parts.2 open_handle) (rw parts.2 unmarked)
            (rw parts.2 addressed) parses (lookup-NonZero s'.0.plbdata.tcp zero)
            (lookup-NonZero s'.0.plbdata.udp zero') (rw same_view (tt, tt))

      route :
          serves
            (service_route S c.lvs_manager ipproto_tcp j)
            (j ∷ m)
            (view (process_func S s'.0 plb s'.1).1)
          ≡ (has j s'.0.plbdata.tcp && holds_address S s'.0.plbdata.addr m)
      route =
          ap
            (λ lm.
              serves (service_route S lm ipproto_tcp j) (j ∷ m)
                (view (process_func S s'.0 plb s'.1).1))
            (sym parts.2)
          ∙ (ap (λ r. r (service_route S s'.0.lvs_manager ipproto_tcp j) (j ∷ m)) pass.1
              ∙ route_addresses_at S s'.0.lvs_manager s'.0.plbdata j m unique.tcp s'.0.plbdata.addr
                  (routes (view s'.1)) adding
              ∙ rw same_view (
                  added_only j s'.0.plbdata.tcp (maps_name tcp_service ports.0 j)
                    (holds_address S s'.0.plbdata.addr m) (ports.2 j).0))
