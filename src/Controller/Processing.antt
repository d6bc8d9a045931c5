-- ===== src/Controller/Processing.antt =====
-- What the worker makes of a store: `processItem` refines the changes that the store's actions
-- describe, on the set of what the kernel serves.
use lvs_nginx_controller.Base.{
  ℕ, ◌≡◌, ◌≢◌, refl, ◌∙◌, ap, true, false, inl, inr, some, [], ◌∷◌, ◌==◌, if◌then◌else◌, nat_eq,
  list_eq, arith, Bool-cases, ==→eq,
}
use lvs_nginx_controller.Base.Text.{Text, split}
use lvs_nginx_controller.Base.Dict.{Dict}
use lvs_nginx_controller.Net.{parse_ip, is_ipv4}
use lvs_nginx_controller.Store.{LbStore, PortMap, addition, deletion}
use lvs_nginx_controller.Ipvs.Go.{ok}
use lvs_nginx_controller.Ipvs.System.{System}
use lvs_nginx_controller.Ipvs.Manager.{
  LvsManager, service_of, destination_of, add, del, ipproto_tcp, ipproto_udp,
}
use lvs_nginx_controller.Ipvs.Manager.Services.{Supported}
use lvs_nginx_controller.Ipvs.Manager.Sound.{
  Routes, routes, service_route, destination_route, with_route, without_route, without_address,
  add-Sound, del-Sound, del_r_server-Sound,
}
use lvs_nginx_controller.Ipvs.Table.{IsKernel, CanServe, is_complete, is_packed}
use lvs_nginx_controller.Ipvs.Table.Formed.{Sound}
use lvs_nginx_controller.Controller.State.{Controller, Pointer, deref, proto_tcp, proto_udp}
use lvs_nginx_controller.Controller.Worker.{
  process_ports, process_address, process_addresses, process_func, first_part,
}

-- No port of the map is 0, the port that no service can have.
abbrev pub NonZero : PortMap → Type 0
NonZero [] = Unit
NonZero ((port, act) ∷ ports) = (port ≢ 0) × NonZero ports

-- Each address that a store adds parses as one of IPv4.
abbrev pub Parses : System → Dict Text Text → Type 0
Parses S [] = Unit
Parses S ((key, addr) ∷ addrs) =
    (first_part (split 95 key) ≡ addition → is_ipv4 (parse_ip S.parse_ipv6 addr) ≡ true)
    × Parses S addrs

module _ (S : System) (lm : LvsManager S) where
  abbrev added : ℕ → Text → ℕ → Routes → Routes
  added p addr port = with_route (service_route S lm p port) (destination_route S addr port)

  abbrev removed : ℕ → Text → ℕ → Routes → Routes
  removed p addr port = without_route (service_route S lm p port) (destination_route S addr port)

  -- What the action of a port means for an address.
  abbrev pub route_port : ℕ → Text → ℕ → Text → Routes → Routes
  route_port p addr port act r =
      if act == addition
      then added p addr port r
      else if act == deletion
      then removed p addr port r
      else r

  abbrev pub route_ports : ℕ → Text → PortMap → Routes → Routes
  route_ports p addr [] r = r
  route_ports p addr ((port, act) ∷ ports) r =
      route_ports p addr ports (route_port p addr port act r)

  -- What the action of an address means.
  abbrev pub route_address : LbStore → Text → Text → Routes → Routes
  route_address lb key addr r =
      if first_part (split 95 key) == addition
      then route_ports ipproto_udp addr lb.udp (route_ports ipproto_tcp addr lb.tcp r)
      else if first_part (split 95 key) == deletion
      then without_address (parse_ip S.parse_ipv6 addr) r
      else r

  abbrev pub route_addresses : LbStore → Dict Text Text → Routes → Routes
  route_addresses lb [] r = r
  route_addresses lb ((key, addr) ∷ addrs) r =
      route_addresses lb addrs (route_address lb key addr r)

module _ (S : System) (h : S.Handle) (K : IsKernel S h) (lm : LvsManager S)
    (open_handle : lm.handle ≡ some h) (unmarked : lm.marked ≡ false)
    (addressed : CanServe S h K lm.vip lm.sched_name) where
  open K use {view}

  complete : (p port : ℕ) → p ≢ 0 → port ≢ 0 → is_complete (service_of S lm port p 0) ≡ true
  unfolding is_complete service_of nat_eq
  complete p port h k = ground (arith, addressed.0)

  packed :
      (addr : Text) (port : ℕ)
      → is_ipv4 (parse_ip S.parse_ipv6 addr) ≡ true
      → is_packed (destination_of S addr port) ≡ true
  unfolding is_packed destination_of nat_eq
  packed addr port parses = parses

  process_ports_lem :
      (addr : Text) (p : ℕ) (proto : Text) (ports : PortMap) (w : S.World)
      → is_ipv4 (parse_ip S.parse_ipv6 addr) ≡ true
      → p ≢ 0
      → Supported proto p
      → NonZero ports
      → Sound lm.vip (view w)
      → ((process_ports S lm addr proto ports w).0 ≡ ok tt)
        × (routes (view (process_ports S lm addr proto ports w).1)
            ≡ route_ports S lm p addr ports (routes (view w)))
        × Sound lm.vip (view (process_ports S lm addr proto ports w).1)
  unfolding process_ports
  process_ports_lem addr p proto [] w parses q supported z s = (refl, refl, s)
  process_ports_lem addr p proto ((port, act) ∷ ports) w parses q supported (nonzero, z) s =
      elim (Bool-cases (act == addition)) [
        | inl e ↦
            let here =
              add-Sound S h K lm open_handle unmarked addr port p proto w supported
                (complete p port q nonzero) (packed addr port parses) addressed.1 s in
            let rest =
              process_ports_lem addr p proto ports (add S lm addr port proto w).1 parses q supported
                z here.2 in
            rw (e, here.0) (rest.0, rest.1 ∙ ap (route_ports S lm p addr ports) here.1, rest.2)
        | inr e ↦ elim (Bool-cases (act == deletion)) [
          | inl e' ↦
              let here =
                del-Sound S h K lm open_handle unmarked addr port p proto w supported
                  (complete p port q nonzero) (packed addr port parses) s in
              let rest =
                process_ports_lem addr p proto ports (del S lm addr port proto w).1 parses q
                  supported z here.2 in
              rw (e, e', here.0)
                (rest.0, rest.1 ∙ ap (route_ports S lm p addr ports) here.1, rest.2)
          | inr e' ↦
              let rest = process_ports_lem addr p proto ports w parses q supported z s in
              rw (e, e') rest
        ]
      ]

  module _ (lb : LbStore) (tcp_ports : NonZero lb.tcp) (udp_ports : NonZero lb.udp) where
    process_address_lem :
        (key addr : Text) (w : S.World)
        → (first_part (split 95 key) ≡ addition → is_ipv4 (parse_ip S.parse_ipv6 addr) ≡ true)
        → Sound lm.vip (view w)
        → ((process_address S lm lb key addr w).0 ≡ ok tt)
          × (routes (view (process_address S lm lb key addr w).1)
              ≡ route_address S lm lb key addr (routes (view w)))
          × Sound lm.vip (view (process_address S lm lb key addr w).1)
    unfolding process_address
    process_address_lem key addr w parses s =
        elim (Bool-cases (first_part (split 95 key) == addition)) [
          | inl e ↦
              let tcp =
                process_ports_lem addr ipproto_tcp proto_tcp lb.tcp w (parses (==→eq _ _ e))
                  (omega arith) (inl (refl, refl)) tcp_ports s in
              let udp =
                process_ports_lem addr ipproto_udp proto_udp lb.udp
                  (process_ports S lm addr proto_tcp lb.tcp w).1 (parses (==→eq _ _ e))
                  (omega arith) (inr (refl, refl)) udp_ports tcp.2 in
              rw (e, tcp.0)
                (udp.0, udp.1 ∙ ap (route_ports S lm ipproto_udp addr lb.udp) tcp.1, udp.2)
          | inr e ↦ elim (Bool-cases (first_part (split 95 key) == deletion)) [
            | inl e' ↦
                let gone = del_r_server-Sound S h K lm open_handle unmarked addr w s in
                rw (e, e', gone.0) (refl, gone.1, gone.2)
            | inr e' ↦ rw (e, e') (refl, refl, s)
          ]
        ]

    process_addresses_lem :
        (addrs : Dict Text Text) (w : S.World)
        → Parses S addrs
        → Sound lm.vip (view w)
        → ((process_addresses S lm lb addrs w).0 ≡ ok tt)
          × (routes (view (process_addresses S lm lb addrs w).1)
              ≡ route_addresses S lm lb addrs (routes (view w)))
          × Sound lm.vip (view (process_addresses S lm lb addrs w).1)
    unfolding process_addresses
    process_addresses_lem [] w all s = (refl, refl, s)
    process_addresses_lem ((key, addr) ∷ addrs) w (parses, all) s =
        let here = process_address_lem key addr w parses s in
        let rest = process_addresses_lem addrs (process_address S lm lb key addr w).1 all here.2 in
        rw here.0 (rest.0, rest.1 ∙ ap (route_addresses S lm lb addrs) here.1, rest.2)

-- The worker's pass over a received store, with an open handle, a virtual address of IPv4, a
-- scheduler that the kernel knows, no marks, no port 0 in the store and addresses of IPv4 wherever
-- it adds one, ends without a panic, and changes what the kernel serves by the store's
-- actions in the order of the entries. The table stays well-formed.
pub process_func-refines :
    (S : System) (C : Controller S) (h : S.Handle) (K : IsKernel S h) (p : Pointer) (w : S.World)
    (open_handle : C.lvs_manager.handle ≡ some h) (unmarked : C.lvs_manager.marked ≡ false)
    (addressed : CanServe S h K C.lvs_manager.vip C.lvs_manager.sched_name)
    → Parses S (deref S p C).addr
    → NonZero (deref S p C).tcp
    → NonZero (deref S p C).udp
    → Sound C.lvs_manager.vip (K.view w)
    → ((process_func S C p w).0 ≡ ok tt)
      × (routes (K.view (process_func S C p w).1)
          ≡ route_addresses S C.lvs_manager (deref S p C) (deref S p C).addr (routes (K.view w)))
      × Sound C.lvs_manager.vip (K.view (process_func S C p w).1)
unfolding process_func
process_func-refines S C h K p w open_handle unmarked addressed parses tcp_ports udp_ports s =
    process_addresses_lem S h K C.lvs_manager open_handle unmarked addressed (deref S p C) tcp_ports
      udp_ports (deref S p C).addr w parses s
