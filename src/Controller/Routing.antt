-- ===== src/Controller/Routing.antt =====
-- What the actions of a store make of a single route, by lookups in the store.
use lvs_nginx_controller.Base.{
  ℕ, ◌≡◌, ◌≢◌, refl, ◌∙◌, ap, Bool, true, false, ◌&&◌, ◌||◌, Option, none, some, List, [], ◌∷◌,
  ◌==◌, if◌then◌else◌, nat_eq, list_eq, arith,
}
use lvs_nginx_controller.Base.Text.{Text, split}
use lvs_nginx_controller.Base.Dict.{Dict, lookup, NodupKeys, lookup-nil, lookup-cons}
use lvs_nginx_controller.Net.{parse_ip, long_form}
use lvs_nginx_controller.Store.{LbStore, PortMap, addition, deletion}
use lvs_nginx_controller.Ipvs.System.{System}
use lvs_nginx_controller.Ipvs.Manager.{
  LvsManager, service_of, destination_of, ipproto_tcp, ipproto_udp,
}
use lvs_nginx_controller.Ipvs.Manager.Sound.{Routes, service_route}
use lvs_nginx_controller.Ipvs.Table.{service_key, destination_key}
use lvs_nginx_controller.Controller.Processing.{
  route_port, route_ports, route_address, route_addresses,
}
use lvs_nginx_controller.Controller.Worker.{first_part}

-- What an action makes of whether a route is served.
abbrev acted : Text → Bool → Bool
acted act b = if act == addition then true else if act == deletion then false else b

abbrev pub decided : Option Text → Bool → Bool
decided none b = b
decided (some act) b = acted act b

module _ (S : System) (lm : LvsManager S) (p : ℕ) (j : ℕ) (m : List ℕ) where
  -- Whether the routes have the destination of address m and port j under port j.
  abbrev at_port : Routes → Bool
  at_port r = r (service_route S lm p j) (j ∷ m)

  abbrev is_here : Text → Bool
  is_here addr = long_form (parse_ip S.parse_ipv6 addr) == m

  route_port_at :
      (q : ℕ) (addr : Text) (port : ℕ) (act : Text) (r : Routes)
      → at_port (route_port S lm q addr port act r)
        ≡ (if q == p && (port == j && is_here addr) then acted act (at_port r) else at_port r)
  unfolding service_key service_of destination_key destination_of list_eq nat_eq
  route_port_at q addr port act r = ground arith

  route_ports_at :
      (addr : Text) (ports : PortMap) (r : Routes)
      → NodupKeys ports
      → at_port (route_ports S lm p addr ports r)
        ≡ (if is_here addr then decided (lookup j ports) (at_port r) else at_port r)
  route_ports_at addr [] r u = ground (arith, lookup-nil {V = Text} j)
  route_ports_at addr ((port, act) ∷ ports) r (fresh, u) = ground (
    arith,
    route_ports_at addr ports (route_port S lm p addr port act r) u,
    route_port_at p addr port act r,
    lookup-cons j port act ports,
  )

  route_ports_other :
      (q : ℕ) (addr : Text) (ports : PortMap) (r : Routes)
      → q ≢ p
      → at_port (route_ports S lm q addr ports r) ≡ at_port r
  route_ports_other q addr [] r other = refl
  route_ports_other q addr ((port, act) ∷ ports) r other = ground (
    arith,
    route_ports_other q addr ports (route_port S lm q addr port act r) other,
    route_port_at q addr port act r,
  )

-- All addresses of the store are to be added.
abbrev pub AllAdding : Dict Text Text → Type 0
AllAdding [] = Unit
AllAdding ((key, addr) ∷ addrs) = (first_part (split 95 key) ≡ addition) × AllAdding addrs

-- Some address of the store parses as m.
abbrev pub holds_address : System → Dict Text Text → List ℕ → Bool
holds_address S [] m = false
holds_address S ((key, addr) ∷ addrs) m =
    long_form (parse_ip S.parse_ipv6 addr) == m || holds_address S addrs m

decided_twice : (o : Option Text) (b : Bool) → decided o (decided o b) ≡ decided o b
unfolding list_eq nat_eq
decided_twice none b = refl
decided_twice (some act) b = ground arith

module _ (S : System) (lm : LvsManager S) (lb : LbStore) (j : ℕ) (m : List ℕ) where
  -- The ports that decide on the routes of protocol p.
  abbrev Deciding : ℕ → PortMap → Type 0
  Deciding p ports =
      (addr : Text) (r : Routes)
      → at_port S lm p j m
          (route_ports S lm ipproto_udp addr lb.udp (route_ports S lm ipproto_tcp addr lb.tcp r))
        ≡ (if is_here S lm p j m addr
            then decided (lookup j ports) (at_port S lm p j m r)
            else at_port S lm p j m r)

  tcp-Deciding : NodupKeys lb.tcp → Deciding ipproto_tcp lb.tcp
  tcp-Deciding u addr r =
      route_ports_other S lm ipproto_tcp j m ipproto_udp addr lb.udp
        (route_ports S lm ipproto_tcp addr lb.tcp r) (omega arith)
      ∙ route_ports_at S lm ipproto_tcp j m addr lb.tcp r u

  udp-Deciding : NodupKeys lb.udp → Deciding ipproto_udp lb.udp
  udp-Deciding u addr r =
      route_ports_at S lm ipproto_udp j m addr lb.udp (route_ports S lm ipproto_tcp addr lb.tcp r) u
      ∙ ap (λ b. if is_here S lm ipproto_udp j m addr then decided (lookup j lb.udp) b else b)
          (route_ports_other S lm ipproto_udp j m ipproto_tcp addr lb.tcp r (omega arith))

  module _ (p : ℕ) (ports : PortMap) (d : Deciding p ports) where
    route_address_at :
        (key addr : Text) (r : Routes)
        → first_part (split 95 key) ≡ addition
        → at_port S lm p j m (route_address S lm lb key addr r) ≡ (
            if is_here S lm p j m addr
            then decided (lookup j ports) (at_port S lm p j m r)
            else at_port S lm p j m r)
    unfolding list_eq nat_eq
    route_address_at key addr r adding = rw adding (d addr r)

    deciding_addresses_at :
        (addrs : Dict Text Text) (r : Routes)
        → AllAdding addrs
        → at_port S lm p j m (route_addresses S lm lb addrs r) ≡ (
            if holds_address S addrs m
            then decided (lookup j ports) (at_port S lm p j m r)
            else at_port S lm p j m r)
    deciding_addresses_at [] r all = refl
    deciding_addresses_at ((key, addr) ∷ addrs) r (adding, all) = ground (
      arith,
      deciding_addresses_at addrs (route_address S lm lb key addr r) all,
      route_address_at key addr r adding,
      decided_twice (lookup j ports) (at_port S lm p j m r),
    )

  pub route_addresses_at :
      (u : NodupKeys lb.tcp) (addrs : Dict Text Text) (r : Routes)
      → AllAdding addrs
      → at_port S lm ipproto_tcp j m (route_addresses S lm lb addrs r) ≡ (
          if holds_address S addrs m
          then decided (lookup j lb.tcp) (at_port S lm ipproto_tcp j m r)
          else at_port S lm ipproto_tcp j m r)
  route_addresses_at u = deciding_addresses_at ipproto_tcp lb.tcp (tcp-Deciding u)

  pub route_addresses_at_udp :
      (u : NodupKeys lb.udp) (addrs : Dict Text Text) (r : Routes)
      → AllAdding addrs
      → at_port S lm ipproto_udp j m (route_addresses S lm lb addrs r) ≡ (
          if holds_address S addrs m
          then decided (lookup j lb.udp) (at_port S lm ipproto_udp j m r)
          else at_port S lm ipproto_udp j m r)
  route_addresses_at_udp u = deciding_addresses_at ipproto_udp lb.udp (udp-Deciding u)
