-- ===== src/Ipvs/Table/Managed.antt =====
-- Tables whose services all belong to one virtual address, without marks. There the tests of the
-- program, which compare protocols, ports and addresses, agree with the kernel's keys.
use lvs_nginx_controller.Base.{ℕ, ◌≡◌, refl, ◌&&◌, List, [], ◌∷◌, ◌==◌, nat_eq, list_eq, arith}
use lvs_nginx_controller.Net.{Ip, long_form, ip_equal}
use lvs_nginx_controller.Ipvs.System.{Service, Destination, System}
use lvs_nginx_controller.Ipvs.Manager.{service_exists, destination_exists}
use lvs_nginx_controller.Ipvs.Table.{
  Table, listed, services, service_key, destination_key, has_service, has_destination,
  append_service, append_destination, drop_destination, drop_service,
}

-- Every service of the table stands at the address `vip` and has no mark.
abbrev pub Managed : Ip → Table → Type 0
Managed vip [] = Unit
Managed vip ((s, ds) ∷ t) = (service_key s ≡ s.protocol ∷ s.port ∷ long_form vip) × Managed vip t

list_eq-cons : (a b : ℕ) (x y : List ℕ) → ((a ∷ x) == (b ∷ y)) ≡ (a == b && x == y)
list_eq-cons a b x y = ground arith

pub service_key_unmarked :
    (s : Service) → s.fw_mark ≡ 0 → service_key s ≡ s.protocol ∷ s.port ∷ long_form s.address
unfolding service_key
service_key_unmarked s unmarked = ground arith

service_test :
    (svc s : Service)
    → svc.fw_mark ≡ 0
    → service_key s ≡ s.protocol ∷ s.port ∷ long_form svc.address
    → (s.port == svc.port && s.protocol == svc.protocol) ≡ (service_key s == service_key svc)
service_test svc s unmarked e = rw (e, service_key_unmarked svc unmarked) (ground arith)

-- A service with the key of an unmarked one is listed as it is.
listed_managed : (s : Service) (a b : ℕ) (k : List ℕ) → service_key s ≡ a ∷ b ∷ k → listed s ≡ s
unfolding service_key listed
listed_managed s a b k e = ground arith

module _ (S : System) where
  pub service_exists-has_service :
      (svc : Service) (t : Table)
      → svc.fw_mark ≡ 0
      → Managed svc.address t
      → service_exists S svc (services t) ≡ has_service (service_key svc) t
  unfolding service_exists has_service
  service_exists-has_service svc [] unmarked m = refl
  service_exists-has_service svc ((s, ds) ∷ t) unmarked (e, m) =
      rw (listed_managed s s.protocol s.port (long_form svc.address) e)
        (ground (arith, service_test svc s unmarked e, service_exists-has_service svc t unmarked m))

  pub destination_exists-has_destination :
      (dst : Destination) (dsts : List Destination)
      → destination_exists S dst dsts ≡ has_destination (destination_key dst) dsts
  unfolding destination_exists has_destination destination_key ip_equal
  destination_exists-has_destination dst [] = refl
  destination_exists-has_destination dst (d ∷ dsts) = ground (
    arith,
    list_eq-cons d.port dst.port (long_form d.address) (long_form dst.address),
    destination_exists-has_destination dst dsts,
  )

pub append_service-Managed :
    (s : Service) (t : Table)
    → s.fw_mark ≡ 0
    → Managed s.address t
    → Managed s.address (append_service s t)
unfolding append_service
append_service-Managed s [] unmarked m = (service_key_unmarked s unmarked, tt)
append_service-Managed s ((r, ds) ∷ t) unmarked m = (m.0, append_service-Managed s t unmarked m.1)

pub append_destination-Managed :
    (vip : Ip) (k : List ℕ) (d : Destination) (t : Table)
    → Managed vip t
    → Managed vip (append_destination k d t)
unfolding append_destination
append_destination-Managed vip k d [] m = tt
append_destination-Managed vip k d ((s, ds) ∷ t) m = (m.0, append_destination-Managed vip k d t m.1)

pub drop_destination-Managed :
    (vip : Ip) (k l : List ℕ) (t : Table) → Managed vip t → Managed vip (drop_destination k l t)
unfolding drop_destination
drop_destination-Managed vip k l [] m = tt
drop_destination-Managed vip k l ((s, ds) ∷ t) m = (m.0, drop_destination-Managed vip k l t m.1)

pub drop_service-Managed :
    (vip : Ip) (k : List ℕ) (t : Table) → Managed vip t → Managed vip (drop_service k t)
unfolding drop_service
drop_service-Managed vip k [] m = tt
drop_service-Managed vip k ((s, ds) ∷ t) m = ground (arith, drop_service-Managed vip k t m.1)
