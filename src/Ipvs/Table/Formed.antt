-- ===== src/Ipvs/Table/Formed.antt =====
-- The operations keep a table well-formed.
use lvs_nginx_controller.Base.{
  ℕ, ◌≡◌, refl, ◌∙◌, true, false, List, [], ◌∷◌, ◌++◌, nat_eq, list_eq, arith,
}
use lvs_nginx_controller.Net.{Ip}
use lvs_nginx_controller.Ipvs.System.{Service, Destination}
use lvs_nginx_controller.Ipvs.Table.{
  Table, service_key, destination_key, is_complete, is_packed, has_service, destinations,
  has_destination, without, append_service, append_destination, drop_service, drop_destination,
}
use lvs_nginx_controller.Ipvs.Table.Serves.{
  serves, has_destination-append, has_destination-without, has_service-append_service,
  has_service-append_destination, has_service-drop_destination,
}
use lvs_nginx_controller.Ipvs.Table.Strip.{Unique, has_service-drop_service}
use lvs_nginx_controller.Ipvs.Table.Managed.{
  Managed, drop_destination-Managed, drop_service-Managed,
}
use lvs_nginx_controller.Ipvs.Table.Clear.{WellFormed, drop_all, cleared, cleared_each}

Unique-append :
    (ds : List Destination) (d : Destination)
    → is_packed d ≡ true
    → has_destination (destination_key d) ds ≡ false
    → Unique ds
    → Unique (ds ++ (d ∷ []))
unfolding has_destination
Unique-append [] d packed h u = (refl, packed, tt)
Unique-append (e ∷ ds) d packed h (fresh, e-packed, u) = (
  ground (arith, has_destination-append (destination_key e) ds (d ∷ [])),
  e-packed,
  Unique-append ds d packed (ground arith) u,
)

Unique-without : (l : List ℕ) (ds : List Destination) → Unique ds → Unique (without l ds)
unfolding without
Unique-without l [] u = tt
Unique-without l (d ∷ ds) (fresh, packed, u) =
    ground (arith, Unique-without l ds u, has_destination-without (destination_key d) l ds)

pub append_service-WellFormed :
    (s : Service) (t : Table)
    → is_complete s ≡ true
    → has_service (service_key s) t ≡ false
    → WellFormed t
    → WellFormed (append_service s t)
unfolding append_service has_service
append_service-WellFormed s [] complete absent f = (complete, refl, tt, tt)
append_service-WellFormed s ((r, ds) ∷ t) complete absent (c, fresh, u, f) = (
  c,
  ground (arith, has_service-append_service (service_key r) s t),
  u,
  append_service-WellFormed s t complete (ground arith) f,
)

pub append_destination-WellFormed :
    (k : List ℕ) (d : Destination) (t : Table)
    → is_packed d ≡ true
    → serves k (destination_key d) t ≡ false
    → WellFormed t
    → WellFormed (append_destination k d t)
unfolding append_destination serves
append_destination-WellFormed k d [] packed absent f = tt
append_destination-WellFormed k d ((s, ds) ∷ t) packed absent (c, fresh, u, f) = (
  c,
  has_service-append_destination (service_key s) k d t ∙ fresh,
  ground (arith, Unique-append ds d packed),
  append_destination-WellFormed k d t packed (ground arith) f,
)

pub drop_destination-WellFormed :
    (k l : List ℕ) (t : Table) → WellFormed t → WellFormed (drop_destination k l t)
unfolding drop_destination
drop_destination-WellFormed k l [] f = tt
drop_destination-WellFormed k l ((s, ds) ∷ t) (c, fresh, u, f) = (
  c,
  has_service-drop_destination (service_key s) k l t ∙ fresh,
  ground (arith, Unique-without l ds u),
  drop_destination-WellFormed k l t f,
)

pub drop_service-WellFormed :
    (k : List ℕ) (t : Table) → WellFormed t → WellFormed (drop_service k t)
unfolding drop_service
drop_service-WellFormed k [] f = tt
drop_service-WellFormed k ((s, ds) ∷ t) (c, fresh, u, f) =
    ground (arith, drop_service-WellFormed k t f, has_service-drop_service (service_key s) k t)

-- The table belongs to one address, and is well-formed.
abbrev pub Sound : Ip → Table → Type 0
Sound vip t = Managed vip t × WellFormed t

abbrev drop_destination-Sound :
    (vip : Ip) (k l : List ℕ) (t : Table) → Sound vip t → Sound vip (drop_destination k l t)
drop_destination-Sound vip k l t s =
    (drop_destination-Managed vip k l t s.0, drop_destination-WellFormed k l t s.1)

drop_all-Sound :
    (vip a : Ip) (k : List ℕ) (ds : List Destination) (t : Table)
    → Sound vip t
    → Sound vip (drop_all a k ds t)
unfolding drop_all
drop_all-Sound vip a k [] t s = s
drop_all-Sound vip a k (d ∷ ds) t s = ground (
  arith,
  drop_all-Sound vip a k ds t s,
  drop_all-Sound vip a k ds (drop_destination k (destination_key d) t)
      (drop_destination-Sound vip k (destination_key d) t s),
)

cleared-Sound : (vip a : Ip) (k : List ℕ) (t : Table) → Sound vip t → Sound vip (cleared a k t)
cleared-Sound vip a k t s = ground (
  arith,
  drop_all-Sound vip a k (destinations k t) t s,
  drop_service-Managed vip k (drop_all a k (destinations k t) t),
  drop_service-WellFormed k (drop_all a k (destinations k t) t),
)

pub cleared_each-Sound :
    (vip a : Ip) (svcs : List Service) (t : Table) → Sound vip t → Sound vip (cleared_each a svcs t)
unfolding cleared_each
cleared_each-Sound vip a [] t s = s
cleared_each-Sound vip a (r ∷ svcs) t s =
    cleared_each-Sound vip a svcs (cleared a (service_key r) t)
      (cleared-Sound vip a (service_key r) t s)
