-- ===== src/Ipvs/Table/Clear.antt =====
-- The loops of `DelRServer` as functions on tables.
use mathlib.Core.List.{append-nil}
use mathlib.Core.Path.{subst}
use lvs_nginx_controller.Base.{
  ℕ, ◌≡◌, refl, sym, Bool, true, false, not, ◌&&◌, ◌||◌, List, [], ◌∷◌, ◌==◌, if◌then◌else◌, nat_eq,
  list_eq, arith, All,
}
use lvs_nginx_controller.Net.{Ip, ip_equal}
use lvs_nginx_controller.Ipvs.System.{Service, Destination}
use lvs_nginx_controller.Ipvs.Manager.{is_empty}
use lvs_nginx_controller.Ipvs.Table.{
  Table, services, service_key, destination_key, is_complete, has_service, destinations,
  drop_service, drop_destination,
}
use lvs_nginx_controller.Ipvs.Table.Serves.{
  has_service-drop_destination, service_key-listed, is_complete-listed,
}
use lvs_nginx_controller.Ipvs.Table.Strip.{
  strip, strip_keys, strip_keys_self, Unique, destinations-drop_destination,
  destinations-drop_service, has_service-drop_service, destinations_of_absent,
}

-- The inner loop as a function on tables.
unfoldable pub drop_all : Ip → List ℕ → List Destination → Table → Table
drop_all a k [] t = t
drop_all a k (d ∷ ds) t =
    drop_all a k ds (if ip_equal d.address a then drop_destination k (destination_key d) t else t)

destinations-drop_all :
    (a : Ip) (j k : List ℕ) (ds : List Destination) (t : Table)
    → destinations j (drop_all a k ds t)
      ≡ (if k == j then strip_keys a ds (destinations j t) else destinations j t)
unfolding drop_all strip_keys
destinations-drop_all a j k [] t = ground arith
destinations-drop_all a j k (d ∷ ds) t = ground (
  arith,
  destinations-drop_all a j k ds t,
  destinations-drop_all a j k ds (drop_destination k (destination_key d) t),
  destinations-drop_destination j k (destination_key d) t,
)

pub has_service-drop_all :
    (a : Ip) (j k : List ℕ) (ds : List Destination) (t : Table)
    → has_service j (drop_all a k ds t) ≡ has_service j t
unfolding drop_all
has_service-drop_all a j k [] t = refl
has_service-drop_all a j k (d ∷ ds) t = ground (
  arith,
  has_service-drop_all a j k ds t,
  has_service-drop_all a j k ds (drop_destination k (destination_key d) t),
  has_service-drop_destination j k (destination_key d) t,
)

-- The loop's body as a function on tables.
abbrev pub cleared : Ip → List ℕ → Table → Table
cleared a k t =
    let t' = drop_all a k (destinations k t) t in
    if is_empty (destinations k t') then drop_service k t' else t'

destinations-cleared :
    (a : Ip) (j k : List ℕ) (t : Table)
    → destinations j (cleared a k t)
      ≡ (if k == j then strip a (destinations j t) else destinations j t)
destinations-cleared a j k t = ground (
  arith,
  destinations-drop_all a j k (destinations k t) t,
  destinations-drop_service j k (drop_all a k (destinations k t) t),
  strip_keys_self a (destinations k t),
)

has_service-cleared :
    (a : Ip) (j k : List ℕ) (t : Table)
    → has_service j (cleared a k t)
      ≡ (has_service j t && not (k == j && is_empty (strip a (destinations j t))))
has_service-cleared a j k t = ground (
  arith,
  destinations-drop_all a k k (destinations k t) t,
  has_service-drop_all a j k (destinations k t) t,
  has_service-drop_service j k (drop_all a k (destinations k t) t),
  strip_keys_self a (destinations k t),
)

-- What the outer loop needs of a service that it has still to visit.
abbrev pub IsReady : Table → Service → Type 0
IsReady t s =
    (is_complete s ≡ true)
    × (has_service (service_key s) t ≡ true)
    × Unique (destinations (service_key s) t)

abbrev pub DistinctKeys : List Service → Type 0
DistinctKeys [] = Unit
DistinctKeys (s ∷ svcs) =
    All (λ r. (service_key s == service_key r) ≡ false) svcs × DistinctKeys svcs

unchanged :
    (a : Ip) (k : List ℕ) (t : Table) (j : List ℕ)
    → (k == j) ≡ false
    → destinations j (cleared a k t) ≡ destinations j t
unchanged a k t j other = ground (arith, destinations-cleared a j k t)

IsReady-cleared :
    (a : Ip) (k : List ℕ) (t : Table) (r : Service)
    → (k == service_key r) ≡ false
    → IsReady t r
    → IsReady (cleared a k t) r
IsReady-cleared a k t r other ready = (
  ready.0,
  ground (arith, has_service-cleared a (service_key r) k t),
  subst Unique (sym (unchanged a k t (service_key r) other)) ready.2,
)

pub IsReady-cleared_each :
    (a : Ip) (k : List ℕ) (t : Table) (svcs : List Service)
    → All (λ r. (k == service_key r) ≡ false) svcs
    → All (IsReady t) svcs
    → All (IsReady (cleared a k t)) svcs
IsReady-cleared_each a k t [] other ready = tt
IsReady-cleared_each a k t (r ∷ svcs) other ready =
    (IsReady-cleared a k t r other.0 ready.0, IsReady-cleared_each a k t svcs other.1 ready.1)

-- One of the services has the key.
abbrev pub keyed : List Service → List ℕ → Bool
keyed [] j = false
keyed (s ∷ svcs) j = service_key s == j || keyed svcs j

pub keyed-services : (t : Table) (j : List ℕ) → keyed (services t) j ≡ has_service j t
unfolding has_service
keyed-services [] j = refl
keyed-services ((s, ds) ∷ t) j = ground (arith, keyed-services t j, service_key-listed s)

strip_idem : (a : Ip) (ds : List Destination) → strip a (strip a ds) ≡ strip a ds
unfolding strip
strip_idem a [] = refl
strip_idem a (d ∷ ds) = ground (arith, strip_idem a ds)

unfoldable pub cleared_each : Ip → List Service → Table → Table
cleared_each a [] t = t
cleared_each a (s ∷ svcs) t = cleared_each a svcs (cleared a (service_key s) t)

pub destinations-cleared_each :
    (a : Ip) (svcs : List Service) (t : Table) (j : List ℕ)
    → destinations j (cleared_each a svcs t)
      ≡ (if keyed svcs j then strip a (destinations j t) else destinations j t)
unfolding cleared_each
destinations-cleared_each a [] t j = refl
destinations-cleared_each a (s ∷ svcs) t j = ground (
  arith,
  destinations-cleared_each a svcs (cleared a (service_key s) t) j,
  destinations-cleared a j (service_key s) t,
  strip_idem a (destinations j t),
)

pub has_service-cleared_each :
    (a : Ip) (svcs : List Service) (t : Table) (j : List ℕ)
    → has_service j (cleared_each a svcs t)
      ≡ (has_service j t && not (keyed svcs j && is_empty (strip a (destinations j t))))
unfolding cleared_each
has_service-cleared_each a [] t j = ground arith
has_service-cleared_each a (s ∷ svcs) t j = ground (
  arith,
  has_service-cleared_each a svcs (cleared a (service_key s) t) j,
  has_service-cleared a j (service_key s) t,
  destinations-cleared a j (service_key s) t,
  strip_idem a (destinations j t),
)

-- As the kernel keeps it: the services are complete and have keys of their own, and the
-- destinations of a service have addresses of their family and keys of their own.
abbrev pub WellFormed : Table → Type 0
WellFormed [] = Unit
WellFormed ((s, ds) ∷ t) =
    (is_complete s ≡ true) × (has_service (service_key s) t ≡ false) × Unique ds × WellFormed t

IsReady-cons :
    (s : Service) (ds : List Destination) (t : Table) (svcs : List Service)
    → All (λ r. (service_key s == service_key r) ≡ false) svcs
    → All (IsReady t) svcs
    → All (IsReady ((s, ds) ∷ t)) svcs
unfolding has_service destinations
IsReady-cons s ds t [] other ready = tt
IsReady-cons s ds t (r ∷ svcs) (e, other) (r-ready, ready) = (
  (r-ready.0, ground arith, subst Unique (sym (same e)) r-ready.2),
  IsReady-cons s ds t svcs other ready,
)
  where
    same :
        (service_key s == service_key r) ≡ false
        → destinations (service_key r) ((s, ds) ∷ t) ≡ destinations (service_key r) t
    same e = rw e

other_keys :
    (k : List ℕ) (t : Table)
    → has_service k t ≡ false
    → All (λ r. (k == service_key r) ≡ false) (services t)
unfolding has_service
other_keys k [] h = tt
other_keys k ((s, ds) ∷ t) h =
    (rw (service_key-listed s) (ground arith), other_keys k t (ground arith))

pub WellFormed-IsReady :
    (t : Table) → WellFormed t → All (IsReady t) (services t) × DistinctKeys (services t)
unfolding has_service destinations
WellFormed-IsReady [] f = (tt, tt)
WellFormed-IsReady ((s, ds) ∷ t) (complete, fresh, u, f) = (
  (
    (
      is_complete-listed s complete,
      rw (service_key-listed s) (ground arith),
      subst (λ k. Unique (destinations k ((s, ds) ∷ t))) (sym (service_key-listed s))
          (subst Unique (sym alone) u),
    ),
    IsReady-cons s ds t (services t) (other_keys (service_key s) t fresh)
        (WellFormed-IsReady t f).0,
  ),
  (rw (service_key-listed s) (other_keys (service_key s) t fresh), (WellFormed-IsReady t f).1),
)
  where
    alone : destinations (service_key s) ((s, ds) ∷ t) ≡ ds
    alone = ground (arith, destinations_of_absent (service_key s) t fresh, append-nil ds)
