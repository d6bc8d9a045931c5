-- ===== src/Ipvs/Manager/Services.antt =====
-- What `EnsureService`, `EnsureDestination`, `Add`, `Del` leave in the kernel's table.
use lvs_nginx_controller.Base.{
  ℕ, ◌≡◌, refl, ◌∙◌, ◌⊎◌, inl, inr, true, false, ◌&&◌, ◌||◌, some, List, ◌==◌, if◌then◌else◌,
  nat_eq, list_eq, arith,
}
use lvs_nginx_controller.Base.Text.{Text}
use lvs_nginx_controller.Ipvs.Go.{ok}
use lvs_nginx_controller.Ipvs.System.{Service, Destination, System}
use lvs_nginx_controller.Ipvs.Manager.{
  LvsManager, tcp, udp, ipproto_tcp, ipproto_udp, service_of, destination_of, base, ensure_service,
  ensure_destination, delete_dead_svc, add, is_empty,
}
use lvs_nginx_controller.Ipvs.Table.{
  Table, IsKernel, service_key, destination_key, is_complete, is_packed, has_service, destinations,
  append_service, append_destination, drop_service,
}
use lvs_nginx_controller.Ipvs.Table.Serves.{
  serves, has_destination-destinations, serves-append_service, serves-append_destination,
  has_service-append_service,
}
use lvs_nginx_controller.Ipvs.Table.Managed.{
  Managed, service_exists-has_service, destination_exists-has_destination, append_service-Managed,
  append_destination-Managed,
}

-- The protocols that `Base` supports, with their numbers.
abbrev pub Supported : Text → ℕ → Type 0
Supported proto p = ((proto ≡ tcp) × (p ≡ ipproto_tcp)) ⊎ ((proto ≡ udp) × (p ≡ ipproto_udp))

-- Without marks, `Base` changes nothing and builds the two structures.
pub base_unmarked :
    (S : System) (lm : LvsManager S) (daddr : Text) (dport p : ℕ) (proto : Text) (w : S.World)
    → lm.marked ≡ false
    → Supported proto p
    → base S lm daddr dport proto w
      ≡ (ok (service_of S lm dport p 0, destination_of S daddr dport), w)
unfolding base list_eq nat_eq
base_unmarked S lm daddr dport p proto w unmarked (inl (e, f)) = rw (e, f, unmarked)
base_unmarked S lm daddr dport p proto w unmarked (inr (e, f)) = rw (e, f)

-- `EnsureService` and `EnsureDestination` as functions on tables.
abbrev pub ensured_service : Service → Table → Table
ensured_service svc t = if has_service (service_key svc) t then t else append_service svc t

abbrev pub served_destination : Service → Destination → Table → Table
served_destination svc dst t =
    if serves (service_key svc) (destination_key dst) t
    then t
    else append_destination (service_key svc) dst t

ensured-has_service :
    (svc : Service) (t : Table) → has_service (service_key svc) (ensured_service svc t) ≡ true
ensured-has_service svc t = ground (arith, has_service-append_service (service_key svc) svc t)

serves-added :
    (svc : Service) (dst : Destination) (t : Table) (k l : List ℕ)
    → serves k l (served_destination svc dst (ensured_service svc t))
      ≡ ((service_key svc == k && destination_key dst == l) || serves k l t)
serves-added svc dst t k l = ground (
  arith,
  ensured-has_service svc t,
  serves-append_service k l svc t,
  serves-append_destination k l (service_key svc) dst (ensured_service svc t),
)

pub added-Managed :
    (svc : Service) (dst : Destination) (t : Table)
    → svc.fw_mark ≡ 0
    → Managed svc.address t
    → Managed svc.address (served_destination svc dst (ensured_service svc t))
added-Managed svc dst t unmarked m = ground (
  arith,
  append_service-Managed svc t unmarked m,
  append_destination-Managed svc.address (service_key svc) dst (ensured_service svc t),
)

module _ (S : System) (h : S.Handle) (K : IsKernel S h) (lm : LvsManager S)
    (open_handle : lm.handle ≡ some h) where
  open K use {view}

  pub ensure_service_lem :
      (svc : Service) (w : S.World)
      → is_complete svc ≡ true
      → K.schedules svc.sched_name ≡ true
      → svc.fw_mark ≡ 0
      → Managed svc.address (view w)
      → ((ensure_service S lm svc w).0 ≡ ok tt)
        × (view (ensure_service S lm svc w).1 ≡ ensured_service svc (view w))
  unfolding ensure_service
  ensure_service_lem svc w complete known unmarked m =
      rw (open_handle, K.lists w)
        (ground (arith, service_exists-has_service S svc (view w) unmarked m, K.creates svc w))

  pub ensure_destination_lem :
      (svc : Service) (dst : Destination) (w : S.World)
      → is_complete svc ≡ true
      → is_packed dst ≡ true
      → has_service (service_key svc) (view w) ≡ true
      → ((ensure_destination S lm svc dst w).0 ≡ ok tt)
        × (view (ensure_destination S lm svc dst w).1 ≡ (
            if serves (service_key svc) (destination_key dst) (view w)
            then view w
            else append_destination (service_key svc) dst (view w)))
  unfolding ensure_destination
  ensure_destination_lem svc dst w complete packed present =
      rw (open_handle, K.lists_of svc w, complete)
        (ground (
          arith,
          destination_exists-has_destination S dst (destinations (service_key svc) (view w)),
          has_destination-destinations (service_key svc) (destination_key dst) (view w),
          K.attaches svc dst w,
        ))

  pub delete_dead_svc_lem :
      (svc : Service) (w : S.World)
      → is_complete svc ≡ true
      → has_service (service_key svc) (view w) ≡ true
      → ((delete_dead_svc S lm svc w).0 ≡ ok tt)
        × (view (delete_dead_svc S lm svc w).1 ≡ (
            if is_empty (destinations (service_key svc) (view w))
            then drop_service (service_key svc) (view w)
            else view w))
  unfolding delete_dead_svc
  delete_dead_svc_lem svc w complete present =
      rw (open_handle, K.lists_of svc w, complete) (ground (arith, K.removes svc w))

  pub add_done :
      (daddr : Text) (dport p : ℕ) (proto : Text) (w : S.World)
      → lm.marked ≡ false
      → Supported proto p
      → is_complete (service_of S lm dport p 0) ≡ true
      → is_packed (destination_of S daddr dport) ≡ true
      → K.schedules lm.sched_name ≡ true
      → Managed lm.vip (view w)
      → let svc = service_of S lm dport p 0 in
        let dst = destination_of S daddr dport in
        ((add S lm daddr dport proto w).0 ≡ ok tt)
        × (view (add S lm daddr dport proto w).1
            ≡ served_destination svc dst (ensured_service svc (view w)))
  unfolding add service_of
  add_done daddr dport p proto w unmarked supported complete packed known m =
      rw (base_unmarked S lm daddr dport p proto w unmarked supported, service.0, destination.0)
        (refl, destination.1 ∙ rw service.1)
    where
      svc : Service
      svc = service_of S lm dport p 0

      dst : Destination
      dst = destination_of S daddr dport

      w₁ : S.World
      w₁ = (ensure_service S lm svc w).1

      service : ((ensure_service S lm svc w).0 ≡ ok tt) × (view w₁ ≡ ensured_service svc (view w))
      service = ensure_service_lem svc w complete known refl m

      destination :
          ((ensure_destination S lm svc dst w₁).0 ≡ ok tt)
          × (view (ensure_destination S lm svc dst w₁).1 ≡ served_destination svc dst (view w₁))
      destination =
          ensure_destination_lem svc dst w₁ complete packed
            (rw service.1 (ensured-has_service svc (view w)))

  -- `Add` of a supported protocol and an address that packs, with an address and a port that
  -- identify a service, a scheduler that the kernel knows and no marks, returns no error. Afterwards
  -- the table serves what it served before and the destination under the service, and it still
  -- belongs to the manager's address.
  pub add-serves :
      (daddr : Text) (dport p : ℕ) (proto : Text) (w : S.World)
      → lm.marked ≡ false
      → Supported proto p
      → is_complete (service_of S lm dport p 0) ≡ true
      → is_packed (destination_of S daddr dport) ≡ true
      → K.schedules lm.sched_name ≡ true
      → Managed lm.vip (view w)
      → let svc = service_of S lm dport p 0 in
        let dst = destination_of S daddr dport in
        let t' = view (add S lm daddr dport proto w).1 in
        ((add S lm daddr dport proto w).0 ≡ ok tt)
        × ((k l : List ℕ)
            → serves k l t'
              ≡ ((service_key svc == k && destination_key dst == l) || serves k l (view w)))
        × Managed lm.vip t'
  unfolding service_of
  add-serves daddr dport p proto w unmarked supported complete packed known m =
      let done = add_done daddr dport p proto w unmarked supported complete packed known m in
      let svc = service_of S lm dport p 0 in
      let dst = destination_of S daddr dport in
      (
        done.0,
        λ k l. rw done.1 (serves-added svc dst (view w) k l),
        rw done.1 (added-Managed svc dst (view w) refl m),
      )
