-- ===== src/Ipvs/Manager/Removal.antt =====
-- What `DeleteDestination` and `Del` leave in the kernel's table.
use lvs_nginx_controller.Base.{
  ℕ, ◌≡◌, ◌≢◌, refl, true, false, not, ◌&&◌, some, List, ◌==◌, if◌then◌else◌, nat_eq, list_eq,
  arith,
}
use lvs_nginx_controller.Base.Text.{Text}
use lvs_nginx_controller.Ipvs.Go.{ok, crash}
use lvs_nginx_controller.Ipvs.System.{Service, Destination, System}
use lvs_nginx_controller.Ipvs.Manager.{
  LvsManager, service_of, destination_of, delete_destination, del, is_empty,
}
use lvs_nginx_controller.Ipvs.Manager.Services.{Supported, base_unmarked, delete_dead_svc_lem}
use lvs_nginx_controller.Ipvs.Table.{
  Table, IsKernel, service_key, destination_key, is_complete, is_packed, destinations,
  has_destination, drop_service, drop_destination,
}
use lvs_nginx_controller.Ipvs.Table.Serves.{
  serves, has_destination-destinations, serves-drop_destination, serves-drop_service,
  has_service-drop_destination, has_service_of_serves,
}
use lvs_nginx_controller.Ipvs.Table.Managed.{
  Managed, drop_destination-Managed, drop_service-Managed,
}

serves_of_empty :
    (k l : List ℕ) (t : Table) → is_empty (destinations k t) ≡ true → serves k l t ≡ false
unfolding has_destination
serves_of_empty k l t e = ground (arith, has_destination-destinations k l t)

-- The table without a destination, and without its service where that has no other.
abbrev pub pruned : List ℕ → Table → Table
pruned k t = if is_empty (destinations k t) then drop_service k t else t

abbrev pub deleted : List ℕ → List ℕ → Table → Table
deleted k l t = if serves k l t then pruned k (drop_destination k l t) else t

serves-deleted :
    (j m k l : List ℕ) (t : Table)
    → serves k l (deleted j m t) ≡ (not (j == k && m == l) && serves k l t)
serves-deleted j m k l t = ground (
  arith,
  serves-drop_destination k l j m t,
  serves-drop_service k l j (drop_destination j m t),
  serves_of_empty j l (drop_destination j m t),
)

pub deleted-Managed :
    (vip : List ℕ) (k l : List ℕ) (t : Table) → Managed vip t → Managed vip (deleted k l t)
deleted-Managed vip k l t m = ground (
  arith,
  drop_destination-Managed vip k l t m,
  drop_service-Managed vip k (drop_destination k l t),
)

module _ (S : System) (h : S.Handle) (K : IsKernel S h) (lm : LvsManager S)
    (open_handle : lm.handle ≡ some h) where
  open K use {view}

  pub view-delete_destination :
      (svc : Service) (dst : Destination) (w : S.World)
      → is_complete svc ≡ true
      → is_packed dst ≡ true
      → view (delete_destination S lm svc dst w).1
        ≡ deleted (service_key svc) (destination_key dst) (view w)
  unfolding delete_destination
  view-delete_destination svc dst w complete packed = ground (
    arith,
    K.detaches svc dst w,
    has_destination-destinations (service_key svc) (destination_key dst) (view w),
    has_service_of_serves (service_key svc) (destination_key dst) (view w),
    has_service-drop_destination (service_key svc) (service_key svc) (destination_key dst) (view w),
    delete_dead_svc_lem S h K lm open_handle svc (S.del_destination h svc dst w).1 complete,
  )

  delete_destination-ne-crash :
      (svc : Service) (dst : Destination) (w : S.World)
      → is_complete svc ≡ true
      → is_packed dst ≡ true
      → (delete_destination S lm svc dst w).0 ≢ crash
  unfolding delete_destination
  delete_destination-ne-crash svc dst w complete packed = ground (
    arith,
    K.detaches svc dst w,
    has_destination-destinations (service_key svc) (destination_key dst) (view w),
    has_service_of_serves (service_key svc) (destination_key dst) (view w),
    has_service-drop_destination (service_key svc) (service_key svc) (destination_key dst) (view w),
    delete_dead_svc_lem S h K lm open_handle svc (S.del_destination h svc dst w).1 complete,
  )

  pub del_done :
      (daddr : Text) (dport p : ℕ) (proto : Text) (w : S.World)
      → lm.marked ≡ false
      → Supported proto p
      → is_complete (service_of S lm dport p 0) ≡ true
      → is_packed (destination_of S daddr dport) ≡ true
      → del S lm daddr dport proto w ≡ (
        ok tt,
        (delete_destination S lm (service_of S lm dport p 0) (destination_of S daddr dport) w).1,
      )
  unfolding del
  del_done daddr dport p proto w unmarked supported complete packed =
      rw (base_unmarked S lm daddr dport p proto w unmarked supported) (
        ground (
          arith,
          delete_destination-ne-crash (service_of S lm dport p 0) (destination_of S daddr dport) w
              complete packed,
        ))

  -- `Del` of a supported protocol and an address that packs, with an address and a port that
  -- identify a service and without marks, returns no error. Afterwards the table serves what it served before, except the
  -- destination under the service, and it still belongs to the manager's address.
  pub del-serves :
      (daddr : Text) (dport p : ℕ) (proto : Text) (w : S.World)
      → lm.marked ≡ false
      → Supported proto p
      → is_complete (service_of S lm dport p 0) ≡ true
      → is_packed (destination_of S daddr dport) ≡ true
      → Managed lm.vip (view w)
      → let svc = service_of S lm dport p 0 in
        let dst = destination_of S daddr dport in
        let t' = view (del S lm daddr dport proto w).1 in
        ((del S lm daddr dport proto w).0 ≡ ok tt)
        × ((k l : List ℕ)
            → serves k l t'
              ≡ (not (service_key svc == k && destination_key dst == l) && serves k l (view w)))
        × Managed lm.vip t'
  del-serves daddr dport p proto w unmarked supported complete packed m =
      rw (del_done daddr dport p proto w unmarked supported complete packed, table)
        (refl, λ k l. serves-deleted _ _ k l (view w), deleted-Managed lm.vip _ _ (view w) m)
    where
      svc : Service
      svc = service_of S lm dport p 0

      dst : Destination
      dst = destination_of S daddr dport

      table :
          view (delete_destination S lm svc dst w).1
          ≡ deleted (service_key svc) (destination_key dst) (view w)
      table = view-delete_destination svc dst w complete packed
