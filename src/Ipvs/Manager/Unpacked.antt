-- ===== src/Ipvs/Manager/Unpacked.antt =====
-- What `Add` and `Del` do with an address that libipvs cannot pack: the bytes that `net.ParseIP`
-- makes of a text that is no address, which is nil, or of an address of IPv6.
use lvs_nginx_controller.Base.{ℕ, ◌≡◌, refl, ◌∙◌, true, false, some, nat_eq, list_eq, arith}
use lvs_nginx_controller.Base.Text.{Text}
use lvs_nginx_controller.Ipvs.Go.{ok, crash}
use lvs_nginx_controller.Ipvs.System.{Service, Destination, System}
use lvs_nginx_controller.Ipvs.Manager.{
  LvsManager, service_of, destination_of, ensure_service, ensure_destination, delete_destination,
  add, del,
}
use lvs_nginx_controller.Ipvs.Table.{
  IsKernel, service_key, destination_key, is_complete, is_packed, destinations,
}
use lvs_nginx_controller.Ipvs.Table.Serves.{
  serves, has_destination-destinations, serves-append_service,
}
use lvs_nginx_controller.Ipvs.Table.Managed.{Managed, destination_exists-has_destination}
use lvs_nginx_controller.Ipvs.Manager.Services.{
  Supported, base_unmarked, ensured_service, ensure_service_lem,
}

module _ (S : System) (h : S.Handle) (K : IsKernel S h) (lm : LvsManager S)
    (open_handle : lm.handle ≡ some h) where
  open K use {view}

  ensure_destination_panics :
      (svc : Service) (dst : Destination) (w : S.World)
      → is_complete svc ≡ true
      → is_packed dst ≡ false
      → serves (service_key svc) (destination_key dst) (view w) ≡ false
      → ((ensure_destination S lm svc dst w).0 ≡ crash)
        × (view (ensure_destination S lm svc dst w).1 ≡ view w)
  unfolding ensure_destination
  ensure_destination_panics svc dst w complete unpacked unserved =
      rw (open_handle, K.lists_of svc w, complete)
        (ground (
          arith,
          destination_exists-has_destination S dst (destinations (service_key svc) (view w)),
          has_destination-destinations (service_key svc) (destination_key dst) (view w),
          K.attaches svc dst w,
        ))

  delete_destination_panics :
      (svc : Service) (dst : Destination) (w : S.World)
      → is_packed dst ≡ false
      → ((delete_destination S lm svc dst w).0 ≡ crash)
        × (view (delete_destination S lm svc dst w).1 ≡ view w)
  unfolding delete_destination
  delete_destination_panics svc dst w unpacked =
      rw open_handle (ground (arith, K.detaches svc dst w))

  -- Let `Add` be called with an address that libipvs cannot pack, such as a text of five octets, of
  -- which `ParseIP` makes nil. The protocol is supported, the address and the port identify a
  -- service, the kernel knows the scheduler, services are not marked, the table belongs to the
  -- manager's address, and the destination is not served yet. Then `Add` panics, with the service
  -- created if it was not there. `Del` of the same panics too, and leaves the table as it was.
  pub add-del_unpacked :
      (daddr : Text) (dport p : ℕ) (proto : Text) (w : S.World)
      → lm.marked ≡ false
      → Supported proto p
      → is_complete (service_of S lm dport p 0) ≡ true
      → K.schedules lm.sched_name ≡ true
      → Managed lm.vip (view w)
      → is_packed (destination_of S daddr dport) ≡ false
      → let svc = service_of S lm dport p 0 in
        serves (service_key svc) (destination_key (destination_of S daddr dport)) (view w) ≡ false
        → ((add S lm daddr dport proto w).0 ≡ crash)
          × (view (add S lm daddr dport proto w).1 ≡ ensured_service svc (view w))
          × ((del S lm daddr dport proto w).0 ≡ crash)
          × (view (del S lm daddr dport proto w).1 ≡ view w)
  unfolding add del service_of
  add-del_unpacked daddr dport p proto w unmarked supported complete known m unpacked unserved =
      rw
        (
          base_unmarked S lm daddr dport p proto w unmarked supported,
          service.0,
          attached.0,
          detached.0,
        )
        (refl, attached.1 ∙ service.1, refl, detached.1)
    where
      svc : Service
      svc = service_of S lm dport p 0

      dst : Destination
      dst = destination_of S daddr dport

      w₁ : S.World
      w₁ = (ensure_service S lm svc w).1

      service : ((ensure_service S lm svc w).0 ≡ ok tt) × (view w₁ ≡ ensured_service svc (view w))
      service = ensure_service_lem S h K lm open_handle svc w complete known refl m

      still : serves (service_key svc) (destination_key dst) (ensured_service svc (view w)) ≡ false
      still = ground (
        arith,
        unserved,
        serves-append_service (service_key svc) (destination_key dst) svc (view w),
      )

      attached :
          ((ensure_destination S lm svc dst w₁).0 ≡ crash)
          × (view (ensure_destination S lm svc dst w₁).1 ≡ view w₁)
      attached = ensure_destination_panics svc dst w₁ complete unpacked (rw service.1 still)

      detached :
          ((delete_destination S lm svc dst w).0 ≡ crash)
          × (view (delete_destination S lm svc dst w).1 ≡ view w)
      detached = delete_destination_panics svc dst w unpacked
