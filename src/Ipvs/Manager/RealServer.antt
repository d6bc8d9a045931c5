-- ===== src/Ipvs/Manager/RealServer.antt =====
-- What `DelRServer` leaves in the kernel's table.
use lvs_nginx_controller.Base.{
  ℕ, ◌≡◌, refl, true, not, ◌&&◌, some, List, [], ◌∷◌, nat_eq, list_eq, arith, All,
}
use lvs_nginx_controller.Base.Text.{Text}
use lvs_nginx_controller.Net.{Ip, parse_ip}
use lvs_nginx_controller.Ipvs.Go.{ok}
use lvs_nginx_controller.Ipvs.System.{Service, Destination, System}
use lvs_nginx_controller.Ipvs.Manager.{
  LvsManager, delete_matching, clear_address, clear_addresses, del_r_server, is_empty,
}
use lvs_nginx_controller.Ipvs.Table.{
  IsKernel, services, service_key, destination_key, is_complete, has_service, destinations,
}
use lvs_nginx_controller.Ipvs.Table.Serves.{serves, has_destination-destinations}
use lvs_nginx_controller.Ipvs.Table.Strip.{
  at_address, has_destination-strip, strip, Present, Present-refl, Present-without, Unique,
  destinations-drop_destination, destinations_of_absent,
}
use lvs_nginx_controller.Ipvs.Table.Clear.{
  drop_all, has_service-drop_all, cleared, IsReady, DistinctKeys, IsReady-cleared_each,
  keyed-services, cleared_each, destinations-cleared_each, has_service-cleared_each,
  WellFormed-IsReady, WellFormed,
}

module _ (S : System) (h : S.Handle) (K : IsKernel S h) (lm : LvsManager S)
    (open_handle : lm.handle ≡ some h) (saddr : Text) where
  open K use {view}

  abbrev target : Ip
  target = parse_ip S.parse_ipv6 saddr

  delete_matching_lem :
      (s : Service) (ds : List Destination) (w : S.World)
      → is_complete s ≡ true
      → Unique ds
      → Present (destinations (service_key s) (view w)) ds
      → ((delete_matching S lm saddr s ds w).0 ≡ ok tt)
        × (view (delete_matching S lm saddr s ds w).1 ≡ drop_all target (service_key s) ds (view w))
  unfolding delete_matching drop_all
  delete_matching_lem s [] w complete u p = (refl, refl)
  delete_matching_lem s (d ∷ ds) w complete (fresh, packed, u) (h', p) = ground (
    arith,
    delete_matching_lem s ds w complete u p,
    K.detaches s d w,
    delete_matching_lem s ds (S.del_destination h s d w).1 complete u,
    destinations-drop_destination (service_key s) (service_key s) (destination_key d) (view w),
    Present-without (destination_key d) (destinations (service_key s) (view w)) ds fresh p,
  )

  clear_address_lem :
      (s : Service) (w : S.World)
      → IsReady (view w) s
      → ((clear_address S lm saddr s w).0 ≡ ok tt)
        × (view (clear_address S lm saddr s w).1 ≡ cleared target (service_key s) (view w))
  unfolding clear_address
  clear_address_lem s w (complete, present, u) = ground (
    arith,
    K.lists_of s w,
    deleted,
    K.lists_of s w₁,
    K.removes s w₁,
    has_service-drop_all target (service_key s) (service_key s) ds (view w),
  )
    where
      ds : List Destination
      ds = destinations (service_key s) (view w)

      w₁ : S.World
      w₁ = (delete_matching S lm saddr s ds w).1

      deleted :
          ((delete_matching S lm saddr s ds w).0 ≡ ok tt)
          × (view w₁ ≡ drop_all target (service_key s) ds (view w))
      deleted = delete_matching_lem s ds w complete u (Present-refl ds)

  clear_addresses_lem :
      (svcs : List Service) (w : S.World)
      → DistinctKeys svcs
      → All (IsReady (view w)) svcs
      → ((clear_addresses S lm saddr svcs w).0 ≡ ok tt)
        × (view (clear_addresses S lm saddr svcs w).1 ≡ cleared_each target svcs (view w))
  unfolding clear_addresses cleared_each
  clear_addresses_lem [] w distinct ready = (refl, refl)
  clear_addresses_lem (s ∷ svcs) w (other, distinct) (r, ready) = ground (
    arith,
    clear_address_lem s w r,
    clear_addresses_lem svcs (clear_address S lm saddr s w).1 distinct (
        rw (clear_address_lem s w r).1
          (IsReady-cleared_each target (service_key s) (view w) svcs other ready)),
  )

  -- On a well-formed table `DelRServer` returns no error. Afterwards every service has the
  -- destinations that it had, less those at the address, and exactly the services to which this
  -- leaves a destination are still there.
  pub del_r_server-strips :
      (w : S.World)
      → WellFormed (view w)
      → let t' = view (del_r_server S lm saddr w).1 in
        ((del_r_server S lm saddr w).0 ≡ ok tt)
        × ((k : List ℕ)
            → (destinations k t' ≡ strip target (destinations k (view w)))
              × (has_service k t' ≡ (
                  has_service k (view w)
                  && not (is_empty (strip target (destinations k (view w)))))))
  unfolding del_r_server strip
  del_r_server-strips w formed = (
    ground (arith, K.lists w, done),
    λ k. ground (
      arith,
      K.lists w,
      done,
      destinations-cleared_each target (services (view w)) (view w) k,
      has_service-cleared_each target (services (view w)) (view w) k,
      keyed-services (view w) k,
      destinations_of_absent k (view w),
    ),
  )
    where
      done :
          ((clear_addresses S lm saddr (services (view w)) w).0 ≡ ok tt)
          × (view (clear_addresses S lm saddr (services (view w)) w).1
              ≡ cleared_each target (services (view w)) (view w))
      done =
          clear_addresses_lem (services (view w)) w (WellFormed-IsReady (view w) formed).1
            (WellFormed-IsReady (view w) formed).0

  -- In terms of what is served: all but the destinations at the address.
  pub del_r_server-serves :
      (w : S.World) (k l : List ℕ)
      → WellFormed (view w)
      → serves k l (view (del_r_server S lm saddr w).1)
        ≡ (not (at_address target l) && serves k l (view w))
  del_r_server-serves w k l formed = ground (
    arith,
    (del_r_server-strips w formed).1 k,
    has_destination-destinations k l (view w),
    has_destination-destinations k l (view (del_r_server S lm saddr w).1),
    has_destination-strip target l (destinations k (view w)),
  )

  pub view-del_r_server :
      (w : S.World)
      → WellFormed (view w)
      → view (del_r_server S lm saddr w).1 ≡ cleared_each target (services (view w)) (view w)
  unfolding del_r_server
  view-del_r_server w formed = ground (
    arith,
    K.lists w,
    clear_addresses_lem (services (view w)) w (WellFormed-IsReady (view w) formed).1
        (WellFormed-IsReady (view w) formed).0,
  )
