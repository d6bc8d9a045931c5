-- ===== src/Ipvs/Manager/Marked.antt =====
-- What `Add` and `Del` do of a manager that marks: `Base` draws a mark at each call.
use lvs_nginx_controller.Base.{
  ℕ, ◌≡◌, ◌≢◌, refl, ◌∙◌, ap, Bool, true, false, ◌&&◌, ◌||◌, some, List, [], ◌∷◌, ◌==◌, ◌%◌, ◌^◌,
  nat_eq, list_eq, arith,
}
use lvs_nginx_controller.Base.Text.{Text}
use lvs_nginx_controller.Ipvs.Go.{ok}
use lvs_nginx_controller.Ipvs.System.{Service, Destination, System}
use lvs_nginx_controller.Ipvs.Manager.{
  LvsManager, tcp, ipproto_tcp, fwmark, service_of, destination_of, base, service_exists,
  ensure_service, ensure_destination, delete_destination, add, del,
}
use lvs_nginx_controller.Ipvs.Table.{
  Table, IsKernel, services, service_key, destination_key, is_complete, is_packed, has_service,
  append_service,
}
use lvs_nginx_controller.Ipvs.Table.Serves.{
  serves, has_destination-destinations, serves-append_service, serves-append_destination,
  has_service-append_service,
}
use lvs_nginx_controller.Ipvs.Manager.Services.{ensure_destination_lem, served_destination}

-- A destination under another mark is not the one.
other_key :
    (m n : ℕ) (b c : Bool) → n ≢ m → c ≡ false → ((((m ∷ []) == (n ∷ [])) && b) || c) ≡ false
unfolding list_eq nat_eq
other_key m n b c e f = ground arith

module _ (S : System) (h : S.Handle) (K : IsKernel S h) (lm : LvsManager S)
    (open_handle : lm.handle ≡ some h) (marking : lm.marked ≡ true) (daddr : Text) (dport : ℕ) where
  open K use {view}

  -- The mark that the next call draws, and the world once its rule is installed.
  abbrev pub drawn : S.World → ℕ
  drawn w = (S.intn 100 w).0 % 2 ^ 32

  abbrev pub ruled : S.World → S.World
  ruled w = (fwmark S lm dport w).1

  abbrev pub marked_service : S.World → Service
  marked_service w = service_of S lm dport ipproto_tcp (drawn w)

  abbrev pub the_destination : Destination
  the_destination = destination_of S daddr dport

  base_marked :
      (w : S.World)
      → base S lm daddr dport tcp w ≡ (ok (marked_service w, the_destination), ruled w)
  unfolding base fwmark list_eq nat_eq
  base_marked w = rw marking refl

  marked_key : (w : S.World) → drawn w ≢ 0 → service_key (marked_service w) ≡ drawn w ∷ []
  unfolding service_key service_of
  marked_key w nonzero = ground arith

  marked_complete : (w : S.World) → drawn w ≢ 0 → is_complete (marked_service w) ≡ true
  unfolding is_complete service_of
  marked_complete w nonzero = ground arith

  ensure_service_new :
      (svc : Service) (w : S.World)
      → is_complete svc ≡ true
      → service_exists S svc (services (view w)) ≡ false
      → has_service (service_key svc) (view w) ≡ false
      → K.schedules svc.sched_name ≡ true
      → ((ensure_service S lm svc w).0 ≡ ok tt)
        × (view (ensure_service S lm svc w).1 ≡ append_service svc (view w))
  unfolding ensure_service
  ensure_service_new svc w complete unlisted fresh known =
      rw (open_handle, K.lists w, unlisted) (ground (arith, K.creates svc w, known))

  -- A destination that the service has not is not deleted, and the error is dropped.
  del_missed :
      (w : S.World)
      → drawn w ≢ 0
      → is_packed the_destination ≡ true
      → serves (drawn w ∷ []) (destination_key the_destination) (view (ruled w)) ≡ false
      → ((del S lm daddr dport tcp w).0 ≡ ok tt)
        × (view (del S lm daddr dport tcp w).1 ≡ view (ruled w))
  unfolding del delete_destination
  del_missed w nonzero packable absent =
      rw (base_marked w, open_handle)
        (ground (
          arith,
          K.detaches (marked_service w) the_destination (ruled w),
          marked_complete w nonzero,
          packable,
          marked_key w nonzero,
          has_destination-destinations (drawn w ∷ []) (destination_key the_destination)
              (view (ruled w)),
          absent,
        ))

  serves-new :
      (svc : Service) (dst : Destination) (t : Table) (k l : List ℕ)
      → serves k l (served_destination svc dst (append_service svc t))
        ≡ ((service_key svc == k && destination_key dst == l) || serves k l t)
  serves-new svc dst t k l = ground (
    arith,
    has_service-append_service (service_key svc) svc t,
    serves-append_service k l svc t,
    serves-append_destination k l (service_key svc) dst (append_service svc t),
  )

  -- `Add` where no service is listed for the port, and none has the mark that is drawn.
  add_new :
      (w : S.World)
      → drawn w ≢ 0
      → service_exists S (marked_service w) (services (view (ruled w))) ≡ false
      → has_service (drawn w ∷ []) (view (ruled w)) ≡ false
      → is_packed the_destination ≡ true
      → K.schedules lm.sched_name ≡ true
      → ((add S lm daddr dport tcp w).0 ≡ ok tt)
        × ((k l : List ℕ)
            → serves k l (view (add S lm daddr dport tcp w).1) ≡ (
                ((drawn w ∷ []) == k && destination_key the_destination == l)
                || serves k l (view (ruled w))))
  unfolding add service_of
  add_new w nonzero unlisted fresh packable known =
      rw (base_marked w, service.0, destination.0)
        (
          refl,
          λ k l.
              rw (destination.1, service.1)
                (rw (← marked_key w nonzero) (serves-new svc the_destination (view (ruled w)) k l)),
        )
    where
      svc : Service
      svc = marked_service w

      w₁ : S.World
      w₁ = (ensure_service S lm svc (ruled w)).1

      service :
          ((ensure_service S lm svc (ruled w)).0 ≡ ok tt)
          × (view w₁ ≡ append_service svc (view (ruled w)))
      service =
          ensure_service_new svc (ruled w) (marked_complete w nonzero) unlisted
            (rw (marked_key w nonzero) fresh) known

      present : has_service (service_key svc) (view w₁) ≡ true
      present =
          rw service.1
            (ground (arith, has_service-append_service (service_key svc) svc (view (ruled w))))

      destination :
          ((ensure_destination S lm svc the_destination w₁).0 ≡ ok tt)
          × (view (ensure_destination S lm svc the_destination w₁).1
              ≡ served_destination svc the_destination (view w₁))
      destination =
          ensure_destination_lem S h K lm open_handle svc the_destination w₁
            (marked_complete w nonzero) packable present

  -- Let a manager that marks, whose scheduler the kernel knows, add a destination of TCP, whose
  -- address is of IPv4, where the shell and the random numbers leave the kernel's table as it is, no
  -- service is listed for the port, and the mark that is drawn is not 0 and no service has it. Then `Add` returns no error, and the table serves what it served
  -- and the destination under the mark. Let `Del` of the same destination come next, and let it draw
  -- another mark that is not 0, under which the destination was not served. Then it returns no error
  -- either, and the table still serves the destination and all the rest.
  pub add-del_marked :
      (w : S.World)
      → ((v : S.World) → view (ruled v) ≡ view v)
      → drawn w ≢ 0
      → service_exists S (marked_service w) (services (view w)) ≡ false
      → has_service (drawn w ∷ []) (view w) ≡ false
      → is_packed the_destination ≡ true
      → K.schedules lm.sched_name ≡ true
      → let w₁ = (add S lm daddr dport tcp w).1 in
        drawn w₁ ≢ 0
        → drawn w₁ ≢ drawn w
        → serves (drawn w₁ ∷ []) (destination_key the_destination) (view w) ≡ false
        → ((add S lm daddr dport tcp w).0 ≡ ok tt)
          × ((del S lm daddr dport tcp w₁).0 ≡ ok tt)
          × ((k l : List ℕ)
              → (serves k l (view w₁) ≡ (
                  ((drawn w ∷ []) == k && destination_key the_destination == l)
                  || serves k l (view w)))
                × (serves k l (view (del S lm daddr dport tcp w₁).1) ≡ serves k l (view w₁)))
  add-del_marked w quiet nonzero unlisted fresh packable known nonzero₁ other unserved =
      let w₁ = (add S lm daddr dport tcp w).1 in
      let l₀ = destination_key the_destination in
      let a =
        add_new w nonzero
          (ap (λ t. service_exists S (marked_service w) (services t)) (quiet w) ∙ unlisted)
          (ap (has_service (drawn w ∷ [])) (quiet w) ∙ fresh) packable known in
      let added = λ (k : List ℕ) (l : List ℕ).
        a.1 k l ∙ ap (λ t. ((drawn w ∷ []) == k && l₀ == l) || serves k l t) (quiet w) in
      let absent = added (drawn w₁ ∷ []) l₀ ∙ other_key (drawn w) (drawn w₁) _ _ other unserved in
      let d =
        del_missed w₁ nonzero₁ packable (ap (serves (drawn w₁ ∷ []) l₀) (quiet w₁) ∙ absent) in
      (a.0, d.0, λ k l. (added k l, ap (serves k l) (d.1 ∙ quiet w₁)))
