-- ===== src/Ipvs/Manager/Sound.antt =====
-- `Add`, `Del` and `DelRServer` keep the kernel's table well-formed, and act on what it serves as
-- on a set of pairs of keys.
use mathlib.Core.Path.{fun_ext}
use lvs_nginx_controller.Base.{
  ℕ, ◌≡◌, Bool, true, false, not, ◌&&◌, ◌||◌, some, List, ◌==◌, nat_eq, list_eq, arith,
}
use lvs_nginx_controller.Base.Text.{Text}
use lvs_nginx_controller.Net.{Ip, parse_ip}
use lvs_nginx_controller.Ipvs.Go.{ok}
use lvs_nginx_controller.Ipvs.System.{Service, Destination, System}
use lvs_nginx_controller.Ipvs.Manager.{
  LvsManager, service_of, destination_of, add, del, del_r_server,
}
use lvs_nginx_controller.Ipvs.Manager.Services.{
  Supported, ensured_service, served_destination, add_done, add-serves,
}
use lvs_nginx_controller.Ipvs.Manager.Removal.{
  deleted, del_done, del-serves, view-delete_destination,
}
use lvs_nginx_controller.Ipvs.Manager.RealServer.{
  del_r_server-strips, del_r_server-serves, view-del_r_server,
}
use lvs_nginx_controller.Ipvs.Table.{
  Table, IsKernel, service_key, destination_key, is_complete, is_packed, drop_destination, services,
}
use lvs_nginx_controller.Ipvs.Table.Serves.{serves}
use lvs_nginx_controller.Ipvs.Table.Strip.{at_address}
use lvs_nginx_controller.Ipvs.Table.Clear.{WellFormed}
use lvs_nginx_controller.Ipvs.Table.Formed.{
  Sound, append_service-WellFormed, append_destination-WellFormed, drop_destination-WellFormed,
  drop_service-WellFormed, cleared_each-Sound,
}

-- Which destination is served under which service, by their keys.
abbrev pub Routes : Type 0
Routes = List ℕ → List ℕ → Bool

abbrev pub routes : Table → Routes
routes t k l = serves k l t

-- The pair of keys that `Add` and `Del` are about.
abbrev pub service_route : (S : System) → LvsManager S → ℕ → ℕ → List ℕ
service_route S lm p dport = service_key (service_of S lm dport p 0)

abbrev pub destination_route : System → Text → ℕ → List ℕ
destination_route S daddr dport = destination_key (destination_of S daddr dport)

abbrev pub with_route : List ℕ → List ℕ → Routes → Routes
with_route k l r k' l' = (k == k' && l == l') || r k' l'

abbrev pub without_route : List ℕ → List ℕ → Routes → Routes
without_route k l r k' l' = not (k == k' && l == l') && r k' l'

abbrev pub without_address : Ip → Routes → Routes
without_address a r k l = not (at_address a l) && r k l

added-WellFormed :
    (svc : Service) (dst : Destination) (t : Table)
    → is_complete svc ≡ true
    → is_packed dst ≡ true
    → WellFormed t
    → WellFormed (served_destination svc dst (ensured_service svc t))
added-WellFormed svc dst t complete packed f = ground (
  arith,
  append_service-WellFormed svc t complete,
  append_destination-WellFormed (service_key svc) dst (ensured_service svc t) packed,
)

deleted-WellFormed : (k l : List ℕ) (t : Table) → WellFormed t → WellFormed (deleted k l t)
deleted-WellFormed k l t f =
    ground (
      arith,
      drop_destination-WellFormed k l t f,
      drop_service-WellFormed k (drop_destination k l t),
    )

module _ (S : System) (h : S.Handle) (K : IsKernel S h) (lm : LvsManager S)
    (open_handle : lm.handle ≡ some h) (unmarked : lm.marked ≡ false) where
  open K use {view}

  pub add-Sound :
      (daddr : Text) (dport p : ℕ) (proto : Text) (w : S.World)
      → Supported proto p
      → is_complete (service_of S lm dport p 0) ≡ true
      → is_packed (destination_of S daddr dport) ≡ true
      → K.schedules lm.sched_name ≡ true
      → Sound lm.vip (view w)
      → ((add S lm daddr dport proto w).0 ≡ ok tt)
        × (routes (view (add S lm daddr dport proto w).1)
            ≡ with_route
                (service_route S lm p dport)
                (destination_route S daddr dport)
                (routes (view w)))
        × Sound lm.vip (view (add S lm daddr dport proto w).1)
  add-Sound daddr dport p proto w supported complete packed known s =
      let done =
        add_done S h K lm open_handle daddr dport p proto w unmarked supported complete packed known
          s.0 in
      let effect =
        add-serves S h K lm open_handle daddr dport p proto w unmarked supported complete packed
          known s.0 in
      (
        effect.0,
        fun_ext (λ k. fun_ext (λ l. effect.1 k l)),
        (
          effect.2,
          rw done.1 (
              added-WellFormed (service_of S lm dport p 0) (destination_of S daddr dport) (view w)
                complete packed s.1),
        ),
      )

  pub del-Sound :
      (daddr : Text) (dport p : ℕ) (proto : Text) (w : S.World)
      → Supported proto p
      → is_complete (service_of S lm dport p 0) ≡ true
      → is_packed (destination_of S daddr dport) ≡ true
      → Sound lm.vip (view w)
      → ((del S lm daddr dport proto w).0 ≡ ok tt)
        × (routes (view (del S lm daddr dport proto w).1)
            ≡ without_route
                (service_route S lm p dport)
                (destination_route S daddr dport)
                (routes (view w)))
        × Sound lm.vip (view (del S lm daddr dport proto w).1)
  del-Sound daddr dport p proto w supported complete packed s =
      let effect =
        del-serves S h K lm open_handle daddr dport p proto w unmarked supported complete packed
          s.0 in
      let table =
        view-delete_destination S h K lm open_handle (service_of S lm dport p 0)
          (destination_of S daddr dport) w complete packed in
      (
        effect.0,
        fun_ext (λ k. fun_ext (λ l. effect.1 k l)),
        (
          effect.2,
          rw
              (
                del_done S h K lm open_handle daddr dport p proto w unmarked supported complete
                    packed,
                table,
              )
              (deleted-WellFormed (service_route S lm p dport) (destination_route S daddr dport)
                (view w) s.1),
        ),
      )

  pub del_r_server-Sound :
      (addr : Text) (w : S.World)
      → Sound lm.vip (view w)
      → ((del_r_server S lm addr w).0 ≡ ok tt)
        × (routes (view (del_r_server S lm addr w).1)
            ≡ without_address (parse_ip S.parse_ipv6 addr) (routes (view w)))
        × Sound lm.vip (view (del_r_server S lm addr w).1)
  del_r_server-Sound addr w s = (
    (del_r_server-strips S h K lm open_handle addr w s.1).0,
    fun_ext (λ k. fun_ext (λ l. del_r_server-serves S h K lm open_handle addr w k l s.1)),
    rw (view-del_r_server S h K lm open_handle addr w s.1)
        (cleared_each-Sound lm.vip (parse_ip S.parse_ipv6 addr) (services (view w)) (view w) s),
  )
