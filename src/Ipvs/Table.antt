-- ===== src/Ipvs/Table.antt =====
-- The kernel's table of virtual services as its documentation describes it, and what it means that
-- the calls of a handle act on such a table.
pub mod Serves
pub mod Managed
pub mod Strip
pub mod Clear
pub mod Formed
use lvs_nginx_controller.Base.{
  ℕ, ◌≡◌, Bool, true, false, not, ◌&&◌, ◌||◌, List, [], ◌∷◌, ◌++◌, ◌==◌, if◌then◌else◌, nat_eq,
  list_eq,
}
use lvs_nginx_controller.Base.Text.{Text, codes}
use lvs_nginx_controller.Net.{Ip, long_form, is_ipv4, is_ip}
use lvs_nginx_controller.Ipvs.Go.{Result, ok, err, crash, system}
use lvs_nginx_controller.Ipvs.System.{Service, Destination, System}

-- What identifies a service: its mark if it has one, and protocol, port and address if not.
unfoldable pub service_key : Service → List ℕ
service_key s = if s.fw_mark == 0 then s.protocol ∷ s.port ∷ long_form s.address else s.fw_mark ∷ []

-- What identifies a destination of a service.
unfoldable pub destination_key : Destination → List ℕ
destination_key d = d.port ∷ long_form d.address

-- `packAddr` of libipvs panics on an address that is not of the family, on nil among others, and
-- on a family other than `AF_INET` and `AF_INET6`.
abbrev pub packs : ℕ → Ip → Bool
packs family address = if family == 2 then is_ipv4 address else family == 10 && is_ip address

-- libipvs panics on a service without one of the fields that identify it.
unfoldable pub is_complete : Service → Bool
is_complete s =
    not (s.fw_mark == 0)
    || (not (s.protocol == 0) && (not (s.port == 0) && packs s.address_family s.address))

unfoldable pub is_packed : Destination → Bool
is_packed d = packs d.address_family d.address

-- The kernel lists a marked service without protocol, address and port.
unfoldable pub listed : Service → Service
listed s = if s.fw_mark == 0 then s else record s { protocol = 0; address = []; port = 0 }

abbrev pub Table : Type 0
Table = List (Service × List Destination)

abbrev pub services : Table → List Service
services [] = []
services ((s, ds) ∷ t) = listed s ∷ services t

unfoldable pub has_service : List ℕ → Table → Bool
has_service k [] = false
has_service k ((s, ds) ∷ t) = service_key s == k || has_service k t

unfoldable pub destinations : List ℕ → Table → List Destination
destinations k [] = []
destinations k ((s, ds) ∷ t) =
    if service_key s == k then ds ++ destinations k t else destinations k t

unfoldable pub has_destination : List ℕ → List Destination → Bool
has_destination l [] = false
has_destination l (d ∷ ds) = destination_key d == l || has_destination l ds

unfoldable pub without : List ℕ → List Destination → List Destination
without l [] = []
without l (d ∷ ds) = let rest = without l ds in if destination_key d == l then rest else d ∷ rest

unfoldable pub append_service : Service → Table → Table
append_service s [] = (s, []) ∷ []
append_service s (e ∷ t) = e ∷ append_service s t

unfoldable pub drop_service : List ℕ → Table → Table
drop_service k [] = []
drop_service k ((s, ds) ∷ t) =
    let rest = drop_service k t in if service_key s == k then rest else (s, ds) ∷ rest

unfoldable pub append_destination : List ℕ → Destination → Table → Table
append_destination k d [] = []
append_destination k d ((s, ds) ∷ t) =
    (s, if service_key s == k then ds ++ (d ∷ []) else ds) ∷ append_destination k d t

unfoldable pub drop_destination : List ℕ → List ℕ → Table → Table
drop_destination k l [] = []
drop_destination k l ((s, ds) ∷ t) =
    (s, if service_key s == k then without l ds else ds) ∷ drop_destination k l t

abbrev pub Outcome : Type 0
Outcome = Result (Unit {0}) × Table

-- Each call panics on an incomplete service, or a destination whose address does not pack, and
-- fails, changing nothing, where the entry to create exists or the entry to change does not.
abbrev checked : Service → Bool → Text → Table → Table → Outcome
checked s allowed message t t' =
    if is_complete s
    then (if allowed then (ok tt, t') else (err (system message), t))
    else (crash, t)

abbrev packed : Destination → Outcome → Table → Outcome
packed d outcome t = if is_packed d then outcome else (crash, t)

-- The kernel creates no service for a scheduler that it does not know.
abbrev pub create : Bool → Service → Table → Outcome
create known s t =
    checked s (known && not (has_service (service_key s) t))
      (if has_service (service_key s) t then codes "file exists" else codes "no such file") t
      (append_service s t)

abbrev pub remove : Service → Table → Outcome
remove s t =
    checked s (has_service (service_key s) t) (codes "no such process") t
      (drop_service (service_key s) t)

abbrev pub attach : Service → Destination → Table → Outcome
attach s d t =
    packed d
      (checked s
        (has_service (service_key s) t
          && not (has_destination (destination_key d) (destinations (service_key s) t)))
        (if has_service (service_key s) t then codes "file exists" else codes "no such process") t
        (append_destination (service_key s) d t))
      t

abbrev pub detach : Service → Destination → Table → Outcome
detach s d t =
    packed d
      (checked s (has_destination (destination_key d) (destinations (service_key s) t))
        (if has_service (service_key s) t then codes "no such file" else codes "no such process") t
        (drop_destination (service_key s) (destination_key d) t))
      t

abbrev pub list_of : Service → Table → Result (List Destination)
list_of s t = if is_complete s then ok (destinations (service_key s) t) else crash

-- The calls of the handle `h` act on the table that `view` reads off the world.
pub record IsKernel (S : System) (h : S.Handle) : Type 0 where
  pub view : S.World → Table
  -- the schedulers that the kernel knows
  pub schedules : Text → Bool
  pub lists : (w : S.World) → S.list_services h w ≡ (ok (services (view w)), w)
  pub lists_of : (s : Service) (w : S.World) → S.list_destinations h s w ≡ (list_of s (view w), w)
  pub creates :
      (s : Service) (w : S.World)
      → ((S.new_service h s w).0 ≡ (create (schedules s.sched_name) s (view w)).0)
        × (view (S.new_service h s w).1 ≡ (create (schedules s.sched_name) s (view w)).1)
  pub removes :
      (s : Service) (w : S.World)
      → ((S.del_service h s w).0 ≡ (remove s (view w)).0)
        × (view (S.del_service h s w).1 ≡ (remove s (view w)).1)
  pub attaches :
      (s : Service) (d : Destination) (w : S.World)
      → ((S.new_destination h s d w).0 ≡ (attach s d (view w)).0)
        × (view (S.new_destination h s d w).1 ≡ (attach s d (view w)).1)
  pub detaches :
      (s : Service) (d : Destination) (w : S.World)
      → ((S.del_destination h s d w).0 ≡ (detach s d (view w)).0)
        × (view (S.del_destination h s d w).1 ≡ (detach s d (view w)).1)

-- A manager whose address packs, and whose scheduler the kernel knows.
abbrev pub CanServe : (S : System) (h : S.Handle) → IsKernel S h → Ip → Text → Type 0
CanServe S h K vip sched_name = (is_ipv4 vip ≡ true) × (K.schedules sched_name ≡ true)
