-- ===== src/Tests/Marks.antt =====
-- The theorem on a manager that marks, at a system in memory that counts up the marks.
use lvs_nginx_controller.Base.{
  ℕ, suc, ◌≡◌, refl, true, false, ◌&&◌, ◌||◌, ◌%◌, ◌^◌, none, some, List, [], ◌∷◌, ◌==◌, nat_eq,
  list_eq, arith,
}
use lvs_nginx_controller.Base.Text.{codes, starts_with}
use lvs_nginx_controller.Net.{is_ipv4, parse_ip}
use lvs_nginx_controller.Ipvs.Go.{Run, ok}
use lvs_nginx_controller.Ipvs.System.{System}
use lvs_nginx_controller.Ipvs.Manager.{
  LvsManager, base, ensure_service, ensure_destination, destination_exists, tcp, fwmark, service_of,
  destination_of, service_exists, add, del,
}
use lvs_nginx_controller.Ipvs.Manager.Marked.{add-del_marked}
use lvs_nginx_controller.Ipvs.Table.{
  Table, IsKernel, services, service_key, destination_key, is_complete, is_packed, has_service,
  has_destination, destinations, append_service, create, remove, attach, detach, list_of,
}
use lvs_nginx_controller.Ipvs.Table.Serves.{serves}

-- A call that changes the table keeps the next mark.
abbrev on_table : {A : Type 0} → Run Table A → Run (ℕ × Table) A
on_table m (mark, t) = ((m t).0, (mark, (m t).1))

abbrev marks : System
marks = record {
  World = ℕ × Table;
  Handle = Unit {0};
  new_handle = λ w. (ok tt, w);
  flush = λ h. on_table (λ t. (ok tt, []));
  list_services = λ h. on_table (λ t. (ok (services t), t));
  new_service = λ h s. on_table (create (s.sched_name == codes "rr") s);
  del_service = λ h s. on_table (remove s);
  list_destinations = λ h s. on_table (λ t. (list_of s t, t));
  new_destination = λ h s d. on_table (attach s d);
  del_destination = λ h s d. on_table (detach s d);
  shell = λ command w. ((codes "eth0", none), w);
  intn = λ n w. (w.0, (suc w.0, w.1));
  parse_ipv6 = λ s. [];
  format_ip = λ ip. [];
}

abbrev marks-IsKernel : IsKernel marks tt
marks-IsKernel = record {
  view = λ w. w.1;
  schedules = λ s. s == codes "rr";
  lists = λ w. refl;
  lists_of = λ s w. refl;
  creates = λ s w. (refl, refl);
  removes = λ s w. (refl, refl);
  attaches = λ s d w. (refl, refl);
  detaches = λ s d w. (refl, refl);
}

abbrev marking : LvsManager marks
marking = record {
  initialized = true;
  name = codes "ipvsdr";
  handle = some tt;
  vip = 10 ∷ 0 ∷ 0 ∷ 1 ∷ [];
  sched_name = codes "rr";
  timeout = 30;
  marked = true;
  intf = codes "eth0";
}

abbrev pod : List ℕ
pod = codes "10.1.0.2"

abbrev fresh : ℕ × Table
fresh = (7, [])

abbrev added : ℕ × Table
added = (add marks marking pod 80 tcp fresh).1

quiet : (v : ℕ × Table) → (fwmark marks marking 80 v).1.1 ≡ v.1
unfolding fwmark
quiet v = refl

none_listed : service_exists marks (service_of marks marking 80 6 7) [] ≡ false
unfolding service_exists
none_listed = refl

none_marked : has_service (7 ∷ []) [] ≡ false
unfolding has_service
none_marked = refl

next : added.0 ≡ 8
unfolding add base fwmark ensure_service ensure_destination service_exists destination_exists
    service_of list_eq nat_eq is_complete has_service destinations append_service service_key
    has_destination is_packed destination_of is_ipv4 parse_ip
next = refl

none_served :
    serves (added.0 % 2 ^ 32 ∷ []) (destination_key (destination_of marks pod 80)) [] ≡ false
unfolding serves
none_served = refl

packable : is_packed (destination_of marks pod 80) ≡ true
unfolding is_packed is_ipv4 starts_with destination_of parse_ip list_eq nat_eq
packable = refl

known : marks-IsKernel.schedules marking.sched_name ≡ true
unfolding list_eq nat_eq
known = refl

add-del_marked_example :
    let l₀ = destination_key (destination_of marks pod 80) in
    ((add marks marking pod 80 tcp fresh).0 ≡ ok tt)
    × ((del marks marking pod 80 tcp added).0 ≡ ok tt)
    × ((k l : List ℕ)
        → (serves k l added.1 ≡ (((7 ∷ []) == k && l₀ == l) || serves k l fresh.1))
          × (serves k l (del marks marking pod 80 tcp added).1.1 ≡ serves k l added.1))
add-del_marked_example =
    add-del_marked marks tt marks-IsKernel marking refl refl pod 80 fresh quiet
      (λ e. omega (arith, e)) none_listed none_marked packable known (λ e. omega (arith, e, next))
      (λ e. omega (arith, e, next)) none_served
