-- ===== src/Tests/Kernel.antt =====
-- The theorems on the manager, at the system in memory.
use lvs_nginx_controller.Base.{
  ℕ, ◌≡◌, ◌≢◌, ◌^◌, refl, true, false, not, ◌&&◌, ◌||◌, inl, some, List, ◌==◌, nat_eq, list_eq,
  arith,
}
use lvs_nginx_controller.Base.Text.{codes, starts_with, split}
use lvs_nginx_controller.Base.Text.Number.{atoi, decimal, low_word}
use lvs_nginx_controller.Config.{Config}
use lvs_nginx_controller.Net.{is_ipv4, parse_ip, long_form}
use lvs_nginx_controller.Ipvs.Go.{ok, err, crash, system}
use lvs_nginx_controller.Ipvs.System.{System}
use lvs_nginx_controller.Ipvs.Manager.{
  LvsManager, new_lvs_manager, service_of, destination_of, is_empty, add, del, del_r_server, init,
  atoi_value, rune_text,
}
use lvs_nginx_controller.Ipvs.Manager.Services.{add-serves, ensured_service}
use lvs_nginx_controller.Ipvs.Manager.Unpacked.{add-del_unpacked}
use lvs_nginx_controller.Validate.{validate_ipv4, valid_parts, valid_part}
use lvs_nginx_controller.Ipvs.Manager.Removal.{del-serves}
use lvs_nginx_controller.Ipvs.Manager.RealServer.{del_r_server-strips}
use lvs_nginx_controller.Ipvs.Manager.Start.{
  init_without_handle, init_with_handle, init_dashed_timeout,
}
use lvs_nginx_controller.Ipvs.Manager.Marks.{rune_text-ne-decimal}
use lvs_nginx_controller.Ipvs.Table.{
  CanServe, is_packed, service_key, destination_key, is_complete, has_service, has_destination,
  destinations,
}
use lvs_nginx_controller.Ipvs.Table.Serves.{serves}
use lvs_nginx_controller.Ipvs.Table.Strip.{strip}
use lvs_nginx_controller.Ipvs.Table.Managed.{Managed}
use lvs_nginx_controller.Ipvs.Table.Clear.{WellFormed}
use lvs_nginx_controller.Tests.{memory, memory-IsKernel, manager, table, config}

serving : CanServe memory tt memory-IsKernel manager.vip manager.sched_name
unfolding is_ipv4 starts_with nat_eq list_eq
serving = (refl, refl)

managed : Managed manager.vip table
unfolding service_key nat_eq
managed = (refl, tt)

formed : WellFormed table
unfolding is_packed is_ipv4 starts_with is_complete has_service has_destination service_key
    destination_key long_form nat_eq list_eq
formed = (refl, refl, (refl, refl, (refl, refl, tt)), tt)

complete : is_complete (service_of memory manager 80 6 0) ≡ true
unfolding is_ipv4 starts_with is_complete service_of nat_eq list_eq
complete = refl

packed : is_packed (destination_of memory (codes "10.1.0.4") 80) ≡ true
unfolding is_packed is_ipv4 starts_with destination_of parse_ip list_eq nat_eq
packed = refl

packed_2 : is_packed (destination_of memory (codes "10.1.0.2") 80) ≡ true
unfolding is_packed is_ipv4 starts_with destination_of parse_ip list_eq nat_eq
packed_2 = refl

add-serves_example :
    let svc = service_of memory manager 80 6 0 in
    let dst = destination_of memory (codes "10.1.0.4") 80 in
    let r = add memory manager (codes "10.1.0.4") 80 (codes "tcp") table in
    (r.0 ≡ ok tt)
    × ((k l : List ℕ)
        → serves k l r.1 ≡ ((service_key svc == k && destination_key dst == l) || serves k l table))
    × Managed manager.vip r.1
add-serves_example =
    add-serves memory tt memory-IsKernel manager refl (codes "10.1.0.4") 80 6 (codes "tcp") table
      refl (inl (refl, refl)) complete packed serving.1 managed

del-serves_example :
    let svc = service_of memory manager 80 6 0 in
    let dst = destination_of memory (codes "10.1.0.2") 80 in
    let r = del memory manager (codes "10.1.0.2") 80 (codes "tcp") table in
    (r.0 ≡ ok tt)
    × ((k l : List ℕ)
        → serves k l r.1
          ≡ (not (service_key svc == k && destination_key dst == l) && serves k l table))
    × Managed manager.vip r.1
del-serves_example =
    del-serves memory tt memory-IsKernel manager refl (codes "10.1.0.2") 80 6 (codes "tcp") table
      refl (inl (refl, refl)) complete packed_2 managed

-- `ParseIP` makes nil of five octets, which are an address to `ValidateIPv4`.
five : validate_ipv4 (codes "10.1.0.4.5") ≡ (true, codes "10.1.0.4.5")
unfolding validate_ipv4 split valid_parts valid_part atoi nat_eq list_eq
five = refl

unpacked : is_packed (destination_of memory (codes "10.1.0.4.5") 80) ≡ false
unfolding is_packed is_ipv4 starts_with destination_of parse_ip list_eq nat_eq
unpacked = refl

unserved :
    serves
      (service_key (service_of memory manager 80 6 0))
      (destination_key (destination_of memory (codes "10.1.0.4.5") 80))
      table
    ≡ false
unfolding serves service_key destination_key has_destination service_of destination_of parse_ip
    long_form list_eq nat_eq
unserved = refl

add-del_unpacked_example :
    let svc = service_of memory manager 80 6 0 in
    let r = add memory manager (codes "10.1.0.4.5") 80 (codes "tcp") table in
    let s = del memory manager (codes "10.1.0.4.5") 80 (codes "tcp") table in
    (r.0 ≡ crash) × (r.1 ≡ ensured_service svc table) × (s.0 ≡ crash) × (s.1 ≡ table)
add-del_unpacked_example =
    add-del_unpacked memory tt memory-IsKernel manager refl (codes "10.1.0.4.5") 80 6 (codes "tcp")
      table refl (inl (refl, refl)) complete serving.1 managed unpacked unserved

del_r_server-strips_example :
    let target = parse_ip memory.parse_ipv6 (codes "10.1.0.2") in
    let r = del_r_server memory manager (codes "10.1.0.2") table in
    (r.0 ≡ ok tt)
    × ((k : List ℕ)
        → (destinations k r.1 ≡ strip target (destinations k table))
          × (has_service k r.1
              ≡ (has_service k table && not (is_empty (strip target (destinations k table))))))
del_r_server-strips_example =
    del_r_server-strips memory tt memory-IsKernel manager refl (codes "10.1.0.2") table formed

-- A system whose library cannot be opened.
abbrev closed : System
closed = record memory { new_handle = λ t. (err (system (codes "no netlink")), t) }

init_without_handle_example : (init closed (new_lvs_manager closed) config table).0 ≡ crash
unfolding new_lvs_manager
init_without_handle_example =
    init_without_handle closed (new_lvs_manager closed) config table refl
      (system (codes "no netlink")) refl

flushed : (memory.flush tt table).0 ≢ crash
flushed = λ e. cc

init_with_handle_example :
    (lm : LvsManager memory) × ((init memory (new_lvs_manager memory) config table).0 ≡ ok lm)
    × (lm.handle ≡ some tt)
    × (lm.vip ≡ parse_ip memory.parse_ipv6 config.vip)
    × (lm.marked ≡ config.pnmpp)
    × (lm.timeout ≡ low_word (2 ^ 32) (atoi_value (atoi config.idle_timeout)))
    × ((cfg' : Config) (w' : memory.World) → init memory lm cfg' w' ≡ (ok lm, w'))
unfolding new_lvs_manager
init_with_handle_example =
    init_with_handle memory (new_lvs_manager memory) config table refl tt refl flushed

abbrev dashed : Config
dashed = record config { idle_timeout = codes "120-50-50" }

-- What `Init` makes of the dashed timeout.
abbrev started : LvsManager memory
started =
    (init_with_handle memory (new_lvs_manager memory) dashed table (unfold new_lvs_manager in refl)
      tt refl flushed).0

init_dashed_timeout_example : started.timeout ≡ 0
unfolding new_lvs_manager decimal
init_dashed_timeout_example =
    init_dashed_timeout memory (new_lvs_manager memory) dashed table refl 120 (codes "50-50")
      started (omega arith) refl
      (init_with_handle memory (new_lvs_manager memory) dashed table refl tt refl flushed).1

rune_text-ne-decimal_example : rune_text 8080 ≢ decimal 8080
rune_text-ne-decimal_example = rune_text-ne-decimal 8080 (omega arith)
