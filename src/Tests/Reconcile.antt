-- ===== src/Tests/Reconcile.antt =====
-- The theorems that go from an event, or from the start, to the kernel, at the cluster of
-- Tests/Events.
use lvs_nginx_controller.Base.{ℕ, ◌≡◌, refl, none, some, [], ◌∷◌, nat_eq, list_eq, ◌&&◌, List}
use lvs_nginx_controller.Base.Text.{codes, split, contains_text, starts_with, Text}
use lvs_nginx_controller.Base.Text.Number.{atoi}
use lvs_nginx_controller.Base.Dict.{lookup, has, keys, insert, clear}
use lvs_nginx_controller.Validate.{validate_ipv4, validate_port, valid_parts, valid_part}
use lvs_nginx_controller.Net.{is_ipv4, parse_ip, long_form}
use lvs_nginx_controller.Ipvs.Go.{ok}
use lvs_nginx_controller.Ipvs.Table.{service_key, destination_key, has_destination}
use lvs_nginx_controller.Ipvs.Table.Formed.{Sound}
use lvs_nginx_controller.Controller.State.{plb, proto_udp, clb}
use lvs_nginx_controller.Controller.Listing.{
  list_cm, list_nginx, add_config_maps, add_pods, add_ports,
}
use lvs_nginx_controller.Controller.Handlers.{initial, update_tcp, update_udp}
use lvs_nginx_controller.Controller.Worker.{process_func}
use lvs_nginx_controller.Controller.Reconcile.{update_tcp-reconciles}
use lvs_nginx_controller.Controller.Routing.{holds_address}
use lvs_nginx_controller.Controller.Collect.{names, named}
use lvs_nginx_controller.Ipvs.Table.Serves.{serves}
use lvs_nginx_controller.Ipvs.Manager.Sound.{service_route}
use lvs_nginx_controller.Ipvs.Manager.{service_of}
use lvs_nginx_controller.Tests.{memory, memory-IsKernel, manager, table}
use lvs_nginx_controller.Tests.Events.{cluster, controller, both, known_80, both-ne-known}
use lvs_nginx_controller.Controller.Cluster.{entries, ConfigMap}
use lvs_nginx_controller.Controller.FirstPass.{initial-reconciles}
use lvs_nginx_controller.Controller.UdpPass.{update_udp-reconciles}
use lvs_nginx_controller.Tests.Runs.{sound, serving}

-- The kernel knows port 80 at the address of the pod, and the config map names port 443 too.
abbrev pub pod_address : List ℕ
pod_address = 0 ∷ 0 ∷ 0 ∷ 0 ∷ 0 ∷ 0 ∷ 0 ∷ 0 ∷ 0 ∷ 0 ∷ 255 ∷ 255 ∷ 10 ∷ 1 ∷ 0 ∷ 2 ∷ []

update_tcp-reconciles_example :
    let s' = update_tcp memory cluster both (controller known_80, table) in
    let k = service_route memory manager 6 443 in
    let done = process_func memory s'.0 clb s'.1 in
    (done.0 ≡ ok tt)
    × (serves k (443 ∷ pod_address) done.1
        ≡ (names (keys (entries both)) 443 && holds_address memory s'.0.clbdata.addr pod_address))
    × Sound manager.vip done.1
unfolding validate_port atoi lookup nat_eq list_eq is_ipv4 starts_with serves service_key service_of
    long_form has_destination destination_key update_tcp list_nginx add_pods contains_text
    validate_ipv4 insert clear parse_ip
update_tcp-reconciles_example =
    update_tcp-reconciles memory cluster tt memory-IsKernel both (controller known_80) table 443
      pod_address refl refl serving (λ namespace t. refl) sound (refl, tt) tt refl tt refl refl tt
      both-ne-known ((λ e. refl), tt) refl

initial_done : (initial memory cluster (controller [], [])).0 ≡ none
unfolding initial list_cm list_nginx validate_port validate_ipv4 split valid_parts valid_part atoi
    nat_eq list_eq add_config_maps contains_text add_ports add_pods
initial_done = refl

initial-reconciles_example :
    let s' = (initial memory cluster (controller [], [])).1 in
    let lb = s'.0.plbdata in
    let pass = process_func memory s'.0 plb s'.1 in
    (pass.0 ≡ ok tt)
    × (serves (service_route memory manager 6 443) (443 ∷ pod_address) pass.1
        ≡ (has 443 lb.tcp && holds_address memory lb.addr pod_address))
    × Sound manager.vip pass.1
unfolding initial list_cm list_nginx validate_port validate_ipv4 split valid_parts valid_part atoi
    nat_eq list_eq add_config_maps contains_text add_ports add_pods lookup insert clear is_ipv4
    starts_with parse_ip
initial-reconciles_example =
    initial-reconciles memory cluster tt memory-IsKernel (controller []) [] 443 pod_address refl
      refl serving (λ namespace t. refl) (λ namespace t. refl) refl
      (record { addr = tt; tcp = tt; udp = tt }) tt initial_done refl refl ((λ e. refl), tt)

-- The config map for UDP, with port 53.
abbrev names_53 : ConfigMap
names_53 = record {
  name = codes "udp-services";
  data_map = some ((codes "53", codes "a/dns:53") ∷ []);
}

nothing-ne-53 : ¬ ((j : ℕ) → lookup {V = Text} j [] ≡ named proto_udp names_53 j)
unfolding lookup validate_port atoi nat_eq
nothing-ne-53 same = let h = same 53 in cc

update_udp-reconciles_example :
    let s' = update_udp memory cluster names_53 (controller [], table) in
    let k = service_route memory manager 17 53 in
    let done = process_func memory s'.0 clb s'.1 in
    (done.0 ≡ ok tt)
    × (serves k (53 ∷ pod_address) done.1 ≡ (
        names (keys (entries names_53)) 53 && holds_address memory s'.0.clbdata.addr pod_address))
    × Sound manager.vip done.1
unfolding validate_port atoi lookup nat_eq list_eq is_ipv4 starts_with serves service_key service_of
    long_form has_destination destination_key update_udp list_nginx add_pods contains_text
    validate_ipv4 insert clear parse_ip
update_udp-reconciles_example =
    update_udp-reconciles memory cluster tt memory-IsKernel names_53 (controller []) table 53
      pod_address refl refl serving (λ namespace t. refl) sound tt tt refl tt refl refl tt
      nothing-ne-53 ((λ e. refl), tt) refl
