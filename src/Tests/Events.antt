-- ===== src/Tests/Events.antt =====
-- The theorems on the event handlers, at concrete states and events.
use lvs_nginx_controller.Base.{
  ℕ, ◌≡◌, refl, true, false, none, some, [], ◌∷◌, nat_eq, list_eq, arith,
}
use lvs_nginx_controller.Base.Text.{Text, codes, split}
use lvs_nginx_controller.Base.Text.Number.{atoi}
use lvs_nginx_controller.Base.Dict.{lookup}
use lvs_nginx_controller.Validate.{validate_ipv4, validate_port, valid_parts, valid_part}
use lvs_nginx_controller.Store.{PortMap, addition}
use lvs_nginx_controller.Store.Compare.{change}
use lvs_nginx_controller.Controller.Cluster.{Pod, ConfigMap, Client}
use lvs_nginx_controller.Controller.State.{Controller, clb, plb, deref, proto_tcp}
use lvs_nginx_controller.Controller.Worker.{first_part}
use lvs_nginx_controller.Controller.Handlers.{update_tcp, addr_update_func}
use lvs_nginx_controller.Controller.Collect.{named}
use lvs_nginx_controller.Controller.Updates.{
  update_tcp_changed, dropped_port_missed, unprocessed_addition_lost,
}
use lvs_nginx_controller.Controller.Pods.{deletion_unseen}
use lvs_nginx_controller.Tests.{memory, manager, table}

abbrev pub pod : Pod
pod = record {
  name = codes "nginx-ingress-controller-1";
  namespace = codes "ingress-nginx";
  pod_ip = codes "10.1.0.2";
  is_deleted = false;
}

abbrev pub leaving : Pod
leaving = record pod { is_deleted = true }

-- `tcp-services` with the ports 80 and 443, and with one of them or another value.
abbrev pub both : ConfigMap
both = record {
  name = codes "tcp-services";
  data_map = some ((codes "80", codes "a/b:80") ∷ (codes "443", codes "a/b:443") ∷ []);
}

abbrev only_80 : ConfigMap
only_80 = record {
  name = codes "tcp-services";
  data_map = some ((codes "80", codes "a/c:80") ∷ []);
}

-- A cluster with the pod and the two ports.
abbrev pub cluster : Client memory.World
cluster = record {
  list_pods = λ namespace t. (some (pod ∷ []), t);
  list_config_maps = λ namespace t. (some (both ∷ []), t);
}

abbrev pub controller : PortMap → Controller memory
controller known = record {
  nginx_server = codes "ingress-nginx";
  nw_tcp = [];
  ex_tcp = known;
  nw_udp = [];
  ex_udp = [];
  clbdata = record { addr = []; tcp = []; udp = [] };
  plbdata = record { addr = []; tcp = []; udp = [] };
  lbstore = [];
  lvs_manager = manager;
  locked = false;
}

abbrev pub known_80 : PortMap
known_80 = (80, codes "tcp") ∷ []

pub both-ne-known : ¬ ((j : ℕ) → lookup j known_80 ≡ named proto_tcp both j)
unfolding lookup validate_port atoi nat_eq
both-ne-known same = let h = same 443 in cc

update_tcp_changed_example :
    let c' = (update_tcp memory cluster both (controller known_80, table)).0 in
    ((j : ℕ)
      → (lookup j c'.clbdata.tcp ≡ change (lookup j known_80) (named proto_tcp both j))
        × (lookup j c'.ex_tcp ≡ named proto_tcp both j)
        × (lookup j c'.nw_tcp ≡ none))
    × (c'.lbstore ≡ clb ∷ [])
unfolding lookup
update_tcp_changed_example =
    update_tcp_changed memory cluster both (controller known_80) table (refl, tt) refl both-ne-known

known_80-named : (j : ℕ) → lookup j known_80 ≡ named proto_tcp only_80 j
unfolding lookup validate_port atoi nat_eq
known_80-named j = ground arith

abbrev none_left : ConfigMap
none_left = record { name = codes "tcp-services"; data_map = some ([]) }

dropped_port_missed_example :
    let c' =
      (update_tcp memory cluster none_left
        (update_tcp memory cluster only_80 (controller known_80, table))).0 in
    (c'.ex_tcp ≡ known_80) × (c'.clbdata.tcp ≡ [])
unfolding lookup
dropped_port_missed_example =
    dropped_port_missed memory cluster only_80 none_left (controller known_80) table (refl, tt) refl
      known_80-named (λ j h. cc)

nothing-ne-both : ¬ ((j : ℕ) → lookup {V = Text} j [] ≡ named proto_tcp both j)
unfolding lookup validate_port atoi nat_eq
nothing-ne-both same = let h = same 443 in cc

both-ne-only_80 : ¬ ((j : ℕ) → named proto_tcp both j ≡ named proto_tcp only_80 j)
unfolding validate_port atoi nat_eq
both-ne-only_80 same = let h = same 443 in cc

unprocessed_addition_lost_example :
    let s₁ = update_tcp memory cluster both (controller [], table) in
    let c₂ = (update_tcp memory cluster only_80 s₁).0 in
    (lookup 80 s₁.0.clbdata.tcp ≡ some addition)
    × (lookup 80 (deref memory clb c₂).tcp ≡ none)
    × (c₂.lbstore ≡ clb ∷ clb ∷ [])
unfolding lookup validate_port atoi nat_eq
unprocessed_addition_lost_example =
    unprocessed_addition_lost memory cluster both only_80 (controller []) table 80 tt tt refl
      nothing-ne-both both-ne-only_80 refl refl refl

pub valid : validate_ipv4 pod.pod_ip ≡ (true, pod.pod_ip)
unfolding validate_ipv4 split valid_parts valid_part atoi nat_eq
valid = refl

deletion_unseen_example :
    let c' = (addr_update_func memory cluster pod leaving (controller [], table)).0 in
    (key : Text) × (c'.plbdata.addr ≡ (key, pod.pod_ip) ∷ [])
    × (first_part (split 95 key) ≡ addition)
    × (c'.lbstore ≡ plb ∷ [])
deletion_unseen_example =
    deletion_unseen memory cluster pod leaving (controller []) table pod.pod_ip refl (λ e. cc) valid
      refl refl
