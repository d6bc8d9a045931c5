-- ===== src/Controller/Listing.antt =====
-- The listing of pods and config maps into a store: `listNginx` and `listCm`.
use lvs_nginx_controller.Base.{
  Bool, not, ◌&&◌, Option, none, some, List, [], ◌∷◌, ◌++◌, ◌==◌, if◌then◌else◌, nat_eq, list_eq,
  ◌≡◌, refl, arith,
}
use lvs_nginx_controller.Base.Text.{Text, codes, contains_text}
use lvs_nginx_controller.Base.Dict.{Dict, keys, insert, clear}
use lvs_nginx_controller.Validate.{validate_ipv4, validate_port}
use lvs_nginx_controller.Store.{LbStore, PortMap, addition}
use lvs_nginx_controller.Controller.Cluster.{entries, Pod, ConfigMap, Client}
use lvs_nginx_controller.Controller.State.{nginx_pattern, tcp_service, udp_service}

-- The errors that the listings return, and those that `Initial` makes of them.
pub data Failure : Type 0 where
  list_pods list_config_maps : Failure
  bad_address bad_udp_port bad_tcp_port : Text → Failure
  initial_config_maps initial_addresses : Failure → Failure

-- `fmt.Sprintf("adding_%s", name)`
abbrev pub adding_key : Text → Text
adding_key name = codes "adding_" ++ name

-- The test of the loop of `listNginx`.
abbrev pub is_nginx : Pod → Bool
is_nginx pod = contains_text pod.name nginx_pattern && not (pod.pod_ip == [])

-- The loop of `listNginx`. An address that does not validate ends it.
unfoldable pub add_pods : List Pod → Dict Text Text → Dict Text Text × Option Failure
add_pods [] addr = (addr, none)
add_pods (pod ∷ pods) addr =
    let (valid, ip) = validate_ipv4 pod.pod_ip in
    let next = add_pods pods (insert (adding_key pod.name) ip addr) in
    let rest = add_pods pods addr in
    if is_nginx pod
    then (if valid then next else (addr, some (bad_address (adding_key pod.name))))
    else rest

-- The loops of `listCm` over the keys of a config map. A key that does not validate ends them.
unfoldable pub add_ports : (Text → Failure) → List Text → PortMap → PortMap × Option Failure
add_ports bad [] ports = (ports, none)
add_ports bad (key ∷ ks) ports =
    let (valid, port) = validate_port key in
    let next = add_ports bad ks (insert port addition ports) in
    if valid then next else (ports, some (bad key))

abbrev pub add_if : Bool → (Text → Failure) → Dict Text Text → PortMap → PortMap × Option Failure
add_if wanted bad entries ports =
    if wanted then add_ports bad (keys entries) ports else (ports, none)

abbrev then_if_none {ℓ} : {A : Type ℓ} → Option Failure → A → (Failure → A) → A
then_if_none none a f = a
then_if_none (some e) a f = f e

-- The loop of `listCm`.
unfoldable pub add_config_maps : List ConfigMap → LbStore → LbStore × Option Failure
add_config_maps [] lb = (lb, none)
add_config_maps (cm ∷ cms) lb =
    let (udp, e) = add_if (contains_text cm.name udp_service) bad_udp_port (entries cm) lb.udp in
    let (tcp, f) = add_if (contains_text cm.name tcp_service) bad_tcp_port (entries cm) lb.tcp in
    let rest = add_config_maps cms (record lb { tcp = tcp; udp = udp }) in
    then_if_none e (then_if_none f rest (λ x. (record lb { tcp = tcp; udp = udp }, some x)))
      (λ x. (record lb { udp = udp }, some x))

add_config_maps-addr :
    (cms : List ConfigMap) (lb : LbStore) → (add_config_maps cms lb).0.addr ≡ lb.addr
unfolding add_config_maps
add_config_maps-addr [] lb = refl
add_config_maps-addr (cm ∷ cms) lb = ground (
  arith,
  add_config_maps-addr cms (record lb {
    tcp = (add_if (contains_text cm.name tcp_service) bad_tcp_port (entries cm) lb.tcp).0;
    udp = (add_if (contains_text cm.name udp_service) bad_udp_port (entries cm) lb.udp).0;
  }),
)

module _ {W : Type 0} (C : Client W) (nginx_server : Text) where
  abbrev listed_pods : LbStore → Option (List Pod) → LbStore × Option Failure
  listed_pods lb (some pods) =
      let (addr, e) = add_pods pods (clear lb.addr) in (record lb { addr = addr }, e)
  listed_pods lb none = (lb, some list_pods)

  -- `listNginx`
  unfoldable pub list_nginx : LbStore → W → (LbStore × Option Failure) × W
  list_nginx lb w = (listed_pods lb (C.list_pods nginx_server w).0, (C.list_pods nginx_server w).1)

  abbrev listed_config_maps : LbStore → Option (List ConfigMap) → LbStore × Option Failure
  listed_config_maps lb (some cms) =
      add_config_maps cms (record lb { tcp = clear lb.tcp; udp = clear lb.udp })
  listed_config_maps lb none = (lb, some list_config_maps)

  -- `listCm`
  unfoldable pub list_cm : LbStore → W → (LbStore × Option Failure) × W
  list_cm lb w = (
    listed_config_maps lb (C.list_config_maps nginx_server w).0,
    (C.list_config_maps nginx_server w).1,
  )

  pub list_nginx_ports :
      (lb : LbStore) (w : W)
      → ((list_nginx lb w).0.0.tcp ≡ lb.tcp) × ((list_nginx lb w).0.0.udp ≡ lb.udp)
  unfolding list_nginx
  list_nginx_ports lb w = ground arith

  pub list_cm-addr : (lb : LbStore) (w : W) → (list_cm lb w).0.0.addr ≡ lb.addr
  unfolding list_cm
  list_cm-addr lb w = by_list (C.list_config_maps nginx_server w).0
    where
      by_list : (r : Option (List ConfigMap)) → (listed_config_maps lb r).0.addr ≡ lb.addr
      by_list none = refl
      by_list (some cms) = add_config_maps-addr cms _
