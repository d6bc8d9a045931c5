-- ===== src/Controller/Unique.antt =====
-- The listings give no map two entries for a key.
use lvs_nginx_controller.Base.{
  ℕ, Bool, true, false, List, [], ◌∷◌, nat_eq, list_eq, arith, Option-cases, inl, inr,
}
use lvs_nginx_controller.Base.Text.{Text, contains_text}
use lvs_nginx_controller.Base.Dict.{
  Dict, keys, insert, clear, NodupKeys, insert-NodupKeys, clear-eq-nil,
}
use lvs_nginx_controller.Validate.{validate_ipv4, validate_port}
use lvs_nginx_controller.Store.{LbStore, PortMap, addition}
use lvs_nginx_controller.Controller.Cluster.{entries, Pod, ConfigMap, Client}
use lvs_nginx_controller.Controller.State.{tcp_service, udp_service}
use lvs_nginx_controller.Controller.Listing.{
  Failure, bad_udp_port, bad_tcp_port, add_pods, add_ports, add_if, add_config_maps, list_nginx,
  list_cm, adding_key,
}
use lvs_nginx_controller.Controller.Handlers.{know_all, put_valid}

-- No map of the store has two entries for a key.
pub record IsUnique (lb : LbStore) : Type 0 where
  pub addr : NodupKeys lb.addr
  pub tcp : NodupKeys lb.tcp
  pub udp : NodupKeys lb.udp

add_pods-NodupKeys :
    (pods : List Pod) (addr : Dict Text Text) → NodupKeys addr → NodupKeys (add_pods pods addr).0
unfolding add_pods
add_pods-NodupKeys [] addr u = u
add_pods-NodupKeys (pod ∷ pods) addr u = ground (
  arith,
  add_pods-NodupKeys pods addr u,
  add_pods-NodupKeys pods (insert (adding_key pod.name) (validate_ipv4 pod.pod_ip).1 addr),
  insert-NodupKeys (adding_key pod.name) (validate_ipv4 pod.pod_ip).1 addr u,
)

add_ports-NodupKeys :
    (bad : Text → Failure) (ks : List Text) (ports : PortMap)
    → NodupKeys ports
    → NodupKeys (add_ports bad ks ports).0
unfolding add_ports
add_ports-NodupKeys bad [] ports u = u
add_ports-NodupKeys bad (key ∷ ks) ports u = ground (
  arith,
  add_ports-NodupKeys bad ks ports u,
  add_ports-NodupKeys bad ks (insert (validate_port key).1 addition ports),
  insert-NodupKeys (validate_port key).1 addition ports u,
)

add_if-NodupKeys :
    (wanted : Bool) (bad : Text → Failure) (entries : Dict Text Text) (ports : PortMap)
    → NodupKeys ports
    → NodupKeys (add_if wanted bad entries ports).0
add_if-NodupKeys true bad entries ports u = add_ports-NodupKeys bad (keys entries) ports u
add_if-NodupKeys false bad entries ports u = u

add_config_maps-IsUnique :
    (cms : List ConfigMap) (lb : LbStore) → IsUnique lb → IsUnique (add_config_maps cms lb).0
unfolding add_config_maps
add_config_maps-IsUnique [] lb u = u
add_config_maps-IsUnique (cm ∷ cms) lb u = ground (
  arith,
  udp,
  tcp,
  add_config_maps-IsUnique cms
      (record lb {
        tcp = (add_if (contains_text cm.name tcp_service) bad_tcp_port (entries cm) lb.tcp).0;
        udp = (add_if (contains_text cm.name udp_service) bad_udp_port (entries cm) lb.udp).0;
      })
      (record { addr = u.addr; tcp = tcp; udp = udp }),
)
  where
    udp : NodupKeys (add_if (contains_text cm.name udp_service) bad_udp_port (entries cm) lb.udp).0
    udp = add_if-NodupKeys _ bad_udp_port (entries cm) lb.udp u.udp

    tcp : NodupKeys (add_if (contains_text cm.name tcp_service) bad_tcp_port (entries cm) lb.tcp).0
    tcp = add_if-NodupKeys _ bad_tcp_port (entries cm) lb.tcp u.tcp

module _ {W : Type 0} (C : Client W) (nginx_server : Text) where
  pub list_nginx-IsUnique :
      (lb : LbStore) (w : W) → IsUnique lb → IsUnique (list_nginx C nginx_server lb w).0.0
  unfolding list_nginx
  list_nginx-IsUnique lb w u = elim (Option-cases (C.list_pods nginx_server w).0) [
    | inl e ↦ rw e u
    | inr (pods, e) ↦ rw e (record {
      addr = add_pods-NodupKeys pods (clear lb.addr) (rw (clear-eq-nil lb.addr) tt);
      tcp = u.tcp;
      udp = u.udp;
    })
  ]

  pub list_cm-IsUnique :
      (lb : LbStore) (w : W) → IsUnique lb → IsUnique (list_cm C nginx_server lb w).0.0
  unfolding list_cm
  list_cm-IsUnique lb w u = elim (Option-cases (C.list_config_maps nginx_server w).0) [
    | inl e ↦ rw e u
    | inr (cms, e) ↦ rw e (
        add_config_maps-IsUnique cms (record lb { tcp = clear lb.tcp; udp = clear lb.udp })
          (record {
            addr = u.addr;
            tcp = rw (clear-eq-nil lb.tcp) tt;
            udp = rw (clear-eq-nil lb.udp) tt;
          }))
  ]

pub put_valid-NodupKeys :
    (key : Text) (r : Bool × Text) (addr : Dict Text Text)
    → NodupKeys addr
    → NodupKeys (put_valid key r addr)
put_valid-NodupKeys key (true, ip) addr u = insert-NodupKeys key ip addr u
put_valid-NodupKeys key (false, ip) addr u = u

pub know_all-NodupKeys :
    (proto : Text) (ports : List ℕ) (known : PortMap)
    → NodupKeys known
    → NodupKeys (know_all proto ports known)
unfolding know_all
know_all-NodupKeys proto [] known u = u
know_all-NodupKeys proto (port ∷ ports) known u =
    know_all-NodupKeys proto ports (insert port proto known) (insert-NodupKeys port proto known u)
