-- ===== src/Controller/Listed.antt =====
-- What `listNginx` and `listCm` put into a store where they return no error.
use lvs_nginx_controller.Base.{
  ℕ, ◌≡◌, refl, Bool, false, ◌&&◌, ◌||◌, none, some, List, [], ◌∷◌, ◌==◌, if◌then◌else◌, nat_eq,
  list_eq, arith, Option-cases, inl, inr,
}
use lvs_nginx_controller.Base.Text.{Text, contains_text}
use lvs_nginx_controller.Base.Dict.{
  Dict, keys, lookup, has, insert, clear, clear-eq-nil, lookup-insert, lookup-nil,
}
use lvs_nginx_controller.Validate.{validate_ipv4, validate_port}
use lvs_nginx_controller.Store.{LbStore, PortMap, addition}
use lvs_nginx_controller.Controller.Cluster.{entries, Pod, ConfigMap, Client}
use lvs_nginx_controller.Controller.State.{tcp_service, udp_service}
use lvs_nginx_controller.Controller.Listing.{
  Failure, adding_key, is_nginx, add_pods, add_ports, add_if, add_config_maps, list_nginx, list_cm,
  bad_tcp_port, bad_udp_port,
}
use lvs_nginx_controller.Controller.Collect.{names}

-- Some nginx pod of the list has the name of the key.
abbrev pub pods_name : List Pod → Text → Bool
pods_name [] key = false
pods_name (pod ∷ pods) key = (is_nginx pod && key == adding_key pod.name) || pods_name pods key

-- Some config map of the list, of a name that contains the given one, names the port.
abbrev pub maps_name : Text → List ConfigMap → ℕ → Bool
maps_name service [] j = false
maps_name service (cm ∷ cms) j =
    (contains_text cm.name service && names (keys (entries cm)) j) || maps_name service cms j

has-add_pods :
    (key : Text) (pods : List Pod) (addr : Dict Text Text)
    → (add_pods pods addr).1 ≡ none
    → has key (add_pods pods addr).0 ≡ (pods_name pods key || has key addr)
unfolding add_pods
has-add_pods key [] addr done = refl
has-add_pods key (pod ∷ pods) addr done = ground (
  arith,
  has-add_pods key pods addr,
  has-add_pods key pods (insert (adding_key pod.name) (validate_ipv4 pod.pod_ip).1 addr),
  lookup-insert key (adding_key pod.name) (validate_ipv4 pod.pod_ip).1 addr,
)

lookup-add_ports :
    (j : ℕ) (bad : Text → Failure) (ks : List Text) (ports : PortMap)
    → (add_ports bad ks ports).1 ≡ none
    → lookup j (add_ports bad ks ports).0 ≡ (if names ks j then some addition else lookup j ports)
unfolding add_ports
lookup-add_ports j bad [] ports done = refl
lookup-add_ports j bad (key ∷ ks) ports done = ground (
  arith,
  lookup-add_ports j bad ks (insert (validate_port key).1 addition ports),
  lookup-insert j (validate_port key).1 addition ports,
)

lookup-add_config_maps :
    (j : ℕ) (cms : List ConfigMap) (lb : LbStore)
    → (add_config_maps cms lb).1 ≡ none
    → (lookup j (add_config_maps cms lb).0.tcp
        ≡ (if maps_name tcp_service cms j then some addition else lookup j lb.tcp))
      × (lookup j (add_config_maps cms lb).0.udp
          ≡ (if maps_name udp_service cms j then some addition else lookup j lb.udp))
unfolding add_config_maps
lookup-add_config_maps j [] lb done = (refl, refl)
lookup-add_config_maps j (cm ∷ cms) lb done = ground (
  arith,
  lookup-add_config_maps j cms (record lb {
    tcp = (add_if (contains_text cm.name tcp_service) bad_tcp_port (entries cm) lb.tcp).0;
    udp = (add_if (contains_text cm.name udp_service) bad_udp_port (entries cm) lb.udp).0;
  }),
  lookup-add_ports j bad_tcp_port (keys (entries cm)) lb.tcp,
  lookup-add_ports j bad_udp_port (keys (entries cm)) lb.udp,
)

module _ {W : Type 0} (C : Client W) (nginx_server : Text) where
  -- If `listNginx` returns no error, the store holds afterwards exactly the keys of the nginx pods
  -- with an address that the client lists, whatever it held before.
  pub list_nginx_succeeds :
      (lb : LbStore) (w : W)
      → (list_nginx C nginx_server lb w).0.1 ≡ none
      → (pods : List Pod) × ((C.list_pods nginx_server w).0 ≡ some pods)
        × ((key : Text) → has key (list_nginx C nginx_server lb w).0.0.addr ≡ pods_name pods key)
  unfolding list_nginx
  list_nginx_succeeds lb w done = elim (Option-cases (C.list_pods nginx_server w).0) [
    | inl e ↦ absurd (ground arith)
    | inr (pods, e) ↦ (
      pods,
      e,
      λ key. ground (
        arith,
        has-add_pods key pods (clear lb.addr),
        clear-eq-nil lb.addr,
        lookup-nil {V = Text} key,
      ),
    )
  ]

  -- If `listCm` returns no error, the store marks for addition afterwards exactly the ports that
  -- the listed config maps for TCP and for UDP name, whatever it held before.
  pub list_cm_succeeds :
      (lb : LbStore) (w : W)
      → (list_cm C nginx_server lb w).0.1 ≡ none
      → let lb' = (list_cm C nginx_server lb w).0.0 in
        (cms : List ConfigMap) × ((C.list_config_maps nginx_server w).0 ≡ some cms)
        × ((j : ℕ)
            → (lookup j lb'.tcp ≡ (if maps_name tcp_service cms j then some addition else none))
              × (lookup j lb'.udp ≡ (if maps_name udp_service cms j then some addition else none)))
  unfolding list_cm
  list_cm_succeeds lb w done = elim (Option-cases (C.list_config_maps nginx_server w).0) [
    | inl e ↦ absurd (ground arith)
    | inr (cms, e) ↦ (
      cms,
      e,
      λ j. ground (
        arith,
        lookup-add_config_maps j cms (record lb { tcp = clear lb.tcp; udp = clear lb.udp }),
        clear-eq-nil lb.tcp,
        clear-eq-nil lb.udp,
        lookup-nil {V = Text} j,
      ),
    )
  ]
