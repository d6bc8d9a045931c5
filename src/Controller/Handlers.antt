-- ===== src/Controller/Handlers.antt =====
-- The bodies of `Initial`, of the event handlers and of the worker, from where each has found room
-- in the channel or an element of it. The test and the wait before are the guards of the steps.
use lvs_nginx_controller.Base.{
  ℕ, Bool, true, false, not, ◌&&◌, Option, none, some, List, [], ◌∷◌, ◌++◌, ◌==◌, if◌then◌else◌,
  nat_eq, list_eq,
}
use lvs_nginx_controller.Base.Text.{Text, codes}
use lvs_nginx_controller.Base.Dict.{Dict, keys, insert, clear}
use lvs_nginx_controller.Validate.{validate_ipv4, validate_port}
use lvs_nginx_controller.Store.{PortMap, l4_compare}
use lvs_nginx_controller.Ipvs.System.{System}
use lvs_nginx_controller.Controller.Cluster.{entries, same_data, Pod, ConfigMap, Client}
use lvs_nginx_controller.Controller.State.{
  Controller, clb, plb, tcp_service, udp_service, proto_tcp, proto_udp,
}
use lvs_nginx_controller.Controller.Listing.{
  Failure, initial_config_maps, initial_addresses, list_nginx, list_cm, is_nginx,
}

-- `for key := range ports { known[key] = proto }`
unfoldable pub know_all : Text → List ℕ → PortMap → PortMap
know_all proto [] known = known
know_all proto (port ∷ ports) known = know_all proto ports (insert port proto known)

-- The loops of `updatePorts` over the keys of a config map. A key that does not validate is
-- skipped.
unfoldable pub collect_ports : Text → List Text → PortMap → PortMap
collect_ports proto [] ports = ports
collect_ports proto (key ∷ ks) ports =
    let (valid, port) = validate_port key in
    collect_ports proto ks (if valid then insert port proto ports else ports)

-- `fmt.Sprintf("adding_%v\n", name)` and `fmt.Sprintf("deleting_%v\n", name)`
abbrev pub event_key : Bool → Text → Text
event_key is_deleted name =
    (if is_deleted then codes "deleting_" else codes "adding_") ++ (name ++ (10 ∷ []))

-- `if ok { addr[key] = ip }` on the result of `ValidateIPv4`
abbrev pub put_valid : Text → Bool × Text → Dict Text Text → Dict Text Text
put_valid key (valid, ip) addr = if valid then insert key ip addr else addr

module _ (S : System) (C : Client S.World) where
  abbrev State : Type 0
  State = Controller S × S.World

  -- `Initial`. Its error returns leave the lock held.
  unfoldable pub initial : State → Option Failure × State
  initial (c, w) =
      let ((lb, e), w₁) = list_cm C c.nginx_server c.plbdata w in
      let known = record c {
        plbdata = lb;
        ex_tcp = know_all proto_tcp (keys lb.tcp) c.ex_tcp;
        ex_udp = know_all proto_udp (keys lb.udp) c.ex_udp;
      } in
      let ((lb', f), w₂) = list_nginx C c.nginx_server lb w₁ in
      elim e [
        | some x ↦ (some (initial_config_maps x), (record c { plbdata = lb; locked = true }, w₁))
        | none ↦ elim f [
          | some x ↦
              (some (initial_addresses x), (record known { plbdata = lb'; locked = true }, w₂))
          | none ↦ (none, (record known { plbdata = lb'; lbstore = c.lbstore ++ (plb ∷ []) }, w₂))
        ]
      ]

  -- The part of `updatePorts` for the config map `tcp-services`.
  unfoldable pub update_tcp : ConfigMap → State → State
  update_tcp cm (c, w) =
      let nw = collect_ports proto_tcp (keys (entries cm)) c.nw_tcp in
      let r = l4_compare c.ex_tcp nw c.clbdata.tcp in
      let ((lb, e), w') = list_nginx C c.nginx_server (record c.clbdata { tcp = r.delta_one }) w in
      (
        record c {
          ex_tcp = r.old_one;
          nw_tcp = r.new_one;
          clbdata = lb;
          lbstore = c.lbstore ++ (clb ∷ []);
        },
        w',
      )

  -- The part of `updatePorts` for the config map `udp-services`.
  unfoldable pub update_udp : ConfigMap → State → State
  update_udp cm (c, w) =
      let nw = collect_ports proto_udp (keys (entries cm)) c.nw_udp in
      let r = l4_compare c.ex_udp nw c.clbdata.udp in
      let ((lb, e), w') = list_nginx C c.nginx_server (record c.clbdata { udp = r.delta_one }) w in
      (
        record c {
          ex_udp = r.old_one;
          nw_udp = r.new_one;
          clbdata = lb;
          lbstore = c.lbstore ++ (clb ∷ []);
        },
        w',
      )

  -- `updatePorts`
  unfoldable pub update_ports : ConfigMap → ConfigMap → State → State
  update_ports old_cm cm s =
      if same_data old_cm cm
      then s
      else if cm.name == tcp_service
      then update_tcp cm s
      else if cm.name == udp_service
      then update_udp cm s
      else s

  -- `addrAddFunc`, which takes no lock and sends nothing
  unfoldable pub addr_add_func : Pod → State → State
  addr_add_func pod (c, w) =
      if pod.namespace == c.nginx_server && is_nginx pod
      then (
        record c {
          plbdata = record c.plbdata {
            addr = put_valid (event_key false pod.name) (validate_ipv4 pod.pod_ip) c.plbdata.addr;
          };
        },
        w,
      )
      else (c, w)

  -- `addrUpdateFunc`, with its parameters in its own order
  unfoldable pub addr_update_func : Pod → Pod → State → State
  addr_update_func new_pod old_pod (c, w) =
      let addr =
        put_valid (event_key new_pod.is_deleted new_pod.name) (validate_ipv4 new_pod.pod_ip)
          (clear c.plbdata.addr) in
      let ((lb, e), w') = list_cm C c.nginx_server (record c.plbdata { addr = addr }) w in
      if new_pod.namespace == c.nginx_server && not (new_pod.pod_ip == [])
      then (record c { plbdata = lb; lbstore = c.lbstore ++ (plb ∷ []) }, w')
      else (c, w)
