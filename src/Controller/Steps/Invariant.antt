-- ===== src/Controller/Steps/Invariant.antt =====
-- What every step of the controller keeps.
use lvs_nginx_controller.Base.{
  ◌≤◌, ap, ◌&&◌, not, List, [], ◌∷◌, ◌++◌, ◌==◌, nat_eq, list_eq, arith, length, length-append,
  Bool-cases, inl, inr,
}
use lvs_nginx_controller.Base.Text.{Text}
use lvs_nginx_controller.Base.Dict.{keys, clear, NodupKeys, clear-eq-nil}
use lvs_nginx_controller.Validate.{validate_ipv4}
use lvs_nginx_controller.Store.{PortMap, Compared, l4_compare}
use lvs_nginx_controller.Store.Compare.{l4_compare-NodupKeys}
use lvs_nginx_controller.Ipvs.System.{System}
use lvs_nginx_controller.Controller.Cluster.{entries, same_data, Pod, ConfigMap, Client}
use lvs_nginx_controller.Controller.State.{
  Controller, Pointer, clb, plb, proto_tcp, proto_udp, tcp_service, udp_service,
}
use lvs_nginx_controller.Controller.Listing.{is_nginx}
use lvs_nginx_controller.Controller.Handlers.{
  update_tcp, update_udp, update_ports, addr_add_func, addr_update_func, collect_ports,
}
use lvs_nginx_controller.Controller.Collect.{collect_ports-NodupKeys}
use lvs_nginx_controller.Controller.Unique.{
  IsUnique, list_nginx-IsUnique, list_cm-IsUnique, put_valid-NodupKeys,
}
use lvs_nginx_controller.Controller.Steps.{
  HasRoom, Step, Reach, config_map_updated, pod_updated, pod_added, item_processed, here, next,
}

module _ (S : System) (C : Client S.World) where
  -- The channel keeps within its capacity, and no map has two entries for a key.
  pub record Invariant (c : Controller S) : Type 0 where
    pub bounded : length c.lbstore ≤ 3
    pub ex_tcp : NodupKeys c.ex_tcp
    pub nw_tcp : NodupKeys c.nw_tcp
    pub ex_udp : NodupKeys c.ex_udp
    pub nw_udp : NodupKeys c.nw_udp
    pub clbdata : IsUnique c.clbdata
    pub plbdata : IsUnique c.plbdata

  pub length-send :
      (c : Controller S) (p : Pointer)
      → Invariant c
      → HasRoom S C c
      → length (c.lbstore ++ (p ∷ [])) ≤ 3
  length-send c p v r = omega (arith, length-append c.lbstore (p ∷ []), v.bounded, r.room)

  module _ (ex nw delta : PortMap) (proto : Text) (ks : List Text) (u : NodupKeys ex)
      (v : NodupKeys nw) (d : NodupKeys delta) where
    compared-NodupKeys :
        let r = l4_compare ex (collect_ports proto ks nw) delta in
        NodupKeys r.old_one × NodupKeys r.new_one × NodupKeys r.delta_one
    compared-NodupKeys =
        l4_compare-NodupKeys ex (collect_ports proto ks nw) delta u
          (collect_ports-NodupKeys proto ks nw v) d

  update_tcp-Invariant :
      (cm : ConfigMap) (c : Controller S) (w : S.World)
      → Invariant c
      → HasRoom S C c
      → Invariant (update_tcp S C cm (c, w)).0
  unfolding update_tcp
  update_tcp-Invariant cm c w v r = record {
    bounded = length-send c clb v r;
    ex_tcp = unique.0;
    nw_tcp = unique.1;
    ex_udp = v.ex_udp;
    nw_udp = v.nw_udp;
    clbdata =
        list_nginx-IsUnique C c.nginx_server _ w
          (record { addr = v.clbdata.addr; tcp = unique.2; udp = v.clbdata.udp });
    plbdata = v.plbdata;
  }
    where
      compared : Compared
      compared =
          l4_compare c.ex_tcp (collect_ports proto_tcp (keys (entries cm)) c.nw_tcp) c.clbdata.tcp

      unique :
          NodupKeys compared.old_one × NodupKeys compared.new_one × NodupKeys compared.delta_one
      unique =
          compared-NodupKeys c.ex_tcp c.nw_tcp c.clbdata.tcp proto_tcp (keys (entries cm)) v.ex_tcp
            v.nw_tcp v.clbdata.tcp

  update_udp-Invariant :
      (cm : ConfigMap) (c : Controller S) (w : S.World)
      → Invariant c
      → HasRoom S C c
      → Invariant (update_udp S C cm (c, w)).0
  unfolding update_udp
  update_udp-Invariant cm c w v r = record {
    bounded = length-send c clb v r;
    ex_tcp = v.ex_tcp;
    nw_tcp = v.nw_tcp;
    ex_udp = unique.0;
    nw_udp = unique.1;
    clbdata =
        list_nginx-IsUnique C c.nginx_server _ w
          (record { addr = v.clbdata.addr; tcp = v.clbdata.tcp; udp = unique.2 });
    plbdata = v.plbdata;
  }
    where
      compared : Compared
      compared =
          l4_compare c.ex_udp (collect_ports proto_udp (keys (entries cm)) c.nw_udp) c.clbdata.udp

      unique :
          NodupKeys compared.old_one × NodupKeys compared.new_one × NodupKeys compared.delta_one
      unique =
          compared-NodupKeys c.ex_udp c.nw_udp c.clbdata.udp proto_udp (keys (entries cm)) v.ex_udp
            v.nw_udp v.clbdata.udp

  update_ports-Invariant :
      (old new : ConfigMap) (c : Controller S) (w : S.World)
      → Invariant c
      → HasRoom S C c
      → Invariant (update_ports S C old new (c, w)).0
  unfolding update_ports
  update_ports-Invariant old new c w v r = elim (Bool-cases (same_data old new)) [
    | inl e ↦ rw e v
    | inr e ↦ elim (Bool-cases (new.name == tcp_service)) [
      | inl f ↦ rw (e, f) (update_tcp-Invariant new c w v r)
      | inr f ↦ elim (Bool-cases (new.name == udp_service)) [
        | inl g ↦ rw (e, f, g) (update_udp-Invariant new c w v r)
        | inr g ↦ rw (e, f, g) v
      ]
    ]
  ]

  addr_update_func-Invariant :
      (old new : Pod) (c : Controller S) (w : S.World)
      → Invariant c
      → HasRoom S C c
      → Invariant (addr_update_func S C old new (c, w)).0
  unfolding addr_update_func
  addr_update_func-Invariant old new c w v r =
      elim (Bool-cases (old.namespace == c.nginx_server && not (old.pod_ip == []))) [
        | inr e ↦ rw e v
        | inl e ↦ rw e (record {
          bounded = length-send c plb v r;
          ex_tcp = v.ex_tcp;
          nw_tcp = v.nw_tcp;
          ex_udp = v.ex_udp;
          nw_udp = v.nw_udp;
          clbdata = v.clbdata;
          plbdata = list_cm-IsUnique C c.nginx_server _ w (record {
            addr =
                put_valid-NodupKeys _ (validate_ipv4 old.pod_ip) (clear c.plbdata.addr)
                  (rw (clear-eq-nil c.plbdata.addr) tt);
            tcp = v.plbdata.tcp;
            udp = v.plbdata.udp;
          });
        })
      ]

  addr_add_func-Invariant :
      (pod : Pod) (c : Controller S) (w : S.World)
      → Invariant c
      → Invariant (addr_add_func S C pod (c, w)).0
  unfolding addr_add_func
  addr_add_func-Invariant pod c w v =
      elim (Bool-cases (pod.namespace == c.nginx_server && is_nginx pod)) [
        | inr e ↦ rw e v
        | inl e ↦ rw e (record {
          bounded = v.bounded;
          ex_tcp = v.ex_tcp;
          nw_tcp = v.nw_tcp;
          ex_udp = v.ex_udp;
          nw_udp = v.nw_udp;
          clbdata = v.clbdata;
          plbdata = record {
            addr = put_valid-NodupKeys _ (validate_ipv4 pod.pod_ip) c.plbdata.addr v.plbdata.addr;
            tcp = v.plbdata.tcp;
            udp = v.plbdata.udp;
          };
        })
      ]

  Step-Invariant : (s t : Controller S × S.World) → Step S C s t → Invariant s.0 → Invariant t.0
  Step-Invariant (c, w) t (config_map_updated old new r e) v =
      rw e (update_ports-Invariant old new c w v r)
  Step-Invariant (c, w) t (pod_updated old new r e) v =
      rw e (addr_update_func-Invariant old new c w v r)
  Step-Invariant (c, w) t (pod_added pod e) v = rw e (addr_add_func-Invariant pod c w v)
  Step-Invariant (c, w) t (item_processed p rest free taken done e) v = rw e (record {
    bounded = omega (arith, ap length taken, v.bounded);
    ex_tcp = v.ex_tcp;
    nw_tcp = v.nw_tcp;
    ex_udp = v.ex_udp;
    nw_udp = v.nw_udp;
    clbdata = v.clbdata;
    plbdata = v.plbdata;
  })

  -- In every state that a run reaches from a state with the invariant, the channel holds at most
  -- three pointers and no map has two entries for a key.
  pub Reach-Invariant :
      {s t : Controller S × S.World} → Reach S C s t → Invariant s.0 → Invariant t.0
  Reach-Invariant here v = v
  Reach-Invariant (next {t = t} {u = u} r step) v = Step-Invariant t u step (Reach-Invariant r v)
