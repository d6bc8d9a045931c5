-- ===== src/Controller/State.antt =====
-- `LoadBalancerController` (pkg/controller/controller.go) as a record. The goroutines share it
-- under one lock, which each of them holds from its first to its last access.
use lvs_nginx_controller.Base.{Bool, false, List, [], if◌then◌else◌, ◌==◌, nat_eq, list_eq}
use lvs_nginx_controller.Base.Text.{Text, codes}
use lvs_nginx_controller.Config.{Config}
use lvs_nginx_controller.Store.{LbStore, PortMap, new_lb_store}
use lvs_nginx_controller.Ipvs.Go.{Run, pure, ◌>>=◌}
use lvs_nginx_controller.Ipvs.System.{System}
use lvs_nginx_controller.Ipvs.Manager.{LvsManager, new_lvs_manager, init}

abbrev pub nginx_default : Text
nginx_default = codes "ingress-nginx"

abbrev pub nginx_pattern : Text
nginx_pattern = codes "nginx-ingress-controller"

abbrev pub tcp_service : Text
tcp_service = codes "tcp-services"

abbrev pub udp_service : Text
udp_service = codes "udp-services"

abbrev pub proto_tcp : Text
proto_tcp = codes "tcp"

abbrev pub proto_udp : Text
proto_udp = codes "udp"

-- The channel carries pointers to the two stores of the controller, not copies of them.
pub data Pointer : Type 0 where
  clb plb : Pointer

module _ (S : System) where
  pub record Controller : Type 0 where
    pub nginx_server : Text
    pub nw_tcp : PortMap
    pub ex_tcp : PortMap
    pub nw_udp : PortMap
    pub ex_udp : PortMap
    pub clbdata : LbStore
    pub plbdata : LbStore
    -- the channel of capacity 3, its oldest element first
    pub lbstore : List Pointer
    pub lvs_manager : LvsManager S
    -- whether a goroutine has returned without unlocking
    pub locked : Bool

  abbrev pub deref : Pointer → Controller → LbStore
  deref clb c = c.clbdata
  deref plb c = c.plbdata

  -- `NewLoadBalancerController`, less the informers: their handlers are the events of a run.
  unfoldable pub new_controller : Config → Run S.World Controller
  new_controller cfg = do
    lm ← init S (new_lvs_manager S) cfg
    pure (record {
      nginx_server = if cfg.nginx_server == [] then nginx_default else cfg.nginx_server;
      nw_tcp = [];
      ex_tcp = [];
      nw_udp = [];
      ex_udp = [];
      clbdata = new_lb_store;
      plbdata = new_lb_store;
      lbstore = [];
      lvs_manager = lm;
      locked = false;
    })
