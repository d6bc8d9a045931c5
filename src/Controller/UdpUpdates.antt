-- ===== src/Controller/UdpUpdates.antt =====
-- What the events of the config map for UDP ports leave in the stores (`updatePorts`).
use lvs_nginx_controller.Base.{ℕ, ◌≡◌, refl, none, [], ◌∷◌, ◌++◌, nat_eq, list_eq, arith}
use lvs_nginx_controller.Base.Dict.{lookup, NodupKeys}
use lvs_nginx_controller.Store.{PortMap, l4_compare}
use lvs_nginx_controller.Store.Compare.{change}
use lvs_nginx_controller.Ipvs.System.{System}
use lvs_nginx_controller.Controller.Cluster.{ConfigMap, Client}
use lvs_nginx_controller.Controller.State.{Controller, clb, proto_udp}
use lvs_nginx_controller.Controller.Listing.{list_nginx_ports}
use lvs_nginx_controller.Controller.Handlers.{update_udp}
use lvs_nginx_controller.Controller.Collect.{named, collected, compared_changed}

module _ (S : System) (C : Client S.World) where
  -- If a config map names other UDP ports than the known ones and nothing was left over, the handler
  -- marks in its store exactly the difference, whatever the store held before, knows the named
  -- ports afterwards, leaves nothing over and sends the pointer to its store. No port is known twice.
  pub update_udp_changed :
      (cm : ConfigMap) (c : Controller S) (w : S.World)
      → NodupKeys c.ex_udp
      → c.nw_udp ≡ []
      → ¬ ((j : ℕ) → lookup j c.ex_udp ≡ named proto_udp cm j)
      → let c' = (update_udp S C cm (c, w)).0 in
        ((j : ℕ)
          → (lookup j c'.clbdata.udp ≡ change (lookup j c.ex_udp) (named proto_udp cm j))
            × (lookup j c'.ex_udp ≡ named proto_udp cm j)
            × (lookup j c'.nw_udp ≡ none))
        × (c'.lbstore ≡ c.lbstore ++ (clb ∷ []))
  unfolding update_udp
  update_udp_changed cm c w u empty differ = (
    λ j. ground (
      arith,
      (list_nginx_ports C c.nginx_server (record c.clbdata { udp = delta }) w).1,
      compared_changed proto_udp cm c.nw_udp c.ex_udp c.clbdata.udp u empty differ j,
    ),
    refl,
  )
    where
      delta : PortMap
      delta = (l4_compare c.ex_udp (collected proto_udp cm c.nw_udp) c.clbdata.udp).delta_one
