-- ===== src/Controller/Worker.antt =====
-- The body of `processItem`, from where the worker has received an element of the channel.
use lvs_nginx_controller.Base.{List, [], ◌∷◌, none, ◌==◌, if◌then◌else◌, nat_eq, list_eq}
use lvs_nginx_controller.Base.Text.{Text, split}
use lvs_nginx_controller.Base.Dict.{Dict}
use lvs_nginx_controller.Store.{LbStore, PortMap, addition, deletion}
use lvs_nginx_controller.Ipvs.Go.{Run, pure, attempt, ◌>>=◌, ◌>>◌}
use lvs_nginx_controller.Ipvs.System.{System}
use lvs_nginx_controller.Ipvs.Manager.{LvsManager, add, del, del_r_server}
use lvs_nginx_controller.Controller.State.{Controller, Pointer, proto_tcp, proto_udp, deref}

abbrev pub first_part : List Text → Text
first_part [] = []
first_part (part ∷ parts) = part

module _ (S : System) where
  -- The loops of `processItem` over the ports of one protocol. Errors are logged.
  unfoldable pub process_ports : LvsManager S → Text → Text → PortMap → Run S.World (Unit {0})
  process_ports lm addr proto [] = pure tt
  process_ports lm addr proto ((port, act) ∷ ports) =
      (if act == addition
        then attempt (add S lm addr port proto)
        else if act == deletion
        then attempt (del S lm addr port proto)
        else pure none)
      >>= λ _. process_ports lm addr proto ports

  -- The body of the loop of `processItem` over the addresses.
  unfoldable pub process_address : LvsManager S → LbStore → Text → Text → Run S.World (Unit {0})
  process_address lm lbdata key addr =
      let action = first_part (split 95 key) in
      if action == addition
      then (do
        process_ports lm addr proto_tcp lbdata.tcp
        process_ports lm addr proto_udp lbdata.udp)
      else if action == deletion
      then (attempt (del_r_server S lm addr) >>= λ _. pure tt)
      else pure tt

  unfoldable pub process_addresses :
      LvsManager S → LbStore → Dict Text Text → Run S.World (Unit {0})
  process_addresses lm lbdata [] = pure tt
  process_addresses lm lbdata ((key, addr) ∷ addrs) =
      process_address lm lbdata key addr >>= λ _. process_addresses lm lbdata addrs

  -- `processFunc`, for the pointer that it has received.
  unfoldable pub process_func : Controller S → Pointer → Run S.World (Unit {0})
  process_func c p = process_addresses c.lvs_manager (deref S p c) (deref S p c).addr
