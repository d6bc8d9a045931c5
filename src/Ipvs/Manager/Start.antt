-- ===== src/Ipvs/Manager/Start.antt =====
-- `Init`: what it sets, and where it panics.
use lvs_nginx_controller.Base.{
  ℕ, ◌^◌, ◌<◌, ◌≡◌, ◌≢◌, refl, true, false, some, ◌∷◌, ◌++◌, nat_eq, list_eq, arith,
}
use lvs_nginx_controller.Base.Text.{Text, remove_all}
use lvs_nginx_controller.Base.Text.Number.{atoi, atoi-dashed, decimal, low_word}
use lvs_nginx_controller.Config.{Config}
use lvs_nginx_controller.Net.{parse_ip}
use lvs_nginx_controller.Ipvs.Go.{Error, ok, err, crash}
use lvs_nginx_controller.Ipvs.System.{System}
use lvs_nginx_controller.Ipvs.Manager.{
  LvsManager, init, interface_name, flush_iptables, provider_name, route_command, atoi_value,
}

module _ (S : System) (lm : LvsManager S) (cfg : Config) (w : S.World)
    (fresh : lm.initialized ≡ false) where
  -- The world after the command that finds the interface.
  abbrev asked : S.World
  asked = (S.shell route_command w).1

  -- Without a handle the first `Init` panics: the error of `libipvs.New` is logged, and the next call goes
  -- through the nil handle.
  pub init_without_handle :
      (e : Error) → (S.new_handle asked).0 ≡ err e → (init S lm cfg w).0 ≡ crash
  unfolding init interface_name
  init_without_handle e failed_new = ground arith

  -- With a handle, and where the flush does not panic, the first `Init` ends without an error, also if the
  -- flush or a command fails. It has set the handle, the address, the mark flag and the timeout,
  -- and a further `Init` changes nothing.
  pub init_with_handle :
      (h : S.Handle)
      → (S.new_handle asked).0 ≡ ok h
      → (S.flush h (S.new_handle asked).1).0 ≢ crash
      → (lm' : LvsManager S) × ((init S lm cfg w).0 ≡ ok lm')
        × (lm'.handle ≡ some h)
        × (lm'.vip ≡ parse_ip S.parse_ipv6 cfg.vip)
        × (lm'.marked ≡ cfg.pnmpp)
        × (lm'.timeout ≡ low_word (2 ^ 32) (atoi_value (atoi cfg.idle_timeout)))
        × ((cfg' : Config) (w' : S.World) → init S lm' cfg' w' ≡ (ok lm', w'))
  unfolding init interface_name flush_iptables
  init_with_handle h opened flushed = (
    record {
      initialized = true;
      name = provider_name;
      handle = some h;
      vip = parse_ip S.parse_ipv6 cfg.vip;
      sched_name = cfg.sched_name;
      timeout = low_word (2 ^ 32) (atoi_value (atoi cfg.idle_timeout));
      marked = cfg.pnmpp;
      intf = remove_all 10 (S.shell route_command w).0.0;
    },
    ground arith,
    refl,
    refl,
    refl,
    refl,
    λ cfg' w'. refl,
  )

  -- If the first `Init` ends, a timeout in the documented form, a number below 2^63 with a dash after
  -- it, has set the timeout 0.
  pub init_dashed_timeout :
      (n : ℕ) (rest : Text) (lm' : LvsManager S)
      → n < 2 ^ 63
      → cfg.idle_timeout ≡ decimal n ++ (45 ∷ rest)
      → (init S lm cfg w).0 ≡ ok lm'
      → lm'.timeout ≡ 0
  unfolding init interface_name flush_iptables
  init_dashed_timeout n rest lm' small dashed done = ground (arith, atoi-dashed n rest small)
