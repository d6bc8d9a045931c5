-- ===== src/Command/Main/Endings.antt =====
-- How the program ends, for its command line and its cluster.
use lvs_nginx_controller.Base.{
  ℕ, ◌≡◌, ◌≢◌, refl, ◌⊎◌, inl, inr, List, [], true, if◌then◌else◌, ◌==◌, nat_eq, list_eq, ◌^◌,
  arith,
}
use lvs_nginx_controller.Base.Text.Number.{atoi, low_word}
use lvs_nginx_controller.Net.{parse_ip}
use lvs_nginx_controller.Config.{Config}
use lvs_nginx_controller.Ipvs.Go.{Error, Result, ok, err, crash, Run, ◌>>=◌}
use lvs_nginx_controller.Ipvs.System.{System}
use lvs_nginx_controller.Ipvs.Manager.{
  atoi_value, init, interface_name, flush_iptables, new_lvs_manager,
}
use lvs_nginx_controller.Controller.Cluster.{Client}
use lvs_nginx_controller.Controller.State.{Controller, new_controller, nginx_default}
use lvs_nginx_controller.Controller.Handlers.{initial}
use lvs_nginx_controller.Command.{
  Options, new_options, add_flags, Kubernetes, started, run_controller,
}
use lvs_nginx_controller.Command.Flags.{Argument, HoldsLast, accepts, set_arguments, set_defaults}
use lvs_nginx_controller.Command.Main.{
  Cli, IsCliLibrary, Ending, returned, running, panicked, main, main_program, app_action, acted,
  coded, sort,
}
use lvs_nginx_controller.Command.Main.Sorted.{main_flags-HoldsLast, main_flags-are_plain}

module _ (S : System) where
  -- The controller has what the configuration asks for.
  pub record Configured (cfg : Config) (c : Controller S) : Type 0 where
    pub nginx_server :
        c.nginx_server ≡ (if cfg.nginx_server == [] then nginx_default else cfg.nginx_server)
    pub vip : c.lvs_manager.vip ≡ parse_ip S.parse_ipv6 cfg.vip
    pub sched_name : c.lvs_manager.sched_name ≡ cfg.sched_name
    pub timeout : c.lvs_manager.timeout ≡ low_word (2 ^ 32) (atoi_value (atoi cfg.idle_timeout))
    pub marked : c.lvs_manager.marked ≡ cfg.pnmpp

  new_controller-Configured :
      (cfg : Config) (b : Controller S) (w : S.World)
      → (new_controller S cfg w).0 ≡ ok b
      → Configured cfg b
  unfolding new_controller init new_lvs_manager interface_name flush_iptables
  new_controller-Configured cfg b w built = record {
    nginx_server = ground arith;
    vip = ground arith;
    sched_name = ground arith;
    timeout = ground arith;
    marked = ground arith;
  }

  new_controller-ne-err :
      (cfg : Config) (w : S.World) (e : Error) → (new_controller S cfg w).0 ≢ err e
  unfolding new_controller init new_lvs_manager interface_name flush_iptables
  new_controller-ne-err cfg w e failed = ground arith

  initial-Configured :
      (C : Client S.World) (cfg : Config) (b : Controller S) (w : S.World)
      → Configured cfg b
      → Configured cfg (initial S C (b, w)).1.0
  unfolding initial
  initial-Configured C cfg b w h = record {
    nginx_server = ground (arith, h.nginx_server);
    vip = ground (arith, h.vip);
    sched_name = ground (arith, h.sched_name);
    timeout = ground (arith, h.timeout);
    marked = ground (arith, h.marked);
  }

Result-cases :
    {A : Type 0} (r : Result A)
    → ((a : A) × (r ≡ ok a)) ⊎ (((e : Error) × (r ≡ err e)) ⊎ (r ≡ crash))
Result-cases (ok a) = inl (a, refl)
Result-cases (err e) = inr (inl (e, refl))
Result-cases crash = inr (inr refl)

module _ (S : System) (cli : Cli S) (k : Kubernetes S) where
  -- The client that `RunController` makes.
  abbrev pub connected : Options → Run S.World (Client S.World)
  connected o = k.build_config_from_flags o.kubeconfig >>= k.new_for_config

  -- In `Run`, with what `Initial` leaves.
  abbrev pub after_initial :
      Options → S.World → Client S.World → Controller S → Ending S ℕ × S.World
  after_initial o w C b =
      let s = (initial S C (b, (new_controller S o.cfg (connected o w).1).1)).1 in
      (running C s.0, s.1)

  -- The ways in which the program ends for its options: with status 1, where the client cannot be
  -- made; in `Run`, with the configured controller that `Initial` leaves; or with a panic, where
  -- one of the calls before has panicked.
  pub data Ends (o : Options) (w : S.World) (end : Ending S ℕ × S.World) : Type 0 where
    unconnected :
        (e : Error)
        → (connected o w).0 ≡ err e
        → end ≡ (returned 1, (connected o w).1)
        → Ends o w end
    started_running :
        (C : Client S.World) (b : Controller S)
        → (connected o w).0 ≡ ok C
        → (new_controller S o.cfg (connected o w).1).0 ≡ ok b
        → end ≡ after_initial o w C b
        → Configured S o.cfg (initial S C (b, (new_controller S o.cfg (connected o w).1).1)).1.0
        → Ends o w end
    connecting_panicked : (connected o w).0 ≡ crash → end.0 ≡ panicked → Ends o w end
    building_panicked :
        (C : Client S.World)
        → (connected o w).0 ≡ ok C
        → (new_controller S o.cfg (connected o w).1).0 ≡ crash
        → end.0 ≡ panicked
        → Ends o w end

  run_controller-connected :
      (o : Options) (w : S.World)
      → run_controller S k o w
        ≡ (connected o >>= λ C. new_controller S o.cfg >>= λ b. started S C b) w
  unfolding run_controller
  run_controller-connected o w = elim (Result-cases (k.build_config_from_flags o.kubeconfig w).0) [
    | inl (r, e) ↦ rw e refl
    | inr (inl (x, e)) ↦ rw e refl
    | inr (inr e) ↦ rw e refl
  ]

  run_controller-Ends :
      (o : Options) (w : S.World) → Ends o w (coded S (acted S cli (run_controller S k o w)))
  run_controller-Ends o w =
      rw (run_controller-connected o w) (elim (Result-cases (connected o w).0) [
        | inl (C, e) ↦ elim (Result-cases (new_controller S o.cfg (connected o w).1).0) [
          | inl (b, d) ↦
              started_running C b e d (rw (e, d) refl)
                (initial-Configured S C o.cfg b _ (new_controller-Configured S o.cfg b _ d))
          | inr (inl (x, d)) ↦ absurd (new_controller-ne-err S o.cfg _ x d)
          | inr (inr d) ↦ building_panicked C e d (rw (e, d) refl)
        ]
        | inr (inl (x, e)) ↦ unconnected x e (rw e refl)
        | inr (inr e) ↦ connecting_panicked e (rw e refl)
      ])

  -- Let the library keep to what is documented, and let each argument give one of the program's
  -- flags a value of its type. The program then acts on options each of which is
  -- the last value that the arguments give to its own flag, or else its zero value. With these it
  -- exits with status 1 exactly if the configuration or the client of the cluster cannot be made,
  -- having then called nothing else. It panics if one of these calls does, or the construction of
  -- the controller. Else it stays in `Run`, also if `Initial` has failed, with the virtual address,
  -- the scheduler, the timeout, the marking and the namespace of the options.
  pub main-Ends :
      IsCliLibrary S cli
      → (args : List Argument) (w : S.World) → accepts (main_program S cli k).app.flags args ≡ true
      → (o : Options) × HoldsLast new_options args o × Ends o w (main S cli k args w)
  unfolding main main_program app_action
  main-Ends lib args w accepted =
      let flags = sort cli.less (add_flags (record { flags = [] })).flags in
      let o = set_arguments flags args (set_defaults flags new_options) in
      (
        o,
        main_flags-HoldsLast S cli lib args new_options,
        rw
            (lib.runs (main_program S cli k) args new_options w (main_flags-are_plain S cli lib)
              accepted)
            (run_controller-Ends o w),
      )
