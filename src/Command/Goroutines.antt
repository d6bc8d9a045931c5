-- ===== src/Command/Goroutines.antt =====
-- The goroutines that `Run` starts for `RunController`: five workers and the two informers.
use lvs_nginx_controller.Base.{
  ◌≡◌, ◌≤◌, refl, true, false, ◌⊎◌, inl, inr, length, arith, Bool-cases,
}
use lvs_nginx_controller.Ipvs.Go.{ok}
use lvs_nginx_controller.Ipvs.System.{System}
use lvs_nginx_controller.Controller.Cluster.{Client}
use lvs_nginx_controller.Controller.State.{Controller}
use lvs_nginx_controller.Controller.Steps.{here}
use lvs_nginx_controller.Controller.Threads.{Threads, Execution, run}
use lvs_nginx_controller.Controller.Threads.Progress.{CanTurn, Quiet, PassEnds, run-progress}
use lvs_nginx_controller.Controller.Threads.Blocked.{
  Turn-ne-Blocked, Execution-Blocked, run-Blocked,
}
use lvs_nginx_controller.Command.{Options, Kubernetes, run_controller}
use lvs_nginx_controller.Command.Start.{run_controller-blocked}

module _ (S : System) (k : Kubernetes S) (opts : Options) (w : S.World) (C : Client S.World)
    (c : Controller S) (done : (run_controller S k opts w).0 ≡ ok (C, c)) where
  abbrev after : S.World
  after = (run_controller S k opts w).1

  abbrev start : Threads S C c.nginx_server
  start = run S C c.nginx_server 5 c after

  -- The channel then holds at most the pointer to the store of `Initial`.
  run_controller-length : length c.lbstore ≤ 3
  run_controller-length = elim (run_controller-blocked S k opts w C c done) [
    | inl (free, one) ↦ rw one (omega arith)
    | inr stuck ↦ rw (stuck.1 (c, after) here).1 (omega arith)
  ]

  -- Where `RunController` gets to the call of `Run`, one of two things holds of every state that the
  -- goroutines reach. Either some goroutine can go on, or nothing is left to do; this is if a
  -- worker's pass over the first pointer in the channel does not panic. Or no goroutine can take a
  -- turn, and nothing has changed outside. The first is so if the lock is free, the second if not.
  pub run_controller-progress :
      ((c.locked ≡ false)
        × ((t : Threads S C c.nginx_server)
            → Execution S C c.nginx_server start t
            → PassEnds S C c.nginx_server t
            → CanTurn S C c.nginx_server t ⊎ Quiet S C c.nginx_server t))
      ⊎ ((c.locked ≡ true)
          × ((t : Threads S C c.nginx_server)
              → Execution S C c.nginx_server start t
              → (¬ CanTurn S C c.nginx_server t) × (t.shared.1 ≡ after)))
  run_controller-progress = elim (Bool-cases c.locked) [
    | inl locked ↦ inr (
      locked,
      λ t r.
          let b =
            Execution-Blocked S C c.nginx_server r
              (run-Blocked S C c.nginx_server 5 c after locked) in
          ((λ (u, turn). Turn-ne-Blocked S C c.nginx_server turn b), b.outside),
    )
    | inr free ↦ inl (
      free,
      λ t r ends.
          run-progress S C c.nginx_server 5 c after (omega arith) refl free run_controller-length r
            ends,
    )
  ]
