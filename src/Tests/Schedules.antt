-- ===== src/Tests/Schedules.antt =====
-- The theorems on the goroutines, at the cluster of Tests/Events, with five workers.
use lvs_nginx_controller.Base.{
  ◌≡◌, ◌≤◌, ◌<◌, ◌+◌, ◌⊎◌, length, refl, true, false, List, [], ◌∷◌, nat_eq, list_eq, arith,
}
use lvs_nginx_controller.Base.Text.{codes}
use lvs_nginx_controller.Tests.{memory, table, memory-IsKernel}
use lvs_nginx_controller.Controller.Threads.{
  Event, pod_event, is_addressed, idle, wanting, inside, sent, pods, config_maps, WorkerPhase,
  worker_wanting, worker_inside, worker_sleeping, Threads, Execution, at_start, then_turn,
  then_arrival, arrives, locks, sends, signals, wakes_worker, run, worker_locks, worker_waits,
  Turns, handle, is_sleeping, is_worker_sleeping,
}
use lvs_nginx_controller.Controller.Threads.Counts.{count, first}
use lvs_nginx_controller.Controller.Threads.Sync.{is_inside, is_sent, is_taken, is_worker_inside}
use lvs_nginx_controller.Controller.Threads.Reached.{run-excludes}
use lvs_nginx_controller.Controller.Threads.Progress.{Quiet, PassEnds}
use lvs_nginx_controller.Controller.Threads.Energy.{turns, energy}
use lvs_nginx_controller.Controller.Threads.Settled.{run-settles}
use lvs_nginx_controller.Controller.Threads.Served.{run-serves}
use lvs_nginx_controller.Controller.Drain.{HasTargets, route_stores}
use lvs_nginx_controller.Ipvs.Manager.Sound.{routes}
use lvs_nginx_controller.Tests.Runs.{sound, serving, parses}
use lvs_nginx_controller.Tests.Passes.{backlog}
use lvs_nginx_controller.Tests.Events.{pod, leaving, cluster, controller}

addressed : is_addressed (codes "ingress-nginx") leaving ≡ true
unfolding nat_eq list_eq
addressed = refl

abbrev event : Event (codes "ingress-nginx")
event = pod_event leaving pod addressed

abbrev start : Threads memory cluster (codes "ingress-nginx")
start = run memory cluster (codes "ingress-nginx") 5 (controller []) table

abbrev four : List WorkerPhase
four = worker_wanting ∷ worker_wanting ∷ worker_wanting ∷ worker_wanting ∷ []

-- One worker sleeps, and the event of a pod arrives, is handled and wakes it up.
abbrev handled : Threads memory cluster (codes "ingress-nginx")
handled = record {
  handlers = idle pods ∷ idle config_maps ∷ [];
  workers = worker_wanting ∷ four;
  held = false;
  shared = handle memory cluster (codes "ingress-nginx") event (controller [], table);
}

schedule : Execution memory cluster (codes "ingress-nginx") start handled
unfolding run
schedule =
    then_turn
      (then_turn
        (then_turn
          (then_arrival
            (then_turn (then_turn at_start (worker_locks (worker_inside ∷ four) first refl refl))
              (worker_waits (worker_sleeping ∷ four) first refl refl))
            (arrives event (wanting event ∷ idle config_maps ∷ []) first refl))
          (locks event (inside event ∷ idle config_maps ∷ []) first refl refl))
        (sends event (sent pods ∷ idle config_maps ∷ []) first (λ e. omega (arith, e)) refl))
      (signals pods (idle pods ∷ idle config_maps ∷ []) (idle pods ∷ idle config_maps ∷ [])
        (worker_wanting ∷ four) first (wakes_worker first refl) refl)

run-excludes_example :
    (count is_inside handled.handlers + count is_worker_inside handled.workers ≡ 0)
    × (length handled.shared.0.lbstore ≤ 3)
    × (0 < count is_sleeping handled.handlers
        → (length handled.shared.0.lbstore ≡ 3) ⊎ (0 < count is_taken handled.workers))
    × (count is_worker_sleeping handled.workers ≡ length handled.workers
        → length handled.shared.0.lbstore ≤ count is_sent handled.handlers)
run-excludes_example =
    run-excludes memory cluster (codes "ingress-nginx") 5 (controller []) table (omega arith) refl
      refl (omega arith) schedule

run-settles_example :
    ((u : Threads memory cluster (codes "ingress-nginx"))
        (r : Turns memory cluster (codes "ingress-nginx") handled u)
      → turns memory cluster (codes "ingress-nginx") r
        ≤ energy memory cluster (codes "ingress-nginx") handled)
    × (((u : Threads memory cluster (codes "ingress-nginx"))
          → Turns memory cluster (codes "ingress-nginx") handled u
          → PassEnds memory cluster (codes "ingress-nginx") u)
        → (u : Threads memory cluster (codes "ingress-nginx")) × Turns memory cluster
            (codes "ingress-nginx")
            handled
            u
          × Quiet memory cluster (codes "ingress-nginx") u)
run-settles_example =
    run-settles memory cluster (codes "ingress-nginx") 5 (controller []) table (omega arith) refl
      refl (omega arith) schedule

-- Five workers, where three pointers wait, two of them to a store that adds ports at an address
-- and takes another address away.
abbrev loaded : Threads memory cluster (codes "ingress-nginx")
loaded = run memory cluster (codes "ingress-nginx") 5 backlog table

run-serves_example :
    ((u : Threads memory cluster (codes "ingress-nginx")) × Turns memory cluster
        (codes "ingress-nginx")
        loaded
        u
      × Quiet memory cluster (codes "ingress-nginx") u)
    × ((u : Threads memory cluster (codes "ingress-nginx"))
        → Turns memory cluster (codes "ingress-nginx") loaded u
        → Quiet memory cluster (codes "ingress-nginx") u
        → (u.shared.0 ≡ record loaded.shared.0 { lbstore = [] })
          × (routes u.shared.1
              ≡ route_stores memory cluster loaded.shared.0 loaded.shared.0.lbstore
                  (routes loaded.shared.1)))
unfolding run
run-serves_example =
    run-serves memory cluster (codes "ingress-nginx") tt memory-IsKernel 5 backlog table
      (omega arith) refl refl (omega arith) at_start refl refl refl serving ports sound
  where
    ports : HasTargets memory cluster backlog
    ports = record {
      clb_tcp = tt;
      clb_udp = tt;
      plb_tcp = ((λ e. cc), tt);
      plb_udp = ((λ e. cc), tt);
      clb_addr = tt;
      plb_addr = parses;
    }
