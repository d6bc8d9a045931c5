-- ===== src/Controller/Threads/WorkersKept.antt =====
-- Every turn of a worker keeps `Sync`.
use lvs_nginx_controller.Base.{
  ◌≡◌, inl, inr, ap, true, false, List, [], ◌∷◌, nat_eq, list_eq, arith, length,
}
use lvs_nginx_controller.Base.Text.{Text}
use lvs_nginx_controller.Ipvs.System.{System}
use lvs_nginx_controller.Controller.Cluster.{Client}
use lvs_nginx_controller.Controller.State.{Pointer}
use lvs_nginx_controller.Controller.Threads.{
  WorkerPhase, worker_wanting, worker_inside, worker_sleeping, taken, wake_all, wake_workers,
  Threads,
}
use lvs_nginx_controller.Controller.Threads.Counts.{Replaced}
use lvs_nginx_controller.Controller.Threads.Sync.{Sync, wake_all_lem, wake_workers_lem}
use lvs_nginx_controller.Controller.Threads.Moved.{worker_moved}

module _ (S : System) (C : Client S.World) (n : Text) where
  pub worker_locks-Sync :
      (s : Threads S C n) (ws : List WorkerPhase)
      → Sync S C n s
      → Replaced worker_wanting worker_inside s.workers ws
      → s.held ≡ false
      → Sync S C n (record s { workers = ws; held = true })
  worker_locks-Sync s ws v r free =
      let u = worker_moved r in
      record {
        server = v.server;
        free = v.free;
        few = v.few;
        some_worker = omega (arith, u.as_many, v.some_worker);
        bounded = v.bounded;
        mutex = ground (arith, v.mutex, u.insiders, free);
        awaited = λ h. elim (v.awaited h) [
          | inl full ↦ inl full
          | inr later ↦ inr (omega (arith, later, u.takers))
        ];
        announced = λ h. absurd (omega (arith, h, u.phases, u.insiders));
      }

  pub worker_waits-Sync :
      (s : Threads S C n) (ws : List WorkerPhase)
      → Sync S C n s
      → Replaced worker_inside worker_sleeping s.workers ws
      → s.shared.0.lbstore ≡ []
      → Sync S C n (record s { workers = ws; held = false })
  worker_waits-Sync s ws v r empty =
      let u = worker_moved r in
      record {
        server = v.server;
        free = v.free;
        few = v.few;
        some_worker = omega (arith, u.as_many, v.some_worker);
        bounded = v.bounded;
        mutex = ground (arith, v.mutex, u.insiders);
        awaited = λ h. elim (v.awaited h) [
          | inl full ↦ inl full
          | inr later ↦ inr (omega (arith, later, u.takers))
        ];
        announced = λ h. rw empty (omega arith);
      }

  pub worker_takes-Sync :
      (s : Threads S C n) (ws : List WorkerPhase) (p : Pointer) (rest : List Pointer) (w : S.World)
      → Sync S C n s
      → Replaced worker_inside taken s.workers ws
      → s.shared.0.lbstore ≡ p ∷ rest
      → Sync S C n (record s {
        workers = ws;
        held = false;
        shared = (record s.shared.0 { lbstore = rest }, w);
      })
  worker_takes-Sync s ws p rest w v r one_more =
      let u = worker_moved r in
      let shorter = ap length one_more in
      record {
        server = v.server;
        free = v.free;
        few = v.few;
        some_worker = omega (arith, u.as_many, v.some_worker);
        bounded = omega (arith, shorter, v.bounded);
        mutex = ground (arith, v.mutex, u.insiders);
        awaited = λ h. inr (omega (arith, u.takers));
        announced = λ h. absurd (omega (arith, h, u.phases, u.takers));
      }

  pub worker_broadcasts-Sync :
      (s : Threads S C n) (ws : List WorkerPhase)
      → Sync S C n s
      → Replaced taken worker_wanting s.workers ws
      → Sync S C n (record s { handlers = wake_all s.handlers; workers = wake_workers ws })
  worker_broadcasts-Sync s ws v r =
      let u = worker_moved r in
      let all = wake_all_lem s.handlers in
      let awake = wake_workers_lem ws in
      record {
        server = v.server;
        free = v.free;
        few = omega (arith, all, v.few);
        some_worker = omega (arith, awake, u.as_many, v.some_worker);
        bounded = v.bounded;
        mutex = ground (arith, v.mutex, all, awake, u.insiders);
        awaited = λ h. absurd (omega (arith, h, all));
        announced = λ h. absurd (omega (arith, h, awake, u.as_many, v.some_worker));
      }
