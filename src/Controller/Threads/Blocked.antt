-- ===== src/Controller/Threads/Blocked.antt =====
-- What becomes of the goroutines if `Initial` has left the mutex locked: none gets a turn.
use lvs_nginx_controller.Base.{ℕ, zero, suc, ◌≡◌, refl, ◌∙◌, true, nat_eq, list_eq, arith}
use lvs_nginx_controller.Base.Text.{Text}
use lvs_nginx_controller.Ipvs.System.{System}
use lvs_nginx_controller.Controller.Cluster.{Pod, Client}
use lvs_nginx_controller.Controller.State.{Controller}
use lvs_nginx_controller.Controller.Handlers.{addr_add_func}
use lvs_nginx_controller.Controller.Threads.{
  Threads, Turn, Execution, locks, waits, sends, signals, worker_locks, worker_waits, worker_takes,
  worker_broadcasts, arrives, adds, at_start, then_turn, then_arrival, started_workers, run,
}
use lvs_nginx_controller.Controller.Threads.Counts.{count}
use lvs_nginx_controller.Controller.Threads.Moved.{moved, worker_moved}
use lvs_nginx_controller.Controller.Threads.Sync.{is_inside, is_sent, is_worker_inside, is_taken}

module _ (S : System) (C : Client S.World) (n : Text) where
  -- The mutex is locked, and no goroutine is there to unlock it. Nothing has been done outside.
  pub record Blocked (w : S.World) (t : Threads S C n) : Type 0 where
    pub held : t.held ≡ true
    pub no_handler : (count is_inside t.handlers ≡ 0) × (count is_sent t.handlers ≡ 0)
    pub no_worker : (count is_worker_inside t.workers ≡ 0) × (count is_taken t.workers ≡ 0)
    pub outside : t.shared.1 ≡ w

  pub Turn-ne-Blocked : {s t : Threads S C n} {w : S.World} → Turn S C n s t → ¬ Blocked w s
  Turn-ne-Blocked (locks e hs r free same) v = absurd (ground (arith, free, v.held))
  Turn-ne-Blocked (waits e hs r full same) v =
      let m = moved r in absurd (omega (arith, m.insiders, v.no_handler))
  Turn-ne-Blocked (sends e hs r room same) v =
      let m = moved r in absurd (omega (arith, m.insiders, v.no_handler))
  Turn-ne-Blocked (signals source hs hs' ws r g same) v =
      let m = moved r in absurd (omega (arith, m.senders, v.no_handler))
  Turn-ne-Blocked (worker_locks ws r free same) v = absurd (ground (arith, free, v.held))
  Turn-ne-Blocked (worker_waits ws r empty same) v =
      let m = worker_moved r in absurd (omega (arith, m.insiders, v.no_worker))
  Turn-ne-Blocked (worker_takes ws p rest r one_more done same) v =
      let m = worker_moved r in absurd (omega (arith, m.insiders, v.no_worker))
  Turn-ne-Blocked (worker_broadcasts ws r same) v =
      let m = worker_moved r in absurd (omega (arith, m.takers, v.no_worker))

  addr_add_func-outside :
      (pod : Pod) (s : Controller S × S.World) → (addr_add_func S C pod s).1 ≡ s.1
  unfolding addr_add_func
  addr_add_func-outside pod s = ground arith

  pub Execution-Blocked :
      {s t : Threads S C n} {w : S.World} → Execution S C n s t → Blocked w s → Blocked w t
  Execution-Blocked at_start v = v
  Execution-Blocked (then_turn r turn) v = elim (Turn-ne-Blocked turn (Execution-Blocked r v)) [ ]
  Execution-Blocked (then_arrival r (arrives e hs m same)) v =
      let before = Execution-Blocked r v in
      let counts = moved m in
      rw same (record {
        held = before.held;
        no_handler = (
          omega (arith, counts.insiders, before.no_handler),
          omega (arith, counts.senders, before.no_handler),
        );
        no_worker = before.no_worker;
        outside = before.outside;
      })
  Execution-Blocked (then_arrival {t = t} r (adds pod m same)) v =
      let before = Execution-Blocked r v in
      rw same (record {
        held = before.held;
        no_handler = before.no_handler;
        no_worker = before.no_worker;
        outside = addr_add_func-outside pod t.shared ∙ before.outside;
      })

  started_workers-outside :
      (k : ℕ)
      → (count is_worker_inside (started_workers S C n k) ≡ 0)
        × (count is_taken (started_workers S C n k) ≡ 0)
  started_workers-outside zero = (refl, refl)
  started_workers-outside (suc k) = ground (arith, started_workers-outside k)

  pub run-Blocked :
      (k : ℕ) (c : Controller S) (w : S.World) → c.locked ≡ true → Blocked w (run S C n k c w)
  unfolding run
  run-Blocked k c w locked = record {
    held = locked;
    no_handler = (refl, refl);
    no_worker = started_workers-outside k;
    outside = refl;
  }
