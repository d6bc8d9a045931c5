-- ===== src/Controller/Threads/Reached.antt =====
-- What holds in every state that the goroutines reach.
use lvs_nginx_controller.Base.{
  ℕ, zero, suc, ◌≡◌, ◌≤◌, ◌<◌, ◌+◌, ◌⊎◌, refl, ◌∙◌, false, if◌then◌else◌, List, nat_eq, list_eq,
  arith, length,
}
use lvs_nginx_controller.Base.Text.{Text}
use lvs_nginx_controller.Ipvs.System.{System}
use lvs_nginx_controller.Controller.Cluster.{Pod, Client}
use lvs_nginx_controller.Controller.State.{Controller}
use lvs_nginx_controller.Controller.Handlers.{addr_add_func}
use lvs_nginx_controller.Controller.Threads.{
  Event, Phase, idle, wanting, Threads, Turn, Arrival, Execution, locks, waits, sends, signals,
  worker_locks, worker_waits, worker_takes, worker_broadcasts, arrives, adds, at_start, then_turn,
  then_arrival, source_of, is_sleeping, is_worker_sleeping, started_workers, run,
}
use lvs_nginx_controller.Controller.Threads.Counts.{count, Replaced}
use lvs_nginx_controller.Controller.Threads.Sync.{
  Sync, is_inside, is_sent, is_taken, is_worker_inside,
}
use lvs_nginx_controller.Controller.Threads.Moved.{moved}
use lvs_nginx_controller.Controller.Threads.Kept.{locks-Sync, waits-Sync, sends-Sync, signals-Sync}
use lvs_nginx_controller.Controller.Threads.WorkersKept.{
  worker_locks-Sync, worker_waits-Sync, worker_takes-Sync, worker_broadcasts-Sync,
}

module _ (S : System) (C : Client S.World) (n : Text) where
  pub Turn-Sync : {s t : Threads S C n} → Turn S C n s t → Sync S C n s → Sync S C n t
  Turn-Sync {s = s} (locks e hs r free same) v = rw same (locks-Sync S C n s e hs v r free)
  Turn-Sync {s = s} (waits e hs r full same) v = rw same (waits-Sync S C n s e hs v r full)
  Turn-Sync {s = s} (sends e hs r room same) v = rw same (sends-Sync S C n s e hs v r room)
  Turn-Sync {s = s} (signals source hs hs' ws r g same) v =
      rw same (signals-Sync S C n s source hs hs' ws v r g)
  Turn-Sync {s = s} (worker_locks ws r free same) v =
      rw same (worker_locks-Sync S C n s ws v r free)
  Turn-Sync {s = s} (worker_waits ws r empty same) v =
      rw same (worker_waits-Sync S C n s ws v r empty)
  Turn-Sync {s = s} (worker_takes ws p rest r one_more done same) v =
      rw same (worker_takes-Sync S C n s ws p rest _ v r one_more)
  Turn-Sync {s = s} (worker_broadcasts ws r same) v =
      rw same (worker_broadcasts-Sync S C n s ws v r)

  arrives-Sync :
      (s : Threads S C n) (e : Event n) (hs : List (Phase n))
      → Sync S C n s
      → Replaced (idle (source_of e)) (wanting e) s.handlers hs
      → Sync S C n (record s { handlers = hs })
  arrives-Sync s e hs v r =
      let m = moved r in
      record {
        server = v.server;
        free = v.free;
        few = omega (arith, m.as_many, v.few);
        some_worker = v.some_worker;
        bounded = v.bounded;
        mutex = omega (arith, v.mutex, m.insiders);
        awaited = λ h. v.awaited (omega (arith, m.sleepers, h));
        announced = λ h. omega (arith, v.announced h, m.senders);
      }

  -- `addrAddFunc` neither sends nor locks.
  addr_add_func_lem :
      (pod : Pod) (s : Controller S × S.World)
      → let c = (addr_add_func S C pod s).0 in
        (c.lbstore ≡ s.0.lbstore) × (c.locked ≡ s.0.locked) × (c.nginx_server ≡ s.0.nginx_server)
  unfolding addr_add_func
  addr_add_func_lem pod s = ground arith

  adds-Sync :
      (s : Threads S C n) (pod : Pod)
      → Sync S C n s
      → Sync S C n (record s { shared = addr_add_func S C pod s.shared })
  adds-Sync s pod v =
      let (channel, lock, server) = addr_add_func_lem pod s.shared in
      record {
        server = server ∙ v.server;
        free = lock ∙ v.free;
        few = v.few;
        some_worker = v.some_worker;
        bounded = rw channel v.bounded;
        mutex = v.mutex;
        awaited = rw channel v.awaited;
        announced = rw channel v.announced;
      }

  Arrival-Sync : {s t : Threads S C n} → Arrival S C n s t → Sync S C n s → Sync S C n t
  Arrival-Sync {s = s} (arrives e hs r same) v = rw same (arrives-Sync s e hs v r)
  Arrival-Sync {s = s} (adds pod r same) v = rw same (adds-Sync s pod v)

  pub Execution-Sync : {s t : Threads S C n} → Execution S C n s t → Sync S C n s → Sync S C n t
  Execution-Sync at_start v = v
  Execution-Sync (then_turn r turn) v = Turn-Sync turn (Execution-Sync r v)
  Execution-Sync (then_arrival r arrival) v = Arrival-Sync arrival (Execution-Sync r v)

  started_workers_lem :
      (k : ℕ)
      → (length (started_workers S C n k) ≡ k)
        × (count is_worker_inside (started_workers S C n k) ≡ 0)
        × (count is_worker_sleeping (started_workers S C n k) ≡ 0)
  started_workers_lem zero = (refl, refl, refl)
  started_workers_lem (suc k) = ground (arith, started_workers_lem k)

  -- `Run` starts well if `Initial` has left the lock free.
  pub run-Sync :
      (k : ℕ) (c : Controller S) (w : S.World)
      → 0 < k
      → c.nginx_server ≡ n
      → c.locked ≡ false
      → length c.lbstore ≤ 3
      → Sync S C n (run S C n k c w)
  unfolding run
  run-Sync k c w some server free bounded =
      let l = started_workers_lem k in
      record {
        server = server;
        free = free;
        few = omega arith;
        some_worker = omega (arith, l, some);
        bounded = bounded;
        mutex = ground (arith, l, free);
        awaited = λ h. absurd (omega (arith, h));
        announced = λ h. absurd (omega (arith, h, l, some));
      }

  -- Let the lock be free, the channel within its capacity and at least one worker started. However
  -- the two informers and the workers lock, wait, signal and wake up, and whichever sleeper a signal
  -- wakes: one goroutine is inside the lock if it is held, and none if not. The channel is within
  -- its capacity. While a handler sleeps, the channel is full or a worker that has taken a pointer
  -- has still to broadcast. And while all workers sleep, each pointer in the channel has a handler
  -- that has still to signal.
  pub run-excludes :
      (k : ℕ) (c : Controller S) (w : S.World) {t : Threads S C n}
      → 0 < k
      → c.nginx_server ≡ n
      → c.locked ≡ false
      → length c.lbstore ≤ 3
      → Execution S C n (run S C n k c w) t
      → (count is_inside t.handlers + count is_worker_inside t.workers ≡ (if t.held then 1 else 0))
        × (length t.shared.0.lbstore ≤ 3)
        × (0 < count is_sleeping t.handlers
            → (length t.shared.0.lbstore ≡ 3) ⊎ (0 < count is_taken t.workers))
        × (count is_worker_sleeping t.workers ≡ length t.workers
            → length t.shared.0.lbstore ≤ count is_sent t.handlers)
  run-excludes k c w some server free bounded r =
      let v = Execution-Sync r (run-Sync k c w some server free bounded) in
      (v.mutex, v.bounded, v.awaited, v.announced)
