-- ===== src/Controller/Threads/Sync.antt =====
-- What every turn and every arrival keeps: at most one goroutine is inside the lock, a handler that
-- sleeps has a full channel or a wake-up ahead of it, and if all workers sleep then each pointer in
-- the channel has a signal still to come.
use lvs_nginx_controller.Base.{
  ◌+◌, ◌≡◌, ◌≤◌, ◌<◌, ◌⊎◌, refl, Bool, true, false, List, [], ◌∷◌, ◌++◌, nat_eq, list_eq,
  if◌then◌else◌, arith, length,
}
use lvs_nginx_controller.Base.Text.{Text}
use lvs_nginx_controller.Ipvs.System.{System}
use lvs_nginx_controller.Controller.Cluster.{Client}
use lvs_nginx_controller.Controller.State.{Controller, Pointer, clb, plb}
use lvs_nginx_controller.Controller.Handlers.{
  update_tcp, update_udp, update_ports, addr_update_func,
}
use lvs_nginx_controller.Controller.Threads.{
  Event, pod_event, map_event, Phase, idle, wanting, inside, sleeping, sent, WorkerPhase,
  worker_wanting, worker_inside, worker_sleeping, taken, is_sleeping, is_worker_sleeping, wake_all,
  wake_workers, Threads, handle,
}
use lvs_nginx_controller.Controller.Threads.Counts.{count}

abbrev pub is_inside : {n : Text} → Phase n → Bool
is_inside (inside e) = true
is_inside _ = false

abbrev pub is_sent : {n : Text} → Phase n → Bool
is_sent (sent s) = true
is_sent _ = false

abbrev pub is_worker_inside : WorkerPhase → Bool
is_worker_inside worker_inside = true
is_worker_inside _ = false

abbrev pub is_worker_wanting : WorkerPhase → Bool
is_worker_wanting worker_wanting = true
is_worker_wanting _ = false

abbrev pub is_taken : WorkerPhase → Bool
is_taken taken = true
is_taken _ = false

-- Every worker is in one phase.
pub worker_phases :
    (ws : List WorkerPhase)
    → count is_worker_sleeping ws
        + count is_taken ws
        + count is_worker_inside ws
        + count is_worker_wanting ws
      ≡ length ws
worker_phases [] = refl
worker_phases (worker_wanting ∷ ws) = omega (arith, worker_phases ws)
worker_phases (worker_inside ∷ ws) = omega (arith, worker_phases ws)
worker_phases (worker_sleeping ∷ ws) = omega (arith, worker_phases ws)
worker_phases (taken ∷ ws) = omega (arith, worker_phases ws)

-- What waking all does to the counts.
pub wake_all_lem :
    {n : Text} (hs : List (Phase n))
    → (count is_sleeping (wake_all hs) ≡ 0)
      × (count is_inside (wake_all hs) ≡ count is_inside hs)
      × (count is_sent (wake_all hs) ≡ count is_sent hs)
      × (length (wake_all hs) ≡ length hs)
wake_all_lem [] = (refl, refl, refl, refl)
wake_all_lem (idle s ∷ hs) = ground (arith, wake_all_lem hs)
wake_all_lem (wanting e ∷ hs) = ground (arith, wake_all_lem hs)
wake_all_lem (inside e ∷ hs) = ground (arith, wake_all_lem hs)
wake_all_lem (sleeping e ∷ hs) = ground (arith, wake_all_lem hs)
wake_all_lem (sent s ∷ hs) = ground (arith, wake_all_lem hs)

pub wake_workers_lem :
    (ws : List WorkerPhase)
    → (count is_worker_sleeping (wake_workers ws) ≡ 0)
      × (count is_worker_inside (wake_workers ws) ≡ count is_worker_inside ws)
      × (count is_taken (wake_workers ws) ≡ count is_taken ws)
      × (length (wake_workers ws) ≡ length ws)
wake_workers_lem [] = (refl, refl, refl, refl)
wake_workers_lem (worker_wanting ∷ ws) = ground (arith, wake_workers_lem ws)
wake_workers_lem (worker_inside ∷ ws) = ground (arith, wake_workers_lem ws)
wake_workers_lem (worker_sleeping ∷ ws) = ground (arith, wake_workers_lem ws)
wake_workers_lem (taken ∷ ws) = ground (arith, wake_workers_lem ws)

module _ (S : System) (C : Client S.World) (n : Text) where
  -- A handler sends one pointer and keeps the namespace and the lock's state.
  pub handle_lem :
      (e : Event n) (c : Controller S) (w : S.World)
      → c.nginx_server ≡ n
      → let c' = (handle S C n e (c, w)).0 in
        (c'.nginx_server ≡ n)
        × (c'.locked ≡ c.locked)
        × ((p : Pointer) × (c'.lbstore ≡ c.lbstore ++ (p ∷ [])))
  unfolding update_ports update_tcp update_udp addr_update_func
  handle_lem (pod_event old new h) c w e =
      (ground (arith, h, e), ground (arith, h, e), (plb, ground (arith, h, e)))
  handle_lem (map_event old new h) c w e =
      (ground (arith, h, e), ground (arith, h, e), (clb, ground (arith, h, e)))

  pub record Sync (t : Threads S C n) : Type 0 where
    pub server : t.shared.0.nginx_server ≡ n
    pub free : t.shared.0.locked ≡ false
    pub few : length t.handlers ≤ 2
    pub some_worker : 0 < length t.workers
    pub bounded : length t.shared.0.lbstore ≤ 3
    pub mutex :
        count is_inside t.handlers + count is_worker_inside t.workers ≡ (if t.held then 1 else 0)
    pub awaited :
        0 < count is_sleeping t.handlers
        → (length t.shared.0.lbstore ≡ 3) ⊎ (0 < count is_taken t.workers)
    pub announced :
        count is_worker_sleeping t.workers ≡ length t.workers
        → length t.shared.0.lbstore ≤ count is_sent t.handlers
