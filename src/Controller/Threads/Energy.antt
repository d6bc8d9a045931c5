-- ===== src/Controller/Threads/Energy.antt =====
-- A measure that every turn lowers.
use lvs_nginx_controller.Base.{
  ℕ, suc, ◌+◌, ◌*◌, ◌≡◌, ◌≤◌, ◌<◌, refl, sym, ap, ◌∙◌, List, [], ◌∷◌, arith, length,
}
use lvs_nginx_controller.Base.Text.{Text}
use lvs_nginx_controller.Ipvs.System.{System}
use lvs_nginx_controller.Controller.Cluster.{Client}
use lvs_nginx_controller.Controller.State.{Pointer}
use lvs_nginx_controller.Controller.Threads.{
  Phase, idle, wanting, inside, sleeping, sent, WorkerPhase, worker_wanting, worker_inside,
  worker_sleeping, taken, wake_all, wake_workers, Threads, Turn, locks, waits, sends, signals,
  worker_locks, worker_waits, worker_takes, worker_broadcasts, Signal, wakes_worker, wakes_handler,
  wakes_nobody, Turns, none_yet, and_turn,
}
use lvs_nginx_controller.Controller.Threads.Counts.{
  total, total-Replaced, total-append, length-Replaced,
}
use lvs_nginx_controller.Controller.Threads.Sync.{Sync, handle_lem, wake_all_lem, wake_workers_lem}
use lvs_nginx_controller.Controller.Threads.Reached.{Turn-Sync}

-- What a handler, a worker and a pointer in the channel weigh; d is the weight of a broadcast.
abbrev pub handler_weight : {n : Text} → ℕ → Phase n → ℕ
handler_weight d (idle s) = 0
handler_weight d (wanting e) = d + 5
handler_weight d (inside e) = d + 4
handler_weight d (sleeping e) = d + 3
handler_weight d (sent s) = 3

abbrev pub worker_weight : ℕ → WorkerPhase → ℕ
worker_weight d worker_wanting = 2
worker_weight d worker_inside = 1
worker_weight d worker_sleeping = 0
worker_weight d taken = d

abbrev pub pointer_weight : ℕ → Pointer → ℕ
pointer_weight d p = d

wake_all-weight :
    {n : Text} (d : ℕ) (hs : List (Phase n))
    → total (handler_weight d) (wake_all hs) ≤ total (handler_weight d) hs + 2 * length hs
wake_all-weight d [] = omega arith
wake_all-weight d (idle s ∷ hs) = omega (arith, wake_all-weight d hs)
wake_all-weight d (wanting e ∷ hs) = omega (arith, wake_all-weight d hs)
wake_all-weight d (inside e ∷ hs) = omega (arith, wake_all-weight d hs)
wake_all-weight d (sleeping e ∷ hs) = omega (arith, wake_all-weight d hs)
wake_all-weight d (sent s ∷ hs) = omega (arith, wake_all-weight d hs)

wake_workers-weight :
    (d : ℕ) (ws : List WorkerPhase)
    → total (worker_weight d) (wake_workers ws) ≤ total (worker_weight d) ws + 2 * length ws
wake_workers-weight d [] = omega arith
wake_workers-weight d (worker_wanting ∷ ws) = omega (arith, wake_workers-weight d ws)
wake_workers-weight d (worker_inside ∷ ws) = omega (arith, wake_workers-weight d ws)
wake_workers-weight d (worker_sleeping ∷ ws) = omega (arith, wake_workers-weight d ws)
wake_workers-weight d (taken ∷ ws) = omega (arith, wake_workers-weight d ws)

-- A signal wakes at most one goroutine, which weighs two more then.
Signal-weight :
    {n : Text} (d : ℕ) {hs hs' : List (Phase n)} {ws ws' : List WorkerPhase}
    → Signal hs hs' ws ws'
    → (total (handler_weight d) hs' + total (worker_weight d) ws'
        ≤ total (handler_weight d) hs + total (worker_weight d) ws + 2)
      × (length hs' ≡ length hs)
      × (length ws' ≡ length ws)
Signal-weight d (wakes_worker up same) =
    (rw same (omega (arith, total-Replaced (worker_weight d) up)), rw same refl, length-Replaced up)
Signal-weight d (wakes_handler e up same) = (
  rw same (omega (arith, total-Replaced (handler_weight d) up)),
  length-Replaced up,
  rw same refl,
)
Signal-weight d (wakes_nobody a b same same') =
    (rw (same, same') (omega arith), rw same refl, rw same' refl)

module _ (S : System) (C : Client S.World) (n : Text) where
  abbrev pub weight : ℕ → Threads S C n → ℕ
  weight d t =
      total (handler_weight d) t.handlers
      + total (worker_weight d) t.workers
      + total (pointer_weight d) t.shared.0.lbstore

  -- More than a broadcast can add.
  abbrev pub broadcast_weight : Threads S C n → ℕ
  broadcast_weight t = 3 + 2 * length t.handlers + 2 * length t.workers

  pub Turn-weight :
      {s t : Threads S C n} (d : ℕ)
      → Turn S C n s t
      → Sync S C n s
      → d ≡ broadcast_weight s
      → (weight d t < weight d s) × (broadcast_weight t ≡ broadcast_weight s)
  Turn-weight d (locks e hs r free same) v b =
      rw same (omega (arith, total-Replaced (handler_weight d) r), omega (arith, length-Replaced r))
  Turn-weight d (waits e hs r full same) v b =
      rw same (omega (arith, total-Replaced (handler_weight d) r), omega (arith, length-Replaced r))
  Turn-weight {s = s} d (sends e hs r room same) v b =
      let (server, lock, (p, sends_one)) = handle_lem S C n e s.shared.0 s.shared.1 v.server in
      let longer =
        ap (total (pointer_weight d)) sends_one
        ∙ total-append (pointer_weight d) s.shared.0.lbstore (p ∷ []) in
      rw same (
        omega (arith, total-Replaced (handler_weight d) r, longer),
        omega (arith, length-Replaced r),
      )
  Turn-weight d (signals source hs hs' ws r g same) v b =
      let (lighter, as_many, as_many') = Signal-weight d g in
      rw same (
        omega (arith, total-Replaced (handler_weight d) r, lighter),
        omega (arith, length-Replaced r, as_many, as_many'),
      )
  Turn-weight d (worker_locks ws r free same) v b =
      rw same (omega (arith, total-Replaced (worker_weight d) r), omega (arith, length-Replaced r))
  Turn-weight d (worker_waits ws r empty same) v b =
      rw same (omega (arith, total-Replaced (worker_weight d) r), omega (arith, length-Replaced r))
  Turn-weight d (worker_takes ws p rest r one_more done same) v b =
      let shorter = ap (total (pointer_weight d)) one_more in
      rw same (
        omega (arith, total-Replaced (worker_weight d) r, shorter),
        omega (arith, length-Replaced r),
      )
  Turn-weight {s = s} d (worker_broadcasts ws r same) v b =
      let all = wake_all_lem s.handlers in
      let awake = wake_workers_lem ws in
      rw same (
        omega (
          arith,
          b,
          total-Replaced (worker_weight d) r,
          length-Replaced r,
          wake_all-weight d s.handlers,
          wake_workers-weight d ws,
        ),
        omega (arith, length-Replaced r, all, awake),
      )

  abbrev pub turns : {s t : Threads S C n} → Turns S C n s t → ℕ
  turns none_yet = 0
  turns (and_turn r turn) = suc (turns r)

  pub Turns-Sync : {s t : Threads S C n} → Turns S C n s t → Sync S C n s → Sync S C n t
  Turns-Sync none_yet v = v
  Turns-Sync (and_turn r turn) v = Turn-Sync S C n turn (Turns-Sync r v)

  abbrev pub energy : Threads S C n → ℕ
  energy t = weight (broadcast_weight t) t

  pub turns-weight :
      {s t : Threads S C n} (d : ℕ) (r : Turns S C n s t)
      → Sync S C n s
      → d ≡ broadcast_weight s
      → (turns r + weight d t ≤ weight d s) × (broadcast_weight t ≡ broadcast_weight s)
  turns-weight d none_yet v b = (omega arith, refl)
  turns-weight d (and_turn r turn) v b =
      let before = turns-weight d r v b in
      let last = Turn-weight d turn (Turns-Sync r v) (b ∙ sym before.1) in
      (omega (arith, before.0, last.0), last.1 ∙ before.1)
