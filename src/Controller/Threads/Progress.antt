-- ===== src/Controller/Threads/Progress.antt =====
-- No wake-up is lost: goroutines that cannot go on have nothing left to do.
use lvs_nginx_controller.Base.{
  ℕ, ◌+◌, ◌≡◌, ◌≤◌, ◌<◌, ◌⊎◌, inl, inr, refl, Bool, true, false, List, [], ◌∷◌, arith, length,
  ℕ_discrete, dec_lt,
}
use lvs_nginx_controller.Base.Text.{Text}
use lvs_nginx_controller.Ipvs.Go.{ok}
use lvs_nginx_controller.Ipvs.System.{System}
use lvs_nginx_controller.Controller.Cluster.{Client}
use lvs_nginx_controller.Controller.State.{Controller, Pointer}
use lvs_nginx_controller.Controller.Worker.{process_func}
use lvs_nginx_controller.Controller.Threads.{
  Event, Phase, idle, wanting, inside, sleeping, sent, WorkerPhase, worker_wanting, worker_inside,
  worker_sleeping, taken, is_sleeping, is_worker_sleeping, Threads, Turn, locks, waits, sends,
  signals, worker_locks, worker_waits, worker_takes, worker_broadcasts, Signal, wakes_worker,
  wakes_handler, wakes_nobody, source_of, Source, Execution, run,
}
use lvs_nginx_controller.Controller.Threads.Counts.{Replaced-cong, count, find, Found}
use lvs_nginx_controller.Controller.Threads.Reached.{Execution-Sync, run-Sync}
use lvs_nginx_controller.Controller.Threads.Sync.{
  Sync, is_inside, is_sent, is_worker_inside, is_worker_wanting, is_taken, worker_phases,
}

abbrev pub is_idle : {n : Text} → Phase n → Bool
is_idle (idle s) = true
is_idle _ = false

abbrev is_wanting : {n : Text} → Phase n → Bool
is_wanting (wanting e) = true
is_wanting _ = false

handler_phases :
    {n : Text} (hs : List (Phase n))
    → count is_idle hs
        + count is_wanting hs
        + count is_inside hs
        + count is_sleeping hs
        + count is_sent hs
      ≡ length hs
handler_phases [] = refl
handler_phases (idle s ∷ hs) = omega (arith, handler_phases hs)
handler_phases (wanting e ∷ hs) = omega (arith, handler_phases hs)
handler_phases (inside e ∷ hs) = omega (arith, handler_phases hs)
handler_phases (sleeping e ∷ hs) = omega (arith, handler_phases hs)
handler_phases (sent s ∷ hs) = omega (arith, handler_phases hs)

-- A test names its phase.
wanting_of : {n : Text} (p : Phase n) → is_wanting p ≡ true → (e : Event n) × (p ≡ wanting e)
wanting_of (wanting e) h = (e, refl)
wanting_of (idle s) h = cc
wanting_of (inside e) h = cc
wanting_of (sleeping e) h = cc
wanting_of (sent s) h = cc

inside_of : {n : Text} (p : Phase n) → is_inside p ≡ true → (e : Event n) × (p ≡ inside e)
inside_of (inside e) h = (e, refl)
inside_of (idle s) h = cc
inside_of (wanting e) h = cc
inside_of (sleeping e) h = cc
inside_of (sent s) h = cc

sleeping_of : {n : Text} (p : Phase n) → is_sleeping p ≡ true → (e : Event n) × (p ≡ sleeping e)
sleeping_of (sleeping e) h = (e, refl)
sleeping_of (idle s) h = cc
sleeping_of (wanting e) h = cc
sleeping_of (inside e) h = cc
sleeping_of (sent s) h = cc

sent_of : {n : Text} (p : Phase n) → is_sent p ≡ true → (s : Source) × (p ≡ sent s)
sent_of (sent s) h = (s, refl)
sent_of (idle s) h = cc
sent_of (wanting e) h = cc
sent_of (inside e) h = cc
sent_of (sleeping e) h = cc

worker_wanting_of : (p : WorkerPhase) → is_worker_wanting p ≡ true → p ≡ worker_wanting
worker_wanting_of worker_wanting h = refl
worker_wanting_of worker_inside h = cc
worker_wanting_of worker_sleeping h = cc
worker_wanting_of taken h = cc

worker_inside_of : (p : WorkerPhase) → is_worker_inside p ≡ true → p ≡ worker_inside
worker_inside_of worker_inside h = refl
worker_inside_of worker_wanting h = cc
worker_inside_of worker_sleeping h = cc
worker_inside_of taken h = cc

worker_sleeping_of : (p : WorkerPhase) → is_worker_sleeping p ≡ true → p ≡ worker_sleeping
worker_sleeping_of worker_sleeping h = refl
worker_sleeping_of worker_wanting h = cc
worker_sleeping_of worker_inside h = cc
worker_sleeping_of taken h = cc

taken_of : (p : WorkerPhase) → is_taken p ≡ true → p ≡ taken
taken_of taken h = refl
taken_of worker_wanting h = cc
taken_of worker_inside h = cc
taken_of worker_sleeping h = cc

-- `cond.Signal()` always has a result.
Signal-exists :
    {n : Text} (hs : List (Phase n)) (ws : List WorkerPhase)
    → (hs' : List (Phase n)) × (ws' : List WorkerPhase) × Signal hs hs' ws ws'
Signal-exists hs ws = elim (find is_worker_sleeping ws) [
  | inl (p, passes, at) ↦
      let (ws', r) = at worker_wanting in
      (hs, ws', wakes_worker (Replaced-cong (worker_sleeping_of p passes) r) refl)
  | inr no_worker ↦ elim (find is_sleeping hs) [
    | inl (p, passes, at) ↦
        let (e, same) = sleeping_of p passes in
        let (hs', r) = at (wanting e) in (hs', ws, wakes_handler e (Replaced-cong same r) refl)
    | inr no_handler ↦ (hs, ws, wakes_nobody no_handler no_worker refl refl)
  ]
]

module _ (S : System) (C : Client S.World) (n : Text) where
  abbrev pub CanTurn : Threads S C n → Type 0
  CanTurn s = (t : Threads S C n) × Turn S C n s t

  inside_turn : (s : Threads S C n) → Found is_inside s.handlers → CanTurn s
  inside_turn s (p, passes, at) =
      let (e, same) = inside_of p passes in
      elim (ℕ_discrete (length s.shared.0.lbstore) 3) [
        | yes full ↦
            let (hs, r) = at (sleeping e) in (_, waits e hs (Replaced-cong same r) full refl)
        | no room ↦
            let (hs, r) = at (sent (source_of e)) in
            (_, sends e hs (Replaced-cong same r) room refl)
      ]

  -- A worker's pass over the first pointer in the channel does not panic.
  abbrev pub PassEnds : Threads S C n → Type 0
  PassEnds s =
      (p : Pointer) (rest : List Pointer)
      → s.shared.0.lbstore ≡ p ∷ rest
      → (process_func S s.shared.0 p s.shared.1).0 ≡ ok tt

  worker_inside_turn :
      (s : Threads S C n) → Found is_worker_inside s.workers → PassEnds s → CanTurn s
  worker_inside_turn s (p, passes, at) done = by_channel s.shared.0.lbstore refl
    where
      by_channel : (ps : List Pointer) → s.shared.0.lbstore ≡ ps → CanTurn s
      by_channel [] e =
          let (ws, r) = at worker_sleeping in
          (_, worker_waits ws (Replaced-cong (worker_inside_of p passes) r) e refl)
      by_channel (q ∷ qs) e =
          let (ws, r) = at taken in
          (
            _,
            worker_takes ws q qs (Replaced-cong (worker_inside_of p passes) r) e (done q qs e) refl,
          )

  wanting_turn :
      (s : Threads S C n)
      → s.held ≡ false
      → Found is_wanting s.handlers ⊎ Found is_worker_wanting s.workers
      → CanTurn s
  wanting_turn s free (inl (p, passes, at)) =
      let (e, same) = wanting_of p passes in
      let (hs, r) = at (inside e) in (_, locks e hs (Replaced-cong same r) free refl)
  wanting_turn s free (inr (p, passes, at)) =
      let (ws, r) = at worker_inside in
      (_, worker_locks ws (Replaced-cong (worker_wanting_of p passes) r) free refl)

  waking_turn :
      (s : Threads S C n) → Found is_sent s.handlers ⊎ Found is_taken s.workers → CanTurn s
  waking_turn s (inl (p, passes, at)) =
      let (source, same) = sent_of p passes in
      let (hs, r) = at (idle source) in
      let (hs', ws, g) = Signal-exists hs s.workers in
      (_, signals source hs hs' ws (Replaced-cong same r) g refl)
  waking_turn s (inr (p, passes, at)) =
      let (ws, r) = at worker_wanting in
      (_, worker_broadcasts ws (Replaced-cong (taken_of p passes) r) refl)

  -- Nothing is left to do: no pointer waits, no handler has an event, and every worker sleeps.
  pub record Quiet (s : Threads S C n) : Type 0 where
    pub empty : length s.shared.0.lbstore ≡ 0
    pub no_events : count is_idle s.handlers ≡ length s.handlers
    pub all_asleep : count is_worker_sleeping s.workers ≡ length s.workers
    pub unlocked : s.held ≡ false

  -- Goroutines of which none is inside, wants the lock or is about to wake others are quiet.
  quiet :
      (s : Threads S C n)
      → Sync S C n s
      → s.held ≡ false
      → (count is_wanting s.handlers ≡ 0)
        × (count is_inside s.handlers ≡ 0)
        × (count is_sent s.handlers ≡ 0)
      → (count is_worker_wanting s.workers ≡ 0)
        × (count is_worker_inside s.workers ≡ 0)
        × (count is_taken s.workers ≡ 0)
      → Quiet s
  quiet s v free none_up no_worker_up =
      let asleep : count is_worker_sleeping s.workers ≡ length s.workers =
        omega (arith, worker_phases s.workers, no_worker_up) in
      let empty : length s.shared.0.lbstore ≡ 0 = omega (arith, v.announced asleep, none_up) in
      record {
        empty = empty;
        no_events = elim (dec_lt 0 (count is_sleeping s.handlers)) [
          | yes some ↦ elim (v.awaited some) [
            | inl full ↦ absurd (omega (arith, full, empty))
            | inr later ↦ absurd (omega (arith, later, no_worker_up))
          ]
          | no nobody ↦ omega (arith, handler_phases s.handlers, none_up, nobody)
        ];
        all_asleep = asleep;
        unlocked = free;
      }

  -- Where nobody is inside, the lock is free.
  nobody_inside :
      (s : Threads S C n)
      → Sync S C n s
      → count is_inside s.handlers ≡ 0
      → count is_worker_inside s.workers ≡ 0
      → s.held ≡ false
  nobody_inside s v a b = ground (arith, v.mutex, a, b)

  -- In a state that keeps `Sync` some goroutine can go on or all is quiet.
  pub Sync-progress : (s : Threads S C n) → Sync S C n s → PassEnds s → CanTurn s ⊎ Quiet s
  Sync-progress s v done = elim (find is_inside s.handlers) [
    | inl found ↦ inl (inside_turn s found)
    | inr a ↦ elim (find is_worker_inside s.workers) [
      | inl found ↦ inl (worker_inside_turn s found done)
      | inr b ↦ outside a b (nobody_inside s v a b)
    ]
  ]
    where
      outside :
          count is_inside s.handlers ≡ 0
          → count is_worker_inside s.workers ≡ 0
          → s.held ≡ false
          → CanTurn s ⊎ Quiet s
      outside a b free = elim (find is_wanting s.handlers) [
        | inl found ↦ inl (wanting_turn s free (inl found))
        | inr c ↦ elim (find is_worker_wanting s.workers) [
          | inl found ↦ inl (wanting_turn s free (inr found))
          | inr d ↦ elim (find is_sent s.handlers) [
            | inl found ↦ inl (waking_turn s (inl found))
            | inr e ↦ elim (find is_taken s.workers) [
              | inl found ↦ inl (waking_turn s (inr found))
              | inr f ↦ inr (quiet s v free (c, a, e) (d, b, f))
            ]
          ]
        ]
      ]

  -- Let `Run` start at least one worker, with the lock free and the channel within its capacity. In
  -- every state that the goroutines reach, whatever events have come and whichever sleepers the
  -- signals have woken, some goroutine can go on, or nothing is left to do: the channel is empty, no
  -- handler has an event, the lock is free and all workers sleep. This is if a worker's pass over
  -- the first pointer in the channel does not panic.
  pub run-progress :
      (k : ℕ) (c : Controller S) (w : S.World) {t : Threads S C n}
      → 0 < k
      → c.nginx_server ≡ n
      → c.locked ≡ false
      → length c.lbstore ≤ 3
      → Execution S C n (run S C n k c w) t
      → PassEnds t
      → CanTurn t ⊎ Quiet t
  run-progress k c w {t} some server free bounded r ends =
      Sync-progress t (Execution-Sync S C n r (run-Sync S C n k c w some server free bounded)) ends
