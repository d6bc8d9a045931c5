-- ===== src/Controller/Threads/Served.antt =====
-- What the goroutines serve once they have come to rest, in whatever order they take their turns.
use mathlib.Core.Path.{subst}
use lvs_nginx_controller.Base.{
  ℕ, ◌≡◌, ◌≢◌, ◌≤◌, ◌<◌, refl, sym, ◌∙◌, ap, Bool, true, false, some, List, [], ◌∷◌, arith, length,
  if◌then◌else◌,
}
use lvs_nginx_controller.Base.Text.{Text}
use lvs_nginx_controller.Ipvs.System.{System}
use lvs_nginx_controller.Ipvs.Go.{ok}
use lvs_nginx_controller.Ipvs.Manager.Sound.{Routes, routes}
use lvs_nginx_controller.Ipvs.Table.{IsKernel, CanServe}
use lvs_nginx_controller.Ipvs.Table.Formed.{Sound}
use lvs_nginx_controller.Controller.Cluster.{Client}
use lvs_nginx_controller.Controller.State.{Controller, Pointer, deref}
use lvs_nginx_controller.Controller.Worker.{process_func}
use lvs_nginx_controller.Controller.Processing.{process_func-refines, route_addresses}
use lvs_nginx_controller.Controller.Drain.{HasTargets, route_stores, deref-NonZero, deref_waiting}
use lvs_nginx_controller.Controller.Threads.{
  Phase, WorkerPhase, idle, wanting, inside, sleeping, sent, wake_all, Signal, wakes_worker,
  wakes_handler, wakes_nobody, Threads, Turn, locks, waits, sends, signals, worker_locks,
  worker_waits, worker_takes, worker_broadcasts, Turns, none_yet, and_turn, Execution, run,
}
use lvs_nginx_controller.Controller.Threads.Counts.{Replaced, first, later, count, total-Replaced}
use lvs_nginx_controller.Controller.Threads.Progress.{Quiet}
use lvs_nginx_controller.Controller.Threads.Settled.{run-settles}

-- The goroutine has an event that it has not handled.
abbrev pub has_event : {n : Text} → Phase n → Bool
has_event (idle s) = false
has_event (wanting e) = true
has_event (inside e) = true
has_event (sleeping e) = true
has_event (sent s) = false

one_if : {b : Bool} → b ≡ true → ◌≡◌ {A = ℕ} (if b then 1 else 0) 1
one_if e = rw e refl

-- Where an element passes a test, some do.
counted :
    {A : Type 0} (test : A → Bool) {a b : A} {xs ys : List A}
    → test a ≡ true
    → Replaced a b xs ys
    → count test xs ≢ 0
counted test e first z = absurd (omega (arith, z, one_if e))
counted test e (later r) z = counted test e r (omega (arith, z))

-- A wake-up gives nobody an event.
wake_all_events :
    {n : Text} (hs : List (Phase n)) → count has_event (wake_all hs) ≡ count has_event hs
wake_all_events [] = refl
wake_all_events (idle s ∷ hs) = omega (arith, wake_all_events hs)
wake_all_events (wanting e ∷ hs) = omega (arith, wake_all_events hs)
wake_all_events (inside e ∷ hs) = omega (arith, wake_all_events hs)
wake_all_events (sleeping e ∷ hs) = omega (arith, wake_all_events hs)
wake_all_events (sent s ∷ hs) = omega (arith, wake_all_events hs)

-- A signal gives nobody an event.
signalled :
    {n : Text} {hs hs' : List (Phase n)} {ws ws' : List WorkerPhase}
    → Signal hs hs' ws ws'
    → count has_event hs ≡ 0
    → count has_event hs' ≡ 0
signalled (wakes_worker q e) none_left = ap (count has_event) e ∙ none_left
signalled (wakes_handler e q f) none_left = absurd (counted has_event refl q none_left)
signalled (wakes_nobody a b e f) none_left = ap (count has_event) e ∙ none_left

module _ (S : System) (C : Client S.World) (n : Text) where
  route_stores_waiting :
      (c : Controller S) (qs ps : List Pointer) (r : Routes)
      → route_stores S C (record c { lbstore = qs }) ps r ≡ route_stores S C c ps r
  route_stores_waiting c qs [] r = refl
  route_stores_waiting c qs (p ∷ ps) r =
      route_stores_waiting c qs ps _
      ∙ ap (λ lb. route_stores S C c ps (route_addresses S c.lvs_manager lb lb.addr r))
          (deref_waiting S C p c qs)

  module _ (h : S.Handle) (K : IsKernel S h) where
    open K use {view}

    -- The pointers still make the routes `goal`, and the controller is `c` but for the channel.
    record Serving (c : Controller S) (goal : Routes) (s : Controller S × S.World) : Type 0 where
      same : record s.0 { lbstore = [] } ≡ record c { lbstore = [] }
      open_handle : s.0.lvs_manager.handle ≡ some h
      unmarked : s.0.lvs_manager.marked ≡ false
      addressed : CanServe S h K s.0.lvs_manager.vip s.0.lvs_manager.sched_name
      ports : HasTargets S C s.0
      sound : Sound s.0.lvs_manager.vip (view s.1)
      makes : route_stores S C s.0 s.0.lbstore (routes (view s.1)) ≡ goal

    module _ (c : Controller S) (goal : Routes) where
      pass_lem :
          (s : Controller S × S.World) (p : Pointer)
          → Serving c goal s
          → ((process_func S s.0 p s.1).0 ≡ ok tt)
            × (routes (view (process_func S s.0 p s.1).1)
                ≡ route_addresses S s.0.lvs_manager
                    (deref S p s.0)
                    (deref S p s.0).addr
                    (routes (view s.1)))
            × Sound s.0.lvs_manager.vip (view (process_func S s.0 p s.1).1)
      pass_lem s p v =
          process_func-refines S s.0 h K p s.1 v.open_handle v.unmarked v.addressed
            (deref-NonZero S C p s.0 v.ports).2 (deref-NonZero S C p s.0 v.ports).0
            (deref-NonZero S C p s.0 v.ports).1 v.sound

      pass-Serving :
          (s : Controller S × S.World) (p : Pointer) (rest : List Pointer)
          → s.0.lbstore ≡ p ∷ rest
          → Serving c goal s
          → Serving c goal (record s.0 { lbstore = rest }, (process_func S s.0 p s.1).1)
      pass-Serving s p rest e v = record {
        same = v.same;
        open_handle = v.open_handle;
        unmarked = v.unmarked;
        addressed = v.addressed;
        ports = record {
          clb_tcp = v.ports.clb_tcp;
          clb_udp = v.ports.clb_udp;
          plb_tcp = v.ports.plb_tcp;
          plb_udp = v.ports.plb_udp;
          clb_addr = v.ports.clb_addr;
          plb_addr = v.ports.plb_addr;
        };
        sound = (pass_lem s p v).2;
        makes =
            route_stores_waiting s.0 rest rest _
            ∙ ap (route_stores S C s.0 rest) (pass_lem s p v).1
            ∙ ap (λ ps. route_stores S C s.0 ps (routes (view s.1))) (sym e)
            ∙ v.makes;
      }

      -- No event is left, and the pointers make the routes.
      abbrev Left : Threads S C n → Type 0
      Left s = (count has_event s.handlers ≡ 0) × Serving c goal s.shared

      Turn-Left : {s t : Threads S C n} → Turn S C n s t → Left s → Left t
      Turn-Left (locks e hs r free same) (none_left, v) =
          absurd (counted has_event refl r none_left)
      Turn-Left (waits e hs r full same) (none_left, v) =
          absurd (counted has_event refl r none_left)
      Turn-Left (sends e hs r room same) (none_left, v) =
          absurd (counted has_event refl r none_left)
      Turn-Left (signals source hs hs' ws r signal same) (none_left, v) = subst Left (sym same) (
        signalled signal
            (omega (arith, total-Replaced (λ x. if has_event x then 1 else 0) r, none_left)),
        v,
      )
      Turn-Left (worker_locks ws r free same) l = subst Left (sym same) l
      Turn-Left (worker_waits ws r empty same) l = subst Left (sym same) l
      Turn-Left {s} (worker_takes ws p rest r e done same) (none_left, v) =
          subst Left (sym same) (none_left, pass-Serving s.shared p rest e v)
      Turn-Left {s} (worker_broadcasts ws r same) (none_left, v) =
          subst Left (sym same) (wake_all_events s.handlers ∙ none_left, v)

      Turns-Left : {s t : Threads S C n} → Turns S C n s t → Left s → Left t
      Turns-Left none_yet l = l
      Turns-Left (and_turn r turn) l = Turn-Left turn (Turns-Left r l)

    nil_of_length : (ps : List Pointer) → length ps ≡ 0 → ps ≡ []
    nil_of_length [] e = refl
    nil_of_length (p ∷ ps) e = absurd (omega (arith, e))

    -- At rest the routes are made.
    rest_lem :
        (c : Controller S) (goal : Routes) (u : Threads S C n)
        → Serving c goal u.shared
        → Quiet S C n u
        → (u.shared.0 ≡ record c { lbstore = [] }) × (routes (view u.shared.1) ≡ goal)
    rest_lem c goal u v quiet =
        let e = nil_of_length u.shared.0.lbstore quiet.empty in
        (
          ap (λ ps. record u.shared.0 { lbstore = ps }) e ∙ v.same,
          ap (λ ps. route_stores S C u.shared.0 ps (routes (view u.shared.1))) (sym e) ∙ v.makes,
        )

    -- Let `Run` start at least one worker, with the lock free and the channel within its capacity.
    -- In a state that the goroutines reach, let no handler have an event any more, the handle be
    -- open, the virtual address and the added addresses of the stores be of IPv4, the scheduler known
    -- to the kernel, no services marked, no port 0 in a store and the table well-formed. Then some turns lead to rest. And in whatever order turns lead to rest, they
    -- change nothing of the controller but empty the channel, and the kernel then serves what the
    -- actions of the stores, in the order of the pointers, make of what it served.
    pub run-serves :
        (k : ℕ) (c : Controller S) (w : S.World) {t : Threads S C n}
        → 0 < k
        → c.nginx_server ≡ n
        → c.locked ≡ false
        → length c.lbstore ≤ 3
        → Execution S C n (run S C n k c w) t
        → count has_event t.handlers ≡ 0
        → t.shared.0.lvs_manager.handle ≡ some h
        → t.shared.0.lvs_manager.marked ≡ false
        → CanServe S h K t.shared.0.lvs_manager.vip t.shared.0.lvs_manager.sched_name
        → HasTargets S C t.shared.0
        → Sound t.shared.0.lvs_manager.vip (view t.shared.1)
        → ((u : Threads S C n) × Turns S C n t u × Quiet S C n u)
          × ((u : Threads S C n)
              → Turns S C n t u
              → Quiet S C n u
              → (u.shared.0 ≡ record t.shared.0 { lbstore = [] })
                × (routes (view u.shared.1)
                    ≡ route_stores S C t.shared.0 t.shared.0.lbstore (routes (view t.shared.1))))
    run-serves k c w {t} some_worker server free bounded r none_left open_handle unmarked addressed
          ports sound =
        let goal = route_stores S C t.shared.0 t.shared.0.lbstore (routes (view t.shared.1)) in
        let left : Left t.shared.0 goal t = (
          none_left,
          record {
            same = refl;
            open_handle = open_handle;
            unmarked = unmarked;
            addressed = addressed;
            ports = ports;
            sound = sound;
            makes = refl;
          },
        ) in
        (
          (run-settles S C n k c w some_worker server free bounded r).1 (λ u turns p rest e.
              (pass_lem t.shared.0 goal u.shared p (Turns-Left t.shared.0 goal turns left).1).0),
          λ u turns quiet.
              rest_lem t.shared.0 goal u (Turns-Left t.shared.0 goal turns left).1 quiet,
        )
