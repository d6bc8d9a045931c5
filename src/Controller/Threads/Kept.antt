-- ===== src/Controller/Threads/Kept.antt =====
-- Every turn of a handler keeps `Sync`.
use lvs_nginx_controller.Base.{
  ◌≡◌, ◌≢◌, inl, inr, ap, ◌∙◌, true, false, List, [], ◌∷◌, nat_eq, list_eq, if◌then◌else◌, arith,
  length, length-append,
}
use lvs_nginx_controller.Base.Text.{Text}
use lvs_nginx_controller.Ipvs.System.{System}
use lvs_nginx_controller.Controller.Cluster.{Client}
use lvs_nginx_controller.Controller.Threads.{
  Event, Phase, idle, wanting, inside, sleeping, sent, WorkerPhase, Threads, handle, Signal,
  wakes_worker, wakes_handler, wakes_nobody, source_of,
}
use lvs_nginx_controller.Controller.Threads.Counts.{Replaced, total-Replaced, count-le-length}
use lvs_nginx_controller.Controller.Threads.Sync.{
  Sync, is_sent, is_worker_wanting, worker_phases, handle_lem,
}
use lvs_nginx_controller.Controller.Threads.Moved.{moved, worker_moved}

module _ (S : System) (C : Client S.World) (n : Text) where
  pub locks-Sync :
      (s : Threads S C n) (e : Event n) (hs : List (Phase n))
      → Sync S C n s
      → Replaced (wanting e) (inside e) s.handlers hs
      → s.held ≡ false
      → Sync S C n (record s { handlers = hs; held = true })
  locks-Sync s e hs v r free =
      let m = moved r in
      record {
        server = v.server;
        free = v.free;
        few = omega (arith, m.as_many, v.few);
        some_worker = v.some_worker;
        bounded = v.bounded;
        mutex = ground (arith, v.mutex, m.insiders, free);
        awaited = λ h. v.awaited (omega (arith, m.sleepers, h));
        announced = λ h. omega (arith, v.announced h, m.senders);
      }

  pub waits-Sync :
      (s : Threads S C n) (e : Event n) (hs : List (Phase n))
      → Sync S C n s
      → Replaced (inside e) (sleeping e) s.handlers hs
      → length s.shared.0.lbstore ≡ 3
      → Sync S C n (record s { handlers = hs; held = false })
  waits-Sync s e hs v r full =
      let m = moved r in
      record {
        server = v.server;
        free = v.free;
        few = omega (arith, m.as_many, v.few);
        some_worker = v.some_worker;
        bounded = v.bounded;
        mutex = ground (arith, v.mutex, m.insiders);
        awaited = λ h. inl full;
        announced = λ h. omega (arith, v.announced h, m.senders);
      }

  pub sends-Sync :
      (s : Threads S C n) (e : Event n) (hs : List (Phase n))
      → Sync S C n s
      → Replaced (inside e) (sent (source_of e)) s.handlers hs
      → length s.shared.0.lbstore ≢ 3
      → Sync S C n (record s { handlers = hs; held = false; shared = handle S C n e s.shared })
  sends-Sync s e hs v r room =
      let m = moved r in
      let (server, same, (p, sends_one)) = handle_lem S C n e s.shared.0 s.shared.1 v.server in
      let longer = ap length sends_one ∙ length-append s.shared.0.lbstore (p ∷ []) in
      record {
        server = server;
        free = same ∙ v.free;
        few = omega (arith, m.as_many, v.few);
        some_worker = v.some_worker;
        bounded = omega (arith, longer, v.bounded, room);
        mutex = ground (arith, v.mutex, m.insiders);
        awaited = λ h. elim (v.awaited (omega (arith, m.sleepers, h))) [
          | inl full ↦ absurd (room full)
          | inr later ↦ inr later
        ];
        announced = λ h. omega (arith, v.announced h, m.senders, longer);
      }

  pub signals-Sync :
      (s : Threads S C n) (source : _) (hs hs' : List (Phase n)) (ws : List WorkerPhase)
      → Sync S C n s
      → Replaced (sent source) (idle source) s.handlers hs
      → Signal hs hs' s.workers ws
      → Sync S C n (record s { handlers = hs'; workers = ws })
  signals-Sync s source hs hs' ws v r (wakes_worker up same) =
      let m = moved r in
      let u = worker_moved up in
      let before = worker_phases s.workers in
      record {
        server = v.server;
        free = v.free;
        few = rw same (omega (arith, m.as_many, v.few));
        some_worker = omega (arith, u.as_many, v.some_worker);
        bounded = v.bounded;
        mutex = rw same (ground (arith, v.mutex, m.insiders, u.insiders));
        awaited = rw same λ h. elim (v.awaited (omega (arith, m.sleepers, h))) [
          | inl full ↦ inl full
          | inr later ↦ inr (omega (arith, later, u.takers))
        ];
        announced = λ h. absurd (
            omega (
              arith,
              h,
              before,
              u.phases,
              u.as_many,
              u.sleepers,
              u.insiders,
              u.takers,
              total-Replaced (λ p. if is_worker_wanting p then 1 else 0) up,
            ));
      }
  signals-Sync s source hs hs' ws v r (wakes_handler e up same) =
      let m = moved r in
      let u = moved up in
      let phases = worker_phases s.workers in
      record {
        server = v.server;
        free = v.free;
        few = omega (arith, m.as_many, u.as_many, v.few);
        some_worker = rw same v.some_worker;
        bounded = v.bounded;
        mutex = rw same (ground (arith, v.mutex, m.insiders, u.insiders));
        awaited = rw same λ h. v.awaited (omega (arith, m.sleepers, u.sleepers, h));
        announced = rw same λ h. elim (v.awaited (omega (arith, m.sleepers, u.sleepers))) [
          | inl full ↦ absurd (
              omega
                (arith, full, v.announced h, m.senders, v.few, count-le-length is_sent s.handlers))
          | inr later ↦ absurd (omega (arith, later, h, phases))
        ];
      }
  signals-Sync s source hs hs' ws v r (wakes_nobody a b same same') =
      let m = moved r in
      record {
        server = v.server;
        free = v.free;
        few = rw same (omega (arith, m.as_many, v.few));
        some_worker = rw same' v.some_worker;
        bounded = v.bounded;
        mutex = rw (same, same') (ground (arith, v.mutex, m.insiders));
        awaited = rw same λ h. absurd (omega (arith, h, a));
        announced = rw same' λ h. absurd (omega (arith, h, b, v.some_worker));
      }
