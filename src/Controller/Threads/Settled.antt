-- ===== src/Controller/Threads/Settled.antt =====
-- Without new events, the goroutines come to rest after a bounded number of turns.
use lvs_nginx_controller.Base.{
  ℕ, zero, suc, ◌≡◌, ◌≤◌, ◌<◌, inl, inr, refl, sym, ◌∙◌, false, arith, length,
}
use lvs_nginx_controller.Base.Text.{Text}
use lvs_nginx_controller.Ipvs.System.{System}
use lvs_nginx_controller.Controller.Cluster.{Client}
use lvs_nginx_controller.Controller.State.{Controller}
use lvs_nginx_controller.Controller.Threads.{
  Threads, Turn, Turns, none_yet, and_turn, Execution, run,
}
use lvs_nginx_controller.Controller.Threads.Sync.{Sync}
use lvs_nginx_controller.Controller.Threads.Reached.{Turn-Sync, Execution-Sync, run-Sync}
use lvs_nginx_controller.Controller.Threads.Energy.{
  weight, broadcast_weight, energy, turns, Turn-weight, turns-weight,
}
use lvs_nginx_controller.Controller.Threads.Progress.{PassEnds, Quiet, Sync-progress}

module _ (S : System) (C : Client S.World) (n : Text) where
  after-Turn : {s t u : Threads S C n} → Turn S C n s t → Turns S C n t u → Turns S C n s u
  after-Turn turn none_yet = and_turn none_yet turn
  after-Turn turn (and_turn r last) = and_turn (after-Turn turn r) last

  -- Turns can go on to rest, with as much fuel as the state weighs.
  settle :
      (fuel d : ℕ) (t : Threads S C n)
      → Sync S C n t
      → d ≡ broadcast_weight S C n t
      → weight S C n d t ≤ fuel
      → ((u : Threads S C n) → Turns S C n t u → PassEnds S C n u)
      → (u : Threads S C n) × Turns S C n t u × Quiet S C n u
  settle zero d t v b enough ends = elim (Sync-progress S C n t v (ends t none_yet)) [
    | inr quiet ↦ (t, none_yet, quiet)
    | inl (t', turn) ↦ absurd (omega (arith, enough, (Turn-weight S C n d turn v b).0))
  ]
  settle (suc fuel) d t v b enough ends = elim (Sync-progress S C n t v (ends t none_yet)) [
    | inr quiet ↦ (t, none_yet, quiet)
    | inl (t', turn) ↦
        let (lighter, same) = Turn-weight S C n d turn v b in
        let (u, r, quiet) =
          settle fuel d t' (Turn-Sync S C n turn v) (b ∙ sym same) (omega (arith, enough, lighter))
            (λ u r. ends u (after-Turn turn r)) in
        (u, after-Turn turn r, quiet)
  ]

  -- Let `Run` start at least one worker, with the lock free and the channel within its capacity,
  -- and let no more events come from some state on that the goroutines have reached. Then they can
  -- take only so many turns as the energy of that state, in whatever order they take them, and some
  -- turns lead to rest: the channel is empty, no handler has an event, the lock is free and all
  -- workers sleep. The second part is if no worker's pass panics from there on.
  pub run-settles :
      (k : ℕ) (c : Controller S) (w : S.World) {t : Threads S C n}
      → 0 < k
      → c.nginx_server ≡ n
      → c.locked ≡ false
      → length c.lbstore ≤ 3
      → Execution S C n (run S C n k c w) t
      → ((u : Threads S C n) (r : Turns S C n t u) → turns S C n r ≤ energy S C n t)
        × (((u : Threads S C n) → Turns S C n t u → PassEnds S C n u)
            → (u : Threads S C n) × Turns S C n t u × Quiet S C n u)
  run-settles k c w {t} some server free bounded r =
      let v = Execution-Sync S C n r (run-Sync S C n k c w some server free bounded) in
      (
        λ u taken. omega (arith, (turns-weight S C n (broadcast_weight S C n t) taken v refl).0),
        settle (energy S C n t) (broadcast_weight S C n t) t v refl (omega arith),
      )
