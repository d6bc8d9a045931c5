-- ===== src/Controller/Drain.antt =====
-- The worker empties the channel: a run of its steps alone that takes every waiting pointer.
use lvs_nginx_controller.Base.{ℕ, ◌≡◌, refl, ◌∙◌, ap, false, some, List, [], ◌∷◌, suc, length}
use lvs_nginx_controller.Ipvs.System.{System}
use lvs_nginx_controller.Ipvs.Manager.Sound.{Routes, routes}
use lvs_nginx_controller.Ipvs.Table.{IsKernel, CanServe}
use lvs_nginx_controller.Ipvs.Table.Formed.{Sound}
use lvs_nginx_controller.Controller.Cluster.{Client}
use lvs_nginx_controller.Controller.State.{Controller, Pointer, clb, plb, deref}
use lvs_nginx_controller.Controller.Worker.{process_func}
use lvs_nginx_controller.Controller.Processing.{
  NonZero, Parses, process_func-refines, route_addresses,
}
use lvs_nginx_controller.Controller.Steps.{Step, Reach, here, next, item_processed}

module _ (S : System) (C : Client S.World) where
  -- What passes over the stores of the pointers make of the routes, in this order.
  abbrev pub route_stores : Controller S → List Pointer → Routes → Routes
  route_stores c [] r = r
  route_stores c (p ∷ ps) r =
      route_stores c ps (route_addresses S c.lvs_manager (deref S p c) (deref S p c).addr r)

  -- The number of steps of a run.
  abbrev steps : {s t : Controller S × S.World} → Reach S C s t → ℕ
  steps here = 0
  steps (next r step) = suc (steps r)

  -- A run that begins with the step.
  after_step : {s t u : Controller S × S.World} → Step S C s t → Reach S C t u → Reach S C s u
  after_step step here = next here step
  after_step step (next r last) = next (after_step step r) last

  steps-after_step :
      {s t u : Controller S × S.World} (step : Step S C s t) (r : Reach S C t u)
      → steps (after_step step r) ≡ suc (steps r)
  unfolding after_step
  steps-after_step step here = refl
  steps-after_step step (next r last) = ap suc (steps-after_step step r)

  -- No store has the port 0, and all addresses that they add are of IPv4.
  pub record HasTargets (c : Controller S) : Type 0 where
    pub clb_tcp : NonZero c.clbdata.tcp
    pub clb_udp : NonZero c.clbdata.udp
    pub plb_tcp : NonZero c.plbdata.tcp
    pub plb_udp : NonZero c.plbdata.udp
    pub clb_addr : Parses S c.clbdata.addr
    pub plb_addr : Parses S c.plbdata.addr

  pub deref-NonZero :
      (p : Pointer) (c : Controller S)
      → HasTargets c
      → NonZero (deref S p c).tcp × NonZero (deref S p c).udp × Parses S (deref S p c).addr
  deref-NonZero clb c v = (v.clb_tcp, v.clb_udp, v.clb_addr)
  deref-NonZero plb c v = (v.plb_tcp, v.plb_udp, v.plb_addr)

  pub deref_waiting :
      (p : Pointer) (c : Controller S) (ps : List Pointer)
      → deref S p (record c { lbstore = ps }) ≡ deref S p c
  deref_waiting clb c ps = refl
  deref_waiting plb c ps = refl

  module _ (h : S.Handle) (K : IsKernel S h) where
    open K use {view}

    drain_from :
        (c : Controller S) (ps : List Pointer) (w : S.World)
        → c.lvs_manager.handle ≡ some h
        → c.lvs_manager.marked ≡ false
        → CanServe S h K c.lvs_manager.vip c.lvs_manager.sched_name
        → c.locked ≡ false
        → HasTargets c
        → Sound c.lvs_manager.vip (view w)
        → (w' : S.World) × (r : Reach S C
            (record c { lbstore = ps }, w)
            (record c { lbstore = [] }, w'))
          × (steps r ≡ length ps)
          × (routes (view w') ≡ route_stores c ps (routes (view w)))
          × Sound c.lvs_manager.vip (view w')
    drain_from c [] w open_handle unmarked addressed free v s = (w, here, refl, refl, s)
    drain_from c (p ∷ ps) w open_handle unmarked addressed free v s =
        let pass =
          process_func-refines S (record c { lbstore = p ∷ ps }) h K p w open_handle unmarked
            addressed (rw (deref_waiting p c (p ∷ ps)) (deref-NonZero p c v).2)
            (rw (deref_waiting p c (p ∷ ps)) (deref-NonZero p c v).0)
            (rw (deref_waiting p c (p ∷ ps)) (deref-NonZero p c v).1) s in
        let w₁ = (process_func S (record c { lbstore = p ∷ ps }) p w).1 in
        let (w', r, count, same, s') =
          drain_from c ps w₁ open_handle unmarked addressed free v pass.2 in
        let step : Step S C (record c { lbstore = p ∷ ps }, w) (record c { lbstore = ps }, w₁) =
          item_processed p ps free refl pass.0 refl in
        (
          w',
          after_step step r,
          steps-after_step step r ∙ ap suc count,
          same
              ∙ ap (route_stores c ps) (
                  pass.1
                  ∙ ap (λ lb. route_addresses S c.lvs_manager lb lb.addr (routes (view w)))
                      (deref_waiting p c (p ∷ ps))),
          s',
        )

    -- Let the lock be free, the handle open, the virtual address and the added addresses of the stores
    -- be of IPv4, the scheduler known to the kernel, no services marked, no port 0 in a store and the
    -- table well-formed. Then the worker's steps alone reach, in as many steps as
    -- pointers wait, a state that differs by the empty channel and the outside world. The kernel
    -- then serves what the actions of the stores, in the order of the pointers, make of what it
    -- served.
    worker_drains :
        (c : Controller S) (w : S.World)
        → c.lvs_manager.handle ≡ some h
        → c.lvs_manager.marked ≡ false
        → CanServe S h K c.lvs_manager.vip c.lvs_manager.sched_name
        → c.locked ≡ false
        → HasTargets c
        → Sound c.lvs_manager.vip (view w)
        → (w' : S.World) × (r : Reach S C (c, w) (record c { lbstore = [] }, w')) × (steps r
            ≡ length c.lbstore)
          × (routes (view w') ≡ route_stores c c.lbstore (routes (view w)))
          × Sound c.lvs_manager.vip (view w')
    worker_drains c w open_handle unmarked addressed free v s =
        drain_from c c.lbstore w open_handle unmarked addressed free v s
