-- ===== src/Command/Start.antt =====
-- With what the program starts its workers.
use mathlib.Core.Path.{subst}
use lvs_nginx_controller.Base.{
  ◌≡◌, refl, sym, ◌∙◌, true, false, [], ◌∷◌, ◌++◌, Option-cases, inl, inr, ◌⊎◌, arith, ap,
}
use lvs_nginx_controller.Ipvs.Go.{Result, ok, err, crash, Run, ◌>>=◌}
use lvs_nginx_controller.Ipvs.System.{System}
use lvs_nginx_controller.Controller.Cluster.{Client}
use lvs_nginx_controller.Controller.State.{Controller, plb, new_controller}
use lvs_nginx_controller.Controller.Handlers.{initial}
use lvs_nginx_controller.Controller.Steps.{Reach}
use lvs_nginx_controller.Controller.Steps.Start.{
  initial_succeeds, initial_fails, initial_failure_blocks, new_controller_lem,
}
use lvs_nginx_controller.Command.{Options, Kubernetes, run_controller, started}

-- A bind that returns a value has had a value from its first part, and is its second part at it.
bind_ok :
    {W A B : Type 0} (m : Run W A) (f : A → Run W B) (w : W) (b : B)
    → ((m >>= f) w).0 ≡ ok b
    → (a : A) × ((m w).0 ≡ ok a) × ((m >>= f) w ≡ f a (m w).1)
bind_ok {A = A} m f w b done = by_result (m w).0 refl
  where
    by_result :
        (r : Result A) → (m w).0 ≡ r → (a : A) × ((m w).0 ≡ ok a) × ((m >>= f) w ≡ f a (m w).1)
    by_result (ok a) e = (a, e, rw e refl)
    by_result (err x) e = absurd (ground arith)
    by_result crash e = absurd (ground arith)

-- The value of a result, or another one where it has none.
abbrev value_or : {A : Type 0} → A → Result A → A
value_or a (ok b) = b
value_or a (err x) = a
value_or a crash = a

module _ (S : System) (k : Kubernetes S) (opts : Options) (w : S.World) (C : Client S.World)
    (c : Controller S) (done : (run_controller S k opts w).0 ≡ ok (C, c)) where
  -- A result of `RunController` comes from a built controller and a call of `Initial` on it.
  run_controller_parts :
      (D : Client S.World) × (b : Controller S) × (v : S.World) × ((new_controller S opts.cfg v).0
        ≡ ok b)
      × (run_controller S k opts w ≡ started S D b (new_controller S opts.cfg v).1)
  unfolding run_controller
  run_controller_parts =
      let config = bind_ok (k.build_config_from_flags opts.kubeconfig) _ w (C, c) done in
      let client =
        bind_ok (k.new_for_config config.0) _ _ (C, c) (ap (λ r. r.0) (sym config.2) ∙ done) in
      let built =
        bind_ok (new_controller S opts.cfg) (λ b. started S client.0 b) _ (C, c)
          (ap (λ r. r.0) (sym client.2) ∙ ap (λ r. r.0) (sym config.2) ∙ done) in
      (client.0, built.0, _, built.1, config.2 ∙ client.2 ∙ built.2)

  -- What holds of the call of `Initial` holds of the start of the workers.
  by_parts :
      (P : Client S.World → Controller S → S.World → Type 0)
      → ((D : Client S.World) (b : Controller S) (v : S.World)
          → (new_controller S opts.cfg v).0 ≡ ok b
          → let s = (initial S D (b, (new_controller S opts.cfg v).1)).1 in P D s.0 s.1)
      → P C c (run_controller S k opts w).1
  by_parts P at =
      let (D, b, v, built, same) = run_controller_parts in
      subst (λ x. P x.0 x.1 (run_controller S k opts w).1)
        (ap (value_or (C, c)) (ap (λ r. r.0) (sym same) ∙ done))
        (subst (λ x. P D (initial S D (b, (new_controller S opts.cfg v).1)).1.0 x)
          (ap (λ r. r.1) (sym same)) (at D b v built))

  -- Where `RunController` gets to the call of `Run`, either the lock is free and the channel holds
  -- the pointer to the store of `Initial`; or the lock is held, and in every state that a run
  -- reaches it is still held, the channel is empty and the outside world is unchanged.
  pub run_controller-blocked :
      ((c.locked ≡ false) × (c.lbstore ≡ plb ∷ []))
      ⊎ ((c.locked ≡ true)
          × ((t : Controller S × S.World)
              → Reach S C (c, (run_controller S k opts w).1) t
              → (t.0.locked ≡ true) × (t.0.lbstore ≡ []) × (t.1 ≡ (run_controller S k opts w).1)))
  run_controller-blocked =
      by_parts
        (λ D x v.
          ((x.locked ≡ false) × (x.lbstore ≡ plb ∷ []))
          ⊎ ((x.locked ≡ true)
              × ((t : Controller S × S.World)
                  → Reach S D (x, v) t
                  → (t.0.locked ≡ true) × (t.0.lbstore ≡ []) × (t.1 ≡ v))))
        λ D b v built.
          let fresh = new_controller_lem S D opts.cfg b v built in
          let w₁ = (new_controller S opts.cfg v).1 in
          elim (Option-cases (initial S D (b, w₁)).0) [
            | inl e ↦
                let r = initial_succeeds S D b w₁ e in
                inl (r.0 ∙ fresh.1.unlocked, r.1 ∙ ap (λ l. l ++ (plb ∷ [])) fresh.2)
            | inr (x, e) ↦ inr (
              (initial_fails S D b w₁ x e).0,
              λ t r.
                  let stuck = initial_failure_blocks S D b w₁ x e r in
                  (stuck.0, stuck.1 ∙ fresh.2, stuck.2),
            )
          ]
