-- ===== src/Controller/Steps/Start.antt =====
-- `NewLoadBalancerController` and `Initial`, with which a run begins.
use mathlib.Core.Path.{subst}
use lvs_nginx_controller.Base.{
  ℕ, ◌≡◌, refl, ◌∙◌, true, false, none, some, List, [], ◌∷◌, ◌++◌, ◌==◌, if◌then◌else◌, nat_eq,
  list_eq, arith, contains, Option-cases, inl, inr,
}
use lvs_nginx_controller.Base.Text.{Text}
use lvs_nginx_controller.Base.Dict.{keys, lookup, has, insert, lookup-insert, contains-keys}
use lvs_nginx_controller.Config.{Config}
use lvs_nginx_controller.Ipvs.Manager.{init, new_lvs_manager, LvsManager}
use lvs_nginx_controller.Store.{new_lb_store, LbStore, PortMap}
use lvs_nginx_controller.Ipvs.Go.{Result, ok, err, crash}
use lvs_nginx_controller.Ipvs.System.{System}
use lvs_nginx_controller.Controller.Cluster.{Client}
use lvs_nginx_controller.Controller.State.{
  new_controller, nginx_default, Controller, plb, proto_tcp, proto_udp,
}
use lvs_nginx_controller.Controller.Listing.{Failure, list_cm, list_nginx, list_nginx_ports}
use lvs_nginx_controller.Controller.Handlers.{initial, addr_add_func, know_all}
use lvs_nginx_controller.Controller.Unique.{
  IsUnique, list_nginx-IsUnique, list_cm-IsUnique, know_all-NodupKeys,
}
use lvs_nginx_controller.Controller.Steps.{
  HasRoom, Step, Reach, config_map_updated, pod_updated, pod_added, item_processed, here, next,
}
use lvs_nginx_controller.Controller.Steps.Invariant.{Invariant, length-send}

lookup-know_all :
    (j : ℕ) (proto : Text) (ports : List ℕ) (known : PortMap)
    → lookup j (know_all proto ports known)
      ≡ (if contains ports j then some proto else lookup j known)
unfolding know_all
lookup-know_all j proto [] known = refl
lookup-know_all j proto (port ∷ ports) known = ground (
  arith,
  lookup-know_all j proto ports (insert port proto known),
  lookup-insert j port proto known,
)

module _ (S : System) (C : Client S.World) where
  abbrev empty : Config → LvsManager S → Controller S
  empty cfg lm = record {
    nginx_server = if cfg.nginx_server == [] then nginx_default else cfg.nginx_server;
    nw_tcp = [];
    ex_tcp = [];
    nw_udp = [];
    ex_udp = [];
    clbdata = new_lb_store;
    plbdata = new_lb_store;
    lbstore = [];
    lvs_manager = lm;
    locked = false;
  }

  empty-Invariant :
      (cfg : Config) (lm : LvsManager S)
      → Invariant S C (empty cfg lm) × HasRoom S C (empty cfg lm) × ((empty cfg lm).lbstore ≡ [])
  unfolding new_lb_store
  empty-Invariant cfg lm = (omega arith, record { unlocked = refl; room = omega arith }, refl)

  pub new_controller_lem :
      (cfg : Config) (c : Controller S) (w : S.World)
      → (new_controller S cfg w).0 ≡ ok c
      → Invariant S C c × HasRoom S C c × (c.lbstore ≡ [])
  unfolding new_controller
  new_controller_lem cfg c w built = by_result (init S (new_lvs_manager S) cfg w).0 refl
    where
      by_result :
          (r : Result (LvsManager S))
          → (init S (new_lvs_manager S) cfg w).0 ≡ r
          → Invariant S C c × HasRoom S C c × (c.lbstore ≡ [])
      by_result (err x) e = absurd (ground arith)
      by_result crash e = absurd (ground arith)
      by_result (ok lm) e =
          subst (λ d. Invariant S C d × HasRoom S C d × (d.lbstore ≡ [])) (ground arith)
            (empty-Invariant cfg lm)

  -- `Initial` keeps the invariant where it finds room, whether or not it fails.
  pub initial-Invariant :
      (c : Controller S) (w : S.World)
      → Invariant S C c
      → HasRoom S C c
      → Invariant S C (initial S C (c, w)).1.0
  unfolding initial
  initial-Invariant c w v r = elim (Option-cases (list_cm C c.nginx_server c.plbdata w).0.1) [
    | inr (x, e) ↦
        rw (e, initial)
          (record {
            bounded = v.bounded;
            ex_tcp = v.ex_tcp;
            nw_tcp = v.nw_tcp;
            ex_udp = v.ex_udp;
            nw_udp = v.nw_udp;
            clbdata = v.clbdata;
            plbdata = listed;
          })
    | inl e ↦ elim (Option-cases (list_nginx C c.nginx_server lb w₁).0.1) [
      | inr (x, f) ↦
          rw (e, f, initial)
            (record {
              bounded = v.bounded;
              ex_tcp = know_all-NodupKeys proto_tcp (keys lb.tcp) c.ex_tcp v.ex_tcp;
              nw_tcp = v.nw_tcp;
              ex_udp = know_all-NodupKeys proto_udp (keys lb.udp) c.ex_udp v.ex_udp;
              nw_udp = v.nw_udp;
              clbdata = v.clbdata;
              plbdata = list_nginx-IsUnique C c.nginx_server lb w₁ listed;
            })
      | inl f ↦
          rw (e, f, initial)
            (record {
              bounded = length-send S C c plb v r;
              ex_tcp = know_all-NodupKeys proto_tcp (keys lb.tcp) c.ex_tcp v.ex_tcp;
              nw_tcp = v.nw_tcp;
              ex_udp = know_all-NodupKeys proto_udp (keys lb.udp) c.ex_udp v.ex_udp;
              nw_udp = v.nw_udp;
              clbdata = v.clbdata;
              plbdata = list_nginx-IsUnique C c.nginx_server lb w₁ listed;
            })
    ]
  ]
    where
      lb : LbStore
      lb = (list_cm C c.nginx_server c.plbdata w).0.0

      w₁ : S.World
      w₁ = (list_cm C c.nginx_server c.plbdata w).1

      listed : IsUnique lb
      listed = list_cm-IsUnique C c.nginx_server c.plbdata w v.plbdata

  -- If `Initial` returns no error, it leaves the lock as it was, has sent the pointer to its
  -- store, and knows, beside what it knew, exactly the ports that it has listed.
  pub initial_succeeds :
      (c : Controller S) (w : S.World)
      → (initial S C (c, w)).0 ≡ none
      → let c' = (initial S C (c, w)).1.0 in
        (c'.locked ≡ c.locked)
        × (c'.lbstore ≡ c.lbstore ++ (plb ∷ []))
        × ((j : ℕ)
            → (lookup j c'.ex_tcp
                ≡ (if has j c'.plbdata.tcp then some proto_tcp else lookup j c.ex_tcp))
              × (lookup j c'.ex_udp
                  ≡ (if has j c'.plbdata.udp then some proto_udp else lookup j c.ex_udp)))
  unfolding initial
  initial_succeeds c w = elim (Option-cases (list_cm C c.nginx_server c.plbdata w).0.1) [
    | inr (x, e) ↦ rw (e, initial) (λ h. cc)
    | inl e ↦ elim (Option-cases (list_nginx C c.nginx_server lb w₁).0.1) [
      | inr (x, f) ↦ rw (e, f, initial) (λ h. cc)
      | inl f ↦
          rw (e, f, initial)
            λ h. (
              refl,
              refl,
              λ j.
                  let same = list_nginx_ports C c.nginx_server lb w₁ in
                  (
                    ground (
                      arith,
                      same.0,
                      lookup-know_all j proto_tcp (keys lb.tcp) c.ex_tcp,
                      contains-keys lb.tcp j,
                    ),
                    ground (
                      arith,
                      same.1,
                      lookup-know_all j proto_udp (keys lb.udp) c.ex_udp,
                      contains-keys lb.udp j,
                    ),
                  ),
            )
    ]
  ]
    where
      lb : LbStore
      lb = (list_cm C c.nginx_server c.plbdata w).0.0

      w₁ : S.World
      w₁ = (list_cm C c.nginx_server c.plbdata w).1

  -- If `Initial` returns an error, it has sent nothing and leaves the lock held.
  pub initial_fails :
      (c : Controller S) (w : S.World) (x : Failure)
      → (initial S C (c, w)).0 ≡ some x
      → let c' = (initial S C (c, w)).1.0 in (c'.locked ≡ true) × (c'.lbstore ≡ c.lbstore)
  unfolding initial
  initial_fails c w x = elim (Option-cases (list_cm C c.nginx_server c.plbdata w).0.1) [
    | inr (y, e) ↦ rw (e, initial) (λ h. (refl, refl))
    | inl e ↦
        elim (Option-cases
          (list_nginx C c.nginx_server (list_cm C c.nginx_server c.plbdata w).0.0
            (list_cm C c.nginx_server c.plbdata w).1).0.1) [
              | inr (y, f) ↦ rw (e, f, initial) (λ h. (refl, refl))
              | inl f ↦ rw (e, f, initial) (λ h. cc)
            ]
  ]

  Step-locked :
      (s t : Controller S × S.World)
      → Step S C s t
      → s.0.locked ≡ true
      → (t.0.locked ≡ true) × (t.0.lbstore ≡ s.0.lbstore) × (t.1 ≡ s.1)
  unfolding addr_add_func
  Step-locked s t (config_map_updated old new r e) h = absurd (ground (arith, r.unlocked))
  Step-locked s t (pod_updated old new r e) h = absurd (ground (arith, r.unlocked))
  Step-locked s t (pod_added pod e) h = ground arith
  Step-locked s t (item_processed p rest free taken done e) h = absurd (ground arith)

  -- With the lock held nothing is sent, taken from the channel or done to the outside world any
  -- more, however the run goes on.
  Reach-locked :
      {s t : Controller S × S.World}
      → Reach S C s t
      → s.0.locked ≡ true
      → (t.0.locked ≡ true) × (t.0.lbstore ≡ s.0.lbstore) × (t.1 ≡ s.1)
  Reach-locked here h = (h, refl, refl)
  Reach-locked (next {t = t} {u = u} r step) h =
      let before = Reach-locked r h in
      let after = Step-locked t u step before.0 in (after.0, after.1 ∙ before.1, after.2 ∙ before.2)

  -- After an `Initial` that returned an error no event and no worker frees the lock, sends a pointer,
  -- takes one, or changes the outside world, in any run.
  pub initial_failure_blocks :
      (c : Controller S) (w : S.World) (x : Failure) {t : Controller S × S.World}
      → (initial S C (c, w)).0 ≡ some x
      → Reach S C (initial S C (c, w)).1 t
      → (t.0.locked ≡ true) × (t.0.lbstore ≡ c.lbstore) × (t.1 ≡ (initial S C (c, w)).1.1)
  initial_failure_blocks c w x failed r =
      let first = initial_fails c w x failed in
      let rest = Reach-locked r first.0 in (rest.0, rest.1 ∙ first.1, rest.2)
