-- ===== src/Controller/Updates.antt =====
-- What the events of the config map for TCP ports leave in the stores (`updatePorts`).
use lvs_nginx_controller.Base.{
  ℕ, ◌≡◌, refl, sym, ◌∙◌, true, none, some, [], ◌∷◌, ◌++◌, if◌then◌else◌, nat_eq, list_eq, arith,
}
use lvs_nginx_controller.Base.Dict.{keys, lookup, NodupKeys, lookup-nil, eq-nil_of_lookup}
use lvs_nginx_controller.Store.{PortMap, Compared, addition, l4_compare}
use lvs_nginx_controller.Store.Compare.{change, l4_compare-NodupKeys}
use lvs_nginx_controller.Ipvs.System.{System}
use lvs_nginx_controller.Controller.Cluster.{entries, ConfigMap, Client}
use lvs_nginx_controller.Controller.State.{Controller, clb, proto_tcp, deref}
use lvs_nginx_controller.Controller.Listing.{list_nginx_ports}
use lvs_nginx_controller.Controller.Handlers.{update_tcp}
use lvs_nginx_controller.Controller.Collect.{
  names, named, collected, lookup-collected, collect_ports-NodupKeys, compared_changed,
  compared_same,
}

module _ (S : System) (C : Client S.World) where
  -- If a config map names other ports than the known ones and nothing was left over, the handler
  -- marks in its store exactly the difference, whatever the store held before, knows the named
  -- ports afterwards, leaves nothing over and sends the pointer to its store. No port is known twice.
  pub update_tcp_changed :
      (cm : ConfigMap) (c : Controller S) (w : S.World)
      → NodupKeys c.ex_tcp
      → c.nw_tcp ≡ []
      → ¬ ((j : ℕ) → lookup j c.ex_tcp ≡ named proto_tcp cm j)
      → let c' = (update_tcp S C cm (c, w)).0 in
        ((j : ℕ)
          → (lookup j c'.clbdata.tcp ≡ change (lookup j c.ex_tcp) (named proto_tcp cm j))
            × (lookup j c'.ex_tcp ≡ named proto_tcp cm j)
            × (lookup j c'.nw_tcp ≡ none))
        × (c'.lbstore ≡ c.lbstore ++ (clb ∷ []))
  unfolding update_tcp
  update_tcp_changed cm c w u empty differ = (
    λ j. ground (
      arith,
      (list_nginx_ports C c.nginx_server (record c.clbdata { tcp = delta }) w).0,
      compared_changed proto_tcp cm c.nw_tcp c.ex_tcp c.clbdata.tcp u empty differ j,
    ),
    refl,
  )
    where
      delta : PortMap
      delta = (l4_compare c.ex_tcp (collected proto_tcp cm c.nw_tcp) c.clbdata.tcp).delta_one

  update_tcp_same :
      (cm : ConfigMap) (c : Controller S) (w : S.World)
      → NodupKeys c.ex_tcp
      → NodupKeys c.nw_tcp
      → ((j : ℕ)
          → lookup j c.ex_tcp
            ≡ (if names (keys (entries cm)) j then some proto_tcp else lookup j c.nw_tcp))
      → let c' = (update_tcp S C cm (c, w)).0 in
        (c'.ex_tcp ≡ c.ex_tcp)
        × (c'.nw_tcp ≡ collected proto_tcp cm c.nw_tcp)
        × (c'.clbdata.tcp ≡ c.clbdata.tcp)
  unfolding update_tcp
  update_tcp_same cm c w u v same =
      let e = compared_same proto_tcp cm c.nw_tcp c.ex_tcp c.clbdata.tcp u v same in
      (
        ground (arith, e),
        ground (arith, e),
        (list_nginx_ports C c.nginx_server _ w).0 ∙ ground (arith, e),
      )

  -- Suppose nothing was left over, an event names exactly the known ports (its values differ), and
  -- the next event names only some of them. Then the handlers mark no port for deletion: the store
  -- holds what it held before the two events, and all the ports stay known. No port is known twice.
  pub dropped_port_missed :
      (cm₁ cm₂ : ConfigMap) (c : Controller S) (w : S.World)
      → NodupKeys c.ex_tcp
      → c.nw_tcp ≡ []
      → ((j : ℕ) → lookup j c.ex_tcp ≡ named proto_tcp cm₁ j)
      → ((j : ℕ) → names (keys (entries cm₂)) j ≡ true → names (keys (entries cm₁)) j ≡ true)
      → let c' = (update_tcp S C cm₂ (update_tcp S C cm₁ (c, w))).0 in
        (c'.ex_tcp ≡ c.ex_tcp) × (c'.clbdata.tcp ≡ c.clbdata.tcp)
  dropped_port_missed cm₁ cm₂ c w u empty known fewer = (second.0 ∙ first.0, second.2 ∙ first.2)
    where
      c₁ : Controller S
      c₁ = (update_tcp S C cm₁ (c, w)).0

      first :
          (c₁.ex_tcp ≡ c.ex_tcp)
          × (c₁.nw_tcp ≡ collected proto_tcp cm₁ c.nw_tcp)
          × (c₁.clbdata.tcp ≡ c.clbdata.tcp)
      first = update_tcp_same cm₁ c w u (rw empty tt) (λ j. known j ∙ sym (rw (empty, lookup-nil)))

      left_over : (j : ℕ) → lookup j c₁.nw_tcp ≡ lookup j c.ex_tcp
      left_over j = rw first.1 (lookup-collected proto_tcp cm₁ c.nw_tcp empty j) ∙ sym (known j)

      second :
          ((update_tcp S C cm₂ (update_tcp S C cm₁ (c, w))).0.ex_tcp ≡ c₁.ex_tcp)
          × ((update_tcp S C cm₂ (update_tcp S C cm₁ (c, w))).0.nw_tcp
              ≡ collected proto_tcp cm₂ c₁.nw_tcp)
          × ((update_tcp S C cm₂ (update_tcp S C cm₁ (c, w))).0.clbdata.tcp ≡ c₁.clbdata.tcp)
      second =
          update_tcp_same cm₂ c₁ (update_tcp S C cm₁ (c, w)).1 (rw first.0 u)
            (rw first.1 (collect_ports-NodupKeys proto_tcp _ c.nw_tcp (rw empty tt)))
            (λ j. rw first.0 (ground (arith, left_over j, known j, fewer j)))

  pub update_tcp-NodupKeys :
      (cm : ConfigMap) (c : Controller S) (w : S.World)
      → NodupKeys c.ex_tcp
      → NodupKeys c.nw_tcp
      → NodupKeys c.clbdata.tcp
      → let c' = (update_tcp S C cm (c, w)).0 in
        NodupKeys c'.ex_tcp × NodupKeys c'.nw_tcp × NodupKeys c'.clbdata.tcp
  unfolding update_tcp
  update_tcp-NodupKeys cm c w u v d =
      (unique.0, unique.1, rw (list_nginx_ports C c.nginx_server _ w).0 unique.2)
    where
      r : Compared
      r = l4_compare c.ex_tcp (collected proto_tcp cm c.nw_tcp) c.clbdata.tcp

      unique : NodupKeys r.old_one × NodupKeys r.new_one × NodupKeys r.delta_one
      unique =
          l4_compare-NodupKeys c.ex_tcp (collected proto_tcp cm c.nw_tcp) c.clbdata.tcp u
            (collect_ports-NodupKeys proto_tcp (keys (entries cm)) c.nw_tcp v) d

  -- Suppose two events that change the ports come before the worker takes the first pointer. A
  -- port that the first adds and the second keeps is marked for addition after the first, and
  -- after the second it is not in the store to which both pointers in the queue lead. Nothing was
  -- left over, the port was not known, and no map has two entries for a port.
  pub unprocessed_addition_lost :
      (cm₁ cm₂ : ConfigMap) (c : Controller S) (w : S.World) (j : ℕ)
      → NodupKeys c.ex_tcp
      → NodupKeys c.clbdata.tcp
      → c.nw_tcp ≡ []
      → ¬ ((k : ℕ) → lookup k c.ex_tcp ≡ named proto_tcp cm₁ k)
      → ¬ ((k : ℕ) → named proto_tcp cm₁ k ≡ named proto_tcp cm₂ k)
      → lookup j c.ex_tcp ≡ none
      → names (keys (entries cm₁)) j ≡ true
      → names (keys (entries cm₂)) j ≡ true
      → let s₁ = update_tcp S C cm₁ (c, w) in
        let c₂ = (update_tcp S C cm₂ s₁).0 in
        (lookup j s₁.0.clbdata.tcp ≡ some addition)
        × (lookup j (deref S clb c₂).tcp ≡ none)
        × (c₂.lbstore ≡ (c.lbstore ++ (clb ∷ [])) ++ (clb ∷ []))
  unprocessed_addition_lost cm₁ cm₂ c w j u d empty differ₁ differ₂ new in₁ in₂ = (
    (first.0 j).0 ∙ rw (new, in₁),
    (second.0 j).0 ∙ rw ((first.0 j).1, in₁, in₂),
    second.1 ∙ rw first.1,
  )
    where
      c₁ : Controller S
      c₁ = (update_tcp S C cm₁ (c, w)).0

      w₁ : S.World
      w₁ = (update_tcp S C cm₁ (c, w)).1

      first :
          ((k : ℕ)
            → (lookup k c₁.clbdata.tcp ≡ change (lookup k c.ex_tcp) (named proto_tcp cm₁ k))
              × (lookup k c₁.ex_tcp ≡ named proto_tcp cm₁ k)
              × (lookup k c₁.nw_tcp ≡ none))
          × (c₁.lbstore ≡ c.lbstore ++ (clb ∷ []))
      first = update_tcp_changed cm₁ c w u empty differ₁

      second :
          ((k : ℕ)
            → (lookup k (update_tcp S C cm₂ (c₁, w₁)).0.clbdata.tcp
                ≡ change (lookup k c₁.ex_tcp) (named proto_tcp cm₂ k))
              × (lookup k (update_tcp S C cm₂ (c₁, w₁)).0.ex_tcp ≡ named proto_tcp cm₂ k)
              × (lookup k (update_tcp S C cm₂ (c₁, w₁)).0.nw_tcp ≡ none))
          × ((update_tcp S C cm₂ (c₁, w₁)).0.lbstore ≡ c₁.lbstore ++ (clb ∷ []))
      second =
          update_tcp_changed cm₂ c₁ w₁ (update_tcp-NodupKeys cm₁ c w u (rw empty tt) d).0
            (eq-nil_of_lookup c₁.nw_tcp (λ k. (first.0 k).2))
            (λ same. differ₂ (λ k. sym (first.0 k).1 ∙ same k))
