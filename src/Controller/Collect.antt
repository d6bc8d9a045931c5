-- ===== src/Controller/Collect.antt =====
-- The ports that an event of a config map collects (the first part of `updatePorts`), and their
-- comparison with the known ones, for either protocol.
use lvs_nginx_controller.Base.{
  ℕ, ◌≡◌, refl, sym, ◌∙◌, Bool, false, ◌&&◌, ◌||◌, Option, none, some, List, [], ◌∷◌, ◌==◌,
  if◌then◌else◌, nat_eq, list_eq, arith, Bool-cases, inl, inr,
}
use lvs_nginx_controller.Base.Text.{Text}
use lvs_nginx_controller.Base.Dict.{
  keys, lookup, insert, NodupKeys, lookup-insert, insert-NodupKeys, lookup-nil,
}
use lvs_nginx_controller.Base.Dict.DeepEqual.{deep_equal, deep_equal→Same}
use lvs_nginx_controller.Validate.{validate_port}
use lvs_nginx_controller.Store.{PortMap, l4_compare}
use lvs_nginx_controller.Store.Compare.{change, l4_compare_changed, l4_compare-Same}
use lvs_nginx_controller.Controller.Cluster.{entries, ConfigMap}
use lvs_nginx_controller.Controller.Handlers.{collect_ports}

-- Some key of the list validates as the port.
abbrev pub names : List Text → ℕ → Bool
names [] port = false
names (key ∷ ks) port = ((validate_port key).0 && port == (validate_port key).1) || names ks port

pub lookup-collect_ports :
    (j : ℕ) (proto : Text) (ks : List Text) (ports : PortMap)
    → lookup j (collect_ports proto ks ports) ≡ (if names ks j then some proto else lookup j ports)
unfolding collect_ports
lookup-collect_ports j proto [] ports = refl
lookup-collect_ports j proto (key ∷ ks) ports = ground (
  arith,
  lookup-collect_ports j proto ks ports,
  lookup-collect_ports j proto ks (insert (validate_port key).1 proto ports),
  lookup-insert j (validate_port key).1 proto ports,
)

pub collect_ports-NodupKeys :
    (proto : Text) (ks : List Text) (ports : PortMap)
    → NodupKeys ports
    → NodupKeys (collect_ports proto ks ports)
unfolding collect_ports
collect_ports-NodupKeys proto [] ports u = u
collect_ports-NodupKeys proto (key ∷ ks) ports u = ground (
  arith,
  collect_ports-NodupKeys proto ks ports u,
  collect_ports-NodupKeys proto ks (insert (validate_port key).1 proto ports),
  insert-NodupKeys (validate_port key).1 proto ports u,
)

-- The map of the ports that a config map names.
abbrev pub named : Text → ConfigMap → ℕ → Option Text
named proto cm j = if names (keys (entries cm)) j then some proto else none

module _ (proto : Text) (cm : ConfigMap) (left : PortMap) where
  abbrev pub collected : PortMap
  collected = collect_ports proto (keys (entries cm)) left

  pub lookup-collected : left ≡ [] → (j : ℕ) → lookup j collected ≡ named proto cm j
  lookup-collected empty j =
      rw empty (lookup-collect_ports j proto (keys (entries cm)) [] ∙ rw lookup-nil)

  -- The comparison with known ports that differ from the named ones.
  pub compared_changed :
      (ex delta : PortMap)
      → NodupKeys ex
      → left ≡ []
      → ¬ ((j : ℕ) → lookup j ex ≡ named proto cm j)
      → (j : ℕ)
      → let r = l4_compare ex collected delta in
        (lookup j r.delta_one ≡ change (lookup j ex) (named proto cm j))
        × (lookup j r.old_one ≡ named proto cm j)
        × (lookup j r.new_one ≡ none)
  compared_changed ex delta u empty differ j =
      ground
        (arith, l4_compare_changed ex collected delta u unique unequal j, lookup-collected empty j)
    where
      unique : NodupKeys collected
      unique = collect_ports-NodupKeys proto (keys (entries cm)) left (rw empty tt)

      unequal : deep_equal ex collected ≡ false
      unequal = elim (Bool-cases (deep_equal ex collected)) [
        | inr e ↦ e
        | inl e ↦
            absurd
              (differ λ k. deep_equal→Same ex collected u unique e k ∙ lookup-collected empty k)
      ]

  -- The comparison with known ports that are those collected.
  pub compared_same :
      (ex delta : PortMap)
      → NodupKeys ex
      → NodupKeys left
      → ((j : ℕ)
          → lookup j ex ≡ (if names (keys (entries cm)) j then some proto else lookup j left))
      → l4_compare ex collected delta
        ≡ record { old_one = ex; new_one = collected; delta_one = delta }
  compared_same ex delta u v same =
      l4_compare-Same ex collected delta u
        (collect_ports-NodupKeys proto (keys (entries cm)) left v)
        (λ j. same j ∙ sym (lookup-collect_ports j proto (keys (entries cm)) left))
