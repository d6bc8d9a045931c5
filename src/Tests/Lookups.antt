-- ===== src/Tests/Lookups.antt =====
-- The theorem on the lister, at an indexer that holds one object.
use mathlib.Core.List.{Memᴰ}
use lvs_nginx_controller.Base.{
  Bool, true, false, ◌≡◌, ◌≢◌, refl, ◌↔◌, ◌⊎◌, inl, inr, Option, none, some, [], ◌∷◌, ◌==◌,
  if◌then◌else◌, nat_eq, list_eq, arith, ==→eq,
}
use lvs_nginx_controller.Base.Text.{Text, codes}
use lvs_nginx_controller.Api.{Meta, Configuration}
use lvs_nginx_controller.Listers.{Indexer, not_found, resource, list_namespace, get}
use lvs_nginx_controller.Listers.Lookup.{Names, Plain, IsIndexed, get-list_namespace}

-- The metadata of an object: its namespace and its name.
abbrev meta : Meta
meta = record { TypeMeta = Unit; ObjectMeta = Text × Text; ListMeta = Unit; Cell = Unit }

abbrev names : Names meta
names = record { name = λ m. m.1; namespace = λ m. m.0 }

abbrev edge : Configuration meta
edge = record {
  type_meta = tt;
  object_meta = (codes "default", codes "edge");
  tcp_endpoints = none;
  udp_endpoints = none;
}

abbrev indexer : Indexer meta
indexer = record {
  Error = Unit;
  Selector = Unit;
  get_by_key = λ k. if codes "default/edge" == k then inr (some edge) else inr none;
  list_all = λ s. (edge ∷ [], none);
  list_all_by_namespace = λ ns s. ((if codes "default" == ns then edge ∷ [] else []), none);
}

-- The only object.
only : (c : Configuration meta) → Memᴰ c (edge ∷ []) → c ≡ edge
only c (Memᴰ.head e) = e
only c (Memᴰ.tail m) = elim m [ ]

there :
    (b : Bool) (c : Configuration meta)
    → Memᴰ c (if b then edge ∷ [] else [])
    → (b ≡ true) × (c ≡ edge)
there true c m = (refl, only c m)
there false c m = elim m [ ]

edge-Plain : Plain (codes "default") × Plain (codes "edge")
unfolding nat_eq
edge-Plain = (
  record { filled = λ e. ground (arith, e); unslashed = refl },
  record { filled = λ e. ground (arith, e); unslashed = refl },
)

stored :
    (b : Bool) (c : Configuration meta)
    → ◌≡◌ {A = Unit {0} ⊎ Option (Configuration meta)}
        (if b then inr (some edge) else inr none)
        (inr (some c))
    → (b ≡ true) × (c ≡ edge)
stored true c e = (refl, ground (arith, e))
stored false c e = ground (arith, e)

indexer-IsIndexed : IsIndexed meta names indexer tt (edge ∷ [])
unfolding nat_eq list_eq
indexer-IsIndexed = record {
  plain = λ c m. rw (only c m) edge-Plain;
  no_error = λ k e h. ground (arith, h);
  sound = λ k c e.
      let (at_key, same) = stored (codes "default/edge" == k) c e in
      (Memᴰ.head same, rw same (==→eq _ _ at_key));
  complete = λ c m. rw (only c m) refl;
  by_namespace = λ ns c f. (
    λ m.
        let (at_namespace, same) = there (codes "default" == ns) c m in
        (Memᴰ.head same, rw same (==→eq _ _ at_namespace)),
    λ (m, e). rw (← e, only c m) (Memᴰ.head refl),
  );
}

get-list_namespace_example :
    ((c : Configuration meta)
      → (get meta indexer (codes "default") (codes "edge") ≡ inr c) ↔ (
          Memᴰ c (list_namespace meta indexer (codes "default") tt).0
          × (c.object_meta.1 ≡ codes "edge")))
    × (((c : Configuration meta)
          → Memᴰ c (list_namespace meta indexer (codes "default") tt).0
          → c.object_meta.1 ≢ codes "edge")
        → get meta indexer (codes "default") (codes "edge")
          ≡ inl (not_found (resource (codes "configuration")) (codes "edge")))
get-list_namespace_example =
    get-list_namespace meta names indexer tt (edge ∷ []) indexer-IsIndexed (codes "default")
      (codes "edge") edge-Plain.0 edge-Plain.1
