-- ===== src/Tests/Simple.antt =====
-- The theorem on the simple fake clientset, with a tracker that keeps a list of configurations.
use lvs_nginx_controller.Base.{
  ℕ, ◌≡◌, refl, ap, true, false, Bool, ◌⊎◌, Option, none, some, List, [], ◌∷◌, map, nat_eq, list_eq,
}
use lvs_nginx_controller.Base.Text.{Text, codes}
use lvs_nginx_controller.Api.{Configuration}
use lvs_nginx_controller.Clientset.Fake.{Action, get_action, configurations_resource}
use lvs_nginx_controller.Clientset.Simple.{
  Reaction, Testing, SimpleClientset, new_simple_clientset, fake_lvscontroller_v1alpha1,
  configurations_of,
}
use lvs_nginx_controller.Clientset.Simple.Lookups.{
  find, pushed, all_new, answered, IsTesting, got, new_simple_clientset-find,
}
use lvs_nginx_controller.Tests.Clients.{meta, machinery, edge}

abbrev Kept : Type 0
Kept = List (Configuration meta)

-- The second text of the metadata is the namespace here.
abbrev namespace : Text × Text → Text
namespace m = m.1

abbrev react :
    Action meta machinery → Kept → ((Bool × Option (Configuration meta)) × Option ℕ) × Kept
react (get_action r ns n) w = (
  (
    (true, find meta machinery namespace ns n w),
    elim (find meta machinery namespace ns n w) [ none ↦ some 404 | some c ↦ none ],
  ),
  w,
)
react _ w = (((false, none), some 501), w)

-- An object is added where there is none.
abbrev added : Configuration meta → Kept → Option (Configuration meta) → Option ℕ × Kept
added c w none = (none, c ∷ w)
added c w (some d) = (some 409, w)

abbrev add : Configuration meta → Kept → Option ℕ × Kept
add c w = added c w (find meta machinery namespace c.object_meta.1 c.object_meta.0 w)

abbrev testing : Testing meta machinery Kept
testing = record {
  Object = Configuration meta;
  configuration = λ c. c;
  Tracker = Unit {0};
  new_object_tracker = λ w. (tt, []);
  add = λ t. add;
  watch = λ t r ns w. ((some tt, none), w);
  object_reaction =
      λ t. record { react = react; react_list = λ a w. (((false, none), some 501), w) };
  Chains = Option (Reaction meta machinery Kept);
  no_chains = none;
  add_reactor = λ v r reaction chains. some reaction;
  add_watch_reactor = λ r reaction chains. chains;
  fake = λ chains. record {
    invokes = λ a c w. elim chains [
      | none ↦ ((some c, none), w)
      | some r ↦ answered meta machinery namespace c (r.react a w)
    ];
    invokes_list = λ a l w. ((some l, none), w);
    invokes_watch = λ a w. ((none, none), w);
  };
  resource_of = λ a. configurations_resource;
  namespace_of = λ a. [];
}

testing-IsTesting : IsTesting meta machinery namespace testing
testing-IsTesting = record {
  kept = λ t w ns n. find meta machinery namespace ns n w;
  recorded = λ a w. w;
  not_found = λ n. 404;
  starts = λ w ns n. refl;
  adds = λ t c w e. (
    ap (λ o. (added c w o).0) e,
    λ ns n. ap (λ o. find meta machinery namespace ns n (added c w o).1) e,
  );
  refuses = λ t c d w e. (409, ap (λ o. (added c w o).0) e);
  records = λ t a w ns n. refl;
  gets = λ t w ns n e d. refl;
  invokes = λ r v a c w. refl;
}

abbrev objects : List (Configuration meta)
objects = edge (codes "a") ∷ edge (codes "b") ∷ []

new_simple_clientset-find_example :
    let made = new_simple_clientset meta machinery Kept testing (map (λ c. c) objects) [] in
    ((all_new meta machinery namespace objects [] ≡ true)
      × (clientset : SimpleClientset meta machinery Kept testing) × (made.0 ≡ some clientset)
      × (let group = fake_lvscontroller_v1alpha1 meta machinery Kept testing clientset in
          ((configurations_of meta machinery Kept testing group (codes "edge")).get
            (codes "b")
            tt
            made.1).0
          ≡ got meta machinery namespace testing testing-IsTesting (codes "b") (
              find meta machinery namespace
                (codes "edge")
                (codes "b")
                (pushed meta machinery namespace objects []))))
    ⊎ ((all_new meta machinery namespace objects [] ≡ false) × (made.0 ≡ none))
new_simple_clientset-find_example =
    new_simple_clientset-find meta machinery namespace testing testing-IsTesting objects []
      (codes "edge") (codes "b") tt (λ e. cc) (λ e. cc)
