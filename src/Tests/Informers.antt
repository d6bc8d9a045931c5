-- ===== src/Tests/Informers.antt =====
-- The theorems on the informers, with a client-go whose informers are the calls that they make.
use lvs_nginx_controller.Base.{
  ℕ, suc, ◌≡◌, refl, true, List, [], ◌∷◌, ◌++◌, if◌then◌else◌, nat_eq, list_eq,
}
use lvs_nginx_controller.Base.Text.{Text, codes}
use lvs_nginx_controller.Base.Dict.{has, lookup}
use lvs_nginx_controller.Informers.{
  Library, Factory, new_factory, new_factory_with_options, start, wait_for_cache_sync,
}
use lvs_nginx_controller.Informers.Calls.{
  Call, call_start, call_informer_for, run_calls, creations, launches, first_launched, starts_once,
}
use lvs_nginx_controller.Informers.Waits.{asked, waits_for_all}

-- An informer here: the calls to list and to watch that it makes with given options.
abbrev client_go : Library
client_go = record {
  Client = ℕ;
  Duration = ℕ;
  Informer = (Text → ℕ × (Text × Text)) × ℕ;
  ListOptions = Text;
}

abbrev fresh : Factory client_go
fresh = new_factory client_go 5 30

abbrev pods : ℕ → ℕ → (Text → ℕ × (Text × Text)) × ℕ
pods client resync = ((λ options. (client, (codes "pods", options))), resync)

-- Two types are asked for, one of them twice, around a call of `Start`.
abbrev calls : List (Call client_go)
calls =
    call_informer_for (codes "Pod") pods
    ∷ call_start
    ∷ call_informer_for (codes "Pod") pods
    ∷ call_informer_for (codes "Configuration") pods
    ∷ []

starts_once_example :
    let r = run_calls client_go (calls ++ (call_start ∷ [])) fresh in
    (creations client_go (codes "Pod") r.0 ≡ (if has (codes "Pod") r.1.informers then 1 else 0))
    × (launches client_go (codes "Pod") r.0 ≡ (if has (codes "Pod") r.1.informers then 1 else 0))
    × (first_launched client_go (codes "Pod") r.0 ≡ lookup (codes "Pod") r.1.informers)
unfolding new_factory new_factory_with_options
starts_once_example = starts_once client_go calls fresh (codes "Pod") refl refl

waits_for_all_example :
    let g = (start client_go (run_calls client_go calls fresh).1).1 in
    has (codes "Pod") (wait_for_cache_sync client_go (λ informer w. (true, suc w)) g 0).0
    ≡ asked client_go (codes "Pod") calls
unfolding new_factory new_factory_with_options
waits_for_all_example =
    waits_for_all client_go {W = ℕ} (λ informer w. (true, suc w)) calls fresh (codes "Pod") 0 refl
      refl
