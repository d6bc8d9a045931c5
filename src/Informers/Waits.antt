-- ===== src/Informers/Waits.antt =====
-- For which types `WaitForCacheSync` waits.
use lvs_nginx_controller.Base.{
  ◌≡◌, refl, Bool, false, ◌==◌, Option-cases, some, inl, inr, ◌&&◌, ◌||◌, List, [], ◌∷◌, nat_eq,
  list_eq, arith,
}
use lvs_nginx_controller.Base.Text.{Text}
use lvs_nginx_controller.Base.Dict.{
  Dict, has, lookup, insert, lookup-nil, lookup-cons, lookup-insert,
}
use lvs_nginx_controller.Informers.{
  Library, Factory, is_started, start, informer_for, started_only, wait_loop, wait_for_cache_sync,
}
use lvs_nginx_controller.Informers.Calls.{
  Call, call_start, call_informer_for, run_calls, run_calls-Agrees, start_starts, fresh-Agrees,
}

module _ (L : Library) where
  -- Whether some call asks for the informer of the type.
  abbrev pub asked : Text → List (Call L) → Bool
  asked t [] = false
  asked t (call_start ∷ calls) = asked t calls
  asked t (call_informer_for s new_func ∷ calls) = s == t || asked t calls

  has-insert :
      (t s : Text) (informer : L.Informer) (informers : Dict Text L.Informer)
      → has t (insert s informer informers) ≡ (s == t || has t informers)
  has-insert t s informer informers = ground (arith, lookup-insert t s informer informers)

  here_already :
      (t s : Text) (informers : Dict Text L.Informer) (informer : L.Informer)
      → lookup s informers ≡ some informer
      → has t informers ≡ (s == t || has t informers)
  here_already t s informers informer e = ground arith

  informer_for-asked :
      (t s : Text) (new_func : L.Client → L.Duration → L.Informer) (f : Factory L)
      → has t (informer_for L s new_func f).1.informers ≡ (s == t || has t f.informers)
  unfolding informer_for
  informer_for-asked t s new_func f = elim (Option-cases (lookup s f.informers)) [
    | inr (informer, e) ↦ rw (e, informer_for) (here_already t s f.informers informer e)
    | inl e ↦ rw (e, informer_for) (has-insert t s _ f.informers)
  ]

  run_calls-asked :
      (t : Text) (calls : List (Call L)) (f : Factory L)
      → has t (run_calls L calls f).1.informers ≡ (asked t calls || has t f.informers)
  unfolding start
  run_calls-asked t [] f = refl
  run_calls-asked t (call_start ∷ calls) f = run_calls-asked t calls (start L f).1
  run_calls-asked t (call_informer_for s new_func ∷ calls) f = ground (
    arith,
    run_calls-asked t calls (informer_for L s new_func f).1,
    informer_for-asked t s new_func f,
  )

  started_only_lem :
      (t : Text) (informers : Dict Text L.Informer) (started : Dict Text Bool)
      (found : Dict Text L.Informer)
      → has t (started_only L informers started found)
        ≡ ((has t informers && is_started L t started) || has t found)
  unfolding started_only
  started_only_lem t [] started found = ground (arith, lookup-nil {V = L.Informer} t)
  started_only_lem t ((s, informer) ∷ informers) started found = ground (
    arith,
    lookup-cons t s informer informers,
    lookup-insert t s informer found,
    started_only_lem t informers started found,
    started_only_lem t informers started (insert s informer found),
  )

  module _ {W : Type 0} (wait : L.Informer → W → Bool × W) where
    has-wait_loop :
        (t : Text) (informers : Dict Text L.Informer) (res : Dict Text Bool) (w : W)
        → has t (wait_loop L wait informers res w).0 ≡ (has t informers || has t res)
    unfolding wait_loop
    has-wait_loop t [] res w = ground (arith, lookup-nil {V = L.Informer} t)
    has-wait_loop t ((s, informer) ∷ informers) res w = ground (
      arith,
      lookup-cons t s informer informers,
      lookup-insert t s (wait informer w).0 res,
      has-wait_loop t informers (insert s (wait informer w).0 res) (wait informer w).1,
    )

    -- Let a factory with no informers get any calls and then `Start`. `WaitForCacheSync` then waits
    -- for a type exactly if some call has asked for the informer of that type.
    pub waits_for_all :
        (calls : List (Call L)) (f : Factory L) (t : Text) (w : W)
        → f.informers ≡ []
        → f.started_informers ≡ []
        → let g = (start L (run_calls L calls f).1).1 in
          has t (wait_for_cache_sync L wait g w).0 ≡ asked t calls
    unfolding wait_for_cache_sync start
    waits_for_all calls f t w no_informers none_started =
        let s = run_calls L calls f in
        let v = run_calls-Agrees L calls [] f (fresh-Agrees L f no_informers none_started) in
        let g = (start L s.1).1 in
        ground (
          arith,
          has-wait_loop t (started_only L g.informers g.started_informers []) [] w,
          started_only_lem t g.informers g.started_informers [],
          start_starts L s.0 s.1 t v,
          run_calls-asked t calls f,
          lookup-nil {V = Bool} t,
          lookup-nil {V = L.Informer} t,
        )
