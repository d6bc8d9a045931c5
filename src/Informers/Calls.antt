-- ===== src/Informers/Calls.antt =====
-- What any sequence of calls of the factory does: each informer is made once and started once.
use mathlib.Core.List.{append-nil, append_assoc}
use lvs_nginx_controller.Base.{
  ℕ, ◌+◌, ◌≡◌, refl, Bool, true, not, ◌&&◌, ◌||◌, Option, none, some, List, [], ◌∷◌, ◌++◌, ◌==◌,
  if◌then◌else◌, nat_eq, list_eq, arith, Option-cases, inl, inr,
}
use lvs_nginx_controller.Base.Text.{Text}
use lvs_nginx_controller.Base.Dict.{
  Dict, lookup, has, insert, NodupKeys, lookup-nil, lookup-cons, lookup-insert, insert-NodupKeys,
}
use lvs_nginx_controller.Informers.{
  Library, Factory, Event, created, launched, is_started, start_loop, start, informer_for,
}

module _ (L : Library) where
  pub data Call : Type 0 where
    call_start : Call
    call_informer_for : Text → (L.Client → L.Duration → L.Informer) → Call

  -- The calls one after the other: all that they do besides, and the factory that they leave.
  abbrev pub run_calls : List Call → Factory L → List (Event L) × Factory L
  run_calls [] f = ([], f)
  run_calls (call_start ∷ calls) f =
      let (events, f₁) = start L f in let (more, f₂) = run_calls calls f₁ in (events ++ more, f₂)
  run_calls (call_informer_for t new_func ∷ calls) f =
      let ((informer, events), f₁) = informer_for L t new_func f in
      let (more, f₂) = run_calls calls f₁ in (events ++ more, f₂)

  -- How often an informer of the type was made.
  abbrev pub creations : Text → List (Event L) → ℕ
  creations t [] = 0
  creations t (created s resync ∷ events) = (if s == t then 1 else 0) + creations t events
  creations t (launched s informer ∷ events) = creations t events

  -- How often an informer of the type was started.
  abbrev pub launches : Text → List (Event L) → ℕ
  launches t [] = 0
  launches t (created s resync ∷ events) = launches t events
  launches t (launched s informer ∷ events) = (if s == t then 1 else 0) + launches t events

  -- The first informer of the type that was started.
  abbrev pub first_launched : Text → List (Event L) → Option L.Informer
  first_launched t [] = none
  first_launched t (created s resync ∷ events) = first_launched t events
  first_launched t (launched s informer ∷ events) =
      if s == t then some informer else first_launched t events

  abbrev or_else : Option L.Informer → Option L.Informer → Option L.Informer
  or_else none o = o
  or_else (some i) o = some i

  creations-append :
      (t : Text) (a b : List (Event L)) → creations t (a ++ b) ≡ creations t a + creations t b
  creations-append t [] b = omega arith
  creations-append t (created s resync ∷ a) b = omega (arith, creations-append t a b)
  creations-append t (launched s informer ∷ a) b = creations-append t a b

  launches-append :
      (t : Text) (a b : List (Event L)) → launches t (a ++ b) ≡ launches t a + launches t b
  launches-append t [] b = omega arith
  launches-append t (created s resync ∷ a) b = launches-append t a b
  launches-append t (launched s informer ∷ a) b = omega (arith, launches-append t a b)

  first_launched-append :
      (t : Text) (a b : List (Event L))
      → first_launched t (a ++ b) ≡ or_else (first_launched t a) (first_launched t b)
  first_launched-append t [] b = refl
  first_launched-append t (created s resync ∷ a) b = first_launched-append t a b
  first_launched-append t (launched s informer ∷ a) b = ground (arith, first_launched-append t a b)

  -- What `Start` does for a type.
  start_loop_lem :
      (t : Text) (informers : Dict Text L.Informer) (started : Dict Text Bool)
      → NodupKeys informers
      → let r = start_loop L informers started in
        (creations t r.0 ≡ 0)
        × (launches t r.0 ≡ (if has t informers && not (is_started L t started) then 1 else 0))
        × (first_launched t r.0 ≡ (if is_started L t started then none else lookup t informers))
        × (is_started L t r.1 ≡ (has t informers || is_started L t started))
  unfolding start_loop is_started
  start_loop_lem t [] started u = ground (arith, lookup-nil {V = L.Informer} t)
  start_loop_lem t ((s, informer) ∷ informers) started (fresh, u) = ground (
    arith,
    lookup-cons t s informer informers,
    lookup-insert t s true started,
    start_loop_lem t informers started u,
    start_loop_lem t informers (insert s true started) u,
  )

  -- What was done agrees with the maps of the factory: each informer was made once, each started
  -- type once, and with the informer that the factory has for it.
  pub record Agrees (events : List (Event L)) (f : Factory L) : Type 0 where
    pub unique : NodupKeys f.informers
    pub made : (t : Text) → creations t events ≡ (if has t f.informers then 1 else 0)
    pub ran : (t : Text) → launches t events ≡ (if is_started L t f.started_informers then 1 else 0)
    pub own :
        (t : Text)
        → first_launched t events
          ≡ (if is_started L t f.started_informers then lookup t f.informers else none)
    pub known : (t : Text) → is_started L t f.started_informers ≡ true → has t f.informers ≡ true

  pub start-Agrees :
      (events : List (Event L)) (f : Factory L)
      → Agrees events f
      → Agrees (events ++ (start L f).0) (start L f).1
  unfolding start
  start-Agrees events f v = record {
    unique = v.unique;
    made = λ t. ground (arith, v.made t, creations-append t events done, same t);
    ran = λ t. ground (arith, v.ran t, launches-append t events done, same t, v.known t);
    own = λ t. ground (arith, v.own t, first_launched-append t events done, same t, v.known t);
    known = λ t h. ground (arith, same t, v.known t);
  }
    where
      done : List (Event L)
      done = (start_loop L f.informers f.started_informers).0

      same :
          (t : Text)
          → let r = start_loop L f.informers f.started_informers in
            (creations t r.0 ≡ 0)
            × (launches t r.0
                ≡ (if has t f.informers && not (is_started L t f.started_informers) then 1 else 0))
            × (first_launched t r.0
                ≡ (if is_started L t f.started_informers then none else lookup t f.informers))
            × (is_started L t r.1 ≡ (has t f.informers || is_started L t f.started_informers))
      same t = start_loop_lem t f.informers f.started_informers v.unique

  created-Agrees :
      (t : Text) (resync : L.Duration) (informer : L.Informer) (events : List (Event L))
      (f : Factory L)
      → lookup t f.informers ≡ none
      → Agrees events f
      → Agrees
          (events ++ (created t resync ∷ []))
          (record f { informers = insert t informer f.informers })
  created-Agrees t resync informer events f e v = record {
    unique = insert-NodupKeys t informer f.informers v.unique;
    made = λ s. ground (
      arith,
      v.made s,
      creations-append s events (created t resync ∷ []),
      lookup-insert s t informer f.informers,
    );
    ran = λ s. ground (arith, v.ran s, launches-append s events (created t resync ∷ []));
    own = λ s. ground (
      arith,
      v.own s,
      v.known s,
      first_launched-append s events (created t resync ∷ []),
      lookup-insert s t informer f.informers,
    );
    known = λ s h. ground (arith, v.known s, lookup-insert s t informer f.informers);
  }

  informer_for-Agrees :
      (t : Text) (new_func : L.Client → L.Duration → L.Informer) (events : List (Event L))
      (f : Factory L)
      → Agrees events f
      → let r = informer_for L t new_func f in Agrees (events ++ r.0.1) r.1
  unfolding informer_for
  informer_for-Agrees t new_func events f v = elim (Option-cases (lookup t f.informers)) [
    | inr (informer, e) ↦ rw (e, informer_for, append-nil) v
    | inl e ↦ rw (e, informer_for) (created-Agrees t _ _ events f e v)
  ]

  pub run_calls-Agrees :
      (calls : List Call) (events : List (Event L)) (f : Factory L)
      → Agrees events f
      → let r = run_calls calls f in Agrees (events ++ r.0) r.1
  run_calls-Agrees [] events f v = rw append-nil v
  run_calls-Agrees (call_start ∷ calls) events f v =
      rw (← append_assoc) (run_calls-Agrees calls _ _ (start-Agrees events f v))
  run_calls-Agrees (call_informer_for t new_func ∷ calls) events f v =
      rw (← append_assoc) (run_calls-Agrees calls _ _ (informer_for-Agrees t new_func events f v))

  run_calls-start :
      (calls : List Call) (f : Factory L)
      → run_calls (calls ++ (call_start ∷ [])) f ≡ (
        (run_calls calls f).0 ++ (start L (run_calls calls f).1).0,
        (start L (run_calls calls f).1).1,
      )
  run_calls-start [] f = rw append-nil
  run_calls-start (call_start ∷ calls) f = rw (run_calls-start calls (start L f).1, append_assoc)
  run_calls-start (call_informer_for t new_func ∷ calls) f =
      rw (run_calls-start calls (informer_for L t new_func f).1, append_assoc)

  pub start_starts :
      (events : List (Event L)) (f : Factory L) (t : Text)
      → Agrees events f
      → is_started L t (start L f).1.started_informers ≡ has t (start L f).1.informers
  unfolding start
  start_starts events f t v =
      ground (arith, start_loop_lem t f.informers f.started_informers v.unique, v.known t)

  pub fresh-Agrees : (f : Factory L) → f.informers ≡ [] → f.started_informers ≡ [] → Agrees [] f
  unfolding is_started
  fresh-Agrees f no_informers none_started = record {
    unique = rw no_informers tt;
    made = λ t. ground (arith, lookup-nil {V = L.Informer} t);
    ran = λ t. ground (arith, lookup-nil {V = Bool} t);
    own = λ t. ground (arith, lookup-nil {V = Bool} t);
    known = λ t h. ground (arith, lookup-nil {V = Bool} t);
  }

  -- Let a factory with no informers get any calls and then `Start`. An informer was then made
  -- exactly once for each type that was asked for, started exactly once, and is the one that the
  -- factory has for the type.
  pub starts_once :
      (calls : List Call) (f : Factory L) (t : Text)
      → f.informers ≡ []
      → f.started_informers ≡ []
      → let r = run_calls (calls ++ (call_start ∷ [])) f in
        (creations t r.0 ≡ (if has t r.1.informers then 1 else 0))
        × (launches t r.0 ≡ (if has t r.1.informers then 1 else 0))
        × (first_launched t r.0 ≡ lookup t r.1.informers)
  starts_once calls f t no_informers none_started =
      let s = run_calls calls f in
      let v = run_calls-Agrees calls [] f (fresh-Agrees f no_informers none_started) in
      let w = start-Agrees s.0 s.1 v in
      let all = start_starts s.0 s.1 t v in
      rw (run_calls-start calls f)
        (w.made t, ground (arith, w.ran t, all), ground (arith, w.own t, all))
