-- ===== src/Base/Dict.antt =====
-- Go maps: lists of entries in the order that a `range` over the map happens to take. Go fixes no
-- such order, so what is proved ranges over every list that holds the entries.
pub mod DeepEqual
use mathlib.Core.Path.{◌≡◌, refl}
use mathlib.Core.Bool.{Bool, true, false}
use mathlib.Core.Option.{Option, none, some}
use mathlib.Core.List.{List, [], ◌∷◌}
use native.Mathlib.Omega.{arith}
use lvs_nginx_controller.Base.Equality.{Eq, ◌==◌, contains, if◌then◌else◌}

abbrev pub Dict {ℓ κ} : Type ℓ → Type κ → Type (ℓ ⊔ κ)
Dict K V = List (K × V)

abbrev pub keys {ℓ κ} : {K : Type ℓ} {V : Type κ} → Dict K V → List K
keys [] = []
keys ((k, v) ∷ d) = k ∷ keys d

module _ {ℓ κ} {K : Type ℓ} {V : Type κ} ⦃e : Eq K⦄ where
  -- `v, ok := d[k]`
  unfoldable pub lookup : K → Dict K V → Option V
  lookup j [] = none
  lookup j ((k, v) ∷ d) = if j == k then some v else lookup j d

  -- the test of `if _, ok := d[k]; ok`
  abbrev pub has : K → Dict K V → Bool
  has k d = elim (lookup k d) [ none ↦ false | some v ↦ true ]

  -- `d[k] = v`
  unfoldable pub insert : K → V → Dict K V → Dict K V
  insert k v [] = (k, v) ∷ []
  insert k v ((j, w) ∷ d) = if k == j then (k, v) ∷ d else (j, w) ∷ insert k v d

  -- `delete(d, k)`
  unfoldable pub erase : K → Dict K V → Dict K V
  erase k [] = []
  erase k ((j, w) ∷ d) = let rest = erase k d in if k == j then rest else (j, w) ∷ rest

  -- `for k := range ks { delete(d, k) }`
  unfoldable pub erase_all : List K → Dict K V → Dict K V
  unfolding erase
  erase_all [] d = d
  erase_all (k ∷ ks) d = erase_all ks (erase k d)

  -- `for k := range d { delete(d, k) }`
  unfoldable pub clear : Dict K V → Dict K V
  unfolding erase_all
  clear d = erase_all (keys d) d

  abbrev pub NodupKeys : Dict K V → Type κ
  NodupKeys [] = Unit
  NodupKeys ((k, _) ∷ d) = (lookup k d ≡ none) × NodupKeys d

  pub lookup-nil : (k : K) → lookup k [] ≡ none
  unfolding lookup
  lookup-nil k = refl

  pub lookup-cons :
      (j k : K) (v : V) (d : Dict K V)
      → lookup j ((k, v) ∷ d) ≡ (if j == k then some v else lookup j d)
  unfolding lookup
  lookup-cons j k v d = refl

  pub lookup-insert :
      (j k : K) (v : V) (d : Dict K V)
      → lookup j (insert k v d) ≡ (if j == k then some v else lookup j d)
  unfolding insert lookup
  lookup-insert j k v [] = refl
  lookup-insert j k v (_ ∷ d) = ground (arith, lookup-insert j k v d)

  pub lookup-erase :
      (j k : K) (d : Dict K V) → lookup j (erase k d) ≡ (if j == k then none else lookup j d)
  unfolding erase lookup
  lookup-erase j k [] = ground arith
  lookup-erase j k (_ ∷ d) = ground (arith, lookup-erase j k d)

  pub lookup-erase_all :
      (j : K) (ks : List K) (d : Dict K V)
      → lookup j (erase_all ks d) ≡ (if contains ks j then none else lookup j d)
  unfolding erase_all
  lookup-erase_all j [] d = refl
  lookup-erase_all j (k ∷ ks) d =
      ground (arith, lookup-erase_all j ks (erase k d), lookup-erase j k d)

  pub contains-keys : (d : Dict K V) (k : K) → contains (keys d) k ≡ has k d
  unfolding lookup
  contains-keys [] k = refl
  contains-keys (_ ∷ d) k = ground (arith, contains-keys d k)

  erase_all-nil : (ks : List K) → erase_all ks [] ≡ []
  unfolding erase_all
  erase_all-nil [] = refl
  erase_all-nil (k ∷ ks) = erase_all-nil ks

  -- A map without a key is empty.
  pub eq-nil_of_lookup : (d : Dict K V) → ((k : K) → lookup k d ≡ none) → d ≡ []
  unfolding lookup
  eq-nil_of_lookup [] h = refl
  eq-nil_of_lookup ((k, v) ∷ d) h = ground (arith, h k)

  pub lookup-clear : (j : K) (d : Dict K V) → lookup j (clear d) ≡ none
  unfolding clear
  lookup-clear j d = ground (arith, lookup-erase_all j (keys d) d, contains-keys d j)

  -- The loop that deletes each key of the map that it ranges over empties it.
  pub clear-eq-nil : (d : Dict K V) → clear d ≡ []
  clear-eq-nil d = eq-nil_of_lookup (clear d) (λ k. lookup-clear k d)

  pub insert-NodupKeys : (k : K) (v : V) (d : Dict K V) → NodupKeys d → NodupKeys (insert k v d)
  unfolding insert
  insert-NodupKeys k v [] _ = (lookup-nil k, tt)
  insert-NodupKeys k v ((j, _) ∷ d) (fresh, u) =
      ground (arith, insert-NodupKeys k v d u, lookup-insert j k v d)

  pub erase-NodupKeys : (k : K) (d : Dict K V) → NodupKeys d → NodupKeys (erase k d)
  unfolding erase
  erase-NodupKeys k [] _ = tt
  erase-NodupKeys k ((j, _) ∷ d) (fresh, u) =
      ground (arith, erase-NodupKeys k d u, lookup-erase j k d)

  pub erase_all-NodupKeys : (ks : List K) (d : Dict K V) → NodupKeys d → NodupKeys (erase_all ks d)
  unfolding erase_all
  erase_all-NodupKeys [] d u = u
  erase_all-NodupKeys (k ∷ ks) d u = erase_all-NodupKeys ks (erase k d) (erase-NodupKeys k d u)
