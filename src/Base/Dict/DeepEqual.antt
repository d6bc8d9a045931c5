-- ===== src/Base/Dict/DeepEqual.antt =====
-- `reflect.DeepEqual` on two maps: as many entries, and each entry of the one in the other.
use lvs_nginx_controller.Base.Equality.{Eq, ◌==◌, Option-cases, nat_eq}
use lvs_nginx_controller.Base.Lists.{length}
use lvs_nginx_controller.Base.Dict.{
  Dict, lookup, erase, NodupKeys, lookup-cons, lookup-erase, erase-NodupKeys,
}
use Prim.Native.Nat.{◌+◌, ◌≤◌}
use mathlib.Core.Path.{◌≡◌, refl, sym, ◌∙◌}
use mathlib.Core.Logic.{inl, inr}
use mathlib.Core.Bool.{Bool, true, false, ◌&&◌}
use mathlib.Core.Option.{Option, none, some}
use mathlib.Core.List.{[], ◌∷◌}
use native.Mathlib.Omega.{arith}

abbrev pub holds {κ} : {V : Type κ} ⦃v : Eq V⦄ → Option V → V → Bool
holds none x = false
holds (some y) x = x == y

module _ {ℓ κ} {K : Type ℓ} {V : Type κ} ⦃e : Eq K⦄ ⦃v : Eq V⦄ where
  unfoldable pub all_in : Dict K V → Dict K V → Bool
  all_in [] b = true
  all_in ((k, x) ∷ a) b = holds (lookup k b) x && all_in a b

  unfoldable pub deep_equal : Dict K V → Dict K V → Bool
  unfolding all_in
  deep_equal a b = length a == length b && all_in a b

  -- The two maps give the same value, or none, at every key.
  abbrev pub Same : Dict K V → Dict K V → Type (ℓ ⊔ κ)
  Same a b = (k : K) → lookup k a ≡ lookup k b

  erase_absent : (k : K) (d : Dict K V) → lookup k d ≡ none → erase k d ≡ d
  unfolding erase lookup
  erase_absent k [] h = refl
  erase_absent k ((j, w) ∷ d) h = ground (arith, erase_absent k d)

  length-erase :
      (k : K) (x : V) (d : Dict K V)
      → NodupKeys d
      → lookup k d ≡ some x
      → length (erase k d) + 1 ≡ length d
  unfolding erase lookup
  length-erase k x [] u h = cc
  length-erase k x ((j, w) ∷ d) (fresh, u) h =
      ground (arith, length-erase k x d u, erase_absent j d fresh)

  -- A map whose entries all stand in another has no more of them.
  length_le :
      (a b : Dict K V)
      → NodupKeys a
      → NodupKeys b
      → ((k : K) (x : V) → lookup k a ≡ some x → lookup k b ≡ some x)
      → length a ≤ length b
  length_le [] b _ _ h = omega arith
  length_le ((k, x) ∷ a) b (fresh, u) w h =
      omega (
        arith,
        length-erase k x b w found,
        length_le a (erase k b) u (erase-NodupKeys k b w) inside,
      )
    where
      found : lookup k b ≡ some x
      found = h k x (ground (arith, lookup-cons k k x a))

      inside : (j : K) (y : V) → lookup j a ≡ some y → lookup j (erase k b) ≡ some y
      inside j y p = ground (arith, lookup-cons j k x a, lookup-erase j k b, h j y)

  all_in→ :
      (a b : Dict K V)
      → all_in a b ≡ true
      → (k : K) (x : V) → lookup k a ≡ some x
      → lookup k b ≡ some x
  unfolding all_in lookup
  all_in→ [] b h k x p = cc
  all_in→ ((j, y) ∷ a) b h k x p = ground (arith, all_in→ a b (ground arith) k x)

  →all_in :
      (a b : Dict K V)
      → NodupKeys a
      → ((k : K) (x : V) → lookup k a ≡ some x → lookup k b ≡ some x)
      → all_in a b ≡ true
  unfolding all_in
  →all_in [] b u h = refl
  →all_in ((j, y) ∷ a) b (fresh, u) h = ground (
    arith,
    h j y,
    lookup-cons j j y a,
    →all_in a b u (λ k x p. h k x (ground (arith, lookup-cons k j y a))),
  )

  missing :
      (a b : Dict K V) (k : K) (x : V)
      → NodupKeys a
      → NodupKeys b
      → ((j : K) (y : V) → lookup j a ≡ some y → lookup j b ≡ some y)
      → length a ≡ length b
      → lookup k a ≡ none
      → lookup k b ≡ some x
      → ⊥
  missing a b k x u w h n absent found = omega (
    arith,
    length-erase k x b w found,
    length_le a (erase k b) u (erase-NodupKeys k b w)
        (λ j y p. ground (arith, lookup-erase j k b, h j y)),
  )

  pub deep_equal→Same :
      (a b : Dict K V) → NodupKeys a → NodupKeys b → deep_equal a b ≡ true → Same a b
  unfolding deep_equal
  deep_equal→Same a b u w h k = elim (Option-cases (lookup k a)) [
    | inr (x, p) ↦ p ∙ sym (all_in→ a b (ground arith) k x p)
    | inl p ↦ elim (Option-cases (lookup k b)) [
      | inl q ↦ p ∙ sym q
      | inr (x, q) ↦ absurd (missing a b k x u w (all_in→ a b (ground arith)) (ground arith) p q)
    ]
  ]

  pub Same→deep_equal :
      (a b : Dict K V) → NodupKeys a → NodupKeys b → Same a b → deep_equal a b ≡ true
  unfolding deep_equal
  Same→deep_equal a b u w h = ground (arith, all, same_length)
    where
      ab : (k : K) (x : V) → lookup k a ≡ some x → lookup k b ≡ some x
      ab k x p = sym (h k) ∙ p

      all : all_in a b ≡ true
      all = →all_in a b u ab

      same_length : length a ≡ length b
      same_length = omega (arith, length_le a b u w ab, length_le b a w u (λ k x p. h k ∙ p))
