-- ===== src/Controller/Threads/Counts.antt =====
-- Lists in which one element is replaced, and sums over lists.
use mathlib.Core.Path.{subst}
use lvs_nginx_controller.Base.{
  ℕ, ◌+◌, ◌≡◌, ◌≤◌, refl, Bool, true, List, [], ◌∷◌, ◌++◌, if◌then◌else◌, arith, length, ◌⊎◌, inl,
  inr, Bool-cases,
}

module _ {A : Type 0} where
  -- The second list is the first with one `a` replaced by a `b`.
  pub data Replaced (a b : A) : List A → List A → Type 0 where
    first : {xs : List A} → Replaced a b (a ∷ xs) (b ∷ xs)
    later : {x : A} {xs ys : List A} → Replaced a b xs ys → Replaced a b (x ∷ xs) (x ∷ ys)

  abbrev pub total : (A → ℕ) → List A → ℕ
  total w [] = 0
  total w (x ∷ xs) = w x + total w xs

  pub total-Replaced :
      (w : A → ℕ) {a b : A} {xs ys : List A}
      → Replaced a b xs ys
      → total w ys + w a ≡ total w xs + w b
  total-Replaced w first = omega arith
  total-Replaced w (later r) = omega (arith, total-Replaced w r)

  pub length-Replaced : {a b : A} {xs ys : List A} → Replaced a b xs ys → length ys ≡ length xs
  length-Replaced first = refl
  length-Replaced (later r) = omega (arith, length-Replaced r)

  pub total-append : (w : A → ℕ) (xs ys : List A) → total w (xs ++ ys) ≡ total w xs + total w ys
  total-append w [] ys = omega arith
  total-append w (x ∷ xs) ys = omega (arith, total-append w xs ys)

  -- The number of elements that pass a test.
  abbrev pub count : (A → Bool) → List A → ℕ
  count test = total (λ x. if test x then 1 else 0)

  pub count-le-length : (test : A → Bool) (xs : List A) → count test xs ≤ length xs
  count-le-length test [] = omega arith
  count-le-length test (x ∷ xs) = ground (arith, count-le-length test xs)

  -- An element that passes a test, and the list with any other in its place.
  abbrev pub Found : (A → Bool) → List A → Type 0
  Found test xs = (a : A) × (test a ≡ true) × ((b : A) → (ys : List A) × Replaced a b xs ys)

  pub find : (test : A → Bool) (xs : List A) → Found test xs ⊎ (count test xs ≡ 0)
  find test [] = inr refl
  find test (x ∷ xs) = elim (Bool-cases (test x)) [
    | inl e ↦ inl (x, e, λ b. (b ∷ xs, first))
    | inr e ↦ elim (find test xs) [
      | inl (a, passes, at) ↦ inl (a, passes, λ b. (x ∷ (at b).0, later (at b).1))
      | inr zero_rest ↦ inr (rw e (omega (arith, zero_rest)))
    ]
  ]

  pub Replaced-cong :
      {a a' b : A} {xs ys : List A} → a ≡ a' → Replaced a b xs ys → Replaced a' b xs ys
  Replaced-cong {b = b} {xs = xs} {ys = ys} e r = subst (λ x. Replaced x b xs ys) e r
