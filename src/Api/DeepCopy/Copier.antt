-- ===== src/Api/DeepCopy/Copier.antt =====
-- What a deep copy is: it allocates, leaves what is there, reads as its original, and shares no
-- address with it. Copiers of two things make one of both.
use lvs_nginx_controller.Base.{ℕ, ◌≤◌, ◌<◌, ◌≡◌, refl, ◌∙◌, arith}
use lvs_nginx_controller.Api.{Meta, Heap}
use lvs_nginx_controller.Api.DeepCopy.{Copy}

module _ (M : Meta) where
  -- Two heaps hold the same at the addresses from `lo` up to `hi`.
  abbrev pub Agree : ℕ → ℕ → Heap M → Heap M → Type 0
  Agree lo hi h h' = (a : ℕ) → lo ≤ a → a < hi → h'.arrays a ≡ h.arrays a

  pub Agree-refl : (lo hi : ℕ) (h : Heap M) → Agree lo hi h h
  Agree-refl lo hi h a l u = refl

  -- Agreement passes on, over the smaller of two ranges.
  pub Agree-trans :
      (lo hi lo' hi' : ℕ) (h h' h'' : Heap M)
      → lo ≤ lo'
      → hi' ≤ hi
      → Agree lo hi h h'
      → Agree lo' hi' h' h''
      → Agree lo' hi' h h''
  Agree-trans lo hi lo' hi' h h' h'' p q v w a l u = w a l u ∙ v a (omega arith) (omega arith)

  pub Agree-sub :
      (lo hi lo' hi' : ℕ) (h h' : Heap M)
      → lo ≤ lo'
      → hi' ≤ hi
      → Agree lo hi h h'
      → Agree lo' hi' h h'
  Agree-sub lo hi lo' hi' h h' p q v a l u = v a (omega arith) (omega arith)

  -- A type, what its values read as, and where the addresses lie that a value refers to.
  pub record View (A : Type 0) : Type 1 where
    pub Value : Type 0
    pub value : Heap M → A → Value
    pub Within : ℕ → ℕ → Heap M → A → Type 0

  module _ {A : Type 0} (view : View A) where
    -- `y` in `h'` is a deep copy of `x` in `h`.
    pub record Copied (x : A) (h : Heap M) (y : A) (h' : Heap M) : Type 0 where
      pub same : view.value h' y ≡ view.value h x
      pub fresh : view.Within h.next h'.next h' y
      pub kept : Agree 0 h.next h h'
      pub grown : h.next ≤ h'.next

    -- A copy function makes deep copies of this value.
    abbrev pub CopiesAt : Copy M A → A → Type 0
    CopiesAt copy x =
        (h : Heap M) (hi : ℕ)
        → hi ≤ h.next
        → view.Within 0 hi h x
        → Copied x h (copy x h).0 (copy x h).1

    pub record IsFramed : Type 0 where
      -- A value depends on the addresses that it refers to, and on no other.
      pub framed :
          (x : A) (lo hi : ℕ) (h h' : Heap M)
          → view.Within lo hi h x
          → Agree lo hi h h'
          → (view.value h' x ≡ view.value h x) × view.Within lo hi h' x
      pub widened :
          (x : A) (lo hi lo' hi' : ℕ) (h : Heap M)
          → lo' ≤ lo
          → hi ≤ hi'
          → view.Within lo hi h x
          → view.Within lo' hi' h x

    -- The laws of a copy function.
    pub record IsCopier (copy : Copy M A) : Type 0 where
      pub frame : IsFramed
      pub copies : (x : A) → CopiesAt copy x

  -- Copies of `x` and then of `y` are a copy of both.
  module _ {A B : Type 0} (v : View A) (w : View B) where
    abbrev pub pair_view : View (A × B)
    pair_view = record {
      Value = v.Value × w.Value;
      value = λ h x. (v.value h x.0, w.value h x.1);
      Within = λ lo hi h x. v.Within lo hi h x.0 × w.Within lo hi h x.1;
    }

    module _ (f : Copy M A) (g : Copy M B) where
      abbrev pub pair_copy : Copy M (A × B)
      pair_copy x h = let (a, h₁) = f x.0 h in let (b, h₂) = g x.1 h₁ in ((a, b), h₂)

      module _ (F : IsFramed v) (G : IsFramed w) where
        pub pair_copies :
            (x : A × B) → CopiesAt v f x.0 → CopiesAt w g x.1 → CopiesAt pair_view pair_copy x
        pair_copies x copy_first copy_second h hi below inside = record {
          same = λ i. (kept.0 i, (second.same ∙ moved.0) i);
          fresh = (
            F.widened _ _ _ _ _ _ (omega (arith, first.grown, second.grown))
                (omega (arith, first.grown, second.grown)) kept.1,
            G.widened _ _ _ _ _ _ (omega (arith, first.grown, second.grown))
                (omega (arith, first.grown, second.grown)) second.fresh,
          );
          kept =
              Agree-trans 0 h.next 0 h.next h h₁ h₂ (omega (arith, first.grown, second.grown))
                (omega (arith, first.grown, second.grown)) first.kept
                (Agree-sub 0 h₁.next 0 h.next h₁ h₂ (omega (arith, first.grown, second.grown))
                  (omega (arith, first.grown, second.grown)) second.kept);
          grown = omega (arith, first.grown, second.grown);
        }
          where
            h₁ : Heap M
            h₁ = (f x.0 h).1

            h₂ : Heap M
            h₂ = (g x.1 h₁).1

            first : Copied v x.0 h (f x.0 h).0 h₁
            first = copy_first h hi below inside.0

            moved : (w.value h₁ x.1 ≡ w.value h x.1) × w.Within 0 hi h₁ x.1
            moved =
                G.framed x.1 0 hi h h₁ inside.1
                  (Agree-sub 0 h.next 0 hi h h₁ (omega arith) below first.kept)

            second : Copied w x.1 h₁ (g x.1 h₁).0 h₂
            second = copy_second h₁ hi (omega (arith, first.grown)) moved.1

            kept : (v.value h₂ (f x.0 h).0 ≡ v.value h x.0) × v.Within h.next h₁.next h₂ (f x.0 h).0
            kept =
                let r = F.framed (f x.0 h).0 h.next h₁.next h₁ h₂ first.fresh (
                  Agree-sub 0 h₁.next h.next h₁.next h₁ h₂ (omega arith) (omega arith)
                    second.kept) in
                (r.0 ∙ first.same, r.1)

        pub pair-IsFramed : IsFramed pair_view
        pair-IsFramed = record {
          framed = λ x lo hi h h' inside same.
              let a = F.framed x.0 lo hi h h' inside.0 same in
              let b = G.framed x.1 lo hi h h' inside.1 same in ((λ i. (a.0 i, b.0 i)), (a.1, b.1));
          widened = λ x lo hi lo' hi' h p q inside. (
            F.widened x.0 lo hi lo' hi' h p q inside.0,
            G.widened x.1 lo hi lo' hi' h p q inside.1,
          );
        }

      pub pair-IsCopier : IsCopier v f → IsCopier w g → IsCopier pair_view pair_copy
      pair-IsCopier F G = record {
        frame = pair-IsFramed F.frame G.frame;
        copies = λ x. pair_copies F.frame G.frame x (F.copies x.0) (G.copies x.1);
      }
