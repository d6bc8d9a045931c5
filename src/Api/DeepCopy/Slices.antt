-- ===== src/Api/DeepCopy/Slices.antt =====
-- The copies of arrays: `copy_slice` copies as deep as the copy function of the elements.
use mathlib.Core.Path.{subst}
use lvs_nginx_controller.Base.{
  ℕ, suc, ◌≤◌, ◌<◌, ◌≡◌, refl, sym, ◌∙◌, ap, arith, Option, none, some, List, [], ◌∷◌, map, ◌⊎◌,
  inl, inr, All, nat_eq,
}
use lvs_nginx_controller.Api.{Meta, Slice, Arrays, Heap}
use lvs_nginx_controller.Api.DeepCopy.{
  Copy, Region, read, write, reserve, copy_elements, copy_slice,
}
use lvs_nginx_controller.Api.DeepCopy.Copier.{
  Agree, Agree-refl, Agree-trans, Agree-sub, View, Copied, CopiesAt, IsFramed, IsCopier,
  pair_copies,
}

module _ (M : Meta) where
  -- An array that is set is the array that is got.
  abbrev pub IsRegion : {A : Type 0} → Region M A → Type 0
  IsRegion {A} region = (xs : List A) (b : Arrays M) → region.get (region.set xs b) ≡ xs

  write-Agree :
      {A : Type 0} (region : Region M A) (a : ℕ) (xs : List A) (h : Heap M) (lo hi : ℕ)
      → (hi ≤ a) ⊎ (a < lo)
      → Agree M lo hi h (write M region a xs h)
  write-Agree region a xs h lo hi away b l u = ground arith

  read-write :
      {A : Type 0} (region : Region M A) (R : IsRegion region) (a : ℕ) (xs : List A) (h : Heap M)
      → read M region (write M region a xs h) a ≡ xs
  read-write region R a xs h = ground (arith, R xs (h.arrays a))

  module _ {A : Type 0} (v : View M A) where
    abbrev pub list_view : View M (List A)
    list_view = record {
      Value = List v.Value;
      value = λ h xs. map (v.value h) xs;
      Within = λ lo hi h xs. All (v.Within lo hi h) xs;
    }

    module _ (F : IsFramed M v) where
      list-framed :
          (xs : List A) (lo hi : ℕ) (h h' : Heap M)
          → list_view.Within lo hi h xs
          → Agree M lo hi h h'
          → (list_view.value h' xs ≡ list_view.value h xs) × list_view.Within lo hi h' xs
      list-framed [] lo hi h h' inside same = (refl, tt)
      list-framed (x ∷ xs) lo hi h h' inside same =
          let a = F.framed x lo hi h h' inside.0 same in
          let b = list-framed xs lo hi h h' inside.1 same in ((λ i. a.0 i ∷ b.0 i), (a.1, b.1))

      list-widened :
          (xs : List A) (lo hi lo' hi' : ℕ) (h : Heap M)
          → lo' ≤ lo
          → hi ≤ hi'
          → list_view.Within lo hi h xs
          → list_view.Within lo' hi' h xs
      list-widened [] lo hi lo' hi' h p q inside = tt
      list-widened (x ∷ xs) lo hi lo' hi' h p q inside =
          (F.widened x lo hi lo' hi' h p q inside.0, list-widened xs lo hi lo' hi' h p q inside.1)

      pub list-IsFramed : IsFramed M list_view
      list-IsFramed = record { framed = list-framed; widened = list-widened }

    module _ (copy : Copy M A) (F : IsCopier M v copy) where
      elements_copied : (xs : List A) → CopiesAt M list_view (copy_elements M copy) xs
      elements_copied [] h hi below inside = record {
        same = refl;
        fresh = tt;
        kept = Agree-refl M 0 h.next h;
        grown = omega arith;
      }
      elements_copied (x ∷ xs) h hi below inside =
          let r =
            pair_copies M v list_view copy (copy_elements M copy) F.frame (list-IsFramed F.frame)
              (x, xs) (F.copies x) (elements_copied xs) h hi below inside in
          record {
            same = λ i. (r.same i).0 ∷ (r.same i).1;
            fresh = r.fresh;
            kept = r.kept;
            grown = r.grown;
          }

  reserve-Agree : (lo hi : ℕ) (h : Heap M) → Agree M lo hi h (reserve M h)
  reserve-Agree lo hi h a l u = refl

  module _ {A : Type 0} (region : Region M A) (v : View M A) where
    abbrev slice_value : Heap M → Slice → Option (List v.Value)
    slice_value h none = none
    slice_value h (some a) = some (map (v.value h) (read M region h a))

    abbrev SliceWithin : ℕ → ℕ → Heap M → Slice → Type 0
    SliceWithin lo hi h none = Unit
    SliceWithin lo hi h (some a) = (lo ≤ a) × (a < hi) × All (v.Within lo hi h) (read M region h a)

    abbrev pub slice_view : View M Slice
    slice_view = record { Value = Option (List v.Value); value = slice_value; Within = SliceWithin }

    module _ (R : IsRegion region) where
      slice-framed :
          (F : IsFramed M v) (s : Slice) (lo hi : ℕ) (h h' : Heap M)
          → SliceWithin lo hi h s
          → Agree M lo hi h h'
          → (slice_value h' s ≡ slice_value h s) × SliceWithin lo hi h' s
      slice-framed F none lo hi h h' inside same = (refl, tt)
      slice-framed F (some a) lo hi h h' (l, u, inside) same =
          let e = ap region.get (same a l u) in
          let r = (list-IsFramed v F).framed (read M region h a) lo hi h h' inside same in
          (
            ap some (ap (map (v.value h')) e ∙ r.0),
            (l, u, subst (All (v.Within lo hi h')) (sym e) r.1),
          )

      slice-widened :
          (F : IsFramed M v) (s : Slice) (lo hi lo' hi' : ℕ) (h : Heap M)
          → lo' ≤ lo
          → hi ≤ hi'
          → SliceWithin lo hi h s
          → SliceWithin lo' hi' h s
      slice-widened F none lo hi lo' hi' h p q inside = tt
      slice-widened F (some a) lo hi lo' hi' h p q (l, u, inside) = (
        omega arith,
        omega arith,
        (list-IsFramed v F).widened (read M region h a) lo hi lo' hi' h p q inside,
      )

      module _ (copy : Copy M A) (F : IsCopier M v copy) where
        slice_copied : (s : Slice) → CopiesAt M slice_view (copy_slice M region copy) s
        slice_copied none h hi below inside = record {
          same = refl;
          fresh = tt;
          kept = Agree-refl M 0 h.next h;
          grown = omega arith;
        }
        slice_copied (some a) h hi below (l, u, inside) = record {
          same = ap some (ap (map (v.value h₂)) stored ∙ moved.0 ∙ r.same ∙ before.0);
          fresh = (
            omega arith,
            omega (arith, r.grown),
            subst (All (v.Within h.next h₂.next h₂)) (sym stored) (
                (list-IsFramed v F.frame).widened ys _ h₁.next h.next h₂.next h₂ (omega arith)
                  (omega arith) moved.1),
          );
          kept =
              Agree-trans M 0 h.next 0 h.next h h₁ h₂ (omega arith) (omega arith)
                (Agree-trans M 0 h.next 0 h.next h (reserve M h) h₁ (omega arith) (omega arith)
                  (reserve-Agree 0 h.next h)
                  (Agree-sub M 0 (suc h.next) 0 h.next (reserve M h) h₁ (omega arith) (omega arith)
                    r.kept))
                (write-Agree region h.next ys h₁ 0 h.next (inl (omega arith)));
          grown = omega (arith, r.grown);
        }
          where
            ys : List A
            ys = (copy_elements M copy (read M region h a) (reserve M h)).0

            h₁ : Heap M
            h₁ = (copy_elements M copy (read M region h a) (reserve M h)).1

            h₂ : Heap M
            h₂ = write M region h.next ys h₁

            stored : read M region h₂ h.next ≡ ys
            stored = read-write region R h.next ys h₁

            before :
                (map (v.value (reserve M h)) (read M region h a)
                  ≡ map (v.value h) (read M region h a))
                × All (v.Within 0 hi (reserve M h)) (read M region h a)
            before =
                (list-IsFramed v F.frame).framed (read M region h a) 0 hi h (reserve M h) inside
                  (reserve-Agree 0 hi h)

            r : Copied M (list_view v) (read M region h a) (reserve M h) ys h₁
            r = elements_copied v copy F (read M region h a) (reserve M h) hi (omega arith) before.1

            moved :
                (map (v.value h₂) ys ≡ map (v.value h₁) ys)
                × All (v.Within (suc h.next) h₁.next h₂) ys
            moved =
                (list-IsFramed v F.frame).framed ys (suc h.next) h₁.next h₁ h₂ r.fresh
                  (write-Agree region h.next ys h₁ (suc h.next) h₁.next (inr (omega arith)))

        pub slice-IsCopier : IsCopier M slice_view (copy_slice M region copy)
        slice-IsCopier = record {
          frame = record { framed = slice-framed F.frame; widened = slice-widened F.frame };
          copies = slice_copied;
        }
