-- ===== src/Api/DeepCopy/Independence.antt =====
-- What `DeepCopyObject` promises: the copy reads as the original, and neither sees what is written
-- to the other.
use lvs_nginx_controller.Base.{◌≤◌, ◌≡◌, ◌∙◌, arith, Option, some, none}
use lvs_nginx_controller.Api.{Meta, Heap}
use lvs_nginx_controller.Api.DeepCopy.{
  Copy, Object, configuration, configuration_list, configuration_deep_copy, list_deep_copy,
  configuration_deep_copy_object, list_deep_copy_object, configuration_deep_copy_into,
  list_deep_copy_into, deep_copy_object,
}
use lvs_nginx_controller.Api.DeepCopy.Copier.{Agree, View, IsCopier}
use lvs_nginx_controller.Api.DeepCopy.Structures.{
  list_view, list-IsCopier, configuration_view, configuration-IsCopier,
}

module _ (M : Meta) where
  -- `y` in the heap `h'` reads as `x` in `h`, and so do both whatever becomes of the other.
  pub record Independent {A : Type 0} (v : View M A) (x : A) (h : Heap M) (y : A) (h' : Heap M)
      : Type 0 where
    pub same : v.value h' y ≡ v.value h x
    pub original_kept : (g : Heap M) → Agree M 0 h.next h' g → v.value g x ≡ v.value h x
    pub copy_kept : (g : Heap M) → Agree M h.next h'.next h' g → v.value g y ≡ v.value h x
    pub grown : h.next ≤ h'.next

  Copied-Independent :
      {A : Type 0} (v : View M A) (copy : Copy M A) (F : IsCopier M v copy) (x : A) (h : Heap M)
      → v.Within 0 h.next h x
      → Independent v x h (copy x h).0 (copy x h).1
  Copied-Independent v copy F x h inside =
      let c = F.copies x h h.next (omega arith) inside in
      let old = F.frame.framed x 0 h.next h (copy x h).1 inside c.kept in
      record {
        same = c.same;
        original_kept = λ g e. (F.frame.framed x 0 h.next (copy x h).1 g old.1 e).0 ∙ old.0;
        copy_kept = λ g e.
            (F.frame.framed (copy x h).0 h.next (copy x h).1.next (copy x h).1 g c.fresh e).0
            ∙ c.same;
        grown = c.grown;
      }

  module _ (meta : View M M.ObjectMeta) (copy_meta : Copy M M.ObjectMeta)
      (F : IsCopier M meta copy_meta) where
    -- All that the object refers to is in the heap.
    abbrev pub Inside : Object M → Heap M → Type 0
    Inside (configuration x) h = (configuration_view M meta copy_meta F).Within 0 h.next h x
    Inside (configuration_list x) h = (list_view M meta copy_meta F).Within 0 h.next h x

    -- The second object is an independent copy of the first, of the same type.
    abbrev pub IsCopy : Object M → Heap M → Option (Object M) → Heap M → Type 0
    IsCopy x h none h' = ⊥
    IsCopy (configuration x) h (some (configuration y)) h' =
        Independent (configuration_view M meta copy_meta F) x h y h'
    IsCopy (configuration x) h (some (configuration_list y)) h' = ⊥
    IsCopy (configuration_list x) h (some (configuration y)) h' = ⊥
    IsCopy (configuration_list x) h (some (configuration_list y)) h' =
        Independent (list_view M meta copy_meta F) x h y h'

    -- Let `ObjectMeta.DeepCopyInto` make deep copies. `DeepCopyObject` of a configuration, or of a
    -- list of configurations, then returns an object of the same type that reads as the original
    -- through all its arrays. The copy reads so in every heap that keeps the addresses that the
    -- call has taken, whatever is written elsewhere, and the original in every heap that keeps the
    -- addresses that were taken before.
    pub deep_copy_object-Independent :
        (x : Object M) (h : Heap M)
        → Inside x h
        → let r = deep_copy_object M copy_meta x h in IsCopy x h r.0 r.1
    unfolding configuration_deep_copy_object list_deep_copy_object configuration_deep_copy
        list_deep_copy
    deep_copy_object-Independent (configuration x) h inside =
        Copied-Independent (configuration_view M meta copy_meta F)
          (configuration_deep_copy_into M copy_meta) (configuration-IsCopier M meta copy_meta F) x h
          inside
    deep_copy_object-Independent (configuration_list x) h inside =
        Copied-Independent (list_view M meta copy_meta F) (list_deep_copy_into M copy_meta)
          (list-IsCopier M meta copy_meta F) x h inside
