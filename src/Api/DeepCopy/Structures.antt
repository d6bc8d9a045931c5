-- ===== src/Api/DeepCopy/Structures.antt =====
-- The copies of the structures: each generated function makes deep copies, provided that
-- `ObjectMeta.DeepCopyInto` does.
use mathlib.Core.Path.{subst}
use lvs_nginx_controller.Base.{ℕ, ◌≡◌, refl, sym, ◌∙◌, ap, arith, nat_eq}
use lvs_nginx_controller.Base.Text.{Text}
use lvs_nginx_controller.Api.{
  Meta, Slice, Heap, IptablesMangle, TcpService, UdpService, Configuration, ConfigurationList,
}
use lvs_nginx_controller.Api.DeepCopy.{
  Copy, copy_number, number_region, iptables_region, tcp_region, udp_region, configuration_region,
  iptables_deep_copy_into, tcp_deep_copy_into, udp_deep_copy_into, configuration_deep_copy_into,
  list_deep_copy_into,
}
use lvs_nginx_controller.Api.DeepCopy.Copier.{
  Agree-refl, View, Copied, IsCopier, pair_view, pair-IsCopier,
}
use lvs_nginx_controller.Api.DeepCopy.Slices.{slice_view, slice-IsCopier}

module _ (M : Meta) where
  abbrev pub number_view : View M ℕ
  number_view = record { Value = ℕ; value = λ h n. n; Within = λ lo hi h n. Unit }

  number-IsCopier : IsCopier M number_view (copy_number M)
  number-IsCopier = record {
    frame = record {
      framed = λ n lo hi h h' u e. (refl, tt);
      widened = λ n lo hi lo' hi' h p q u. tt;
    };
    copies = λ n h hi below u. record {
      same = refl;
      fresh = tt;
      kept = Agree-refl M 0 h.next h;
      grown = omega arith;
    };
  }

  -- A structure is its plain fields, and its fields that refer to addresses.
  module _ {A B : Type 0} (K : Type 0) (plain : A → K) (deep : A → B) (w : View M B) where
    abbrev pub structure_view : View M A
    structure_view = record {
      Value = K × w.Value;
      value = λ h x. (plain x, w.value h (deep x));
      Within = λ lo hi h x. w.Within lo hi h (deep x);
    }

    module _ (join : A → B → A) (f : Copy M A) (g : Copy M B) (G : IsCopier M w g)
        (plain-join : (x : A) (b : B) → plain (join x b) ≡ plain x)
        (deep-join : (x : A) (b : B) → deep (join x b) ≡ b)
        (parts : (x : A) (h : Heap M) → f x h ≡ (join x (g (deep x) h).0, (g (deep x) h).1)) where
      structure-IsCopier : IsCopier M structure_view f
      structure-IsCopier = record {
        frame = record {
          framed = λ x lo hi h h' inside same.
              let r = G.frame.framed (deep x) lo hi h h' inside same in
              ((λ i. (plain x, r.0 i)), r.1);
          widened = λ x. G.frame.widened (deep x);
        };
        copies = λ x h hi below inside.
            let r = G.copies (deep x) h hi below inside in
            subst (λ c. Copied M structure_view x h c.0 c.1) (sym (parts x h))
              (record {
                same = λ i. (
                  plain-join x (g (deep x) h).0 i,
                  (ap (w.value (g (deep x) h).1) (deep-join x (g (deep x) h).0) ∙ r.same) i,
                );
                fresh =
                    subst (w.Within h.next (g (deep x) h).1.next (g (deep x) h).1)
                      (sym (deep-join x (g (deep x) h).0)) r.fresh;
                kept = r.kept;
                grown = r.grown;
              });
      }

  module _ (meta : View M M.ObjectMeta) (copy_meta : Copy M M.ObjectMeta)
      (F : IsCopier M meta copy_meta) where
    abbrev iptables_parts : View M (M.ObjectMeta × Slice)
    iptables_parts = pair_view M meta (slice_view M (number_region M) number_view)

    abbrev pub iptables_view : View M (IptablesMangle M)
    iptables_view =
        structure_view M.TypeMeta (λ x. x.type_meta) (λ x. (x.object_meta, x.port)) iptables_parts

    pub iptables-IsCopier : IsCopier M iptables_view (iptables_deep_copy_into M copy_meta)
    unfolding iptables_deep_copy_into
    iptables-IsCopier =
        structure-IsCopier _ _ _ iptables_parts (λ x b. record x { object_meta = b.0; port = b.1 })
          (iptables_deep_copy_into M copy_meta) _
          (pair-IsCopier M meta _ copy_meta _ F (
            slice-IsCopier M (number_region M) number_view (λ xs b. refl) (copy_number M)
              number-IsCopier))
          (λ x b. refl) (λ x b. refl) (λ x h. refl)

    abbrev tcp_parts : View M (M.ObjectMeta × Slice)
    tcp_parts = pair_view M meta (slice_view M (iptables_region M) iptables_view)

    abbrev pub tcp_view : View M (TcpService M)
    tcp_view =
        structure_view (M.TypeMeta × Text × Text × Text × Text × ℕ × ℕ)
          (λ x. (x.type_meta, x.name, x.namespace, x.port, x.protocol, x.persist_conns, x.fw_mark))
          (λ x. (x.object_meta, x.iptables)) tcp_parts

    pub tcp-IsCopier : IsCopier M tcp_view (tcp_deep_copy_into M copy_meta)
    unfolding tcp_deep_copy_into
    tcp-IsCopier =
        structure-IsCopier _ _ _ tcp_parts (λ x b. record x { object_meta = b.0; iptables = b.1 })
          (tcp_deep_copy_into M copy_meta) _
          (pair-IsCopier M meta _ copy_meta _ F (
            slice-IsCopier M (iptables_region M) iptables_view (λ xs b. refl)
              (iptables_deep_copy_into M copy_meta) iptables-IsCopier))
          (λ x b. refl) (λ x b. refl) (λ x h. refl)

    abbrev pub udp_view : View M (UdpService M)
    udp_view =
        structure_view (M.TypeMeta × Text × Text × ℕ × Text)
          (λ x. (x.type_meta, x.name, x.namespace, x.port, x.protocol)) (λ x. x.object_meta) meta

    pub udp-IsCopier : IsCopier M udp_view (udp_deep_copy_into M copy_meta)
    unfolding udp_deep_copy_into
    udp-IsCopier =
        structure-IsCopier _ _ _ meta (λ x b. record x { object_meta = b })
          (udp_deep_copy_into M copy_meta) copy_meta F (λ x b. refl) (λ x b. refl) (λ x h. refl)

    abbrev configuration_parts : View M (M.ObjectMeta × (Slice × Slice))
    configuration_parts =
        pair_view M meta (
          pair_view M (slice_view M (tcp_region M) tcp_view) (slice_view M (udp_region M) udp_view))

    abbrev pub configuration_view : View M (Configuration M)
    configuration_view =
        structure_view M.TypeMeta (λ x. x.type_meta)
          (λ x. (x.object_meta, (x.tcp_endpoints, x.udp_endpoints))) configuration_parts

    pub configuration-IsCopier :
        IsCopier M configuration_view (configuration_deep_copy_into M copy_meta)
    unfolding configuration_deep_copy_into
    configuration-IsCopier =
        structure-IsCopier _ _ _ configuration_parts
          (λ x b. record x { object_meta = b.0; tcp_endpoints = b.1.0; udp_endpoints = b.1.1 })
          (configuration_deep_copy_into M copy_meta) _
          (pair-IsCopier M meta _ copy_meta _ F (
            pair-IsCopier M _ _ _ _
              (slice-IsCopier M (tcp_region M) tcp_view (λ xs b. refl)
                (tcp_deep_copy_into M copy_meta) tcp-IsCopier)
              (slice-IsCopier M (udp_region M) udp_view (λ xs b. refl)
                (udp_deep_copy_into M copy_meta) udp-IsCopier)))
          (λ x b. refl) (λ x b. refl) (λ x h. refl)

    abbrev list_parts : View M Slice
    list_parts = slice_view M (configuration_region M) configuration_view

    abbrev pub list_view : View M (ConfigurationList M)
    list_view =
        structure_view (M.TypeMeta × M.ListMeta) (λ x. (x.type_meta, x.list_meta)) (λ x. x.items)
          list_parts

    pub list-IsCopier : IsCopier M list_view (list_deep_copy_into M copy_meta)
    unfolding list_deep_copy_into
    list-IsCopier =
        structure-IsCopier _ _ _ list_parts (λ x b. record x { items = b })
          (list_deep_copy_into M copy_meta) _
          (slice-IsCopier M (configuration_region M) configuration_view (λ xs b. refl)
            (configuration_deep_copy_into M copy_meta) configuration-IsCopier)
          (λ x b. refl) (λ x b. refl) (λ x h. refl)
