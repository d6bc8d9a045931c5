-- ===== src/Tests/Copies.antt =====
-- The theorem on deep copies, at a list of one configuration with one service, where the labels
-- of an `ObjectMeta` are nil or stand at an address.
use lvs_nginx_controller.Base.{
  ℕ, suc, ◌≤◌, ◌<◌, ◌≡◌, refl, ap, arith, ◌==◌, if◌then◌else◌, nat_eq, Option, none, some, List, [],
  ◌∷◌,
}
use lvs_nginx_controller.Base.Text.{Text, codes}
use lvs_nginx_controller.Api.{
  Meta, Slice, Arrays, Heap, TcpService, Configuration, ConfigurationList, update,
}
use lvs_nginx_controller.Api.DeepCopy.{Copy, configuration_list, deep_copy_object}
use lvs_nginx_controller.Api.DeepCopy.Copier.{View, CopiesAt, IsCopier, Agree, Agree-refl}
use lvs_nginx_controller.Api.DeepCopy.Independence.{IsCopy, deep_copy_object-Independent}

abbrev metas : Meta
metas = record { TypeMeta = Unit {0}; ObjectMeta = Slice; ListMeta = Unit {0}; Cell = List Text }

abbrev labels_value : Heap metas → Slice → Option (List Text)
labels_value h none = none
labels_value h (some a) = some (h.arrays a).cell

abbrev LabelsWithin : ℕ → ℕ → Heap metas → Slice → Type 0
LabelsWithin lo hi h none = Unit
LabelsWithin lo hi h (some a) = (lo ≤ a) × (a < hi)

abbrev labels : View metas Slice
labels = record { Value = Option (List Text); value = labels_value; Within = LabelsWithin }

abbrev copy_labels : Copy metas Slice
copy_labels none h = (none, h)
copy_labels (some a) h = (
  some h.next,
  record {
    next = suc h.next;
    arrays = update h.next (record (h.arrays h.next) { cell = (h.arrays a).cell }) h.arrays;
  },
)

labels-framed :
    (x : Slice) (lo hi : ℕ) (h h' : Heap metas)
    → LabelsWithin lo hi h x
    → Agree metas lo hi h h'
    → (labels_value h' x ≡ labels_value h x) × LabelsWithin lo hi h' x
labels-framed none lo hi h h' inside same = (refl, tt)
labels-framed (some a) lo hi h h' inside same =
    (ap (λ b. some b.cell) (same a inside.0 inside.1), inside)

labels-widened :
    (x : Slice) (lo hi lo' hi' : ℕ) (h : Heap metas)
    → lo' ≤ lo
    → hi ≤ hi'
    → LabelsWithin lo hi h x
    → LabelsWithin lo' hi' h x
labels-widened none lo hi lo' hi' h p q inside = tt
labels-widened (some a) lo hi lo' hi' h p q inside = (omega arith, omega arith)

labels-copied : (x : Slice) → CopiesAt metas labels copy_labels x
labels-copied none h hi below inside = record {
  same = refl;
  fresh = tt;
  kept = Agree-refl metas 0 h.next h;
  grown = omega arith;
}
labels-copied (some a) h hi below inside = record {
  same = ground arith;
  fresh = (omega arith, omega arith);
  kept = λ b l u. ground arith;
  grown = omega arith;
}

labels-IsCopier : IsCopier metas labels copy_labels
labels-IsCopier = record {
  frame = record { framed = labels-framed; widened = labels-widened };
  copies = labels-copied;
}

abbrev service : TcpService metas
service = record {
  type_meta = tt;
  object_meta = some 0;
  name = codes "web";
  namespace = codes "default";
  port = codes "80";
  protocol = codes "tcp";
  persist_conns = 0;
  fw_mark = 7;
  iptables = some 1;
}

abbrev configuration : Configuration metas
configuration = record {
  type_meta = tt;
  object_meta = none;
  tcp_endpoints = some 2;
  udp_endpoints = none;
}

abbrev blank : Arrays metas
blank = record { numbers = []; iptables = []; tcp = []; udp = []; configurations = []; cell = [] }

abbrev heap : Heap metas
heap = record {
  next = 4;
  arrays = λ a.
      if a == 0
      then record blank { cell = codes "app" ∷ [] }
      else if a == 1
      then record blank {
        iptables = record { type_meta = tt; object_meta = none; port = none } ∷ [];
      }
      else if a == 2
      then record blank { tcp = service ∷ [] }
      else if a == 3
      then record blank { configurations = configuration ∷ [] }
      else blank;
}

abbrev listed : ConfigurationList metas
listed = record { type_meta = tt; list_meta = tt; items = some 3 }

deep_copy_object-Independent_example :
    let r = deep_copy_object metas copy_labels (configuration_list listed) heap in
    IsCopy metas labels copy_labels labels-IsCopier (configuration_list listed) heap r.0 r.1
unfolding nat_eq
deep_copy_object-Independent_example =
    deep_copy_object-Independent metas labels copy_labels labels-IsCopier
      (configuration_list listed) heap (omega arith)
