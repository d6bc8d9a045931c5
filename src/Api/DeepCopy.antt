-- ===== src/Api/DeepCopy.antt =====
-- The generated functions `DeepCopyInto`, `DeepCopy` and `DeepCopyObject`
-- (pkg/apis/lvscontroller/v1alpha1/zz_generated.deepcopy.go). A pointer is nil, or the structure
-- that it points to.
pub mod Copier
pub mod Slices
pub mod Structures
pub mod Independence
use lvs_nginx_controller.Base.{ℕ, suc, Option, none, some, List, [], ◌∷◌}
use lvs_nginx_controller.Api.{
  Meta, Slice, Arrays, Heap, IptablesMangle, TcpService, UdpService, Configuration,
  ConfigurationList, update,
}

module _ (M : Meta) where
  -- A function that allocates: what it returns, and the heap that it leaves.
  abbrev pub Copy : Type 0 → Type 0
  Copy A = A → Heap M → A × Heap M

  -- The array of a type among those of an address.
  pub record Region (A : Type 0) : Type 0 where
    pub get : Arrays M → List A
    pub set : List A → Arrays M → Arrays M

  abbrev pub read : {A : Type 0} → Region A → Heap M → ℕ → List A
  read region h a = region.get (h.arrays a)

  abbrev pub write : {A : Type 0} → Region A → ℕ → List A → Heap M → Heap M
  write region a xs h = record h { arrays = update a (region.set xs (h.arrays a)) h.arrays }

  abbrev pub reserve : Heap M → Heap M
  reserve h = record h { next = suc h.next }

  -- `for i := range *in { (*in)[i].DeepCopyInto(&(*out)[i]) }`
  abbrev pub copy_elements : {A : Type 0} → Copy A → Copy (List A)
  copy_elements copy [] h = ([], h)
  copy_elements copy (x ∷ xs) h =
      let (y, h₁) = copy x h in let (ys, h₂) = copy_elements copy xs h₁ in (y ∷ ys, h₂)

  -- `if in != nil { *out = make([]T, len(*in)); … }`: the new array stands at the first free
  -- address, and its elements follow one after the other.
  abbrev pub copy_slice : {A : Type 0} → Region A → Copy A → Copy Slice
  copy_slice region copy none h = (none, h)
  copy_slice region copy (some a) h =
      let (ys, h₁) = copy_elements copy (read region h a) (reserve h) in
      (some h.next, write region h.next ys h₁)

  abbrev pub number_region : Region ℕ
  number_region = record { get = λ b. b.numbers; set = λ xs b. record b { numbers = xs } }

  abbrev pub iptables_region : Region (IptablesMangle M)
  iptables_region = record { get = λ b. b.iptables; set = λ xs b. record b { iptables = xs } }

  abbrev pub tcp_region : Region (TcpService M)
  tcp_region = record { get = λ b. b.tcp; set = λ xs b. record b { tcp = xs } }

  abbrev pub udp_region : Region (UdpService M)
  udp_region = record { get = λ b. b.udp; set = λ xs b. record b { udp = xs } }

  abbrev pub configuration_region : Region (Configuration M)
  configuration_region = record {
    get = λ b. b.configurations;
    set = λ xs b. record b { configurations = xs };
  }

  -- A number has nothing to copy: `copy(*out, *in)`.
  abbrev pub copy_number : Copy ℕ
  copy_number n h = (n, h)

  -- The functions, over `ObjectMeta.DeepCopyInto`, which stands in package meta/v1.
  module _ (copy_meta : Copy M.ObjectMeta) where
    unfoldable pub iptables_deep_copy_into : Copy (IptablesMangle M)
    iptables_deep_copy_into x h =
        let (object_meta, h₁) = copy_meta x.object_meta h in
        let (port, h₂) = copy_slice number_region copy_number x.port h₁ in
        (record x { object_meta = object_meta; port = port }, h₂)

    unfoldable pub tcp_deep_copy_into : Copy (TcpService M)
    tcp_deep_copy_into x h =
        let (object_meta, h₁) = copy_meta x.object_meta h in
        let (iptables, h₂) = copy_slice iptables_region iptables_deep_copy_into x.iptables h₁ in
        (record x { object_meta = object_meta; iptables = iptables }, h₂)

    unfoldable pub udp_deep_copy_into : Copy (UdpService M)
    udp_deep_copy_into x h =
        let (object_meta, h₁) = copy_meta x.object_meta h in
        (record x { object_meta = object_meta }, h₁)

    unfoldable pub configuration_deep_copy_into : Copy (Configuration M)
    configuration_deep_copy_into x h =
        let (object_meta, h₁) = copy_meta x.object_meta h in
        let (tcp, h₂) = copy_slice tcp_region tcp_deep_copy_into x.tcp_endpoints h₁ in
        let (udp, h₃) = copy_slice udp_region udp_deep_copy_into x.udp_endpoints h₂ in
        (record x { object_meta = object_meta; tcp_endpoints = tcp; udp_endpoints = udp }, h₃)

    unfoldable pub list_deep_copy_into : Copy (ConfigurationList M)
    list_deep_copy_into x h =
        let (items, h₁) = copy_slice configuration_region configuration_deep_copy_into x.items h in
        (record x { items = items }, h₁)

  -- What every `DeepCopy` does: a new structure, and `DeepCopyInto`.
  abbrev pub copy_pointer : {A : Type 0} → Copy A → Copy (Option A)
  copy_pointer copy_into none h = (none, h)
  copy_pointer copy_into (some x) h = let (y, h₁) = copy_into x h in (some y, h₁)

  -- `runtime.Object`, as far as these types are ones: a pointer to one of two structures.
  pub data Object : Type 0 where
    configuration : Configuration M → Object
    configuration_list : ConfigurationList M → Object

  -- `if c := in.DeepCopy(); c != nil { return c }`, and else nil.
  abbrev object_of : {A : Type 0} → (A → Object) → Option A → Option Object
  object_of as_object none = none
  object_of as_object (some x) = some (as_object x)

  module _ (copy_meta : Copy M.ObjectMeta) where
    unfoldable pub iptables_deep_copy : Copy (Option (IptablesMangle M))
    iptables_deep_copy = copy_pointer (iptables_deep_copy_into copy_meta)

    unfoldable pub tcp_deep_copy : Copy (Option (TcpService M))
    tcp_deep_copy = copy_pointer (tcp_deep_copy_into copy_meta)

    unfoldable pub udp_deep_copy : Copy (Option (UdpService M))
    udp_deep_copy = copy_pointer (udp_deep_copy_into copy_meta)

    unfoldable pub configuration_deep_copy : Copy (Option (Configuration M))
    configuration_deep_copy = copy_pointer (configuration_deep_copy_into copy_meta)

    unfoldable pub list_deep_copy : Copy (Option (ConfigurationList M))
    list_deep_copy = copy_pointer (list_deep_copy_into copy_meta)

    unfoldable pub configuration_deep_copy_object :
        Option (Configuration M) → Heap M → Option Object × Heap M
    configuration_deep_copy_object x h =
        let (c, h₁) = configuration_deep_copy x h in (object_of configuration c, h₁)

    unfoldable pub list_deep_copy_object :
        Option (ConfigurationList M) → Heap M → Option Object × Heap M
    list_deep_copy_object x h =
        let (c, h₁) = list_deep_copy x h in (object_of configuration_list c, h₁)

    -- A call of `DeepCopyObject` on an object.
    abbrev pub deep_copy_object : Object → Heap M → Option Object × Heap M
    deep_copy_object (configuration x) h = configuration_deep_copy_object (some x) h
    deep_copy_object (configuration_list x) h = list_deep_copy_object (some x) h
