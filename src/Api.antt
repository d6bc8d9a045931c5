-- ===== src/Api.antt =====
-- The custom resource `Configuration` (pkg/apis/lvscontroller/v1alpha1), in a heap of arrays: the
-- structures of types.go hold slices, that is references to arrays that they may share.
pub mod DeepCopy
use lvs_nginx_controller.Base.{ℕ, ◌+◌, Option, List, ◌==◌, if◌then◌else◌, nat_eq}
use lvs_nginx_controller.Base.Text.{Text}

-- The types of package meta/v1 that the structures embed. `Cell` is what an address holds for the
-- maps and slices of an `ObjectMeta`.
pub record Meta : Type 1 where
  pub TypeMeta : Type 0
  pub ObjectMeta : Type 0
  pub ListMeta : Type 0
  pub Cell : Type 0

-- A slice is nil, or refers to an array of its length.
abbrev pub Slice : Type 0
Slice = Option ℕ

module _ (M : Meta) where
  -- `IptablesMangle`
  pub record IptablesMangle : Type 0 where
    pub type_meta : M.TypeMeta
    pub object_meta : M.ObjectMeta
    pub port : Slice

  -- `TCPService`
  pub record TcpService : Type 0 where
    pub type_meta : M.TypeMeta
    pub object_meta : M.ObjectMeta
    pub name : Text
    pub namespace : Text
    pub port : Text
    pub protocol : Text
    pub persist_conns : ℕ
    pub fw_mark : ℕ
    pub iptables : Slice

  -- `UDPService`
  pub record UdpService : Type 0 where
    pub type_meta : M.TypeMeta
    pub object_meta : M.ObjectMeta
    pub name : Text
    pub namespace : Text
    pub port : ℕ
    pub protocol : Text

  -- `Configuration`
  pub record Configuration : Type 0 where
    pub type_meta : M.TypeMeta
    pub object_meta : M.ObjectMeta
    pub tcp_endpoints : Slice
    pub udp_endpoints : Slice

  -- `ConfigurationList`
  pub record ConfigurationList : Type 0 where
    pub type_meta : M.TypeMeta
    pub list_meta : M.ListMeta
    pub items : Slice

  -- What an address holds: an array of each type. Go's slices always refer to an array of their
  -- type, so that every address has one, if an empty one.
  pub record Arrays : Type 0 where
    pub numbers : List ℕ
    pub iptables : List IptablesMangle
    pub tcp : List TcpService
    pub udp : List UdpService
    pub configurations : List Configuration
    pub cell : M.Cell

  -- Addresses from `next` on are free.
  pub record Heap : Type 0 where
    pub next : ℕ
    pub arrays : ℕ → Arrays

abbrev pub update {ℓ} : {A : Type ℓ} → ℕ → A → (ℕ → A) → ℕ → A
update a v f b = if b == a then v else f b
