-- ===== src/Store.antt =====
-- The stores of addresses and ports (pkg/controller/utils.go): `LBStore` and `L4Compare`.
pub mod Compare
use lvs_nginx_controller.Base.{
  ℕ, Bool, Option, none, some, List, [], ◌∷◌, if◌then◌else◌, nat_eq, list_eq,
}
use lvs_nginx_controller.Base.Dict.{Dict, keys, lookup, has, insert, erase, erase_all, clear}
use lvs_nginx_controller.Base.Dict.DeepEqual.{deep_equal}
use lvs_nginx_controller.Base.Text.{Text, codes}

-- The actions that a store names (pkg/controller/controller.go).
abbrev pub deletion : Text
deletion = codes "deleting"

abbrev pub addition : Text
addition = codes "adding"

-- A map from ports to actions or protocols.
abbrev pub PortMap : Type 0
PortMap = Dict ℕ Text

-- `LBStore`
pub record LbStore : Type 0 where
  pub addr : Dict Text Text
  pub tcp : PortMap
  pub udp : PortMap

-- `NewLBStore`
unfoldable pub new_lb_store : LbStore
new_lb_store = record { addr = []; tcp = []; udp = [] }

-- `AddrGet`, `AddrSet`, `L4Set` and `L4Get` do nothing: the getters return a nil map, that is one
-- with no entry, and the setters neither write nor fail.
unfoldable pub addr_get : LbStore → Dict Text Text
addr_get lb = []

unfoldable pub addr_set : LbStore → Dict Text Text → LbStore × Option Text
addr_set lb addrs = (lb, none)

unfoldable pub l4_set : LbStore → PortMap → LbStore × Option Text
l4_set lb ports = (lb, none)

unfoldable pub l4_get : LbStore → PortMap
l4_get lb = []

-- The three maps that `L4Compare` reads and writes.
pub record Compared : Type 0 where
  pub old_one : PortMap
  pub new_one : PortMap
  pub delta_one : PortMap

-- `for port := range newOne { if _, ok := oldOne[port]; !ok { deltaOne[port] = action } }`
unfoldable pub mark_absent : Text → List ℕ → PortMap → PortMap → PortMap
mark_absent action [] others delta = delta
mark_absent action (port ∷ ports) others delta =
    mark_absent action ports others (if has port others then delta else insert port action delta)

abbrev value_or_empty : Option Text → Text
value_or_empty none = []
value_or_empty (some v) = v

-- `for key := range newOne { oldOne[key] = newOne[key]; delete(newOne, key) }`
unfoldable pub move_all : List ℕ → PortMap → PortMap → PortMap × PortMap
move_all [] old new = (old, new)
move_all (key ∷ ks) old new =
    move_all ks (insert key (value_or_empty (lookup key new)) old) (erase key new)

-- `L4Compare`
unfoldable pub l4_compare : PortMap → PortMap → PortMap → Compared
l4_compare old new delta =
    if deep_equal old new
    then record { old_one = old; new_one = new; delta_one = delta }
    else let added = mark_absent addition (keys new) old (clear delta) in
      let marked = mark_absent deletion (keys old) new added in
      let (old', new') = move_all (keys new) (erase_all (keys marked) old) new in
      record { old_one = old'; new_one = new'; delta_one = marked }
