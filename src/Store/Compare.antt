-- ===== src/Store/Compare.antt =====
-- What `L4Compare` leaves in its three maps.
use lvs_nginx_controller.Base.{
  ℕ, ◌≡◌, refl, false, Option, none, some, List, [], ◌∷◌, arith, contains, if◌then◌else◌, nat_eq,
  list_eq, Bool-cases, inl, inr,
}
use lvs_nginx_controller.Base.Dict.{
  keys, lookup, has, insert, erase, erase_all, clear, NodupKeys, lookup-insert, lookup-erase,
  lookup-erase_all, contains-keys, clear-eq-nil, insert-NodupKeys, erase-NodupKeys,
  erase_all-NodupKeys, lookup-nil, lookup-cons,
}
use lvs_nginx_controller.Base.Dict.DeepEqual.{deep_equal, Same, deep_equal→Same, Same→deep_equal}
use lvs_nginx_controller.Base.Text.{Text}
use lvs_nginx_controller.Store.{
  PortMap, Compared, addition, deletion, mark_absent, move_all, l4_compare,
}

lookup-mark_absent :
    (j : ℕ) (action : Text) (ports : List ℕ) (others delta : PortMap)
    → lookup j (mark_absent action ports others delta) ≡ (
        if contains ports j
        then (if has j others then lookup j delta else some action)
        else lookup j delta)
unfolding mark_absent
lookup-mark_absent j action [] others delta = refl
lookup-mark_absent j action (port ∷ ports) others delta = ground (
  arith,
  lookup-mark_absent j action ports others delta,
  lookup-mark_absent j action ports others (insert port action delta),
  lookup-insert j port action delta,
)

-- The change that a comparison finds at a port.
abbrev pub change : Option Text → Option Text → Option Text
change none none = none
change none (some w) = some addition
change (some v) none = some deletion
change (some v) (some w) = none

abbrev marked_ports : PortMap → PortMap → PortMap → PortMap
marked_ports old new delta =
    mark_absent deletion (keys old) new (mark_absent addition (keys new) old (clear delta))

lookup-marked_ports :
    (j : ℕ) (old new delta : PortMap)
    → lookup j (marked_ports old new delta) ≡ change (lookup j old) (lookup j new)
lookup-marked_ports j old new delta = ground (
  arith,
  lookup-mark_absent j deletion (keys old) new (mark_absent addition (keys new) old (clear delta)),
  lookup-mark_absent j addition (keys new) old (clear delta),
  clear-eq-nil delta,
  lookup-nil {V = Text} j,
  contains-keys old j,
  contains-keys new j,
)

-- Each entry of the second map stands in the first.
abbrev Entries : PortMap → PortMap → Type 0
Entries from [] = Unit
Entries from ((k, v) ∷ new) = (lookup k from ≡ some v) × Entries from new

Entries-erase :
    (k : ℕ) (from new : PortMap)
    → lookup k new ≡ none
    → Entries from new
    → Entries (erase k from) new
Entries-erase k from [] fresh h = tt
Entries-erase k from ((j, v) ∷ new) fresh h =
    ground (arith, lookup-erase j k from, lookup-cons k j v new, Entries-erase k from new)

Entries-cons :
    (k : ℕ) (v : Text) (from new : PortMap)
    → lookup k new ≡ none
    → Entries from new
    → Entries ((k, v) ∷ from) new
Entries-cons k v from [] fresh h = tt
Entries-cons k v from ((j, w) ∷ new) fresh h =
    ground (arith, lookup-cons j k v from, lookup-cons k j w new, Entries-cons k v from new)

Entries-self : (d : PortMap) → NodupKeys d → Entries d d
Entries-self [] u = tt
Entries-self ((k, v) ∷ d) (fresh, u) =
    (ground (arith, lookup-cons k k v d), Entries-cons k v d d fresh (Entries-self d u))

abbrev first_of_two : Option Text → Option Text → Option Text
first_of_two none o = o
first_of_two (some v) o = some v

lookup-move_all :
    (j : ℕ) (new old from : PortMap)
    → NodupKeys new
    → Entries from new
    → (lookup j (move_all (keys new) old from).0 ≡ first_of_two (lookup j new) (lookup j old))
      × (lookup j (move_all (keys new) old from).1 ≡ (if has j new then none else lookup j from))
unfolding move_all
lookup-move_all j [] old from u h = ground (arith, lookup-nil {V = Text} j)
lookup-move_all j ((k, v) ∷ new) old from (fresh, u) h = ground (
  arith,
  lookup-cons j k v new,
  lookup-insert j k v old,
  lookup-erase j k from,
  lookup-move_all j new (insert k v old) (erase k from) u (Entries-erase k from new fresh h.1),
)

mark_absent-NodupKeys :
    (action : Text) (ports : List ℕ) (others delta : PortMap)
    → NodupKeys delta
    → NodupKeys (mark_absent action ports others delta)
unfolding mark_absent
mark_absent-NodupKeys action [] others delta u = u
mark_absent-NodupKeys action (port ∷ ports) others delta u = ground (
  arith,
  mark_absent-NodupKeys action ports others delta u,
  mark_absent-NodupKeys action ports others (insert port action delta),
  insert-NodupKeys port action delta u,
)

move_all-NodupKeys :
    (ks : List ℕ) (old new : PortMap)
    → NodupKeys old
    → NodupKeys new
    → NodupKeys (move_all ks old new).0 × NodupKeys (move_all ks old new).1
unfolding move_all
move_all-NodupKeys [] old new u w = (u, w)
move_all-NodupKeys (k ∷ ks) old new u w =
    move_all-NodupKeys ks _ _ (insert-NodupKeys k _ old u) (erase-NodupKeys k new w)

module _ (old new delta : PortMap) (u : NodupKeys old) (w : NodupKeys new) where
  abbrev after : Compared
  after = l4_compare old new delta

  -- If the two maps differ, the comparison leaves the new map's entries in the old map, no entry
  -- in the new map, and in the delta exactly the ports that one of the two had and the other had
  -- not, whatever the delta held before. Neither map has two entries for a port.
  pub l4_compare_changed :
      deep_equal old new ≡ false
      → (j : ℕ)
      → (lookup j after.old_one ≡ lookup j new)
        × (lookup j after.new_one ≡ none)
        × (lookup j after.delta_one ≡ change (lookup j old) (lookup j new))
  unfolding l4_compare
  l4_compare_changed differ j = rw differ (
      ground (
        arith,
        lookup-marked_ports j old new delta,
        lookup-erase_all j (keys (marked_ports old new delta)) old,
        contains-keys (marked_ports old new delta) j,
        lookup-move_all j new (erase_all (keys (marked_ports old new delta)) old) new w
            (Entries-self new w),
      ))

  -- If the two maps are equal, the comparison leaves all three as they were: the delta keeps what
  -- an earlier comparison found, and the new map keeps its entries. Neither of the two has two
  -- entries for a port.
  pub l4_compare-Same :
      Same old new → after ≡ record { old_one = old; new_one = new; delta_one = delta }
  unfolding l4_compare
  l4_compare-Same same = rw (Same→deep_equal old new u w same)

  -- In both cases the old map holds the new entries afterwards.
  pub l4_compare-old_one : (j : ℕ) → lookup j after.old_one ≡ lookup j new
  l4_compare-old_one j = elim (Bool-cases (deep_equal old new)) [
    | inr differ ↦ (l4_compare_changed differ j).0
    | inl equal ↦ let same = deep_equal→Same old new u w equal in rw (l4_compare-Same same) (same j)
  ]

  -- No map gets two entries for a port.
  pub l4_compare-NodupKeys :
      NodupKeys delta
      → NodupKeys after.old_one × NodupKeys after.new_one × NodupKeys after.delta_one
  unfolding l4_compare
  l4_compare-NodupKeys v = elim (Bool-cases (deep_equal old new)) [
    | inl equal ↦ rw equal (u, w, v)
    | inr differ ↦ rw differ (
      (move_all-NodupKeys (keys new) _ new kept w).0,
      (move_all-NodupKeys (keys new) _ new kept w).1,
      marked,
    )
  ]
    where
      marked : NodupKeys (marked_ports old new delta)
      marked =
          mark_absent-NodupKeys deletion (keys old) new _ (
            mark_absent-NodupKeys addition (keys new) old (clear delta)
              (rw (clear-eq-nil delta) tt))

      kept : NodupKeys (erase_all (keys (marked_ports old new delta)) old)
      kept = erase_all-NodupKeys (keys (marked_ports old new delta)) old u
