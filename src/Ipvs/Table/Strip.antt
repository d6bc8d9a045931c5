-- ===== src/Ipvs/Table/Strip.antt =====
-- Taking every destination at one address off a list, at once and one by one.
use lvs_nginx_controller.Base.{
  ℕ, ◌≡◌, refl, ap, Bool, true, false, not, ◌&&◌, ◌||◌, List, [], ◌∷◌, ◌++◌, ◌==◌, if◌then◌else◌,
  nat_eq, list_eq, arith, All, Bool-cases, inl, inr, ==→eq,
}
use lvs_nginx_controller.Net.{Ip, ip_equal, long_form}
use lvs_nginx_controller.Ipvs.System.{Destination}
use lvs_nginx_controller.Ipvs.Table.{
  Table, destination_key, has_service, destinations, has_destination, is_packed, without,
  drop_service, drop_destination,
}
use lvs_nginx_controller.Ipvs.Table.Serves.{has_destination-without}

-- The destinations at other addresses.
unfoldable pub strip : Ip → List Destination → List Destination
strip a [] = []
strip a (d ∷ ds) = let rest = strip a ds in if ip_equal d.address a then rest else d ∷ rest

-- Each destination of the first list at the address is taken off the second by its key.
unfoldable pub strip_keys : Ip → List Destination → List Destination → List Destination
strip_keys a [] es = es
strip_keys a (d ∷ ds) es =
    strip_keys a ds (if ip_equal d.address a then without (destination_key d) es else es)

has_stripped : Ip → List ℕ → List Destination → Bool
has_stripped a l [] = false
has_stripped a l (d ∷ ds) = (ip_equal d.address a && destination_key d == l) || has_stripped a l ds

-- Destinations with the same key have the same address.
ip_equal_of_key :
    (a : Ip) (d e : Destination)
    → destination_key d ≡ destination_key e
    → ip_equal d.address a ≡ ip_equal e.address a
unfolding ip_equal destination_key
ip_equal_of_key a d e h = ground arith

has_stripped-eq :
    (a : Ip) (e : Destination) (ds : List Destination)
    → has_stripped a (destination_key e) ds
      ≡ (ip_equal e.address a && has_destination (destination_key e) ds)
unfolding has_stripped has_destination
has_stripped-eq a e [] = ground arith
has_stripped-eq a e (d ∷ ds) = ground (arith, ip_equal_of_key a d e, has_stripped-eq a e ds)

strip_keys-nil : (a : Ip) (ds : List Destination) → strip_keys a ds [] ≡ []
unfolding strip_keys without
strip_keys-nil a [] = refl
strip_keys-nil a (d ∷ ds) = ground (arith, strip_keys-nil a ds)

strip_keys-cons :
    (a : Ip) (e : Destination) (ds es : List Destination)
    → strip_keys a ds (e ∷ es) ≡ (
        if has_stripped a (destination_key e) ds
        then strip_keys a ds es
        else e ∷ strip_keys a ds es)
unfolding strip_keys has_stripped without
strip_keys-cons a e [] es = refl
strip_keys-cons a e (d ∷ ds) es =
    ground
      (arith, strip_keys-cons a e ds es, strip_keys-cons a e ds (without (destination_key d) es))

-- Each destination of the first list has its key in the second.
abbrev pub Present : List Destination → List Destination → Type 0
Present es = All (λ d. has_destination (destination_key d) es ≡ true)

Present-cons : (e : Destination) (es ds : List Destination) → Present es ds → Present (e ∷ es) ds
unfolding has_destination
Present-cons e es [] p = tt
Present-cons e es (d ∷ ds) (h, p) = (ground arith, Present-cons e es ds p)

pub Present-refl : (ds : List Destination) → Present ds ds
unfolding has_destination
Present-refl [] = tt
Present-refl (d ∷ ds) = (ground arith, Present-cons d ds ds (Present-refl ds))

strip_keys_of_Present :
    (a : Ip) (ds es : List Destination) → Present ds es → strip_keys a ds es ≡ strip a es
unfolding strip
strip_keys_of_Present a ds [] p = strip_keys-nil a ds
strip_keys_of_Present a ds (e ∷ es) (h, p) =
    ground
      (arith, strip_keys-cons a e ds es, has_stripped-eq a e ds, strip_keys_of_Present a ds es p)

-- One by one and at once give the same list.
pub strip_keys_self : (a : Ip) (ds : List Destination) → strip_keys a ds ds ≡ strip a ds
strip_keys_self a ds = strip_keys_of_Present a ds ds (Present-refl ds)

-- No two destinations have the same key.
abbrev pub Unique : List Destination → Type 0
Unique [] = Unit
Unique (d ∷ ds) =
    (has_destination (destination_key d) ds ≡ false) × (is_packed d ≡ true) × Unique ds

pub Present-without :
    (l : List ℕ) (es ds : List Destination)
    → has_destination l ds ≡ false
    → Present es ds
    → Present (without l es) ds
unfolding has_destination
Present-without l es [] absent p = tt
Present-without l es (d ∷ ds) absent (h, p) = (
  ground (arith, has_destination-without (destination_key d) l es),
  Present-without l es ds (ground arith) p,
)

without-append :
    (l : List ℕ) (ds es : List Destination) → without l (ds ++ es) ≡ without l ds ++ without l es
unfolding without
without-append l [] es = refl
without-append l (d ∷ ds) es = ground (arith, without-append l ds es)

pub destinations-drop_destination :
    (k j l : List ℕ) (t : Table)
    → destinations k (drop_destination j l t)
      ≡ (if j == k then without l (destinations k t) else destinations k t)
unfolding destinations drop_destination without
destinations-drop_destination k j l [] = ground arith
destinations-drop_destination k j l ((s, ds) ∷ t) =
    ground (arith, destinations-drop_destination k j l t, without-append l ds (destinations k t))

pub destinations-drop_service :
    (k j : List ℕ) (t : Table)
    → destinations k (drop_service j t) ≡ (if j == k then [] else destinations k t)
unfolding destinations drop_service
destinations-drop_service k j [] = ground arith
destinations-drop_service k j ((s, ds) ∷ t) = ground (arith, destinations-drop_service k j t)

pub has_service-drop_service :
    (k j : List ℕ) (t : Table)
    → has_service k (drop_service j t) ≡ (not (j == k) && has_service k t)
unfolding has_service drop_service
has_service-drop_service k j [] = ground arith
has_service-drop_service k j ((s, ds) ∷ t) = ground (arith, has_service-drop_service k j t)

pub destinations_of_absent :
    (k : List ℕ) (t : Table) → has_service k t ≡ false → destinations k t ≡ []
unfolding has_service destinations
destinations_of_absent k [] h = refl
destinations_of_absent k ((s, ds) ∷ t) h = ground (arith, destinations_of_absent k t)

-- The key of a destination at the address.
abbrev pub at_address : Ip → List ℕ → Bool
at_address a [] = false
at_address a (port ∷ ip) = ip == long_form a

at_address-key :
    (a : Ip) (d : Destination) → at_address a (destination_key d) ≡ ip_equal d.address a
unfolding destination_key ip_equal
at_address-key a d = refl

pub has_destination-strip :
    (a : Ip) (l : List ℕ) (ds : List Destination)
    → has_destination l (strip a ds) ≡ (not (at_address a l) && has_destination l ds)
unfolding has_destination strip
has_destination-strip a l [] = ground arith
has_destination-strip a l (d ∷ ds) = elim (Bool-cases (destination_key d == l)) [
  | inl e ↦ ground (
    arith,
    has_destination-strip a l ds,
    at_address-key a d,
    ap (at_address a) (==→eq (destination_key d) l e),
  )
  | inr e ↦ ground (arith, has_destination-strip a l ds)
]
