-- ===== src/Ipvs/Table/Serves.antt =====
-- The table seen as a set: which destination stands under which service.
use lvs_nginx_controller.Base.{
  ℕ, ◌≡◌, refl, Bool, true, false, not, ◌&&◌, ◌||◌, List, [], ◌∷◌, ◌++◌, ◌==◌, nat_eq, list_eq,
  arith,
}
use lvs_nginx_controller.Ipvs.System.{Service, Destination}
use lvs_nginx_controller.Ipvs.Table.{
  Table, listed, is_complete, service_key, destination_key, has_service, destinations,
  has_destination, without, append_service, drop_service, append_destination, drop_destination,
}

-- The destination with key `l` stands under a service with key `k`.
unfoldable pub serves : List ℕ → List ℕ → Table → Bool
serves k l [] = false
serves k l ((s, ds) ∷ t) = (service_key s == k && has_destination l ds) || serves k l t

pub has_destination-append :
    (l : List ℕ) (ds es : List Destination)
    → has_destination l (ds ++ es) ≡ (has_destination l ds || has_destination l es)
unfolding has_destination
has_destination-append l [] es = refl
has_destination-append l (d ∷ ds) es = ground (arith, has_destination-append l ds es)

pub has_destination-destinations :
    (k l : List ℕ) (t : Table) → has_destination l (destinations k t) ≡ serves k l t
unfolding destinations has_destination serves
has_destination-destinations k l [] = refl
has_destination-destinations k l ((s, ds) ∷ t) =
    ground
      (arith, has_destination-append l ds (destinations k t), has_destination-destinations k l t)

pub has_destination-without :
    (l m : List ℕ) (ds : List Destination)
    → has_destination l (without m ds) ≡ (not (m == l) && has_destination l ds)
unfolding has_destination without
has_destination-without l m [] = ground arith
has_destination-without l m (d ∷ ds) = ground (arith, has_destination-without l m ds)

pub serves-append_service :
    (k l : List ℕ) (s : Service) (t : Table) → serves k l (append_service s t) ≡ serves k l t
unfolding serves append_service has_destination
serves-append_service k l s [] = ground arith
serves-append_service k l s ((_, ds) ∷ t) = ground (arith, serves-append_service k l s t)

pub serves-append_destination :
    (k l j : List ℕ) (d : Destination) (t : Table)
    → serves k l (append_destination j d t)
      ≡ ((j == k && (destination_key d == l && has_service j t)) || serves k l t)
unfolding serves append_destination has_service has_destination
serves-append_destination k l j d [] = ground arith
serves-append_destination k l j d ((s, ds) ∷ t) =
    ground (arith, serves-append_destination k l j d t, has_destination-append l ds (d ∷ []))

pub serves-drop_destination :
    (k l j m : List ℕ) (t : Table)
    → serves k l (drop_destination j m t) ≡ (not (j == k && m == l) && serves k l t)
unfolding serves drop_destination
serves-drop_destination k l j m [] = ground arith
serves-drop_destination k l j m ((s, ds) ∷ t) =
    ground (arith, serves-drop_destination k l j m t, has_destination-without l m ds)

pub serves-drop_service :
    (k l j : List ℕ) (t : Table) → serves k l (drop_service j t) ≡ (not (j == k) && serves k l t)
unfolding serves drop_service
serves-drop_service k l j [] = ground arith
serves-drop_service k l j ((s, ds) ∷ t) = ground (arith, serves-drop_service k l j t)

pub has_service-append_service :
    (k : List ℕ) (s : Service) (t : Table)
    → has_service k (append_service s t) ≡ (service_key s == k || has_service k t)
unfolding has_service append_service
has_service-append_service k s [] = ground arith
has_service-append_service k s ((r, ds) ∷ t) = ground (arith, has_service-append_service k s t)

pub has_service-append_destination :
    (k j : List ℕ) (d : Destination) (t : Table)
    → has_service k (append_destination j d t) ≡ has_service k t
unfolding has_service append_destination
has_service-append_destination k j d [] = refl
has_service-append_destination k j d ((s, ds) ∷ t) =
    ground (arith, has_service-append_destination k j d t)

pub has_service-drop_destination :
    (k j l : List ℕ) (t : Table) → has_service k (drop_destination j l t) ≡ has_service k t
unfolding has_service drop_destination
has_service-drop_destination k j l [] = refl
has_service-drop_destination k j l ((s, ds) ∷ t) =
    ground (arith, has_service-drop_destination k j l t)

-- What is served is served by a service of the table.
pub has_service_of_serves :
    (k l : List ℕ) (t : Table) → serves k l t ≡ true → has_service k t ≡ true
unfolding has_service serves
has_service_of_serves k l [] h = cc
has_service_of_serves k l ((s, ds) ∷ t) h = ground (arith, has_service_of_serves k l t)

-- What the kernel lists has the key of the service, and is complete if the service is.
pub service_key-listed : (s : Service) → service_key (listed s) ≡ service_key s
unfolding service_key listed
service_key-listed s = ground arith

pub is_complete-listed : (s : Service) → is_complete s ≡ true → is_complete (listed s) ≡ true
unfolding is_complete listed
is_complete-listed s complete = ground arith
