-- ===== src/Ipvs/Go.antt =====
-- Go calls that may fail: the result of a call, and what it leaves of the outside world.
use lvs_nginx_controller.Base.{Option, none, some}
use lvs_nginx_controller.Base.Text.{Text}

-- The places in ipvsdr.go that wrap an error in a message of their own.
pub data Site : Type 0 where
  build_in_add update_service add_destination : Site
  build_in_del remove_destination clear_dead : Site
  list_services list_destinations relist_destinations : Site
  create_service clear_service init_iptables : Site

pub data Error : Type 0 where
  system : Text → Error
  unsupported : Text → Error
  wrapped : Site → Error → Error

-- `crash` is a panic: a call through a nil interface, or one that a library makes.
pub data Result (A : Type 0) : Type 0 where
  ok : A → Result A
  err : Error → Result A
  crash : Result A

abbrev pub Run : Type 0 → Type 0 → Type 0
Run W A = W → Result A × W

abbrev wrap_result : {A : Type 0} → Site → Result A → Result A
wrap_result site (ok a) = ok a
wrap_result site (err e) = err (wrapped site e)
wrap_result site crash = crash

abbrev attempted : {A : Type 0} → Result A → Result (Option A)
attempted (ok a) = ok (some a)
attempted (err e) = ok none
attempted crash = crash

module _ {W A : Type 0} where
  abbrev pub pure : A → Run W A
  pure a w = (ok a, w)

  abbrev pub fail : Error → Run W A
  fail e w = (err e, w)

  abbrev pub panic : Run W A
  panic w = (crash, w)

  -- `if err != nil { return fmt.Errorf("…", err) }`
  abbrev pub wrap : Site → Run W A → Run W A
  wrap site m w = (wrap_result site (m w).0, (m w).1)

  -- `if err != nil { glog.Error(…) }`: the error is logged, and the code goes on.
  abbrev pub attempt : Run W A → Run W (Option A)
  attempt m w = (attempted (m w).0, (m w).1)

module _ {W A B : Type 0} where
  abbrev continue : Result A → (A → Run W B) → Run W B
  continue (ok a) f w = f a w
  continue (err e) f w = (err e, w)
  continue crash f w = (crash, w)

  infixl 5 ◌>>=◌ ◌>>◌
  abbrev pub ◌>>=◌ : Run W A → (A → Run W B) → Run W B
  ◌>>=◌ m f w = continue (m w).0 f (m w).1

  abbrev pub ◌>>◌ : Run W A → Run W B → Run W B
  m >> k = m >>= λ _. k
