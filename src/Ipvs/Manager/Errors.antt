-- ===== src/Ipvs/Manager/Errors.antt =====
-- The errors that `Add` and `Del` return.
use lvs_nginx_controller.Base.{ℕ, ◌≡◌, ◌≢◌, false, some, nat_eq, list_eq, arith}
use lvs_nginx_controller.Base.Text.{Text}
use lvs_nginx_controller.Ipvs.Go.{
  Error, err, wrapped, unsupported, build_in_add, build_in_del, update_service, list_services,
}
use lvs_nginx_controller.Ipvs.System.{System}
use lvs_nginx_controller.Ipvs.Manager.{LvsManager, tcp, udp, base, ensure_service, add, del}
use lvs_nginx_controller.Ipvs.Manager.Services.{Supported, base_unmarked}

module _ (S : System) (lm : LvsManager S) (daddr : Text) (dport : ℕ) (proto : Text)
    (w : S.World) where
  -- A protocol other than the two is refused by `Add` and by `Del`, before any call.
  pub unsupported_refused :
      proto ≢ tcp
      → proto ≢ udp
      → (add S lm daddr dport proto w ≡ (err (wrapped build_in_add (unsupported proto)), w))
        × (del S lm daddr dport proto w ≡ (err (wrapped build_in_del (unsupported proto)), w))
  unfolding add del base
  unsupported_refused not_tcp not_udp = ground arith

  -- If the services cannot be listed, `Add` returns the error in the two messages of its callers,
  -- and makes no other call. This is without marks.
  add_unlisted :
      (p : ℕ) (h : S.Handle) (e : Error)
      → lm.handle ≡ some h
      → lm.marked ≡ false
      → Supported proto p
      → (S.list_services h w).0 ≡ err e
      → add S lm daddr dport proto w
        ≡ (err (wrapped update_service (wrapped list_services e)), (S.list_services h w).1)
  unfolding add ensure_service
  add_unlisted p h e open_handle unmarked supported unlisted =
      ground (arith, base_unmarked S lm daddr dport p proto w unmarked supported)
