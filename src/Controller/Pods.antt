-- ===== src/Controller/Pods.antt =====
-- What the events of pods leave in the stores.
use lvs_nginx_controller.Base.{
  ◌≡◌, refl, ◌∙◌, Bool, true, false, [], ◌∷◌, ◌++◌, if◌then◌else◌, nat_eq, list_eq, arith, ◌≢◌,
}
use lvs_nginx_controller.Base.Text.{Text, split}
use lvs_nginx_controller.Base.Text.Split.{split-append}
use lvs_nginx_controller.Base.Dict.{insert, clear-eq-nil}
use lvs_nginx_controller.Validate.{validate_ipv4}
use lvs_nginx_controller.Store.{addition, deletion}
use lvs_nginx_controller.Ipvs.System.{System}
use lvs_nginx_controller.Controller.Cluster.{Pod, Client}
use lvs_nginx_controller.Controller.State.{Controller, plb}
use lvs_nginx_controller.Controller.Listing.{list_cm-addr}
use lvs_nginx_controller.Controller.Handlers.{addr_update_func, event_key}
use lvs_nginx_controller.Controller.Worker.{first_part}

-- The worker reads back the action of a key, whatever the pod is called.
pub first_part-event_key :
    (is_deleted : Bool) (name : Text)
    → first_part (split 95 (event_key is_deleted name))
      ≡ (if is_deleted then deletion else addition)
unfolding list_eq nat_eq
first_part-event_key true name = rw (split-append 95 deletion (name ++ (10 ∷ [])) refl)
first_part-event_key false name = rw (split-append 95 addition (name ++ (10 ∷ [])) refl)

module _ (S : System) (C : Client S.World) where
  -- For a pod of the namespace with a valid address, the handler leaves in its store that one
  -- address, under the action that the deletion timestamp of its first argument calls for, and
  -- sends the pointer. Its second argument plays no part.
  pub addr_update_func_lem :
      (first second : Pod) (c : Controller S) (w : S.World) (ip : Text)
      → first.namespace ≡ c.nginx_server
      → first.pod_ip ≢ []
      → validate_ipv4 first.pod_ip ≡ (true, ip)
      → let c' = (addr_update_func S C first second (c, w)).0 in
        (c'.plbdata.addr ≡ (event_key first.is_deleted first.name, ip) ∷ [])
        × (c'.lbstore ≡ c.lbstore ++ (plb ∷ []))
  unfolding addr_update_func insert
  addr_update_func_lem first second c w ip here addressed valid = ground (
    arith,
    clear-eq-nil c.plbdata.addr,
    list_cm-addr C c.nginx_server
        (record c.plbdata { addr = (event_key first.is_deleted first.name, ip) ∷ [] }) w,
  )

  -- An informer calls an update handler with the old object first. So the update that sets a
  -- pod's deletion timestamp has the handler send the pod's address for addition.
  pub deletion_unseen :
      (old new : Pod) (c : Controller S) (w : S.World) (ip : Text)
      → old.namespace ≡ c.nginx_server
      → old.pod_ip ≢ []
      → validate_ipv4 old.pod_ip ≡ (true, ip)
      → old.is_deleted ≡ false
      → new.is_deleted ≡ true
      → let c' = (addr_update_func S C old new (c, w)).0 in
        (key : Text) × (c'.plbdata.addr ≡ (key, ip) ∷ [])
        × (first_part (split 95 key) ≡ addition)
        × (c'.lbstore ≡ c.lbstore ++ (plb ∷ []))
  deletion_unseen old new c w ip here addressed valid alive dead =
      let r = addr_update_func_lem old new c w ip here addressed valid in
      (
        event_key old.is_deleted old.name,
        r.0,
        first_part-event_key old.is_deleted old.name ∙ rw alive,
        r.1,
      )
