-- ===== src/Ipvs/Manager.antt =====
-- `LvsManager` and its methods (pkg/provider/ipvs/ipvsdr.go), over any `System`.
pub mod Services
pub mod Removal
pub mod RealServer
pub mod Sound
pub mod Start
pub mod Marks
pub mod Marked
pub mod Errors
pub mod Unpacked
use lvs_nginx_controller.Base.{
  ℕ, ◌+◌, ◌/◌, ◌%◌, ◌^◌, Bool, true, false, ◌&&◌, ◌||◌, Option, none, some, List, [], ◌∷◌, ◌++◌,
  ◌==◌, ltb, leb, if◌then◌else◌, nat_eq, list_eq,
}
use lvs_nginx_controller.Base.Text.{Text, codes, remove_all}
use lvs_nginx_controller.Base.Text.Number.{ℤ, number, failed, Parsed, atoi, low_word, decimal}
use lvs_nginx_controller.Config.{Config}
use lvs_nginx_controller.Net.{Ip, ip_equal, parse_ip}
use lvs_nginx_controller.Ipvs.System.{Service, Destination, System}
use lvs_nginx_controller.Ipvs.Go.{
  Error, ok, Run, pure, fail, panic, wrap, attempt, ◌>>=◌, ◌>>◌, build_in_add, update_service,
  add_destination, build_in_del, remove_destination, clear_dead, list_services, list_destinations,
  relist_destinations, create_service, clear_service, init_iptables, unsupported,
}

abbrev pub tcp : Text
tcp = codes "tcp"

abbrev pub udp : Text
udp = codes "udp"

abbrev pub provider_name : Text
provider_name = codes "ipvsdr"

-- `syscall.IPPROTO_TCP`, `syscall.IPPROTO_UDP` and `syscall.AF_INET`
abbrev pub ipproto_tcp : ℕ
ipproto_tcp = 6

abbrev pub ipproto_udp : ℕ
ipproto_udp = 17

abbrev pub af_inet : ℕ
af_inet = 2

-- `string(n)` of a uint16: the UTF-8 bytes of the code point n, and of U+FFFD for a surrogate
unfoldable pub rune_text : ℕ → Text
rune_text n =
    if ltb n 0x80
    then n ∷ []
    else if ltb n 0x800
    then (192 + n / 64) ∷ (128 + n % 64) ∷ []
    else if leb 0xD800 n && ltb n 0xE000
    then 239 ∷ 191 ∷ 189 ∷ []
    else (224 + n / 4096) ∷ (128 + n / 64 % 64) ∷ (128 + n % 64) ∷ []

-- The number that `Atoi` returns, whether or not it returns an error too.
abbrev pub atoi_value : Parsed → ℤ
atoi_value (number n) = n
atoi_value (failed e n) = n

-- The command of `Fwmark`, of its vip, interface, port and mark.
unfoldable pub mark_command : Text → Text → Text → ℕ → Text
mark_command vip intf dport mark =
    codes "iptables -t mangle -A PREROUTING -d "
    ++ (vip
        ++ (codes " -i "
            ++ (intf
                ++ (codes " -p tcp -dport "
                    ++ (dport ++ (codes " -j MARK --set-mark " ++ decimal mark))))))

abbrev pub flush_command : Text
flush_command = codes "iptables -t mangle -F"

abbrev pub route_command : Text
route_command = codes "ip r|grep default|awk {'print $5'}"

abbrev pub is_empty : List Destination → Bool
is_empty [] = true
is_empty (d ∷ dsts) = false

module _ (S : System) where
  -- `LvsManager`
  pub record LvsManager : Type 0 where
    pub initialized : Bool
    pub name : Text
    pub handle : Option S.Handle
    pub vip : Ip
    pub sched_name : Text
    pub timeout : ℕ
    pub marked : Bool
    pub intf : Text

  -- `NewLvsManager`
  unfoldable pub new_lvs_manager : LvsManager
  new_lvs_manager = record {
    initialized = false;
    name = [];
    handle = none;
    vip = [];
    sched_name = [];
    timeout = 0;
    marked = false;
    intf = [];
  }

  -- A call through `lm.handle` panics while that is nil.
  abbrev with_handle : {A : Type 0} → Option S.Handle → (S.Handle → Run S.World A) → Run S.World A
  with_handle none f = panic
  with_handle (some h) f = f h

  abbrev lift : {A : Type 0} → (S.World → A × S.World) → Run S.World A
  lift m w = (ok (m w).0, (m w).1)

  -- `Fwmark`
  unfoldable pub fwmark : LvsManager → ℕ → Run S.World ℕ
  fwmark lm dport = do
    nfwmark ← lift (S.intn 100)
    _ ← lift (S.shell (mark_command (S.format_ip lm.vip) lm.intf (rune_text dport) nfwmark))
    pure (nfwmark % 2 ^ 32)

  -- The end of `Base`, with the protocol and the mark that its switch has found.
  unfoldable pub service_of : LvsManager → ℕ → ℕ → ℕ → Service
  service_of lm dport protocol mark = record {
    address = lm.vip;
    address_family = af_inet;
    protocol = protocol;
    port = dport;
    sched_name = lm.sched_name;
    fw_mark = mark;
    timeout = lm.timeout;
  }

  unfoldable pub destination_of : Text → ℕ → Destination
  destination_of daddr dport = record {
    address = parse_ip S.parse_ipv6 daddr;
    address_family = af_inet;
    port = dport;
  }

  -- `Base`
  unfoldable pub base : LvsManager → Text → ℕ → Text → Run S.World (Service × Destination)
  base lm daddr dport proto =
      if proto == udp
      then pure (service_of lm dport ipproto_udp 0, destination_of daddr dport)
      else if proto == tcp
      then (do
        mark ← if lm.marked then fwmark lm dport else pure 0
        pure (service_of lm dport ipproto_tcp mark, destination_of daddr dport))
      else fail (unsupported proto)

  -- The loop of `EnsureService`.
  unfoldable pub service_exists : Service → List Service → Bool
  service_exists svc [] = false
  service_exists svc (s ∷ svcs) =
      (s.port == svc.port && s.protocol == svc.protocol) || service_exists svc svcs

  -- `EnsureService`
  unfoldable pub ensure_service : LvsManager → Service → Run S.World (Unit {0})
  ensure_service lm svc = do
    svcs ← wrap list_services (with_handle lm.handle S.list_services)
    if service_exists svc svcs
        then pure tt
        else wrap create_service (with_handle lm.handle λ h. S.new_service h svc)

  -- The loop of `EnsureDestination`.
  unfoldable pub destination_exists : Destination → List Destination → Bool
  destination_exists dst [] = false
  destination_exists dst (d ∷ dsts) =
      (ip_equal d.address dst.address && d.port == dst.port) || destination_exists dst dsts

  -- `EnsureDestination`
  unfoldable pub ensure_destination : LvsManager → Service → Destination → Run S.World (Unit {0})
  ensure_destination lm svc dst = do
    dsts ← wrap list_destinations (with_handle lm.handle λ h. S.list_destinations h svc)
    if destination_exists dst dsts
        then pure tt
        else wrap add_destination (with_handle lm.handle λ h. S.new_destination h svc dst)

  -- `DeleteDeadSvc`
  unfoldable pub delete_dead_svc : LvsManager → Service → Run S.World (Unit {0})
  delete_dead_svc lm svc = do
    dsts ← wrap list_destinations (with_handle lm.handle λ h. S.list_destinations h svc)
    if is_empty dsts
        then wrap clear_service (with_handle lm.handle λ h. S.del_service h svc)
        else pure tt

  -- `DeleteDestination`
  unfoldable pub delete_destination : LvsManager → Service → Destination → Run S.World (Unit {0})
  delete_destination lm svc dst = do
    wrap remove_destination (with_handle lm.handle λ h. S.del_destination h svc dst)
    wrap clear_dead (delete_dead_svc lm svc)

  -- `Add`
  unfoldable pub add : LvsManager → Text → ℕ → Text → Run S.World (Unit {0})
  add lm daddr dport proto = do
    (svc, dst) ← wrap build_in_add (base lm daddr dport proto)
    wrap update_service (ensure_service lm svc)
    _ ← attempt (ensure_destination lm svc dst)
    pure tt

  -- `Del`
  unfoldable pub del : LvsManager → Text → ℕ → Text → Run S.World (Unit {0})
  del lm daddr dport proto = do
    (svc, dst) ← wrap build_in_del (base lm daddr dport proto)
    _ ← attempt (delete_destination lm svc dst)
    pure tt

  -- The inner loop of `DelRServer`.
  unfoldable pub delete_matching :
      LvsManager → Text → Service → List Destination → Run S.World (Unit {0})
  delete_matching lm saddr s [] = pure tt
  delete_matching lm saddr s (d ∷ dsts) =
      let rest = delete_matching lm saddr s dsts in
      if ip_equal d.address (parse_ip S.parse_ipv6 saddr)
      then (wrap remove_destination (with_handle lm.handle λ h. S.del_destination h s d) >> rest)
      else rest

  -- The body of the outer loop of `DelRServer`.
  unfoldable pub clear_address : LvsManager → Text → Service → Run S.World (Unit {0})
  clear_address lm saddr s = do
    dsts ← wrap list_destinations (with_handle lm.handle λ h. S.list_destinations h s)
    delete_matching lm saddr s dsts
    left ← wrap relist_destinations (with_handle lm.handle λ h. S.list_destinations h s)
    if is_empty left
        then wrap clear_service (with_handle lm.handle λ h. S.del_service h s)
        else pure tt

  unfoldable pub clear_addresses : LvsManager → Text → List Service → Run S.World (Unit {0})
  clear_addresses lm saddr [] = pure tt
  clear_addresses lm saddr (s ∷ svcs) = clear_address lm saddr s >> clear_addresses lm saddr svcs

  -- `DelRServer`
  unfoldable pub del_r_server : LvsManager → Text → Run S.World (Unit {0})
  del_r_server lm addr = do
    svcs ← wrap list_services (with_handle lm.handle S.list_services)
    clear_addresses lm addr svcs

  -- `Intf`: the output counts, whether or not the command failed.
  unfoldable pub interface_name : Run S.World Text
  interface_name = do (output, e) ← lift (S.shell route_command); pure (remove_all 10 output)

  abbrev failing : (Text × Option Error) → Run S.World (Unit {0})
  failing (output, none) = pure tt
  failing (output, some e) = fail e

  -- `initIptables`
  unfoldable pub flush_iptables : Run S.World (Unit {0})
  flush_iptables = wrap init_iptables (lift (S.shell flush_command) >>= failing)

  -- `Init`
  unfoldable pub init : LvsManager → Config → Run S.World LvsManager
  init lm cfg = if lm.initialized then pure lm else do
    intf ← interface_name
    handle ← attempt S.new_handle
    _ ← attempt (with_handle handle S.flush)
    _ ← attempt flush_iptables
    pure (record {
      initialized = true;
      name = provider_name;
      handle = handle;
      vip = parse_ip S.parse_ipv6 cfg.vip;
      sched_name = cfg.sched_name;
      timeout = low_word (2 ^ 32) (atoi_value (atoi cfg.idle_timeout));
      marked = cfg.pnmpp;
      intf = intf;
    })
