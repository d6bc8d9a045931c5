-- ===== src/Config.antt =====
-- The configuration and its command-line flags (pkg/config/config.go). A flag's destination is the
-- change that a value makes; what reads the command line is the library gopkg.in/urfave/cli.v1.
use lvs_nginx_controller.Base.{Bool, List, [], ◌∷◌, ◌++◌}
use lvs_nginx_controller.Base.Text.{Text, codes}

-- `Config`, without the Kubernetes client, which is a parameter of the controller.
pub record Config : Type 0 where
  pub nginx_server : Text
  pub sched_name : Text
  pub vip : Text
  pub pnmpp : Bool
  pub idle_timeout : Text

-- `cli.StringFlag` and `cli.BoolFlag`, with their names, usages and destinations.
pub data Flag (O : Type 0) : Type 0 where
  string_flag : Text → Text → (Text → O → O) → Flag O
  bool_flag : Text → Text → (Bool → O → O) → Flag O

-- `cli.App`
pub record App (O : Type 0) : Type 0 where
  pub flags : List (Flag O)

-- `AddFlags` of the configuration that `at` reaches.
unfoldable pub add_config_flags : {O : Type 0} → ((Config → Config) → O → O) → App O → App O
add_config_flags at app = record app {
  flags =
      app.flags
      ++ (string_flag (codes "schedname")
            (codes "Ipvs Sched Algorithm Method, currently supported: rr, lc, sh, dh")
            (λ v. at (λ c. record c { sched_name = v }))
          ∷ string_flag (codes "nginxserver")
              (codes "Namespace in which Nginx Controller is deployed")
              (λ v. at (λ c. record c { nginx_server = v }))
          ∷ string_flag (codes "vip") (codes "Virtual IP of our linux virtual server")
              (λ v. at (λ c. record c { vip = v }))
          ∷ string_flag (codes "timeout")
              (codes
                "Idle Timeout for tcp tcpfin udp session, e.x: 120-50-50 will set ipvsadm --set tcp tcpfin udp")
              (λ v. at (λ c. record c { idle_timeout = v }))
          ∷ bool_flag (codes "pnmpp")
              (codes "Persistent Netfilter Marked Packet Persistence, flag: true if set")
              (λ v. at (λ c. record c { pnmpp = v }))
          ∷ []);
}
