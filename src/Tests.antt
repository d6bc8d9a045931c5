-- ===== src/Tests.antt =====
-- A system in memory, that keeps the reference table of Ipvs/Table, and the data of the tests.
mod Kernel
mod Marks
mod Texts
mod Events
mod Runs
mod Reconcile
mod Command
mod Passes
mod Schedules
mod Copies
mod Informers
mod Clients
mod Simple
mod Lookups
mod Connect
use lvs_nginx_controller.Base.{
  ℕ, refl, true, false, none, some, List, [], ◌∷◌, ◌==◌, nat_eq, list_eq,
}
use lvs_nginx_controller.Base.Text.{Text, codes}
use lvs_nginx_controller.Config.{Config}
use lvs_nginx_controller.Ipvs.Go.{ok, err, system}
use lvs_nginx_controller.Ipvs.System.{Service, Destination, System}
use lvs_nginx_controller.Ipvs.Table.{
  Table, IsKernel, services, create, remove, attach, detach, list_of,
}
use lvs_nginx_controller.Ipvs.Manager.{LvsManager}

abbrev pub memory : System
memory = record {
  World = Table;
  Handle = Unit {0};
  new_handle = λ t. (ok tt, t);
  flush = λ h t. (ok tt, []);
  list_services = λ h t. (ok (services t), t);
  new_service = λ h s t. create (s.sched_name == codes "rr") s t;
  del_service = λ h s t. remove s t;
  list_destinations = λ h s t. (list_of s t, t);
  new_destination = λ h s d t. attach s d t;
  del_destination = λ h s d t. detach s d t;
  shell = λ command t. ((codes "eth0", none), t);
  intn = λ n t. (7, t);
  parse_ipv6 = λ s. [];
  format_ip = λ ip. [];
}

abbrev pub memory-IsKernel : IsKernel memory tt
memory-IsKernel = record {
  view = λ t. t;
  schedules = λ s. s == codes "rr";
  lists = λ t. refl;
  lists_of = λ s t. refl;
  creates = λ s t. (refl, refl);
  removes = λ s t. (refl, refl);
  attaches = λ s d t. (refl, refl);
  detaches = λ s d t. (refl, refl);
}

abbrev pub manager : LvsManager memory
manager = record {
  initialized = true;
  name = codes "ipvsdr";
  handle = some tt;
  vip = 10 ∷ 0 ∷ 0 ∷ 1 ∷ [];
  sched_name = codes "rr";
  timeout = 30;
  marked = false;
  intf = codes "eth0";
}

-- The service of TCP port 80, and its two destinations.
abbrev pub web : Service
web = record {
  address = 10 ∷ 0 ∷ 0 ∷ 1 ∷ [];
  address_family = 2;
  protocol = 6;
  port = 80;
  sched_name = codes "rr";
  fw_mark = 0;
  timeout = 30;
}

abbrev pub destination : ℕ → Destination
destination n = record { address = 10 ∷ 1 ∷ 0 ∷ n ∷ []; address_family = 2; port = 80 }

abbrev pub table : Table
table = (web, destination 2 ∷ destination 3 ∷ []) ∷ []

abbrev pub config : Config
config = record {
  nginx_server = [];
  sched_name = codes "rr";
  vip = codes "10.0.0.1";
  pnmpp = false;
  idle_timeout = codes "120";
}
