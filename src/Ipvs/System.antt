-- ===== src/Ipvs/System.antt =====
-- What ipvsdr.go (pkg/provider/ipvs) calls and does not implement: the library libipvs, the shell,
-- random numbers, and the parts of package net on IPv6. They are a parameter of the model.
use lvs_nginx_controller.Base.{ℕ, Option, List}
use lvs_nginx_controller.Base.Text.{Text}
use lvs_nginx_controller.Net.{Ip}
use lvs_nginx_controller.Ipvs.Go.{Error, Run}

-- `libipvs.Service` and `libipvs.Destination`, with the fields that this program sets or reads.
pub record Service : Type 0 where
  pub address : Ip
  pub address_family : ℕ
  pub protocol : ℕ
  pub port : ℕ
  pub sched_name : Text
  pub fw_mark : ℕ
  pub timeout : ℕ

pub record Destination : Type 0 where
  pub address : Ip
  pub address_family : ℕ
  pub port : ℕ

pub record System : Type 1 where
  pub World : Type 0
  pub Handle : Type 0
  -- `libipvs.New` and the methods of `libipvs.IPVSHandle`
  pub new_handle : Run World Handle
  pub flush : Handle → Run World (Unit {0})
  pub list_services : Handle → Run World (List Service)
  pub new_service : Handle → Service → Run World (Unit {0})
  pub del_service : Handle → Service → Run World (Unit {0})
  pub list_destinations : Handle → Service → Run World (List Destination)
  pub new_destination : Handle → Service → Destination → Run World (Unit {0})
  pub del_destination : Handle → Service → Destination → Run World (Unit {0})
  -- `exec.Command("/bin/sh", "-c", cmd).CombinedOutput()`: the output, and the error if any
  pub shell : Text → World → (Text × Option Error) × World
  -- `rand.Intn(n)`
  pub intn : ℕ → World → ℕ × World
  -- `net.ParseIP` of a text with a colon before any dot, and `%v` of an address
  pub parse_ipv6 : Text → Ip
  pub format_ip : Ip → Text
