-- ===== src/Command/Main/Sorted.antt =====
-- The flags in the order in which `main` sorts them set their own fields too.
use mathlib.Core.Path.{subst}
use lvs_nginx_controller.Base.{◌≡◌, refl, sym, true, Bool, List, [], arith, nat_eq, list_eq}
use lvs_nginx_controller.Config.{Flag, add_config_flags}
use lvs_nginx_controller.Ipvs.System.{System}
use lvs_nginx_controller.Command.{Options, new_options, add_flags}
use lvs_nginx_controller.Command.Flags.{
  flag_names, are_plain, Argument, text_argument, bool_argument, set_arguments, set_defaults,
  HoldsLast, SetsOwn, set_arguments-HoldsLast,
}
use lvs_nginx_controller.Command.Main.{flag_name, text_less, insert_sorted, sort, Cli, IsCliLibrary}

abbrev by_name : Flag Options → Flag Options → Bool
by_name f g = text_less (flag_name f) (flag_name g)

abbrev sorted_flags : List (Flag Options)
sorted_flags = sort by_name (add_flags (record { flags = [] })).flags

sorted_flags-SetsOwn : SetsOwn sorted_flags
unfolding add_flags add_config_flags sort insert_sorted text_less nat_eq
sorted_flags-SetsOwn (text_argument n v) o = record {
  kubeconfig = ground arith;
  debug = ground arith;
  sched_name = ground arith;
  nginx_server = ground arith;
  vip = ground arith;
  idle_timeout = ground arith;
  pnmpp = ground arith;
}
sorted_flags-SetsOwn (bool_argument n v) o = record {
  kubeconfig = ground arith;
  debug = ground arith;
  sched_name = ground arith;
  nginx_server = ground arith;
  vip = ground arith;
  idle_timeout = ground arith;
  pnmpp = ground arith;
}

sorted_defaults : (o : Options) → set_defaults sorted_flags o ≡ new_options
unfolding new_options add_flags add_config_flags sort insert_sorted text_less nat_eq
sorted_defaults o = refl

sorted_plain : are_plain (flag_names sorted_flags) ≡ true
unfolding add_flags add_config_flags sort insert_sorted text_less nat_eq list_eq
sorted_plain = refl

-- However the library compares, if it compares by name, the options get the last values of their
-- own flags.
pub main_flags-HoldsLast :
    (S : System) (cli : Cli S)
    → IsCliLibrary S cli
    → (args : List Argument) (o : Options)
    → let flags = sort cli.less (add_flags (record { flags = [] })).flags in
      HoldsLast new_options args (set_arguments flags args (set_defaults flags o))
main_flags-HoldsLast S cli lib args o =
    subst
      (λ less.
        let flags = sort less (add_flags (record { flags = [] })).flags in
        HoldsLast new_options args (set_arguments flags args (set_defaults flags o)))
      (sym (λ i f g. lib.less_by_name f g i))
      (rw (sorted_defaults o)
        (set_arguments-HoldsLast sorted_flags sorted_flags-SetsOwn args new_options))

pub main_flags-are_plain :
    (S : System) (cli : Cli S)
    → IsCliLibrary S cli
    → are_plain (flag_names (sort cli.less (add_flags (record { flags = [] })).flags)) ≡ true
main_flags-are_plain S cli lib =
    subst
      (λ less. are_plain (flag_names (sort less (add_flags (record { flags = [] })).flags)) ≡ true)
      (sym (λ i f g. lib.less_by_name f g i)) sorted_plain
