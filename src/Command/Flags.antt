-- ===== src/Command/Flags.antt =====
-- What the flags of the command line make of the options.
use lvs_nginx_controller.Base.{
  ◌≡◌, refl, Bool, true, false, not, ◌&&◌, ◌||◌, List, [], ◌∷◌, ◌==◌, if◌then◌else◌, nat_eq,
  list_eq, contains, arith,
}
use lvs_nginx_controller.Base.Text.{Text, codes}
use lvs_nginx_controller.Config.{Flag, string_flag, bool_flag, App, add_config_flags}
use lvs_nginx_controller.Command.{Options, new_options, add_flags}

-- An argument of the command line: the name of a flag and its value.
pub data Argument : Type 0 where
  text_argument : Text → Text → Argument
  bool_argument : Text → Bool → Argument

module _ {O : Type 0} where
  abbrev pub flag_names : List (Flag O) → List Text
  flag_names [] = []
  flag_names (string_flag name usage set ∷ flags) = name ∷ flag_names flags
  flag_names (bool_flag name usage set ∷ flags) = name ∷ flag_names flags

  -- A flag without an argument sets the zero value.
  abbrev pub set_defaults : List (Flag O) → O → O
  set_defaults [] o = o
  set_defaults (string_flag name usage set ∷ flags) o = set_defaults flags (set [] o)
  set_defaults (bool_flag name usage set ∷ flags) o = set_defaults flags (set false o)

  -- An argument sets the destination of the flag of its name and its type.
  abbrev pub set_argument : List (Flag O) → Argument → O → O
  set_argument [] a o = o
  set_argument (string_flag name usage set ∷ flags) (text_argument n v) o =
      set_argument flags (text_argument n v) (if n == name then set v o else o)
  set_argument (string_flag name usage set ∷ flags) (bool_argument n v) o =
      set_argument flags (bool_argument n v) o
  set_argument (bool_flag name usage set ∷ flags) (text_argument n v) o =
      set_argument flags (text_argument n v) o
  set_argument (bool_flag name usage set ∷ flags) (bool_argument n v) o =
      set_argument flags (bool_argument n v) (if n == name then set v o else o)

  abbrev pub set_arguments : List (Flag O) → List Argument → O → O
  set_arguments flags [] o = o
  set_arguments flags (a ∷ args) o = set_arguments flags args (set_argument flags a o)

  -- Some flag has the name of the argument and its type.
  abbrev pub has_flag : List (Flag O) → Argument → Bool
  has_flag [] a = false
  has_flag (string_flag name usage set ∷ flags) (text_argument n v) =
      n == name || has_flag flags (text_argument n v)
  has_flag (string_flag name usage set ∷ flags) (bool_argument n v) =
      has_flag flags (bool_argument n v)
  has_flag (bool_flag name usage set ∷ flags) (text_argument n v) =
      has_flag flags (text_argument n v)
  has_flag (bool_flag name usage set ∷ flags) (bool_argument n v) =
      n == name || has_flag flags (bool_argument n v)

  -- Each argument gives a flag a value of its type.
  abbrev pub accepts : List (Flag O) → List Argument → Bool
  accepts flags [] = true
  accepts flags (a ∷ args) = has_flag flags a && accepts flags args

-- The flags that the library adds, with their short forms.
abbrev reserved : List Text
reserved = codes "help" ∷ codes "h" ∷ codes "version" ∷ codes "v" ∷ []

-- The names are distinct, and none is of a flag that the library adds.
abbrev pub are_plain : List Text → Bool
are_plain [] = true
are_plain (name ∷ names) =
    not (contains names name) && (not (contains reserved name) && are_plain names)

-- The library sets the flags' destinations to their defaults, and then those of the arguments.
record IsCli (run : App Options → List Argument → Options → Options) : Type 0 where
  sets :
      (app : App Options) (args : List Argument) (o : Options)
      → run app args o ≡ set_arguments app.flags args (set_defaults app.flags o)

-- The last value that the arguments give to a flag, or else the one from before.
abbrev pub last_text : Text → Text → List Argument → Text
last_text name before [] = before
last_text name before (text_argument n v ∷ args) =
    last_text name (if n == name then v else before) args
last_text name before (bool_argument n v ∷ args) = last_text name before args

abbrev pub last_bool : Text → Bool → List Argument → Bool
last_bool name before [] = before
last_bool name before (text_argument n v ∷ args) = last_bool name before args
last_bool name before (bool_argument n v ∷ args) =
    last_bool name (if n == name then v else before) args

abbrev own_app : App Options
own_app = add_flags (record { flags = [] })

abbrev own_flags : List (Flag Options)
own_flags = own_app.flags

-- The fields hold the last values of their flags.
pub record HoldsLast (before : Options) (args : List Argument) (o : Options) : Type 0 where
  pub kubeconfig : o.kubeconfig ≡ last_text (codes "kubeconfig") before.kubeconfig args
  pub debug : o.debug ≡ last_bool (codes "debug") before.debug args
  pub sched_name : o.cfg.sched_name ≡ last_text (codes "schedname") before.cfg.sched_name args
  pub nginx_server :
      o.cfg.nginx_server ≡ last_text (codes "nginxserver") before.cfg.nginx_server args
  pub vip : o.cfg.vip ≡ last_text (codes "vip") before.cfg.vip args
  pub idle_timeout : o.cfg.idle_timeout ≡ last_text (codes "timeout") before.cfg.idle_timeout args
  pub pnmpp : o.cfg.pnmpp ≡ last_bool (codes "pnmpp") before.cfg.pnmpp args

set_argument-HoldsLast :
    (a : Argument) (o : Options) → HoldsLast o (a ∷ []) (set_argument own_flags a o)
unfolding add_flags add_config_flags
set_argument-HoldsLast (text_argument n v) o = record {
  kubeconfig = ground arith;
  debug = ground arith;
  sched_name = ground arith;
  nginx_server = ground arith;
  vip = ground arith;
  idle_timeout = ground arith;
  pnmpp = ground arith;
}
set_argument-HoldsLast (bool_argument n v) o = record {
  kubeconfig = ground arith;
  debug = ground arith;
  sched_name = ground arith;
  nginx_server = ground arith;
  vip = ground arith;
  idle_timeout = ground arith;
  pnmpp = ground arith;
}

last_text-cons :
    (name before : Text) (a : Argument) (args : List Argument)
    → last_text name before (a ∷ args) ≡ last_text name (last_text name before (a ∷ [])) args
last_text-cons name before (text_argument n v) args = refl
last_text-cons name before (bool_argument n v) args = refl

last_bool-cons :
    (name : Text) (before : Bool) (a : Argument) (args : List Argument)
    → last_bool name before (a ∷ args) ≡ last_bool name (last_bool name before (a ∷ [])) args
last_bool-cons name before (text_argument n v) args = refl
last_bool-cons name before (bool_argument n v) args = refl

HoldsLast-cons :
    (a : Argument) (args : List Argument) (before between after : Options)
    → HoldsLast before (a ∷ []) between
    → HoldsLast between args after
    → HoldsLast before (a ∷ args) after
HoldsLast-cons a args before between after h k = record {
  kubeconfig = rw (last_text-cons _ _ a args, ← h.kubeconfig) k.kubeconfig;
  debug = rw (last_bool-cons _ _ a args, ← h.debug) k.debug;
  sched_name = rw (last_text-cons _ _ a args, ← h.sched_name) k.sched_name;
  nginx_server = rw (last_text-cons _ _ a args, ← h.nginx_server) k.nginx_server;
  vip = rw (last_text-cons _ _ a args, ← h.vip) k.vip;
  idle_timeout = rw (last_text-cons _ _ a args, ← h.idle_timeout) k.idle_timeout;
  pnmpp = rw (last_bool-cons _ _ a args, ← h.pnmpp) k.pnmpp;
}

-- Flags each of which is the flag of its own field.
abbrev pub SetsOwn : List (Flag Options) → Type 0
SetsOwn flags = (a : Argument) (o : Options) → HoldsLast o (a ∷ []) (set_argument flags a o)

pub set_arguments-HoldsLast :
    (flags : List (Flag Options))
    → SetsOwn flags
    → (args : List Argument) (o : Options) → HoldsLast o args (set_arguments flags args o)
set_arguments-HoldsLast flags own [] o = record {
  kubeconfig = refl;
  debug = refl;
  sched_name = refl;
  nginx_server = refl;
  vip = refl;
  idle_timeout = refl;
  pnmpp = refl;
}
set_arguments-HoldsLast flags own (a ∷ args) o =
    HoldsLast-cons a args o (set_argument flags a o) _ (own a o)
      (set_arguments-HoldsLast flags own args (set_argument flags a o))

-- No text stands twice in the list.
abbrev pub all_distinct : List Text → Bool
all_distinct [] = true
all_distinct (t ∷ ts) = not (contains ts t) && all_distinct ts

-- Let the library set the destination of each flag to its zero value, and then for each argument
-- that of the flag of its name and type. Then each field of the options holds the last value that
-- the arguments give to the field's own flag, or the zero value that `NewOptions` gives it where
-- there is none. No two flags have the same name.
run-add_flags :
    (run : App Options → List Argument → Options → Options)
    → IsCli run
    → (args : List Argument) (o : Options)
    → HoldsLast new_options args (run (add_flags (record { flags = [] })) args o)
      × (all_distinct (flag_names (add_flags (record { flags = [] })).flags) ≡ true)
unfolding new_options add_flags add_config_flags nat_eq list_eq
run-add_flags run cli args o = (
  rw (cli.sets own_app args o)
      (set_arguments-HoldsLast own_flags set_argument-HoldsLast args new_options),
  refl,
)
