-- ===== src/Command/Main.antt =====
-- The main function (cmd/lvs-controller/main.go): the application of the command-line library, which
-- is a parameter, and its action. The servers for profiling are left out.
pub mod Sorted
pub mod Endings
use lvs_nginx_controller.Base.{
  Bool, true, false, Option, none, some, ◌≡◌, List, [], ◌∷◌, ◌++◌, if◌then◌else◌, ltb, ◌==◌, nat_eq,
  ◌||◌, ◌&&◌, ℕ,
}
use lvs_nginx_controller.Base.Text.{Text, codes}
use lvs_nginx_controller.Config.{Flag, string_flag, bool_flag, App}
use lvs_nginx_controller.Ipvs.Go.{Error, Result, ok, err, crash}
use lvs_nginx_controller.Ipvs.System.{System}
use lvs_nginx_controller.Controller.Cluster.{Client}
use lvs_nginx_controller.Controller.State.{Controller}
use lvs_nginx_controller.Command.{Options, new_options, add_flags, Kubernetes, run_controller}
use lvs_nginx_controller.Command.Flags.{
  Argument, set_arguments, set_defaults, flag_names, accepts, are_plain,
}

-- `GetName` of a flag
abbrev pub flag_name : {O : Type 0} → Flag O → Text
flag_name (string_flag name usage set) = name
flag_name (bool_flag name usage set) = name

-- `<` of strings
unfoldable pub text_less : Text → Text → Bool
text_less s [] = false
text_less [] (c ∷ t) = true
text_less (b ∷ s) (c ∷ t) = let rest = text_less s t in ltb b c || (b == c && rest)

-- `sort.Sort`, for a `Less` by which any two elements differ
unfoldable pub insert_sorted : {A : Type 0} → (A → A → Bool) → A → List A → List A
insert_sorted less a [] = a ∷ []
insert_sorted less a (b ∷ l) =
    let rest = insert_sorted less a l in if less b a then b ∷ rest else a ∷ b ∷ l

unfoldable pub sort : {A : Type 0} → (A → A → Bool) → List A → List A
sort less [] = []
sort less (a ∷ l) = insert_sorted less a (sort less l)

-- `cli.ExitError`
pub record ExitError : Type 0 where
  pub message : Text
  pub code : ℕ

module _ (S : System) where
  -- How a call of `RunController` ends: it returns, stays in `Run`, whose stop channel is never
  -- closed, with its client and controller, or panics.
  pub data Ending (A : Type 0) : Type 0 where
    returned : A → Ending A
    running : Client S.World → Controller S → Ending A
    panicked : Ending A

  -- The fields of `cli.App` that `main` sets.
  pub record Program : Type 0 where
    pub name : Text
    pub usage : Text
    pub version : Text
    pub app : App Options
    pub action : Options → S.World → Ending (Option ExitError) × S.World

  -- The library: `FlagsByName.Less`, `Run`, which reads the arguments into the options and returns
  -- the program's exit code, and how an error of Kubernetes prints.
  pub record Cli : Type 0 where
    pub less : Flag Options → Flag Options → Bool
    pub run : Program → List Argument → Options → S.World → Ending ℕ × S.World
    pub print : Error → Text

  -- What the action makes of the result of `RunController`.
  abbrev pub acted :
      Cli → Result (Client S.World × Controller S) × S.World → Ending (Option ExitError) × S.World
  acted cli (ok (C, c), w) = (running C c, w)
  acted cli (err e, w) = (
    returned (
        some (record {
          message = codes "failed to run ipvs controller, err is " ++ cli.print e ++ (10 ∷ []);
          code = 1;
        })),
    w,
  )
  acted cli (crash, w) = (panicked, w)

  -- `app.Action`
  unfoldable pub app_action :
      Cli → Kubernetes S → Options → S.World → Ending (Option ExitError) × S.World
  app_action cli k opts w = acted cli (run_controller S k opts w)

  -- The application that `main` runs.
  unfoldable pub main_program : Cli → Kubernetes S → Program
  main_program cli k = record {
    name = codes "ipvs-controller";
    usage =
        codes
          "sync k8s ingress-controller resources for ip_vs loadbalancer\n    This controller is intented to used at L4 level, but we need to config ports 80&443 definitivily\n    when combining used with nginx-ingress-controller";
    version = codes "beta 1.0";
    app = record { flags = sort cli.less (add_flags (record { flags = [] })).flags };
    action = app_action cli k;
  }

  -- `main`
  unfoldable pub main : Cli → Kubernetes S → List Argument → S.World → Ending ℕ × S.World
  main cli k args w = cli.run (main_program cli k) args new_options w

  -- The exit code: that of the action's error, or else 0.
  abbrev pub exit_code : Option ExitError → ℕ
  exit_code none = 0
  exit_code (some e) = e.code

  abbrev pub coded : Ending (Option ExitError) × S.World → Ending ℕ × S.World
  coded (returned e, w) = (returned (exit_code e), w)
  coded (running C c, w) = (running C c, w)
  coded (panicked, w) = (panicked, w)

  -- What is documented of the library: flags are sorted by their names, and `Run` sets the flags'
  -- destinations to their defaults and then to the arguments, and exits with the action's error.
  -- This is where each argument gives a flag of the application a value of its type, and the flags
  -- have distinct names, of which the library uses none; of other arguments, such as an unknown flag
  -- or the flags for help and the version, `Run` returns before the action.
  pub record IsCliLibrary (cli : Cli) : Type 0 where
    pub less_by_name : (f g : Flag Options) → cli.less f g ≡ text_less (flag_name f) (flag_name g)
    pub runs :
        (p : Program) (args : List Argument) (o : Options) (w : S.World)
        → are_plain (flag_names p.app.flags) ≡ true
        → accepts p.app.flags args ≡ true
        → cli.run p args o w
          ≡ coded (p.action (set_arguments p.app.flags args (set_defaults p.app.flags o)) w)
