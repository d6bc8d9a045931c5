-- ===== src/Tests/Clients.antt =====
-- What the tests of the clients share: metadata, a machinery and configurations.
use lvs_nginx_controller.Base.{ℕ, true, Option, none, some, [], ◌==◌, nat_eq, list_eq}
use lvs_nginx_controller.Base.Text.{Text, codes}
use lvs_nginx_controller.Api.{Meta, Configuration}
use lvs_nginx_controller.Clientset.{Machinery}

-- The metadata of an object: its name and its label.
abbrev pub meta : Meta
meta = record { TypeMeta = Unit; ObjectMeta = Text × Text; ListMeta = Unit; Cell = Unit }

abbrev pub machinery : Machinery meta
machinery = record {
  Error = ℕ;
  GetOptions = Unit;
  ListOptions = Option Text;
  DeleteOptions = Unit;
  PatchType = Unit;
  Watch = Unit;
  Labels = Text;
  Selector = Option Text;
  no_type_meta = tt;
  no_object_meta = ([], []);
  no_list_meta = tt;
  name = λ m. m.0;
  labels = λ m. m.1;
  set_watch = λ o. o;
  extract_label = λ o. elim o [ none ↦ none | some l ↦ some (some l) ];
  everything = none;
  matches = λ s l. elim s [ none ↦ true | some t ↦ t == l ];
}

abbrev pub edge : Text → Configuration meta
edge n = record {
  type_meta = tt;
  object_meta = (n, codes "edge");
  tcp_endpoints = none;
  udp_endpoints = some 1;
}
