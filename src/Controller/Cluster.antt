-- ===== src/Controller/Cluster.antt =====
-- What the controller sees of Kubernetes: pods, config maps, and a client that lists them. The
-- client is a parameter.
use lvs_nginx_controller.Base.{Bool, true, false, List, [], Option, none, some, nat_eq, list_eq}
use lvs_nginx_controller.Base.Text.{Text}
use lvs_nginx_controller.Base.Dict.{Dict}
use lvs_nginx_controller.Base.Dict.DeepEqual.{deep_equal}

-- `v1.Pod`, with the fields that this program reads. `is_deleted` tells whether the deletion
-- timestamp is set.
pub record Pod : Type 0 where
  pub name : Text
  pub namespace : Text
  pub pod_ip : Text
  pub is_deleted : Bool

-- `v1.ConfigMap`
pub record ConfigMap : Type 0 where
  pub name : Text
  -- the map, or `none` for nil
  pub data_map : Option (Dict Text Text)

-- What a range over the data goes through: of nil, nothing.
abbrev entries_or_none : Option (Dict Text Text) → Dict Text Text
entries_or_none none = []
entries_or_none (some d) = d

abbrev pub entries : ConfigMap → Dict Text Text
entries cm = entries_or_none cm.data_map

abbrev same_maps : Option (Dict Text Text) → Option (Dict Text Text) → Bool
same_maps none none = true
same_maps (some d) (some e) = deep_equal d e
same_maps _ _ = false

-- `reflect.DeepEqual` of the data, which tells a nil map from an empty one.
abbrev pub same_data : ConfigMap → ConfigMap → Bool
same_data old new = same_maps old.data_map new.data_map

-- The lists of a namespace, or `none` where the call fails.
pub record Client (W : Type 0) : Type 0 where
  pub list_pods : Text → W → Option (List Pod) × W
  pub list_config_maps : Text → W → Option (List ConfigMap) × W
