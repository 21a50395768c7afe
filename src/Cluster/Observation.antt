-- ===== src/Cluster/Observation.antt =====
-- internal/types/observation/cluster.go: the status that a cluster of the platform gives.
use provider_crossplane_akui.Common.{
  Result, ok, ◌>>=◌, if◌then◌else◌, ◌==◌, String, Bool, true, false, Option, none, some, List, [],
  ◌∷◌,
}
use provider_crossplane_akui.Reason.{Error}
use provider_crossplane_akui.ClusterTypes.{ClusterData}
use provider_crossplane_akui.Cluster.{
  StatusCode, ClusterObservationAgentState, ClusterObservation, ProtoSize, size_unspecified,
  size_small, size_medium, size_large, size_auto, ProtoAgentState, ProtoCluster, ClusterApi,
  or_false,
}
use provider_crossplane_akui.Cluster.Convert.{pb_struct_to_kustomization_yaml, cluster_data_of}

abbrev pub cluster_size_to_string : ProtoSize → String
cluster_size_to_string size_small = "small"
cluster_size_to_string size_medium = "medium"
cluster_size_to_string size_large = "large"
cluster_size_to_string size_auto = "auto"
cluster_size_to_string size_unspecified = "unspecified"

-- `m[k] = v`
abbrev set_status : String → StatusCode → List (String × StatusCode) → List (String × StatusCode)
set_status k v [] = (k, v) ∷ []
set_status k v ((j, u) ∷ m) = if j == k then (k, v) ∷ m else (j, u) ∷ set_status k v m

-- maps.Copy of a list of maps, in order
abbrev copy_statuses :
    List (String × StatusCode) → List (String × StatusCode) → List (String × StatusCode)
copy_statuses [] m = m
copy_statuses ((k, v) ∷ es) m = copy_statuses es (set_status k v m)

abbrev copy_groups :
    List (List (String × StatusCode)) → List (String × StatusCode) → List (String × StatusCode)
copy_groups [] m = m
copy_groups (g ∷ gs) m = copy_groups gs (copy_statuses g m)

abbrev statuses_of : Option (List (List (String × StatusCode))) → List (String × StatusCode)
statuses_of none = []
statuses_of (some gs) = copy_groups gs []

unfoldable pub cluster_agent_state : Option ProtoAgentState → ClusterObservationAgentState
cluster_agent_state none = record { version = ""; argo_cd_version = ""; statuses = [] }
cluster_agent_state (some a) = record {
  version = a.version;
  argo_cd_version = a.argo_cd_version;
  statuses = statuses_of a.groups;
}

-- boolPtrIfSet
abbrev bool_ptr_if_set : Bool → Option Bool
bool_ptr_if_set true = some true
bool_ptr_if_set false = none

module _ {S T C : Type 0} (api : ClusterApi S T C) where
  -- clusterData: as APIToSpec, but for the size and the flags that are left nil.
  abbrev observed_data : String → ProtoCluster T → ClusterData
  observed_data kustomization c = record (cluster_data_of api.codecs kustomization c.proto_data) {
    size = cluster_size_to_string c.proto_data.size;
    auto_upgrade_disabled = c.proto_data.auto_upgrade_disabled;
    app_replication = c.proto_data.app_replication;
    redis_tunneling = c.proto_data.redis_tunneling;
  }

  -- observation.Cluster
  unfoldable pub observed_cluster : ProtoCluster T → Result Error ClusterObservation
  observed_cluster c =
      let d = c.proto_data in
      pb_struct_to_kustomization_yaml api.codecs d.kustomization >>= λ kustomization. ok (record {
        id = c.id;
        name = c.name;
        description = c.description;
        namespace = d.namespace;
        namespace_scoped = d.namespace_scoped;
        labels = d.labels;
        annotations = d.annotations;
        auto_upgrade_disabled = or_false d.auto_upgrade_disabled;
        app_replication = or_false d.app_replication;
        target_version = d.target_version;
        redis_tunneling = or_false d.redis_tunneling;
        agent_state = cluster_agent_state c.agent_state;
        health_status = c.health;
        reconciliation_status = c.reconciliation;
        kustomization = kustomization;
        agent_size = cluster_size_to_string d.size;
        at_cluster_spec = record {
          description = c.description;
          namespace_scoped = bool_ptr_if_set d.namespace_scoped;
          cluster_data = observed_data kustomization c;
        };
      })
