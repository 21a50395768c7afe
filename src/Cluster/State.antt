-- ===== src/Cluster/State.antt =====
-- internal/controller/cluster/cluster.go: the resource of a cluster, the messages that cross the
-- wire, what the controller calls, and the world.
use provider_crossplane_akui.Common.{
  Result, ℕ, String, Bool, true, false, not, Option, none, some, List,
}
use provider_crossplane_akui.Reason.{Error, Err, ErrorApi}
use provider_crossplane_akui.Managed.{Meta, Observation}
use provider_crossplane_akui.Guard.{Guard}
use provider_crossplane_akui.Json.{Json, Fields}
use provider_crossplane_akui.Glue.{Codec}
use provider_crossplane_akui.ClusterTypes.{
  ClusterData, ClusterSpec, AutoScalerConfig, DirectClusterSpec, ManagedClusterConfig,
  ClusterCompatibility, ClusterArgoCdNotificationsSettings,
}
use provider_crossplane_akui.Gateway.State.{ApplyRequest}
use provider_crossplane_akui.Kube.{TargetKubeConfig, ConfigApi}
use provider_crossplane_akui.Secrets.{StringMap}

-- `target` stands for the fields of the kubeconfig, as targetKubeConfig puts them together.
pub record ClusterParameters : Type 0 where
  pub instance_id : String
  pub instance_ref : Option String
  pub name : String
  pub namespace : String
  pub cluster_spec : ClusterSpec
  pub annotations : StringMap
  pub labels : StringMap
  pub target : TargetKubeConfig
  pub remove_agent_resources_on_destroy : Bool

-- ResourceStatusCode
pub record StatusCode : Type 0 where
  pub code : ℕ
  pub message : String

pub record ClusterObservationAgentState : Type 0 where
  pub version : String
  pub argo_cd_version : String
  pub statuses : List (String × StatusCode)

pub record ClusterObservation : Type 0 where
  pub id : String
  pub name : String
  pub description : String
  pub namespace : String
  pub namespace_scoped : Bool
  pub labels : StringMap
  pub annotations : StringMap
  pub auto_upgrade_disabled : Bool
  pub app_replication : Bool
  pub target_version : String
  pub redis_tunneling : Bool
  pub agent_state : ClusterObservationAgentState
  pub health_status : StatusCode
  pub reconciliation_status : StatusCode
  pub kustomization : String
  pub agent_size : String
  pub at_cluster_spec : ClusterSpec

pub record ClusterResource : Type 0 where
  pub meta : Meta
  pub for_provider : ClusterParameters
  pub at_provider : ClusterObservation

-- argocdv1.ClusterSize
pub data ProtoSize : Type 0 where
  size_unspecified size_small size_medium size_large size_auto : ProtoSize

-- argocdv1.ClusterData, with times of type `T`. The records of the autoscaler, of a managed cluster
-- and of a direct one, whose type stands as the text that it is converted to, are the same on both
-- sides; of the compatibility and the notifications there is the flag that its getter returns.
pub record ProtoClusterData (T : Type 0) : Type 0 where
  pub namespace : String
  pub namespace_scoped : Bool
  pub labels : StringMap
  pub annotations : StringMap
  pub size : ProtoSize
  pub auto_upgrade_disabled : Option Bool
  pub kustomization : Option Json
  pub app_replication : Option Bool
  pub target_version : String
  pub redis_tunneling : Option Bool
  pub direct_cluster_spec : Option DirectClusterSpec
  pub datadog_annotations_enabled : Option Bool
  pub eks_addon_enabled : Option Bool
  pub managed_cluster_config : Option ManagedClusterConfig
  pub maintenance_mode : Option Bool
  pub multi_cluster_k8s_dashboard_enabled : Option Bool
  pub autoscaler_config : Option AutoScalerConfig
  pub project : String
  pub compatibility : Option Bool
  pub argocd_notifications_settings : Option Bool
  pub server_side_diff_enabled : Option Bool
  pub maintenance_mode_expiry : Option T
  pub pod_inherit_metadata : Option Bool

-- argocdv1.AgentState, with the four groups of its statuses, if it has them.
pub record ProtoAgentState : Type 0 where
  pub version : String
  pub argo_cd_version : String
  pub groups : Option (List (List (String × StatusCode)))

-- argocdv1.Cluster; a status that is nil reads as the code 0 and no message. Its data is not nil:
-- the conversion reads fields of it with no check.
pub record ProtoCluster (T : Type 0) : Type 0 where
  pub id : String
  pub name : String
  pub description : String
  pub proto_data : ProtoClusterData T
  pub agent_state : Option ProtoAgentState
  pub health : StatusCode
  pub reconciliation : StatusCode

-- The wire form, with a raw document (empty if it has none).
pub record WireClusterData (T : Type 0) : Type 0 where
  pub size : String
  pub auto_upgrade_disabled : Option Bool
  pub kustomization : String
  pub app_replication : Option Bool
  pub target_version : String
  pub redis_tunneling : Option Bool
  pub direct_cluster_spec : Option DirectClusterSpec
  pub datadog_annotations_enabled : Option Bool
  pub eks_addon_enabled : Option Bool
  pub managed_cluster_config : Option ManagedClusterConfig
  pub maintenance_mode : Option Bool
  pub multi_cluster_k8s_dashboard_enabled : Option Bool
  pub autoscaler_config : Option AutoScalerConfig
  pub project : String
  pub compatibility : Option ClusterCompatibility
  pub argocd_notifications_settings : Option ClusterArgoCdNotificationsSettings
  pub server_side_diff_enabled : Option Bool
  pub maintenance_mode_expiry : Option T
  pub pod_inherit_metadata : Option Bool

pub record WireCluster (T : Type 0) : Type 0 where
  pub name : String
  pub namespace : String
  pub labels : StringMap
  pub annotations : StringMap
  pub description : String
  pub namespace_scoped : Option Bool
  pub wire_data : WireClusterData T

-- The libraries that the conversions call: json.Unmarshal into any value, json.Marshal of a map,
-- the JSON text of a structpb.Struct, and marshal.APIModelToPBStruct.
pub record ClusterCodec (T : Type 0) : Type 0 where
  pub codec : Codec T
  pub unmarshal_any : String → Result Error Json
  pub marshal_object : Fields → Result Error String
  pub remarshal : Json → Result Error String
  pub marshal_wire : WireCluster T → Result Error Json

-- `T` is the type of times, `C` that of kube configurations.
pub record ClusterApi (S T C : Type 0) : Type 0 where
  pub errors : ErrorApi
  pub config : ConfigApi C
  pub codecs : ClusterCodec T
  pub apply_instance : S → ApplyRequest → Err × S
  pub set_maintenance_mode : S → String → String → Bool → Option T → Err × S
  pub get_cluster : S → String → String → Result Error (ProtoCluster T) × S
  pub get_cluster_manifests : S → String → String → Result Error String × S
  pub apply_manifests_to_target : S → TargetKubeConfig → String → Bool → Err × S
  pub delete_cluster : S → String → String → Err × S
  -- the clusters of ExportInstanceByID, the ID of an instance of a name, and the name in the spec
  -- of the Instance that a reference names
  pub export_clusters : S → String → Result Error (List (Option Json)) × S
  pub get_instance_id : S → String → Result Error String × S
  pub kube_instance : String → Result Error String
  -- MarshalJSON and json.Unmarshal of an exported cluster
  pub marshal_entry : Json → Result Error String
  pub unmarshal_wire : String → Result Error (WireCluster T)
  -- Time.Equal, and cmp.Equal
  pub same_time : T → T → Bool
  pub equal : ClusterParameters → ClusterParameters → Bool
  -- the encoders of a fingerprint, and the hexadecimal SHA-256
  pub encode_request : ApplyRequest → Result Error String
  pub encode_parameters : ClusterParameters → Result Error String
  pub encode : Json → Result Error String
  pub sum : String → String

pub record ClusterWorld (S : Type 0) : Type 0 where
  pub remote : S
  pub guard : Guard
  pub mg : ClusterResource

pub record ClusterAnswer (S : Type 0) : Type 0 where
  pub obs : Observation
  pub error : Err
  pub world : ClusterWorld S

abbrev pub cluster_gvk : String
cluster_gvk = "core.akuity.crossplane.io/v1alpha1, Kind=Cluster"

-- `*p`, or false for a nil pointer, and equality of Booleans.
abbrev pub or_false : Option Bool → Bool
or_false none = false
or_false (some b) = b

abbrev pub same_mode : Bool → Bool → Bool
same_mode true b = b
same_mode false b = not b

abbrev pub with_data : ClusterParameters → ClusterData → ClusterParameters
with_data p d = record p { cluster_spec = record (p.cluster_spec) { cluster_data = d } }
