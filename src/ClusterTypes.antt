-- ===== src/ClusterTypes.antt =====
-- internal/types/generated/crossplane/v1alpha1/cluster_types.go: the specification of a cluster. A
-- pointer is an option.
use provider_crossplane_akui.Common.{String, Bool, Option}
use provider_crossplane_akui.Common.Int.{ℤ}

pub record Resources : Type 0 where
  pub mem : String
  pub cpu : String

pub record DirectClusterSpec : Type 0 where
  pub cluster_type : String
  pub kargo_instance_id : Option String
  pub server : Option String
  pub organization : Option String
  pub token : Option String
  pub ca_data : Option String

pub record ManagedClusterConfig : Type 0 where
  pub secret_name : String
  pub secret_key : String

pub record AppControllerAutoScalingConfig : Type 0 where
  pub resource_minimum : Option Resources
  pub resource_maximum : Option Resources

pub record RepoServerAutoScalingConfig : Type 0 where
  pub resource_minimum : Option Resources
  pub resource_maximum : Option Resources
  pub replica_maximum : ℤ
  pub replica_minimum : ℤ

pub record AutoScalerConfig : Type 0 where
  pub application_controller : Option AppControllerAutoScalingConfig
  pub repo_server : Option RepoServerAutoScalingConfig

pub record RepoServerCustomAgentSizeConfig : Type 0 where
  pub mem : String
  pub cpu : String
  pub replicas : ℤ

pub record ClusterCustomAgentSizeConfig : Type 0 where
  pub application_controller : Option Resources
  pub repo_server : Option RepoServerCustomAgentSizeConfig

pub record ClusterCompatibility : Type 0 where
  pub ipv6_only : Option Bool

pub record ClusterArgoCdNotificationsSettings : Type 0 where
  pub in_cluster_settings : Option Bool

pub record ClusterData : Type 0 where
  pub size : String
  pub auto_upgrade_disabled : Option Bool
  pub kustomization : String
  pub app_replication : Option Bool
  pub target_version : String
  pub redis_tunneling : Option Bool
  pub direct_cluster_spec : Option DirectClusterSpec
  pub datadog_annotations_enabled : Option Bool
  pub eks_addon_enabled : Option Bool
  pub managed_cluster_config : Option ManagedClusterConfig
  pub maintenance_mode : Option Bool
  pub multi_cluster_k8s_dashboard_enabled : Option Bool
  pub autoscaler_config : Option AutoScalerConfig
  pub custom_agent_size_config : Option ClusterCustomAgentSizeConfig
  pub project : String
  pub compatibility : Option ClusterCompatibility
  pub argocd_notifications_settings : Option ClusterArgoCdNotificationsSettings
  pub server_side_diff_enabled : Option Bool
  pub maintenance_mode_expiry : Option String
  pub pod_inherit_metadata : Option Bool

pub record ClusterSpec : Type 0 where
  pub description : String
  pub namespace_scoped : Option Bool
  pub cluster_data : ClusterData
