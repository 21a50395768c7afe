-- ===== src/KargoAgent/State.antt =====
-- internal/types/generated/crossplane/v1alpha1/kargoagent_types.go and
-- apis/core/v1alpha1/kargoagent_types.go: the specification of a Kargo agent, and the form in which
-- it crosses the wire. A pointer is an option, and a nil map or slice is the empty list.
use provider_crossplane_akui.Common.{String, Bool, Option, List}
use provider_crossplane_akui.Secrets.{StringMap}
use provider_crossplane_akui.ClusterTypes.{Resources}
use provider_crossplane_akui.Kube.{TargetKubeConfig}

pub record KargoControllerAutoScalingConfig : Type 0 where
  pub resource_minimum : Option Resources
  pub resource_maximum : Option Resources

-- KargoAutoscalerConfig, of which the wire type is a copy.
pub record KargoAutoscalerConfig : Type 0 where
  pub kargo_controller : Option KargoControllerAutoScalingConfig

pub record KargoAgentCustomAgentSizeConfig : Type 0 where
  pub kargo_controller : Option Resources

pub record KargoAgentData : Type 0 where
  pub size : String
  pub auto_upgrade_disabled : Option Bool
  pub target_version : String
  pub kustomization : String
  pub remote_argocd : String
  pub akuity_managed : Option Bool
  pub argocd_namespace : String
  pub self_managed_argocd_url : String
  pub allowed_job_sa : List String
  pub maintenance_mode : Option Bool
  pub maintenance_mode_expiry : Option String
  pub pod_inherit_metadata : Option Bool
  pub autoscaler_config : Option KargoAutoscalerConfig
  pub custom_agent_size_config : Option KargoAgentCustomAgentSizeConfig

pub record KargoAgentSpec : Type 0 where
  pub description : String
  pub agent_data : KargoAgentData

-- `target` stands for the fields of the kubeconfig, as targetKubeConfig puts them together.
pub record KargoAgentParameters : Type 0 where
  pub kargo_instance_id : String
  pub kargo_instance_ref : Option String
  pub workspace : String
  pub name : String
  pub namespace : String
  pub labels : StringMap
  pub annotations : StringMap
  pub kargo_agent_spec : KargoAgentSpec
  pub target : TargetKubeConfig
  pub remove_agent_resources_on_destroy : Bool

-- The wire type, with a raw document (empty if it has none) and a time of type `Tm`.
pub record WireData (Tm : Type 0) : Type 0 where
  pub size : String
  pub auto_upgrade_disabled : Option Bool
  pub target_version : String
  pub kustomization : String
  pub remote_argocd : String
  pub akuity_managed : Option Bool
  pub argocd_namespace : String
  pub self_managed_argocd_url : String
  pub allowed_job_sa : List String
  pub maintenance_mode : Option Bool
  pub maintenance_mode_expiry : Option Tm
  pub pod_inherit_metadata : Option Bool
  pub autoscaler_config : Option KargoAutoscalerConfig

pub record WireAgent (Tm : Type 0) : Type 0 where
  pub name : String
  pub namespace : String
  pub labels : StringMap
  pub annotations : StringMap
  pub description : String
  pub wire_data : WireData Tm
