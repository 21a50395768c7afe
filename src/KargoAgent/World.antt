-- ===== src/KargoAgent/World.antt =====
-- internal/controller/kargoagent/kargoagent.go: the resource, what its controller calls, and the
-- world. `W` is the state behind the calls, the platform and the target cluster together.
use provider_crossplane_akui.Glue.{Codec}
use provider_crossplane_akui.Common.{
  Result, ok, err, if◌then◌else◌, is_none, ℕ, String, Bool, Option, none, some, List, [],
}
use provider_crossplane_akui.Common.Exec.{Exec}
use provider_crossplane_akui.Reason.{Error, Err, ErrorApi}
use provider_crossplane_akui.Managed.{Meta, Observation}
use provider_crossplane_akui.Guard.{Guard}
use provider_crossplane_akui.Json.{Json}
use provider_crossplane_akui.Secrets.{StringMap}
use provider_crossplane_akui.Kube.{TargetKubeConfig, ConfigApi}
use provider_crossplane_akui.Gateway.State.{ApplyRequest}
use provider_crossplane_akui.KargoAgent.State.{
  KargoAgentData, KargoAgentSpec, KargoAgentParameters, WireData, WireAgent,
}
use provider_crossplane_akui.KargoAgent.Convert.{kargo_agent_data_api_to_spec}

-- ResourceStatusCode
pub record StatusCode : Type 0 where
  pub code : ℕ
  pub message : String

pub record KargoAgentObservation : Type 0 where
  pub id : String
  pub name : String
  pub health_status : StatusCode
  pub reconciliation_status : StatusCode
  pub at_agent_spec : KargoAgentSpec

pub record KargoAgentResource : Type 0 where
  pub meta : Meta
  pub for_provider : KargoAgentParameters
  pub at_provider : KargoAgentObservation

-- kargov1.KargoAgentData; `wire` is marshal.ProtoToWire of it.
pub record ProtoData (Tm : Type 0) : Type 0 where
  pub namespace : String
  pub labels : StringMap
  pub annotations : StringMap
  pub akuity_managed : Bool
  pub wire : Result Error (WireData Tm)

-- kargov1.KargoAgent
pub record ProtoAgent (Tm : Type 0) : Type 0 where
  pub id : String
  pub name : String
  pub description : String
  pub proto_data : Option (ProtoData Tm)
  pub health : Option StatusCode
  pub reconciliation : Option StatusCode

-- What is read of the KargoInstance that a reference names.
pub record KargoParent : Type 0 where
  pub at_id : String
  pub name : String
  pub workspace : String
  pub at_workspace : String

-- The methods of akuity.Client that the controller calls.
pub record KargoClient (W Tm : Type 0) : Type 0 where
  pub get_agent : String → String → Exec Error W (ProtoAgent Tm)
  pub apply : ApplyRequest → Exec Error W (Unit {0})
  -- the agents of an export
  pub export_agents : String → String → Exec Error W (List (Option Json))
  pub delete_agent : String → String → Exec Error W (Unit {0})
  pub get_manifests : String → String → Exec Error W String
  -- the ID of a Kargo instance of a name
  pub get_instance_id : String → Exec Error W String

pub record AgentApi (W Tm C : Type 0) : Type 0 where
  pub client : KargoClient W Tm
  pub errors : ErrorApi
  pub config : ConfigApi C
  pub codec : Codec Tm
  -- marshal.APIModelToPBStruct, and MarshalJSON and json.Unmarshal of an exported agent
  pub marshal : WireAgent Tm → Result Error Json
  pub marshal_entry : Json → Result Error String
  pub unmarshal_wire : String → Result Error (WireAgent Tm)
  pub apply_manifests_to_target : TargetKubeConfig → String → Bool → Exec Error W (Unit {0})
  pub kube_parent : String → String → Result Error KargoParent
  -- cmp.Equal, the encoders of a fingerprint, and the hexadecimal SHA-256
  pub equal : KargoAgentParameters → KargoAgentParameters → Bool
  pub encode_request : ApplyRequest → Result Error String
  pub encode_parameters : KargoAgentParameters → Result Error String
  pub encode : Json → Result Error String
  pub sum : String → String

pub record AgentWorld (W : Type 0) : Type 0 where
  pub remote : W
  pub guard : Guard
  pub mg : KargoAgentResource

pub record AgentAnswer (W : Type 0) : Type 0 where
  pub obs : Observation
  pub error : Err
  pub world : AgentWorld W

abbrev pub kargo_agent_gvk : String
kargo_agent_gvk = "core.akuity.crossplane.io/v1alpha1, Kind=KargoAgent"

abbrev no_status : StatusCode
no_status = record { code = 0; message = "" }

abbrev or_no_status : Option StatusCode → StatusCode
or_no_status none = no_status
or_no_status (some s) = s

-- KargoAgentData{}
abbrev pub no_agent_data : KargoAgentData
no_agent_data = record {
  size = "";
  auto_upgrade_disabled = none;
  target_version = "";
  kustomization = "";
  remote_argocd = "";
  akuity_managed = none;
  argocd_namespace = "";
  self_managed_argocd_url = "";
  allowed_job_sa = [];
  maintenance_mode = none;
  maintenance_mode_expiry = none;
  pod_inherit_metadata = none;
  autoscaler_config = none;
  custom_agent_size_config = none;
}

-- observation.KargoAgent; the spec is set by the controller.
unfoldable pub observed_agent : {Tm : Type 0} → ProtoAgent Tm → KargoAgentObservation
observed_agent a = record {
  id = a.id;
  name = a.name;
  health_status = or_no_status a.health;
  reconciliation_status = or_no_status a.reconciliation;
  at_agent_spec = record { description = ""; agent_data = no_agent_data };
}

module _ {Tm : Type 0} (codec : Codec Tm) where
  -- convertAgentData; a nil result leaves the empty data.
  unfoldable pub convert_agent_data : Option (ProtoData Tm) → KargoAgentData
  convert_agent_data none = no_agent_data
  convert_agent_data (some d) = elim d.wire [
    | err e ↦ no_agent_data
    | ok wire ↦ kargo_agent_data_api_to_spec codec wire
  ]

  abbrev with_managed : Option (ProtoData Tm) → KargoAgentData → KargoAgentData
  with_managed none d = d
  with_managed (some p) d =
      if is_none d.akuity_managed then record d { akuity_managed = some p.akuity_managed } else d

  abbrev proto_namespace : Option (ProtoData Tm) → String
  proto_namespace none = ""
  proto_namespace (some p) = p.namespace

  abbrev proto_map : (ProtoData Tm → StringMap) → Option (ProtoData Tm) → StringMap
  proto_map f none = []
  proto_map f (some p) = f p

  -- apiToSpec
  unfoldable pub api_to_spec : KargoAgentParameters → ProtoAgent Tm → KargoAgentParameters
  api_to_spec desired a = record desired {
    name = a.name;
    namespace = proto_namespace a.proto_data;
    labels = proto_map (λ p. p.labels) a.proto_data;
    annotations = proto_map (λ p. p.annotations) a.proto_data;
    kargo_agent_spec = record {
      description = a.description;
      agent_data = with_managed a.proto_data (convert_agent_data a.proto_data);
    };
  }
