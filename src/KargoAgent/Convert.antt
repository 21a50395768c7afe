-- ===== src/KargoAgent/Convert.antt =====
-- internal/controller/kargoagent/convert.go, with the converters that it calls: of a Kargo agent's
-- data (internal/types/generated/crossplane/v1alpha1/kargoagent_convert.go).
use provider_crossplane_akui.Glue.{
  Codec, validate_kustomization_yaml, kustomization_string_to_raw, kustomization_raw_to_string,
  string_ptr_to_time_ptr, time_ptr_to_string_ptr,
}
use provider_crossplane_akui.Common.{
  Result, ok, err, ◌>>=◌, map_err, String, ◌<>◌, Bool, false, Option, none, some,
}
use provider_crossplane_akui.Reason.{Error, wrap}
use provider_crossplane_akui.Json.{Json}
use provider_crossplane_akui.Gateway.State.{by_id, ApplyRequest}
use provider_crossplane_akui.KargoAgent.State.{
  KargoAgentData, KargoAgentParameters, WireData, WireAgent,
}
use provider_crossplane_akui.KargoAgent.Size.{project_custom_kargo_agent_size}

module _ {Tm : Type 0} (codec : Codec Tm) where
  -- KargoAgentDataSpecToAPI and back; the pointers are not nil where these are called.
  unfoldable pub kargo_agent_data_spec_to_api : KargoAgentData → WireData Tm
  kargo_agent_data_spec_to_api d = record {
    size = d.size;
    auto_upgrade_disabled = d.auto_upgrade_disabled;
    target_version = d.target_version;
    kustomization = kustomization_string_to_raw codec d.kustomization;
    remote_argocd = d.remote_argocd;
    akuity_managed = d.akuity_managed;
    argocd_namespace = d.argocd_namespace;
    self_managed_argocd_url = d.self_managed_argocd_url;
    allowed_job_sa = d.allowed_job_sa;
    maintenance_mode = d.maintenance_mode;
    maintenance_mode_expiry = string_ptr_to_time_ptr codec d.maintenance_mode_expiry;
    pod_inherit_metadata = d.pod_inherit_metadata;
    autoscaler_config = d.autoscaler_config;
  }

  unfoldable pub kargo_agent_data_api_to_spec : WireData Tm → KargoAgentData
  kargo_agent_data_api_to_spec d = record {
    size = d.size;
    auto_upgrade_disabled = d.auto_upgrade_disabled;
    target_version = d.target_version;
    kustomization = kustomization_raw_to_string codec d.kustomization;
    remote_argocd = d.remote_argocd;
    akuity_managed = d.akuity_managed;
    argocd_namespace = d.argocd_namespace;
    self_managed_argocd_url = d.self_managed_argocd_url;
    allowed_job_sa = d.allowed_job_sa;
    maintenance_mode = d.maintenance_mode;
    maintenance_mode_expiry = time_ptr_to_string_ptr codec d.maintenance_mode_expiry;
    pod_inherit_metadata = d.pod_inherit_metadata;
    autoscaler_config = d.autoscaler_config;
    custom_agent_size_config = none;
  }

  unfoldable pub wire_of : KargoAgentParameters → KargoAgentData → WireAgent Tm
  wire_of p d = record {
    name = p.name;
    namespace = p.namespace;
    labels = p.labels;
    annotations = p.annotations;
    description = p.kargo_agent_spec.description;
    wire_data = kargo_agent_data_spec_to_api d;
  }

  unfoldable pub spec_to_api : KargoAgentParameters → Result Error (WireAgent Tm)
  spec_to_api p =
      let (failed, d) =
        project_custom_kargo_agent_size codec.yaml p.name p.kargo_agent_spec.agent_data in
      elim failed [
        | some e ↦ err e
        | none ↦ elim (validate_kustomization_yaml codec d.kustomization) [
          | some e ↦ err (wrap "spec.forProvider.kargoAgentSpec.data.kustomization" e)
          | none ↦ ok (wire_of p d)
        ]
      ]

  -- `marshal` is marshal.APIModelToPBStruct, and `agents` what a request with one agent holds
  -- beside its ID.
  unfoldable pub build_apply_kargo_instance_request :
      (WireAgent Tm → Result Error Json) → String → KargoAgentParameters → Result Error ApplyRequest
  build_apply_kargo_instance_request marshal instance_id p = spec_to_api p >>= λ wire.
      map_err (wrap ("could not marshal kargo agent " <> p.name <> " to protobuf struct")) (
        marshal wire >>= λ agents. ok (record {
          organization_id = "";
          id_type = by_id;
          id = instance_id;
          workspace_id = p.workspace;
          rest = agents;
        }))

  -- The flag that the wire leaves out where it is false.
  abbrev pub kept_managed : Option Bool → Option Bool → Option Bool
  kept_managed (some false) none = some false
  kept_managed _ observed = observed

  unfoldable pub wire_to_spec : KargoAgentParameters → WireAgent Tm → KargoAgentParameters
  wire_to_spec desired wire =
      let d = kargo_agent_data_api_to_spec wire.wire_data in
      record desired {
        name = wire.name;
        namespace = wire.namespace;
        labels = wire.labels;
        annotations = wire.annotations;
        kargo_agent_spec = record {
          description = wire.description;
          agent_data = record d {
            akuity_managed =
                kept_managed desired.kargo_agent_spec.agent_data.akuity_managed d.akuity_managed;
          };
        };
      }
