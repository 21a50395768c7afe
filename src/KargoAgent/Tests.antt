-- ===== src/KargoAgent/Tests.antt =====
-- The controller of Kargo agents over the client of the gateways, on a small platform.
use provider_crossplane_akui.Glue.{
  kustomization_string_to_raw, string_ptr_to_time_ptr, validate_kustomization_yaml,
}
use provider_crossplane_akui.Common.{
  ok, err, ==_refl, String, ◌≡◌, refl, ◌⊎◌, inl, true, some, [], ◌∷◌,
}
use provider_crossplane_akui.Common.Text.{is_blank, equal_fold}
use provider_crossplane_akui.Reason.{Error, foreign, is_terminal}
use provider_crossplane_akui.Guard.{
  TerminalWriteKey, has_resource, write_terminal_fingerprint_part, write_parts,
  new_terminal_write_key,
}
use provider_crossplane_akui.Json.{null}
use provider_crossplane_akui.Gateway.State.{
  by_id, get_entry, inc_api_write, ApplyRequest, GatewayApi,
}
use provider_crossplane_akui.Gateway.Platform.{errors, agent_a, platform}
use provider_crossplane_akui.KargoAgent.State.{KargoAgentParameters}
use provider_crossplane_akui.KargoAgent.Size.{project_custom_kargo_agent_size}
use provider_crossplane_akui.KargoAgent.Convert.{
  kargo_agent_data_spec_to_api, wire_of, spec_to_api, wire_to_spec,
}
use provider_crossplane_akui.KargoAgent.Normalize.{drift_spec}
use provider_crossplane_akui.KargoAgent.NoDrift.{evaluate_drift-exported}
use provider_crossplane_akui.Drift.{evaluate_drift}
use provider_crossplane_akui.KargoAgent.World.{kargo_agent_gvk}
use provider_crossplane_akui.Gateway.Kargo.{
  get_kargo_instance_agent, export_kargo_instance, resolve_kargo_agent_id_by_name,
  choose_kargo_agent_id, find_agent_id, get_kargo_agent_by_id, read_kargo_agent,
  apply_kargo_instance, export_workspace_id, read_kargo_export,
}
use provider_crossplane_akui.Gateway.Workspaces.{
  kargo_workspace_id_for_instance, kargo_workspace_id_for_ref, kargo_workspace_id_for_apply,
}
use provider_crossplane_akui.Base.{has_terminal_write_resource}
use provider_crossplane_akui.Reason.{
  is_kind, is_retryable, is_retryable_grpc, text, as_terminal, classify_apply_error,
}
use provider_crossplane_akui.Kube.{target_fingerprint}
use provider_crossplane_akui.Gateway.Argo.{filled}
use provider_crossplane_akui.KargoAgent.Convert.{build_apply_kargo_instance_request}
use provider_crossplane_akui.KargoAgent.Lookup.{
  resolve_workspace_from_parent, resolve_kargo_instance_id, workspace_of, kargo_agent_write_key,
}
use provider_crossplane_akui.KargoAgent.Observe.{observe_kargo_agent}
use provider_crossplane_akui.KargoAgent.Write.{
  delete_kargo_agent, create_kargo_agent, update_kargo_agent, filled_in,
}
use provider_crossplane_akui.KargoAgent.Rollback.{
  IsCreated, IsRolledBack, create_kargo_agent-IsRolledBack,
}
use provider_crossplane_akui.KargoAgent.Removal.{IsDeletion, delete_kargo_agent-IsDeletion}
use provider_crossplane_akui.KargoAgent.Settled.{IsSettled, observe_kargo_agent-IsSettled}
use provider_crossplane_akui.KargoAgent.Refused.{Refused, IsSilenced, refused_agent-suppressed}
use provider_crossplane_akui.KargoAgent.Sample.{
  codec, codec-Renders, agent_data, parameters, wire, applied, same_size, agent_of, api_of, kargo,
  resource, world,
}

evaluate_drift-exported_example :
    (evaluate_drift same_size
      (λ d (p : Unit {0}). d)
      (drift_spec codec)
      parameters
      (wire_to_spec codec parameters wire)).up_to_date
    ≡ ok true
evaluate_drift-exported_example =
    evaluate_drift-exported codec same_size (λ d p. d) parameters wire codec-Renders
      (λ q. ==_refl q.kargo_agent_spec.agent_data.size) applied

create_kargo_agent-IsRolledBack_example :
    IsCreated (api_of platform) (world "") (create_kargo_agent (api_of platform) (world ""))
    ⊎ IsRolledBack (api_of platform) (world "") (create_kargo_agent (api_of platform) (world ""))
create_kargo_agent-IsRolledBack_example =
    create_kargo_agent-IsRolledBack (api_of platform) (world "")

delete_kargo_agent-IsDeletion_example :
    IsDeletion
      (api_of platform)
      (world "east")
      (delete_kargo_agent (api_of platform) (world "east"))
delete_kargo_agent-IsDeletion_example =
    delete_kargo_agent-IsDeletion (api_of platform) (world "east")

resolved_id :
    (g : GatewayApi String String) (name : String)
    → resolve_kargo_instance_id (api_of g) (resource name) kargo ≡ (ok "i-1", kargo)
unfolding resolve_kargo_instance_id
resolved_id g name = refl

found : (api_of platform).client.get_agent "i-1" "east" kargo ≡ (ok (agent_of agent_a), kargo)
unfolding get_kargo_instance_agent kargo_workspace_id_for_instance get_entry
    resolve_kargo_agent_id_by_name choose_kargo_agent_id find_agent_id get_kargo_agent_by_id
    read_kargo_agent
found = refl

exported : (api_of platform).client.export_agents "i-1" "" kargo ≡ (ok (some null ∷ []), kargo)
unfolding export_kargo_instance export_workspace_id kargo_workspace_id_for_ref get_entry
    read_kargo_export
exported = refl

observe_kargo_agent-IsSettled_example :
    IsSettled (api_of platform) (observe_kargo_agent (api_of platform) (world "east"))
unfolding has_terminal_write_resource has_resource workspace_of resolve_workspace_from_parent
observe_kargo_agent-IsSettled_example =
    observe_kargo_agent-IsSettled (api_of platform) (world "east") "i-1" (agent_of agent_a)
      (some null ∷ []) kargo kargo codec-Renders (λ q. ==_refl q.kargo_agent_spec.agent_data.size)
      (resolved_id platform "east") refl refl found exported
      ("agent", wire, refl, refl, inl applied)

abbrev refusing : GatewayApi String String
refusing = record platform { apply_kargo_instance = λ r s. (some (foreign 1 "denied"), s) }

abbrev denied : Error
denied = foreign 1 "denied"

abbrev sent : KargoAgentParameters
sent = (filled_in (api_of refusing) (world "").mg "i-1").for_provider

abbrev sent_request : ApplyRequest
sent_request = record {
  organization_id = "";
  id_type = by_id;
  id = "i-1";
  workspace_id = "";
  rest = null;
}

abbrev sent_key : TerminalWriteKey
sent_key = record {
  gvk = kargo_agent_gvk;
  uid = "u-1";
  namespace = "team";
  name = "east";
  fingerprint = "sum";
}

request_built : build_apply_kargo_instance_request codec (λ w. ok null) "i-1" sent ≡ ok sent_request
unfolding build_apply_kargo_instance_request spec_to_api project_custom_kargo_agent_size equal_fold
    validate_kustomization_yaml is_blank wire_of kargo_agent_data_spec_to_api
    kustomization_string_to_raw string_ptr_to_time_ptr workspace_of resolve_workspace_from_parent
request_built = refl

key_built : kargo_agent_write_key (api_of refusing) (resource "").meta sent ≡ ok sent_key
unfolding kargo_agent_write_key build_apply_kargo_instance_request spec_to_api
    project_custom_kargo_agent_size equal_fold validate_kustomization_yaml is_blank wire_of
    kargo_agent_data_spec_to_api kustomization_string_to_raw string_ptr_to_time_ptr
    new_terminal_write_key write_parts write_terminal_fingerprint_part workspace_of
    resolve_workspace_from_parent target_fingerprint
key_built = refl

apply_denied : ((api_of refusing).client.apply sent_request kargo).0 ≡ err denied
unfolding apply_kargo_instance kargo_workspace_id_for_apply filled kargo_workspace_id_for_instance
    get_entry inc_api_write
apply_denied = refl

denied_for_good : classify_apply_error errors (some denied) ≡ some (as_terminal denied)
unfolding classify_apply_error is_kind is_retryable is_retryable_grpc text
denied_for_good = refl

terminal_denied : is_terminal (some (as_terminal denied)) ≡ true
unfolding is_kind
terminal_denied = refl

abbrev refused_request : Refused (api_of refusing) (world "")
refused_request = record {
  id = "i-1";
  at = kargo;
  key = sent_key;
  request = sent_request;
  raw = denied;
  fatal = as_terminal denied;
  resolved = resolved_id refusing "";
  named = refl;
  keyed = key_built;
  built = request_built;
  refused = apply_denied;
  classified = denied_for_good;
  is_fatal = terminal_denied;
}

refused_agent-suppressed_example :
    ((create_kargo_agent (api_of refusing) (world "")).0 ≡ some (as_terminal denied))
    × ((update_kargo_agent (api_of refusing) (world "")).0 ≡ some (as_terminal denied))
    × IsSilenced
        (api_of refusing)
        (create_kargo_agent (api_of refusing) (world "")).1
        (as_terminal denied)
    × IsSilenced
        (api_of refusing)
        (update_kargo_agent (api_of refusing) (world "")).1
        (as_terminal denied)
refused_agent-suppressed_example =
    refused_agent-suppressed (api_of refusing) (world "") [] refl refl refused_request
