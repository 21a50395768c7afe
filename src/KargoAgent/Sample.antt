-- ===== src/KargoAgent/Sample.antt =====
-- A small platform with one Kargo agent, for the tests of its controller.
use provider_crossplane_akui.Glue.{
  kustomization_string_to_raw, string_ptr_to_time_ptr, validate_kustomization_yaml, Codec,
}
use provider_crossplane_akui.Common.{
  ok, err, Bool-cases, ==_iff, if◌then◌else◌, ◌==◌, String, ◌≡◌, refl, sym, ap, subst, inl, inr,
  Bool, true, false, none, some, [], ◌∷◌, arith,
}
use provider_crossplane_akui.Common.Exec.{pure, raise}
use provider_crossplane_akui.Common.Text.{is_blank, equal_fold}
use provider_crossplane_akui.Reason.{new}
use provider_crossplane_akui.Guard.{new_terminal_write_guard}
use provider_crossplane_akui.Json.{null, end}
use provider_crossplane_akui.Gateway.State.{new_workspace_id_cache, Agent, ClientWorld, GatewayApi}
use provider_crossplane_akui.Gateway.Platform.{errors, client}
use provider_crossplane_akui.KargoAgent.State.{KargoAgentData, KargoAgentParameters, WireAgent}
use provider_crossplane_akui.KargoAgent.Size.{project_custom_kargo_agent_size}
use provider_crossplane_akui.KargoAgent.Convert.{kargo_agent_data_spec_to_api, wire_of, spec_to_api}
use provider_crossplane_akui.KargoAgent.Equivalent.{Renders}
use provider_crossplane_akui.KargoAgent.World.{
  KargoAgentResource, ProtoAgent, AgentApi, AgentWorld, no_agent_data,
}
use provider_crossplane_akui.KargoAgent.Gateway.{gateway_client}

-- YAML is JSON, and a blank text is no document; a time is its text.
abbrev pub codec : Codec String
codec = record {
  yaml = record { unmarshal = λ s. ok (some end); marshal = λ m. ok "patches" };
  yaml_to_json = λ s. if is_blank s then err (new "blank") else ok s;
  json_to_yaml = λ raw. ok raw;
  unmarshal_object = λ raw. ok (some end);
  parse_time = λ s. ok s;
  is_zero = λ t. false;
  format_time = λ t. t;
}

codec-renders :
    (s raw : String)
    → codec.yaml_to_json s ≡ ok raw
    → (t : String) × (codec.json_to_yaml raw ≡ ok t)
      × (is_blank t ≡ false)
      × (codec.yaml_to_json t ≡ ok raw)
codec-renders s raw h = elim (Bool-cases (is_blank s)) [
  | inl b ↦ absurd (ground (arith, h, b))
  | inr b ↦ let e : (s ≡ raw) = ground (arith, h, b) in (s, ap (λ (t : String). ok t) (sym e), b, h)
]

blank-full : is_blank "" ≡ false → ⊥
unfolding is_blank
blank-full h = cc (h)

codec-has_text : (s raw : String) → codec.yaml_to_json s ≡ ok raw → (raw == "") ≡ false
codec-has_text s raw h = elim (Bool-cases (raw == "")) [
  | inr n ↦ n
  | inl e ↦
      let (t, same, b, back) = codec-renders s raw h in
      let q : (is_blank raw ≡ false) = ground (arith, same, b) in
      absurd (blank-full (subst (λ (x : String). is_blank x ≡ false) ((==_iff raw "").0 e) q))
]

pub codec-Renders : Renders codec
codec-Renders = record {
  renders = codec-renders;
  has_text = codec-has_text;
  blank_is_null = λ s raw b h. absurd (ground (arith, h, b));
}

abbrev pub agent_data : KargoAgentData
agent_data = record no_agent_data {
  size = "small";
  kustomization = "{}";
  akuity_managed = some false;
  maintenance_mode_expiry = some "2026-01-01T00:00:00Z";
}

abbrev pub parameters : KargoAgentParameters
parameters = record {
  kargo_instance_id = "i-1";
  kargo_instance_ref = none;
  workspace = "";
  name = "east";
  namespace = "";
  labels = [];
  annotations = [];
  kargo_agent_spec = record { description = "an agent"; agent_data = agent_data };
  target = record { enable_in_cluster = true; secret_name = ""; secret_namespace = "" };
  remove_agent_resources_on_destroy = true;
}

abbrev pub wire : WireAgent String
wire = record {
  name = "east";
  namespace = "";
  labels = [];
  annotations = [];
  description = "an agent";
  wire_data = record {
    size = "small";
    auto_upgrade_disabled = none;
    target_version = "";
    kustomization = "{}";
    remote_argocd = "";
    akuity_managed = some false;
    argocd_namespace = "";
    self_managed_argocd_url = "";
    allowed_job_sa = [];
    maintenance_mode = none;
    maintenance_mode_expiry = some "2026-01-01T00:00:00Z";
    pod_inherit_metadata = none;
    autoscaler_config = none;
  };
}

pub applied : spec_to_api codec parameters ≡ ok wire
unfolding spec_to_api project_custom_kargo_agent_size equal_fold validate_kustomization_yaml
    is_blank wire_of kargo_agent_data_spec_to_api kustomization_string_to_raw string_ptr_to_time_ptr
applied = refl

abbrev pub same_size : KargoAgentParameters → KargoAgentParameters → Bool
same_size p q = p.kargo_agent_spec.agent_data.size == q.kargo_agent_spec.agent_data.size

abbrev pub agent_of : Agent → ProtoAgent String
agent_of a = record {
  id = a.id;
  name = a.name;
  description = "";
  proto_data = none;
  health = some (record { code = 1; message = "" });
  reconciliation = none;
}

-- Manifests can be deleted from the target and not applied to it.
abbrev pub api_of : GatewayApi String String → AgentApi (ClientWorld String) String String
api_of gateways = record {
  client = gateway_client gateways client agent_of (λ x. some x ∷ []);
  errors = errors;
  config = record {
    errors = errors;
    has_client = true;
    get_secret = λ ns n. ok (some "kubeconfig");
    in_cluster = ok "in-cluster";
    parse = λ b. ok b;
    sum = λ s. s;
  };
  codec = codec;
  marshal = λ w. ok null;
  marshal_entry = λ e. ok "agent";
  unmarshal_wire = λ raw. ok wire;
  apply_manifests_to_target = λ t m delete. if delete then pure tt else raise (new "forbidden");
  kube_parent = λ ns n. err (new "no parent");
  equal = same_size;
  encode_request = λ r. ok r.id;
  encode_parameters = λ p. ok "parameters";
  encode = λ v. ok "json";
  sum = λ s. "sum";
}

abbrev pub kargo : ClientWorld String
kargo = record {
  remote = "";
  cache = some (record new_workspace_id_cache { kargo_by_instance = ("i-1", "w-1") ∷ [] });
  writes = some [];
}

abbrev pub resource : String → KargoAgentResource
resource external_name = record {
  meta = record {
    uid = "u-1";
    namespace = "team";
    name = "east";
    external_name = external_name;
    was_deleted = false;
    generation = 1;
    observed_generation = 0;
    conditions = [];
  };
  for_provider = parameters;
  at_provider = record {
    id = "";
    name = "";
    health_status = record { code = 0; message = "" };
    reconciliation_status = record { code = 0; message = "" };
    at_agent_spec = parameters.kargo_agent_spec;
  };
}

abbrev pub world : String → AgentWorld (ClientWorld String)
world external_name = record {
  remote = kargo;
  guard = new_terminal_write_guard;
  mg = resource external_name;
}
