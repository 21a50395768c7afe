-- ===== src/KargoAgent/Normalize.antt =====
-- internal/controller/kargoagent/kargoagent.go: what the drift comparison changes of the desired
-- parameters. The observed ones stay as they are.
use provider_crossplane_akui.Glue.{Codec}
use provider_crossplane_akui.Common.{
  Result, ok, err, ◌>>=◌, if◌then◌else◌, ◌==◌, nonempty, String, Bool, true, false, not, ◌&&◌, ◌||◌,
  Option, none, some, [],
}
use provider_crossplane_akui.Common.Text.{is_blank, trims_to, same_but_newlines}
use provider_crossplane_akui.Reason.{Error}
use provider_crossplane_akui.Json.{Fields, end, field}
use provider_crossplane_akui.Drift.{DriftSpec}
use provider_crossplane_akui.KargoAgent.State.{KargoAgentData, KargoAgentParameters}
use provider_crossplane_akui.KargoAgent.Size.{is_true, project_custom_kargo_agent_size}

-- `if desired == "" { desired = observed }`
abbrev pub or_observed : String → String → String
or_observed desired observed = if desired == "" then observed else desired

-- normalizePtrField
abbrev pub normalize_ptr_field {ℓ} : {A : Type ℓ} → Option A → Option A → Option A
normalize_ptr_field none observed = observed
normalize_ptr_field (some x) observed = some x

unfoldable pub known_kargo_agent_size : String → Bool
known_kargo_agent_size s =
    s == "" || (s == "small" || (s == "medium" || (s == "large" || s == "auto")))

-- The keys other than `apiVersion` and `kind` are none.
unfoldable pub only_header : Fields → Bool
only_header end = true
only_header (field k v m) = (k == "apiVersion" || k == "kind") && only_header m

module _ {Tm : Type 0} (codec : Codec Tm) where
  -- The raw document; a blank text has the empty one.
  unfoldable pub kargo_agent_kustomization_raw : String → Result Error String
  kargo_agent_kustomization_raw s =
      if is_blank s
      then ok ""
      else codec.yaml_to_json s >>= λ raw. codec.unmarshal_object raw >>= λ top. ok raw

  unfoldable pub is_empty_kargo_agent_kustomization : String → Result Error Bool
  is_empty_kargo_agent_kustomization s =
      if is_blank s || (trims_to s "{}" || trims_to s "null")
      then ok true
      else kargo_agent_kustomization_raw s >>= λ raw. codec.unmarshal_object raw >>= λ top.
          elim top [ none ↦ ok true | some m ↦ ok (only_header m) ]

  abbrev pub succeeds : Result Error Bool → Bool
  succeeds (ok b) = b
  succeeds (err e) = false

  abbrev pub same_raw : Result Error String → Result Error String → Bool
  same_raw (ok a) (ok b) = a == b
  same_raw _ _ = false

  unfoldable pub kargo_agent_kustomization_equivalent : String → String → Bool
  kargo_agent_kustomization_equivalent a b =
      if a == b
      then true
      else if same_but_newlines a b
      then true
      else if succeeds (is_empty_kargo_agent_kustomization a)
          && succeeds (is_empty_kargo_agent_kustomization b)
      then true
      else same_raw (kargo_agent_kustomization_raw a) (kargo_agent_kustomization_raw b)

  unfoldable pub absorb_scalar_defaults : KargoAgentParameters → KargoAgentData → KargoAgentData
  absorb_scalar_defaults observed d =
      let o = observed.kargo_agent_spec.agent_data in
      record d {
        size = or_observed d.size o.size;
        argocd_namespace = or_observed d.argocd_namespace o.argocd_namespace;
        target_version = or_observed d.target_version o.target_version;
      }

  unfoldable pub absorb_server_clamps : KargoAgentParameters → KargoAgentData → KargoAgentData
  absorb_server_clamps observed d =
      let o = observed.kargo_agent_spec.agent_data in
      let d₁ = record d {
        maintenance_mode = o.maintenance_mode;
        maintenance_mode_expiry = o.maintenance_mode_expiry;
      } in
      if is_true o.akuity_managed
      then record d₁ { argocd_namespace = o.argocd_namespace; target_version = o.target_version }
      else d₁

  unfoldable pub absorb_size_clamp : KargoAgentParameters → KargoAgentData → KargoAgentData
  absorb_size_clamp observed d =
      let o = observed.kargo_agent_spec.agent_data in
      if not (known_kargo_agent_size d.size) && (nonempty o.size && not (d.size == o.size))
      then record d { size = o.size }
      else d

  unfoldable pub absorb_kustomization_render :
      KargoAgentParameters → KargoAgentData → KargoAgentData
  absorb_kustomization_render observed d =
      let o = observed.kargo_agent_spec.agent_data in
      if kargo_agent_kustomization_equivalent d.kustomization o.kustomization
        && not (d.kustomization == o.kustomization)
      then record d { kustomization = o.kustomization }
      else d

  unfoldable pub absorb_managed : KargoAgentParameters → KargoAgentData → KargoAgentData
  absorb_managed observed d = record d {
    akuity_managed = observed.kargo_agent_spec.agent_data.akuity_managed;
  }

  -- The error of the projection is dropped.
  unfoldable pub absorb_projection : String → KargoAgentData → KargoAgentData
  absorb_projection name d = (project_custom_kargo_agent_size codec.yaml name d).1

  unfoldable pub absorb_pointers : KargoAgentParameters → KargoAgentData → KargoAgentData
  absorb_pointers observed d =
      let o = observed.kargo_agent_spec.agent_data in
      record d {
        pod_inherit_metadata = normalize_ptr_field d.pod_inherit_metadata o.pod_inherit_metadata;
        autoscaler_config = normalize_ptr_field d.autoscaler_config o.autoscaler_config;
      }

  -- The steps on the data, the first one innermost.
  unfoldable pub normalize_data : String → KargoAgentParameters → KargoAgentData → KargoAgentData
  normalize_data name observed d = absorb_pointers observed (
      absorb_kustomization_render observed (
        absorb_size_clamp observed (
          absorb_projection name (
            absorb_server_clamps observed
              (absorb_managed observed (absorb_scalar_defaults observed d))))))

  unfoldable pub normalize_kargo_agent_parameters :
      KargoAgentParameters → KargoAgentParameters → KargoAgentParameters × KargoAgentParameters
  normalize_kargo_agent_parameters desired observed = (
    record desired {
      namespace = or_observed desired.namespace observed.namespace;
      kargo_agent_spec = record (desired.kargo_agent_spec) {
        agent_data = normalize_data desired.name observed desired.kargo_agent_spec.agent_data;
      };
    },
    observed,
  )

  -- driftSpec: no projection, and no side check.
  unfoldable pub drift_spec : {P : Type 0} → DriftSpec KargoAgentParameters P
  drift_spec = record {
    normalize = some normalize_kargo_agent_parameters;
    presence = none;
    side = [];
  }
