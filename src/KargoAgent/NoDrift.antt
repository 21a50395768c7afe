-- ===== src/KargoAgent/NoDrift.antt =====
-- An export of what was applied shows no drift.
use provider_crossplane_akui.Glue.{Codec}
use provider_crossplane_akui.Common.{
  ok, Bool-cases, ==_iff, ==_refl, ◌==◌, ◌≡◌, refl, sym, ap, inl, inr, String, Bool, true, Option,
  none, some, arith,
}
use provider_crossplane_akui.Reason.{Err}
use provider_crossplane_akui.Drift.{normalized, projected, evaluate_drift, run_side}
use provider_crossplane_akui.KargoAgent.Equivalent.{Renders, rendered-equivalent}
use provider_crossplane_akui.KargoAgent.State.{KargoAgentData, KargoAgentParameters, WireAgent}
use provider_crossplane_akui.KargoAgent.Convert.{spec_to_api, wire_to_spec}
use provider_crossplane_akui.KargoAgent.Normalize.{
  or_observed, normalize_ptr_field, kargo_agent_kustomization_equivalent, absorb_scalar_defaults,
  absorb_server_clamps, absorb_size_clamp, absorb_kustomization_render, absorb_managed,
  absorb_projection, absorb_pointers, normalize_data, normalize_kargo_agent_parameters, drift_spec,
}
use provider_crossplane_akui.KargoAgent.RoundTrip.{
  image, IsProjection, rendered, rendered_expiry, with_data, wire_to_spec-spec_to_api,
}

or_observed_self : (s : String) → or_observed s s ≡ s
or_observed_self s = ground arith

or_observed-unset : (s z : String) → ((s == "") ≡ true → s ≡ z) → or_observed s z ≡ s
or_observed-unset s z h = elim (Bool-cases (s == "")) [
  | inl e ↦ rw e (sym (h e))
  | inr e ↦ rw e refl
]

normalize_ptr_field_self : {A : Type 0} (o : Option A) → normalize_ptr_field o o ≡ o
normalize_ptr_field_self none = refl
normalize_ptr_field_self (some x) = refl

module _ {Tm : Type 0} (codec : Codec Tm) where
  module _ (p : KargoAgentParameters) (z k : String) (x : Option String) where
    -- The data that was declared, and what is exported of it.
    abbrev d : KargoAgentData
    d = p.kargo_agent_spec.agent_data

    abbrev exported : KargoAgentParameters
    exported = with_data codec p (image d z (rendered codec k) x)

    defaults_absorbed :
        IsProjection codec.yaml p.name d z k → absorb_scalar_defaults codec exported d ≡ d
    unfolding absorb_scalar_defaults
    defaults_absorbed is = ground (
      arith,
      or_observed-unset d.size z is.unset,
      or_observed_self d.target_version,
      or_observed_self d.argocd_namespace,
    )

    clamps_absorbed :
        absorb_server_clamps codec exported d ≡ record d { maintenance_mode_expiry = x }
    unfolding absorb_server_clamps
    clamps_absorbed = ground arith

    size_absorbed : absorb_size_clamp codec exported (image d z k x) ≡ image d z k x
    unfolding absorb_size_clamp
    size_absorbed = ground (arith, ==_refl z)

    render_absorbed :
        kargo_agent_kustomization_equivalent codec k (rendered codec k) ≡ true
        → absorb_kustomization_render codec exported (image d z k x)
          ≡ image d z (rendered codec k) x
    unfolding absorb_kustomization_render
    render_absorbed e = ground (arith, e, ==_iff k (rendered codec k))

    pointers_absorbed :
        absorb_pointers codec exported (image d z (rendered codec k) x)
        ≡ image d z (rendered codec k) x
    unfolding absorb_pointers
    pointers_absorbed = ground (
      arith,
      normalize_ptr_field_self d.pod_inherit_metadata,
      normalize_ptr_field_self d.autoscaler_config,
    )

    projection_absorbed :
        IsProjection codec.yaml p.name d z k
        → absorb_projection codec p.name (record d { maintenance_mode_expiry = x }) ≡ image d z k x
    unfolding absorb_projection
    projection_absorbed is = ap (λ (r : Err × KargoAgentData). r.1) (is.projects x)

    normalize_data-exported :
        IsProjection codec.yaml p.name d z k
        → kargo_agent_kustomization_equivalent codec k (rendered codec k) ≡ true
        → normalize_data codec p.name exported d ≡ image d z (rendered codec k) x
    unfolding normalize_data absorb_managed
    normalize_data-exported is e =
        rw
          (
            defaults_absorbed is,
            clamps_absorbed,
            projection_absorbed is,
            size_absorbed,
            render_absorbed e,
          )
          pointers_absorbed

    normalize-exported :
        IsProjection codec.yaml p.name d z k
        → kargo_agent_kustomization_equivalent codec k (rendered codec k) ≡ true
        → normalize_kargo_agent_parameters codec p exported ≡ (exported, exported)
    unfolding normalize_kargo_agent_parameters
    normalize-exported is e =
        ground (arith, normalize_data-exported is e, or_observed_self p.namespace)

  -- What was applied, and exported unchanged, shows no drift: the drift check says that the
  -- resource is up to date, so that no further write follows. It holds of any parameters that can
  -- be applied, a size "custom" included, if a kustomization that is rendered parses to the same
  -- document, and the comparison holds of equal parameters.
  pub evaluate_drift-exported :
      {P : Type 0} (equal : KargoAgentParameters → KargoAgentParameters → Bool)
      (project : KargoAgentParameters → P → KargoAgentParameters) (p : KargoAgentParameters)
      (wire : WireAgent Tm)
      → Renders codec
      → ((q : KargoAgentParameters) → equal q q ≡ true)
      → spec_to_api codec p ≡ ok wire
      → (evaluate_drift equal project (drift_spec codec) p (wire_to_spec codec p wire)).up_to_date
        ≡ ok true
  unfolding drift_spec normalized projected evaluate_drift run_side
  evaluate_drift-exported equal project p wire law same h =
      let (z, k, is, v, e) = wire_to_spec-spec_to_api codec p wire h in
      let x = rendered_expiry codec p.kargo_agent_spec.agent_data.maintenance_mode_expiry in
      let n = normalize-exported p z k x is (rendered-equivalent codec k law v) in
      rw (e, n, same (exported p z k x)) refl
