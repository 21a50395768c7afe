-- ===== src/KargoAgent/Observe.antt =====
-- internal/controller/kargoagent/kargoagent.go: Observe.
use provider_crossplane_akui.Common.{
  Result, ok, err, if◌then◌else◌, ◌==◌, nat_eq, String, Bool, true, false, Option, none, some,
}
use provider_crossplane_akui.Reason.{Error, Err}
use provider_crossplane_akui.Managed.{
  reconcile_error, Meta, set_conditions, Observation, no_observation, propagate_observed_generation,
  set_health_condition,
}
use provider_crossplane_akui.Guard.{Suppression}
use provider_crossplane_akui.Base.{
  GetOutcome, get_ok, get_absent, get_provisioning, get_terminal, classify_get_error,
  has_terminal_write_resource,
}
use provider_crossplane_akui.Drift.{evaluate_drift}
use provider_crossplane_akui.KargoAgent.State.{KargoAgentParameters}
use provider_crossplane_akui.KargoAgent.Normalize.{drift_spec}
use provider_crossplane_akui.KargoAgent.World.{
  KargoAgentResource, ProtoAgent, AgentApi, AgentWorld, AgentAnswer, kargo_agent_gvk,
  observed_agent, api_to_spec,
}
use provider_crossplane_akui.KargoAgent.Lookup.{
  resolve_kargo_instance_id, workspace_of, suppress_agent, clear_agent, exported_agent_spec,
}

module _ {W Tm C : Type 0} (api : AgentApi W Tm C) where
  abbrev pub after : AgentWorld W → Suppression → AgentWorld W
  after w s = record w { guard = s.guard; mg = record (w.mg) { meta = s.managed } }

  abbrev pub with_meta : AgentWorld W → (Meta → Meta) → AgentWorld W
  with_meta w f = record w { mg = record (w.mg) { meta = f w.mg.meta } }

  abbrev pub answered : Observation → Err → AgentWorld W → AgentAnswer W
  answered o e w = record { obs = o; error = e; world = w }

  abbrev pub exists : Bool → Observation
  exists up_to_date = record { resource_exists = true; resource_up_to_date = up_to_date }

  -- Spec.ForProvider.KargoInstanceID = id
  abbrev pub with_instance_id : KargoAgentResource → String → KargoAgentResource
  with_instance_id mg id = record mg {
    for_provider = record (mg.for_provider) { kargo_instance_id = id };
  }

  -- `terminalFP`: the parameters as `apply` would send them.
  abbrev pub terminal_fp : KargoAgentResource → KargoAgentParameters
  terminal_fp mg = record (mg.for_provider) { workspace = workspace_of api mg }

  -- The end of Observe.
  unfoldable pub guarded_observation :
      AgentWorld W → KargoAgentParameters → Result Error Bool → AgentAnswer W
  guarded_observation w fp (err e) = answered no_observation (some e) w
  guarded_observation w fp (ok true) =
      answered (exists true) none (record w { guard = clear_agent api w.guard w.mg.meta fp })
  guarded_observation w fp (ok false) =
      let s = suppress_agent api w.guard w.mg.meta fp in
      if s.suppressed
      then answered s.obs s.error (after w s)
      else answered (exists false) none (after w s)

  -- The comparison with the exported agent, or with the one that the get returned.
  unfoldable pub compare_agent :
      AgentWorld W → KargoAgentParameters → KargoAgentParameters → AgentAnswer W
  compare_agent w fp target =
      let mg = record (w.mg) {
        at_provider = record (w.mg.at_provider) { at_agent_spec = target.kargo_agent_spec };
      } in
      guarded_observation (record w { mg = mg }) fp
        (evaluate_drift api.equal (λ d (p : Unit {0}). d) (drift_spec api.codec) mg.for_provider
          target).up_to_date

  abbrev pub target_of : Option KargoAgentParameters → KargoAgentParameters → KargoAgentParameters
  target_of none actual = actual
  target_of (some e) actual = e

  -- What follows the export.
  unfoldable pub compare_exported :
      AgentWorld W
      → KargoAgentParameters
      → KargoAgentParameters
      → Result Error (Option KargoAgentParameters)
      → AgentAnswer W
  compare_exported w fp actual (err e) =
      answered no_observation (some e) (with_meta w (set_conditions (reconcile_error (some e))))
  compare_exported w fp actual (ok x) = compare_agent w fp (target_of x actual)

  -- Observe, once the get has returned the agent.
  unfoldable pub observe_found :
      AgentWorld W → String → KargoAgentParameters → ProtoAgent Tm → AgentAnswer W
  observe_found w id fp a =
      let o = observed_agent a in
      let mg = record (w.mg) {
        at_provider = o;
        meta = set_health_condition (nat_eq o.health_status.code 1) w.mg.meta;
      } in
      let (r, s) = exported_agent_spec api mg id w.remote in
      compare_exported (record w { remote = s; mg = mg }) fp
        (api_to_spec api.codec mg.for_provider a) r

  -- What Observe does with an error of the get.
  unfoldable pub answer_get_error :
      AgentWorld W → Err → GetOutcome × Observation × Err → AgentAnswer W
  answer_get_error w e (outcome, obs, rerr) = answered obs rerr (elim outcome [
    | get_ok ↦ w
    | get_absent ↦ w
    | get_provisioning ↦ with_meta w (set_health_condition false)
    | get_terminal ↦ with_meta w (set_conditions (reconcile_error e))
  ])

  -- From the test of the external name on.
  unfoldable pub observe_named : AgentWorld W → String → KargoAgentParameters → AgentAnswer W
  observe_named w id fp =
      if w.mg.meta.external_name == ""
      then answered no_observation none w
      else let (r, s) = api.client.get_agent id w.mg.meta.external_name w.remote in
        let w' : AgentWorld W = record w { remote = s } in
        elim r [
          | err e ↦ answer_get_error w' (some e) (classify_get_error api.errors (some e))
          | ok a ↦ observe_found w' id fp a
        ]

  -- The short cut past the gateway's get, and what follows it.
  unfoldable pub observe_guarded : AgentWorld W → String → KargoAgentParameters → AgentAnswer W
  observe_guarded w id fp =
      let s = suppress_agent api w.guard w.mg.meta fp in
      if has_terminal_write_resource w.guard w.mg.meta kargo_agent_gvk
      then if s.suppressed
        then answered s.obs s.error (after w s)
        else observe_named (after w s) id fp
      else observe_named w id fp

  abbrev pub propagated : AgentWorld W → AgentWorld W
  propagated w = with_meta w propagate_observed_generation

  unfoldable pub observe_kargo_agent : AgentWorld W → AgentAnswer W
  observe_kargo_agent w =
      let (r, s) = resolve_kargo_instance_id api w.mg w.remote in
      elim r [
        | err e ↦ answered no_observation (some e) (propagated (record w { remote = s }))
        | ok id ↦
            let mg = with_instance_id w.mg id in
            let a = observe_guarded (record w { remote = s; mg = mg }) id (terminal_fp mg) in
            answered a.obs a.error (propagated a.world)
      ]
