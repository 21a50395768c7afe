-- ===== src/KargoAgent/Settled.antt =====
-- An observation that finds the agent as it was applied.
use provider_crossplane_akui.Common.{
  Result, ok, ◌==◌, ==_refl, nat_eq, ◌≡◌, refl, sym, ap, subst, ◌∙◌, ◌⊎◌, inl, inr, String, Bool,
  true, false, Option, none, some, List, [], ◌∷◌, arith,
}
use provider_crossplane_akui.Reason.{Error}
use provider_crossplane_akui.Json.{Json}
use provider_crossplane_akui.Managed.{Meta, set_health_condition}
use provider_crossplane_akui.Base.{has_terminal_write_resource}
use provider_crossplane_akui.KargoAgent.State.{KargoAgentParameters, WireAgent}
use provider_crossplane_akui.KargoAgent.Convert.{spec_to_api, wire_of, wire_to_spec}
use provider_crossplane_akui.KargoAgent.RoundTrip.{spec_to_api-wire_of}
use provider_crossplane_akui.KargoAgent.Equivalent.{Renders}
use provider_crossplane_akui.KargoAgent.NoDrift.{evaluate_drift-exported}
use provider_crossplane_akui.KargoAgent.World.{
  KargoAgentResource, ProtoAgent, AgentApi, AgentWorld, AgentAnswer, kargo_agent_gvk,
  KargoAgentObservation, observed_agent, api_to_spec,
}
use provider_crossplane_akui.KargoAgent.Lookup.{
  resolve_kargo_instance_id, workspace_of, resolve_workspace_from_parent, find_exported,
  exported_agent_spec,
}
use provider_crossplane_akui.KargoAgent.Observe.{
  exists, with_instance_id, terminal_fp, guarded_observation, compare_agent, compare_exported,
  observe_found, observe_named, observe_guarded, observe_kargo_agent,
}

module _ {W Tm C : Type 0} (api : AgentApi W Tm C) where
  -- The first agent of an export that has the name is the wire form of the parameters, and the
  -- agents before it can be decoded.
  abbrev pub HasExport : KargoAgentParameters → List (Option Json) → Type 0
  HasExport p [] = ⊥
  HasExport p (none ∷ es) = HasExport p es
  HasExport p (some e ∷ es) =
      (raw : String) × (wire : WireAgent Tm) × (api.marshal_entry e ≡ ok raw)
      × (api.unmarshal_wire raw ≡ ok wire)
      × ((spec_to_api api.codec p ≡ ok wire) ⊎ ((wire.name == p.name) ≡ false) × HasExport p es)

  wire-name :
      (p : KargoAgentParameters) (wire : WireAgent Tm)
      → spec_to_api api.codec p ≡ ok wire
      → wire.name ≡ p.name
  unfolding wire_of
  wire-name p wire h =
      let (z, k, is, v, e) = spec_to_api-wire_of api.codec p wire h in
      ap (λ (u : WireAgent Tm). u.name) (sym e)

  find_exported-HasExport :
      (p : KargoAgentParameters) (es : List (Option Json))
      → HasExport p es
      → (wire : WireAgent Tm) × (spec_to_api api.codec p ≡ ok wire)
        × (find_exported api p es ≡ ok (some (wire_to_spec api.codec p wire)))
  unfolding find_exported
  find_exported-HasExport p [] h = absurd h
  find_exported-HasExport p (none ∷ es) h = find_exported-HasExport p es h
  find_exported-HasExport p (some e ∷ es) (raw, wire, m, u, inl s) =
      (wire, s, ground (arith, m, u, wire-name p wire s, ==_refl p.name))
  find_exported-HasExport p (some e ∷ es) (raw, wire, m, u, inr (n, h)) =
      let (x, s, f) = find_exported-HasExport p es h in (x, s, ground (arith, m, u, n, f))

  -- An observation that reports the agent as existing and up to date, with no error.
  abbrev pub IsSettled : AgentAnswer W → Type 0
  IsSettled a = (a.error ≡ none) × (a.obs ≡ exists api true)

  module _ (w : AgentWorld W) (id : String) (a : ProtoAgent Tm) (es : List (Option Json)) (v u : W)
      (law : Renders api.codec) (same : (q : KargoAgentParameters) → api.equal q q ≡ true) where
    compare_agent-IsSettled :
        (x : AgentWorld W) (fp : KargoAgentParameters) (wire : WireAgent Tm)
        → spec_to_api api.codec x.mg.for_provider ≡ ok wire
        → IsSettled (compare_agent api x fp (wire_to_spec api.codec x.mg.for_provider wire))
    unfolding compare_agent guarded_observation
    compare_agent-IsSettled x fp wire s =
        let e =
          evaluate_drift-exported api.codec api.equal (λ d (p : Unit {0}). d) x.mg.for_provider wire
            law same s in
        rw e (refl, refl)

    exported_agent_spec-found :
        (mg : KargoAgentResource)
        → HasExport mg.for_provider es
        → api.client.export_agents id (workspace_of api mg) v ≡ (ok es, u)
        → (wire : WireAgent Tm) × (spec_to_api api.codec mg.for_provider ≡ ok wire)
          × (exported_agent_spec api mg id v
              ≡ (ok (some (wire_to_spec api.codec mg.for_provider wire)), u))
    unfolding exported_agent_spec
    exported_agent_spec-found mg h e =
        let (wire, s, f) = find_exported-HasExport mg.for_provider es h in
        (wire, s, ground (arith, e, f))

    set_health_condition-namespace :
        (b : Bool) (m : Meta) → (set_health_condition b m).namespace ≡ m.namespace
    set_health_condition-namespace true m = refl
    set_health_condition-namespace false m = refl

    workspace_of-meta :
        (mg : KargoAgentResource) (o : KargoAgentObservation) (m : Meta)
        → m.namespace ≡ mg.meta.namespace
        → workspace_of api (record mg { at_provider = o; meta = m }) ≡ workspace_of api mg
    unfolding workspace_of resolve_workspace_from_parent
    workspace_of-meta mg o m e = ground (arith, e)

    observe_found-IsSettled :
        (y : AgentWorld W) (fp : KargoAgentParameters)
        → y.remote ≡ v
        → HasExport y.mg.for_provider es
        → api.client.export_agents id (workspace_of api y.mg) v ≡ (ok es, u)
        → IsSettled (observe_found api y id fp a)
    unfolding observe_found compare_exported
    observe_found-IsSettled y fp r h x =
        let o = observed_agent a in
        let m = set_health_condition (nat_eq o.health_status.code 1) y.mg.meta in
        let mg : KargoAgentResource = record (y.mg) { at_provider = o; meta = m } in
        let ns =
          workspace_of-meta y.mg o m
            (set_health_condition-namespace (nat_eq o.health_status.code 1) y.mg.meta) in
        let (wire, s, e) =
          exported_agent_spec-found mg h
            (ap (λ (ws : String). api.client.export_agents id ws v) ns ∙ x) in
        let c = compare_agent-IsSettled (record y { remote = u; mg = mg }) fp wire s in
        let actual = api_to_spec api.codec mg.for_provider a in
        subst
          (λ (q : Result Error (Option KargoAgentParameters) × W).
            IsSettled (compare_exported api (record y { remote = q.1; mg = mg }) fp actual q.0))
          (sym (ap (λ (t : W). exported_agent_spec api mg id t) r ∙ e)) c

    observe_guarded-found :
        (y : AgentWorld W) (fp : KargoAgentParameters)
        → (y.mg.meta.external_name == "") ≡ false
        → has_terminal_write_resource y.guard y.mg.meta kargo_agent_gvk ≡ false
        → api.client.get_agent id y.mg.meta.external_name y.remote ≡ (ok a, v)
        → observe_guarded api y id fp ≡ observe_found api (record y { remote = v }) id fp a
    unfolding observe_guarded observe_named
    observe_guarded-found y fp n g o = ground (arith, n, g, o)

    -- Once the platform exports the agent as it was applied, an Observe of it finds no drift, and
    -- so schedules no write: it reports the agent as existing and up to date, with no error. The
    -- agent has an external name, the get of it succeeds, and the guard holds no refusal of it; a
    -- kustomization that is rendered is assumed to parse to the same document.
    pub observe_kargo_agent-IsSettled :
        resolve_kargo_instance_id api w.mg w.remote ≡ (ok id, w.remote)
        → (w.mg.meta.external_name == "") ≡ false
        → has_terminal_write_resource w.guard w.mg.meta kargo_agent_gvk ≡ false
        → api.client.get_agent id w.mg.meta.external_name w.remote ≡ (ok a, v)
        → api.client.export_agents id (workspace_of api (with_instance_id api w.mg id)) v
          ≡ (ok es, u)
        → HasExport (with_instance_id api w.mg id).for_provider es
        → IsSettled (observe_kargo_agent api w)
    unfolding observe_kargo_agent
    observe_kargo_agent-IsSettled r n g o x h =
        let mg = with_instance_id api w.mg id in
        let found =
          observe_found-IsSettled (record w { remote = v; mg = mg }) (terminal_fp api mg) refl h
            x in
        let e = observe_guarded-found (record w { mg = mg }) (terminal_fp api mg) n g o in
        (ground (arith, r, e, found), ground (arith, r, e, found))
