-- ===== src/KargoAgent/Refused.antt =====
-- A Kargo agent that the gateway refuses for good.
use provider_crossplane_akui.Common.{
  ok, err, Result-cases, nonempty, ◌≡◌, refl, sym, ap, subst, inl, inr, String, true, false, some,
  arith,
}
use provider_crossplane_akui.Reason.{Error, Err, is_terminal, classify_apply_error}
use provider_crossplane_akui.Managed.{
  reconcile_error, Meta, set_conditions, propagate_observed_generation,
}
use provider_crossplane_akui.Guard.{
  TerminalWriteKey, new_terminal_write_key, new_terminal_write_resource_key, Entries,
  delete_resource, assign, record_write,
}
use provider_crossplane_akui.Guard.Keys.{suppress-record_write}
use provider_crossplane_akui.Guard.Resource.{
  Alike, has_resource-record_write, new_terminal_write_key-Alike,
}
use provider_crossplane_akui.Base.{
  suppress_terminal_write, record_terminal_write, has_terminal_write_resource,
}
use provider_crossplane_akui.Gateway.State.{ApplyRequest}
use provider_crossplane_akui.KargoAgent.State.{KargoAgentParameters}
use provider_crossplane_akui.KargoAgent.Convert.{build_apply_kargo_instance_request}
use provider_crossplane_akui.KargoAgent.World.{
  KargoAgentResource, AgentApi, AgentWorld, kargo_agent_gvk,
}
use provider_crossplane_akui.KargoAgent.Lookup.{
  resolve_workspace_from_parent, resolve_kargo_instance_id, workspace_of, kargo_agent_write_key,
  suppress_agent,
}
use provider_crossplane_akui.KargoAgent.Observe.{
  exists, terminal_fp, observe_guarded, observe_kargo_agent,
}
use provider_crossplane_akui.KargoAgent.Write.{
  send_agent, filled_in, apply, try_create_agent, create_kargo_agent, update_kargo_agent,
}

module _ {W Tm C : Type 0} (api : AgentApi W Tm C) where
  -- The request of a write, which the gateway refuses with an error that is terminal.
  pub record Refused (w : AgentWorld W) : Type 0 where
    pub id : String
    pub at : W
    pub key : TerminalWriteKey
    pub request : ApplyRequest
    pub raw : Error
    pub fatal : Error
    pub resolved : resolve_kargo_instance_id api w.mg w.remote ≡ (ok id, at)
    pub named : nonempty id ≡ true
    pub keyed : kargo_agent_write_key api w.mg.meta (filled_in api w.mg id).for_provider ≡ ok key
    pub built :
        build_apply_kargo_instance_request api.codec api.marshal id
          (filled_in api w.mg id).for_provider
        ≡ ok request
    pub refused : (api.client.apply request at).0 ≡ err raw
    pub classified : classify_apply_error api.errors (some raw) ≡ some fatal
    pub is_fatal : is_terminal (some fatal) ≡ true

  key-meta :
      (mt m : Meta) (fp : KargoAgentParameters)
      → mt.uid ≡ m.uid
      → mt.namespace ≡ m.namespace
      → mt.name ≡ m.name
      → kargo_agent_write_key api mt fp ≡ kargo_agent_write_key api m fp
  unfolding kargo_agent_write_key new_terminal_write_key
  key-meta mt m fp u ns n = ground (arith, u, ns, n)

  -- The workspace is filled in once: filling it in again changes nothing.
  filled_in-workspace :
      (mg : KargoAgentResource) (id : String) (mt : Meta)
      → mt.namespace ≡ mg.meta.namespace
      → workspace_of api (record (filled_in api mg id) { meta = mt })
        ≡ (filled_in api mg id).for_provider.workspace
  unfolding workspace_of resolve_workspace_from_parent
  filled_in-workspace mg id mt e = ground (arith, e)

  kargo_agent_write_key-Alike :
      (mt : Meta) (fp : KargoAgentParameters) (key : TerminalWriteKey)
      → kargo_agent_write_key api mt fp ≡ ok key
      → Alike key (new_terminal_write_resource_key mt kargo_agent_gvk)
  unfolding kargo_agent_write_key
  kargo_agent_write_key-Alike mt fp key h =
      elim (Result-cases
        (build_apply_kargo_instance_request api.codec api.marshal fp.kargo_instance_id fp)) [
          | inr (e, b) ↦
              new_terminal_write_key-Alike api.sum mt kargo_agent_gvk _ key
                (rw (b, kargo_agent_write_key) at h)
          | inl (req, b) ↦
              new_terminal_write_key-Alike api.sum mt kargo_agent_gvk _ key
                (rw (b, kargo_agent_write_key) at h)
        ]

  -- An observation that returns the error, wants no write, and makes no call.
  abbrev pub IsSilenced : AgentWorld W → Error → Type 0
  IsSilenced v e =
      ((observe_kargo_agent api v).error ≡ some e)
      × ((observe_kargo_agent api v).obs ≡ exists api true)
      × ((observe_kargo_agent api v).world.remote ≡ v.remote)

  module _ (w : AgentWorld W) (m : Entries) (guarded : w.guard ≡ some m)
      (live : w.mg.meta.was_deleted ≡ false) (r : Refused w) where
    -- The world that such a write leaves, but for the metadata of the resource.
    remembered : Meta → AgentWorld W
    remembered mt = record {
      remote = (api.client.apply r.request r.at).1;
      guard = record_write (some m) r.key (some r.fatal);
      mg = record (filled_in api w.mg r.id) { meta = mt };
    }

    apply-refused : apply api w ≡ (some r.fatal, remembered w.mg.meta)
    unfolding apply send_agent record_terminal_write remembered
    apply-refused = ground (arith, r.resolved, r.keyed, r.built, r.refused, r.classified, guarded)

    writes-refused :
        (create_kargo_agent api w
          ≡ (some r.fatal, remembered (propagate_observed_generation w.mg.meta)))
        × (update_kargo_agent api w
            ≡ (some r.fatal, remembered (propagate_observed_generation w.mg.meta)))
    unfolding create_kargo_agent try_create_agent update_kargo_agent remembered
    writes-refused = (ground (arith, apply-refused), ground (arith, apply-refused))

    recorded_guard :
        record_write (some m) r.key (some r.fatal)
        ≡ some (assign r.key r.fatal (delete_resource r.key m))
    unfolding record_write
    recorded_guard = rw r.is_fatal

    has-remembered :
        has_terminal_write_resource
          (record_write (some m) r.key (some r.fatal))
          (propagate_observed_generation w.mg.meta)
          kargo_agent_gvk
        ≡ true
    unfolding has_terminal_write_resource new_terminal_write_resource_key
    has-remembered =
        has_resource-record_write m r.key _ r.fatal r.is_fatal
          (kargo_agent_write_key-Alike w.mg.meta _ r.key r.keyed)

    suppress_agent-remembered :
        suppress_agent api
          (record_write (some m) r.key (some r.fatal))
          (propagate_observed_generation w.mg.meta)
          (filled_in api w.mg r.id).for_provider
        ≡ record {
          obs = record { resource_exists = true; resource_up_to_date = true };
          error = some r.fatal;
          suppressed = true;
          guard = record_write (some m) r.key (some r.fatal);
          managed =
              set_conditions
                (reconcile_error (some r.fatal))
                (propagate_observed_generation w.mg.meta);
        }
    unfolding suppress_agent suppress_terminal_write
    suppress_agent-remembered =
        let mt = propagate_observed_generation w.mg.meta in
        ground (
          arith,
          recorded_guard,
          key-meta mt w.mg.meta (filled_in api w.mg r.id).for_provider refl refl refl,
          r.keyed,
          suppress-record_write m mt r.key r.fatal r.is_fatal live,
        )

    -- The parameters of the guard's key are those that were sent.
    terminal_fp-remembered :
        terminal_fp api (remembered (propagate_observed_generation w.mg.meta)).mg
        ≡ (filled_in api w.mg r.id).for_provider
    unfolding remembered
    terminal_fp-remembered =
        ap (λ (ws : String). record ((filled_in api w.mg r.id).for_provider) { workspace = ws })
          (filled_in-workspace w.mg r.id (propagate_observed_generation w.mg.meta) refl)

    observe-remembered : IsSilenced (remembered (propagate_observed_generation w.mg.meta)) r.fatal
    unfolding observe_kargo_agent observe_guarded resolve_kargo_instance_id remembered
    observe-remembered =
        let fp = terminal_fp-remembered in
        (
          ground (arith, r.named, fp, has-remembered, suppress_agent-remembered),
          ground (arith, r.named, fp, has-remembered, suppress_agent-remembered),
          ground (arith, r.named, fp, has-remembered, suppress_agent-remembered),
        )

    -- An agent that the gateway refuses with a terminal error is not applied again: after the
    -- create or the update of a resource that is not being deleted, which returns that error, the
    -- next observation returns the error too, reports the agent as existing and up to date, and
    -- makes no call of the gateway, whether the instance was given by its ID or by a reference.
    pub refused_agent-suppressed :
        ((create_kargo_agent api w).0 ≡ some r.fatal)
        × ((update_kargo_agent api w).0 ≡ some r.fatal)
        × IsSilenced (create_kargo_agent api w).1 r.fatal
        × IsSilenced (update_kargo_agent api w).1 r.fatal
    refused_agent-suppressed =
        let (c, u) = writes-refused in
        let silent = observe-remembered in
        (
          ap (λ (p : Err × AgentWorld W). p.0) c,
          ap (λ (p : Err × AgentWorld W). p.0) u,
          subst (λ (p : Err × AgentWorld W). IsSilenced p.1 r.fatal) (sym c) silent,
          subst (λ (p : Err × AgentWorld W). IsSilenced p.1 r.fatal) (sym u) silent,
        )
