-- ===== src/ShardAgent/Refused.antt =====
-- A pin that the gateway refuses for good is not written again.
use provider_crossplane_akui.Common.{ok, String, ◌≡◌, refl, ◌∙◌, true, false, some, arith}
use provider_crossplane_akui.Reason.{Error, is_terminal, classify_apply_error}
use provider_crossplane_akui.Managed.{
  reconcile_error, Meta, set_conditions, propagate_observed_generation,
}
use provider_crossplane_akui.Guard.{
  TerminalWriteKey, new_terminal_write_key, new_terminal_write_resource_key, Entries, Guard,
  delete_resource, assign, record_write,
}
use provider_crossplane_akui.Guard.Keys.{suppress-record_write}
use provider_crossplane_akui.Guard.Resource.{
  has_resource-record_write, new_terminal_write_key-Alike,
}
use provider_crossplane_akui.Base.{
  suppress_terminal_write, record_terminal_write, has_terminal_write_resource,
}
use provider_crossplane_akui.Json.{Json}
use provider_crossplane_akui.ShardAgent.{
  AgentApi, AgentWorld, shard_agent_gvk, pin_body, resolve_kargo_id, resolve_desired_agent_id,
  agent_write_key, suppress_pin, observe_guarded, observe_agent, send_pin, patch_pin, create_agent,
  update_agent,
}
use provider_crossplane_akui.ShardAgent.Settled.{resolve_kargo_id-meta}

module _ {S : Type 0} (api : AgentApi S) where
  -- A patch of the agent's pin that the gateway refuses with an error that is terminal.
  pub record RefusedPin (w : AgentWorld S) : Type 0 where
    pub kargo_id : String
    pub id : String
    pub body : Json
    pub key : TerminalWriteKey
    pub raw : Error
    pub fatal : Error
    pub resolved : resolve_kargo_id api w.mg ≡ ok kargo_id
    pub found : (resolve_desired_agent_id api w.remote kargo_id w.mg.agent_name).0 ≡ ok id
    pub keyed : agent_write_key api w.mg.meta kargo_id id ≡ ok key
    pub built : api.new_struct (pin_body id) ≡ ok body
    pub refused :
        (api.patch_kargo_instance
          (resolve_desired_agent_id api w.remote kargo_id w.mg.agent_name).1
          kargo_id
          body).0
        ≡ some raw
    pub classified : classify_apply_error api.errors (some raw) ≡ some fatal
    pub is_fatal : is_terminal (some fatal) ≡ true

  abbrev remote_of : (w : AgentWorld S) → RefusedPin w → S
  remote_of w r =
      (api.patch_kargo_instance (resolve_desired_agent_id api w.remote r.kargo_id w.mg.agent_name).1
        r.kargo_id r.body).1

  key-meta :
      (m mt : Meta) (kargo_id id : String)
      → mt.uid ≡ m.uid
      → mt.namespace ≡ m.namespace
      → mt.name ≡ m.name
      → agent_write_key api mt kargo_id id ≡ agent_write_key api m kargo_id id
  unfolding agent_write_key new_terminal_write_key
  key-meta m mt kargo_id id u ns n = ground (arith, u, ns, n)

  -- An observation that returns the error and wants no write, after a lookup of the agent only.
  abbrev pub IsSilencedPin : AgentWorld S → String → Error → Type 0
  IsSilencedPin v kargo_id e =
      ((observe_agent api v).error ≡ some e)
      × ((observe_agent api v).obs ≡ record { resource_exists = true; resource_up_to_date = true })
      × ((observe_agent api v).world.remote
          ≡ (resolve_desired_agent_id api v.remote kargo_id v.mg.agent_name).1)

  module _ (w : AgentWorld S) (m : Entries) (guarded : w.guard ≡ some m)
      (live : w.mg.meta.was_deleted ≡ false) (r : RefusedPin w)
      (stays : (resolve_desired_agent_id api (remote_of w r) r.kargo_id w.mg.agent_name).0
        ≡ ok r.id) where
    abbrev kept : Guard
    kept = record_write (some m) r.key (some r.fatal)

    abbrev observed_meta : Meta
    observed_meta = propagate_observed_generation w.mg.meta

    remembered : Meta → AgentWorld S
    remembered mt = record {
      remote = remote_of w r;
      guard = kept;
      mg = record (w.mg) { meta = mt };
    }

    patch-refused :
        patch_pin api w w.mg.agent_name
        ≡ (some r.fatal, record w { remote = remote_of w r; guard = kept })
    unfolding patch_pin send_pin record_terminal_write
    patch-refused =
        ground
          (arith, r.resolved, r.found, r.built, r.keyed, r.refused, r.classified, live, guarded)

    writes-refused :
        (create_agent api w ≡ (some r.fatal, remembered observed_meta))
        × (update_agent api w ≡ (some r.fatal, remembered observed_meta))
    unfolding create_agent update_agent remembered
    writes-refused = (ground (arith, patch-refused), ground (arith, patch-refused))

    kept-assign : kept ≡ some (assign r.key r.fatal (delete_resource r.key m))
    unfolding record_write
    kept-assign = rw r.is_fatal

    has-kept : has_terminal_write_resource kept observed_meta shard_agent_gvk ≡ true
    unfolding has_terminal_write_resource new_terminal_write_resource_key agent_write_key
    has-kept =
        has_resource-record_write m r.key _ r.fatal r.is_fatal
          (new_terminal_write_key-Alike api.sum w.mg.meta shard_agent_gvk _ r.key r.keyed)

    suppress-kept : suppress_pin api kept observed_meta r.kargo_id r.id ≡ record {
      obs = record { resource_exists = true; resource_up_to_date = true };
      error = some r.fatal;
      suppressed = true;
      guard = kept;
      managed = set_conditions (reconcile_error (some r.fatal)) observed_meta;
    }
    unfolding suppress_pin suppress_terminal_write
    suppress-kept = ground (
      arith,
      kept-assign,
      key-meta w.mg.meta observed_meta r.kargo_id r.id refl refl refl,
      r.keyed,
      suppress-record_write m observed_meta r.key r.fatal r.is_fatal live,
    )

    resolve-remembered : resolve_kargo_id api (remembered observed_meta).mg ≡ ok r.kargo_id
    unfolding remembered
    resolve-remembered = resolve_kargo_id-meta api w.mg _ refl refl ∙ r.resolved

    observe-remembered : IsSilencedPin (remembered observed_meta) r.kargo_id r.fatal
    unfolding observe_agent observe_guarded remembered
    observe-remembered = (
      ground (arith, resolve-remembered, has-kept, suppress-kept, stays),
      ground (arith, resolve-remembered, has-kept, suppress-kept, stays),
      ground (arith, resolve-remembered, has-kept, suppress-kept, stays),
    )

    -- A pin that the gateway refuses with a terminal error is not written again: after the create
    -- or the update of a resource that is not being deleted, which returns that error, the next
    -- observation returns the error too, reports the pin as existing and up to date, and calls the
    -- gateway only to look up the agent, whose ID is assumed to be as it was.
    pub refused_pin-suppressed :
        ((create_agent api w).0 ≡ some r.fatal)
        × ((update_agent api w).0 ≡ some r.fatal)
        × IsSilencedPin (create_agent api w).1 r.kargo_id r.fatal
        × IsSilencedPin (update_agent api w).1 r.kargo_id r.fatal
    refused_pin-suppressed =
        rw writes-refused.0
          (rw writes-refused.1 (refl, refl, observe-remembered, observe-remembered))
