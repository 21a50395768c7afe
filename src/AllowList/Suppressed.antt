-- ===== src/AllowList/Suppressed.antt =====
-- Writes that the gateway refuses for good, and deletion.

use provider_crossplane_akui.AllowList.Converge.{resolve-meta}
use provider_crossplane_akui.Guard.Keys.{suppress-record_write}
use provider_crossplane_akui.Common.{ok, String, ◌≡◌, refl, ◌∙◌, true, false, some, arith}
use provider_crossplane_akui.Reason.{Error, is_terminal, classify_apply_error}
use provider_crossplane_akui.Managed.{
  reconcile_error, Meta, set_conditions, propagate_observed_generation,
}
use provider_crossplane_akui.Guard.{
  TerminalWriteKey, new_terminal_write_key, new_terminal_write_resource_key, Entries,
  delete_resource, assign, record_write,
}
use provider_crossplane_akui.Guard.Resource.{
  has_resource-record_write, new_terminal_write_key-Alike,
}
use provider_crossplane_akui.Base.{
  suppress_terminal_write, record_terminal_write, has_terminal_write_resource,
}
use provider_crossplane_akui.Json.{Json}
use provider_crossplane_akui.AllowList.{
  AllowList, InstanceIpAllowList, Api, World, allow_list_gvk, patch_body, resolve_instance_id,
  terminal_write_key, suppress_write, observe_resolved, observe, send_patch, patch, create, update,
}

module _ {S : Type 0} (api : Api S) where
  -- A patch of the list that the gateway refuses with an error that is terminal.
  pub record Rejected (w : World S) (desired : AllowList) : Type 0 where
    pub id : String
    pub body : Json
    pub key : TerminalWriteKey
    pub raw : Error
    pub fatal : Error
    pub resolved : resolve_instance_id api w.mg ≡ ok id
    pub built : api.new_struct (patch_body desired) ≡ ok body
    pub keyed : terminal_write_key api w.mg id desired ≡ ok key
    pub refused : (api.patch_instance w.remote id body).0 ≡ some raw
    pub classified : classify_apply_error api.errors (some raw) ≡ some fatal
    pub is_fatal : is_terminal (some fatal) ≡ true

  key-meta :
      (mt : Meta) (id : String) (mg : InstanceIpAllowList) (desired : AllowList)
      → mt.uid ≡ mg.meta.uid
      → mt.namespace ≡ mg.meta.namespace
      → mt.name ≡ mg.meta.name
      → terminal_write_key api (record mg { meta = mt }) id desired
        ≡ terminal_write_key api mg id desired
  unfolding terminal_write_key new_terminal_write_key
  key-meta mt id mg desired u ns n = ground (arith, u, ns, n)

  -- An observation that returns the error, wants no write, and leaves the gateway alone.
  abbrev pub IsSilenced : World S → Error → Type 0
  IsSilenced v e =
      ((observe api v).error ≡ some e)
      × ((observe api v).obs ≡ record { resource_exists = true; resource_up_to_date = true })
      × ((observe api v).world.remote ≡ v.remote)

  module _ (w : World S) (m : Entries) (guarded : w.guard ≡ some m)
      (live : w.mg.meta.was_deleted ≡ false) (r : Rejected w w.mg.allow_list) where
    -- The world that such a patch leaves, but for the metadata of the resource.
    remembered : Meta → World S
    remembered mt = record {
      remote = (api.patch_instance w.remote r.id r.body).1;
      guard = record_write (some m) r.key (some r.fatal);
      mg = record (w.mg) { meta = mt };
    }

    patch-rejected :
        patch api w w.mg.allow_list ≡ (some r.fatal, record (remembered w.mg.meta) { mg = w.mg })
    unfolding patch send_patch record_terminal_write remembered
    patch-rejected =
        ground (arith, r.resolved, r.built, r.keyed, r.refused, r.classified, live, guarded)

    writes-rejected :
        (create api w ≡ (some r.fatal, remembered (propagate_observed_generation w.mg.meta)))
        × (update api w ≡ (some r.fatal, remembered (propagate_observed_generation w.mg.meta)))
    unfolding create update remembered
    writes-rejected = (ground (arith, patch-rejected), ground (arith, patch-rejected))

    recorded_guard :
        record_write (some m) r.key (some r.fatal)
        ≡ some (assign r.key r.fatal (delete_resource r.key m))
    unfolding record_write
    recorded_guard = rw r.is_fatal

    has-remembered :
        has_terminal_write_resource
          (record_write (some m) r.key (some r.fatal))
          (propagate_observed_generation w.mg.meta)
          allow_list_gvk
        ≡ true
    unfolding has_terminal_write_resource new_terminal_write_resource_key terminal_write_key
    has-remembered =
        has_resource-record_write m r.key _ r.fatal r.is_fatal
          (new_terminal_write_key-Alike api.sum w.mg.meta allow_list_gvk _ r.key r.keyed)

    suppress_write-remembered :
        suppress_write api (remembered (propagate_observed_generation w.mg.meta)) r.id ≡ record {
          obs = record { resource_exists = true; resource_up_to_date = true };
          error = some r.fatal;
          suppressed = true;
          guard = record_write (some m) r.key (some r.fatal);
          managed =
              set_conditions
                (reconcile_error (some r.fatal))
                (propagate_observed_generation w.mg.meta);
        }
    unfolding suppress_write remembered suppress_terminal_write
    suppress_write-remembered =
        let mt = propagate_observed_generation w.mg.meta in
        ground (
          arith,
          recorded_guard,
          key-meta mt r.id w.mg w.mg.allow_list refl refl refl,
          r.keyed,
          suppress-record_write m mt r.key r.fatal r.is_fatal live,
        )

    resolve-remembered :
        resolve_instance_id api (remembered (propagate_observed_generation w.mg.meta)).mg ≡ ok r.id
    unfolding remembered
    resolve-remembered = resolve-meta api w.mg _ refl refl ∙ r.resolved

    observe-remembered : IsSilenced (remembered (propagate_observed_generation w.mg.meta)) r.fatal
    unfolding observe observe_resolved remembered
    observe-remembered = (
      ground (arith, resolve-remembered, has-remembered, suppress_write-remembered),
      ground (arith, resolve-remembered, has-remembered, suppress_write-remembered),
      ground (arith, resolve-remembered, has-remembered, suppress_write-remembered),
    )

    -- A write that the gateway refuses with a terminal error is not sent again: after the create
    -- or the update of a resource that is not being deleted, which returns that error, the next
    -- observation returns the error too, reports the resource as existing and up to date, and
    -- makes no call of the gateway.
    pub rejected-suppressed :
        ((create api w).0 ≡ some r.fatal)
        × ((update api w).0 ≡ some r.fatal)
        × IsSilenced (create api w).1 r.fatal
        × IsSilenced (update api w).1 r.fatal
    rejected-suppressed =
        rw writes-rejected.0
          (rw writes-rejected.1 (refl, refl, observe-remembered, observe-remembered))
