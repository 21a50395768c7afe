-- ===== src/AllowList/Deletion.antt =====
-- Deleting clears the list and the memory of failed writes, and lets the resource go.

use provider_crossplane_akui.Guard.{new_terminal_write_resource_key}
use provider_crossplane_akui.Common.{◌==◌, String, ◌≡◌, refl, ap, ◌∙◌, true, false, none, [], arith}
use provider_crossplane_akui.Managed.{Observation, no_observation, propagate_observed_generation}
use provider_crossplane_akui.Guard.Resource.{has_resource-clear-Alike}
use provider_crossplane_akui.Base.{clear_terminal_write_resource, has_terminal_write_resource}
use provider_crossplane_akui.AllowList.{
  AllowList, Api, World, allow_list_gvk, patch_entries, pb_entries_to_spec, observe_found, observe,
  send_patch, patch, delete,
}
use provider_crossplane_akui.AllowList.Converge.{
  IsMerging, Patched, patch-Patched, patch-world, observe-of-found, resolve-meta,
}

module _ {S : Type 0} (api : Api S) where
  patch-guard :
      (w : World S) (desired : AllowList)
      → w.mg.meta.was_deleted ≡ true
      → ((patch api w desired).1.guard ≡ w.guard) × ((patch api w desired).1.mg ≡ w.mg)
  unfolding patch send_patch
  patch-guard w desired gone = (ground arith, ground arith)

  abbrev cleared : World S → World S
  cleared w = record w { guard = clear_terminal_write_resource w.guard w.mg.meta allow_list_gvk }

  -- Once Delete has run on a resource that is being deleted, whatever the gateway answered, nothing
  -- is recorded of the resource.
  delete-forgets :
      (w : World S)
      → w.mg.meta.was_deleted ≡ true
      → has_terminal_write_resource (delete api w).1.guard w.mg.meta allow_list_gvk ≡ false
  unfolding delete has_terminal_write_resource clear_terminal_write_resource
  delete-forgets w gone =
      rw ((patch-guard (cleared w) [] gone).0)
        (has_resource-clear-Alike w.guard _ _ (refl, refl, refl, refl))

  observe_found-gone :
      (v : World S) (id : String)
      → v.mg.meta.was_deleted ≡ true
      → ((observe_found api v id []).obs ≡ no_observation)
        × ((observe_found api v id []).error ≡ none)
  unfolding observe_found pb_entries_to_spec
  observe_found-gone v id gone = (ground arith, ground arith)

  delete-patch : (w : World S) → (delete api w).0 ≡ none → (patch api (cleared w) []).0 ≡ none
  unfolding delete
  delete-patch w done = done

  abbrev gone_world : (w : World S) → Patched api (cleared w) [] → World S
  gone_world w p = record {
    remote = (api.patch_instance w.remote p.id p.body).1;
    guard = clear_terminal_write_resource w.guard w.mg.meta allow_list_gvk;
    mg = record (w.mg) { meta = propagate_observed_generation w.mg.meta };
  }

  observe-gone :
      (w : World S)
      → IsMerging api
      → w.mg.meta.was_deleted ≡ true
      → (w.mg.meta.external_name == "") ≡ false
      → (p : Patched api (cleared w) [])
      → ((observe api (gone_world w p)).obs.resource_exists ≡ false)
        × ((observe api (gone_world w p)).error ≡ none)
  unfolding has_terminal_write_resource clear_terminal_write_resource
      new_terminal_write_resource_key patch_entries
  observe-gone w merging gone ext p =
      let v = gone_world w p in
      let found =
        observe-of-found api v p.id [] (resolve-meta api w.mg _ refl refl ∙ p.resolved) ext
          (has_resource-clear-Alike w.guard _ _ (refl, refl, refl, refl))
          (merging.merges w.remote p.id [] p.body p.built p.accepted) in
      let lost =
        observe_found-gone (record v { remote = (api.get_instance_by_id v.remote p.id).1 }) p.id
          gone in
      (ap (λ (o : Observation). o.resource_exists) (found.0 ∙ lost.0), found.1 ∙ lost.1)

  delete-world :
      (w : World S) (p : Patched api (cleared w) [])
      → w.mg.meta.was_deleted ≡ true
      → (delete api w).1 ≡ record {
        remote = (api.patch_instance w.remote p.id p.body).1;
        guard = clear_terminal_write_resource w.guard w.mg.meta allow_list_gvk;
        mg = record (w.mg) { meta = propagate_observed_generation w.mg.meta };
      }
  unfolding delete
  delete-world w p gone = ground (arith, patch-world api (cleared w) [] p, gone)

  -- After a Delete that succeeds on a resource that is being deleted and has an external name, the
  -- next observation says that the resource does not exist, so that its finalizer goes; the
  -- gateway is assumed to store an accepted patch.
  pub delete-settles :
      (w : World S)
      → IsMerging api
      → w.mg.meta.was_deleted ≡ true
      → (w.mg.meta.external_name == "") ≡ false
      → (delete api w).0 ≡ none
      → ((observe api (delete api w).1).obs.resource_exists ≡ false)
        × ((observe api (delete api w).1).error ≡ none)
  delete-settles w merging gone ext done =
      let p = patch-Patched api (cleared w) [] (delete-patch w done) in
      rw (delete-world w p gone) (observe-gone w merging gone ext p)
