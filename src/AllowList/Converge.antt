-- ===== src/AllowList/Converge.antt =====
-- A write that succeeds settles: the next observation finds nothing to do.

use provider_crossplane_akui.Reason.Classify.{classify_apply_error-ne-none}
use provider_crossplane_akui.Base.{
  record_terminal_write, clear_terminal_write, has_terminal_write_resource,
}
use provider_crossplane_akui.Managed.{Meta, propagate_observed_generation}
use provider_crossplane_akui.Guard.Resource.{has_resource-clear-Alike, new_terminal_write_key-Alike}
use provider_crossplane_akui.Drift.{run_side, normalized, projected, evaluate_drift}
use provider_crossplane_akui.Common.{
  ok, Result-cases, if◌then◌else◌, ◌==◌, Option-cases, String, ◌≡◌, refl, ◌∙◌, inl, inr, true,
  false, none, some, [], ◌∷◌, arith,
}
use provider_crossplane_akui.Guard.{TerminalWriteKey, new_terminal_write_resource_key}
use provider_crossplane_akui.Json.{Json}
use provider_crossplane_akui.AllowList.{
  AllowList, InstanceIpAllowList, Api, World, allow_list_gvk, patch_entries, patch_body,
  pb_entries_to_spec, resolve_instance_id, terminal_write_key, guarded_observation, observe_found,
  observe_remote, observe_named, observe_resolved, observe, send_patch, patch, create, update,
}
use provider_crossplane_akui.AllowList.Requests.{parse_entries, parse_entries-patch_entries}

-- What the gateway is documented to do: a patch that is accepted replaces the allow list of the
-- instance by the list that it carries, and a get of the instance reads it.
pub record IsMerging {S : Type 0} (api : Api S) : Type 0 where
  pub merges :
      (s : S) (id : String) (desired : AllowList) (body : Json)
      → api.new_struct (patch_body desired) ≡ ok body
      → (api.patch_instance s id body).0 ≡ none
      → (api.get_instance_by_id (api.patch_instance s id body).1 id).0
        ≡ ok (parse_entries (patch_entries desired))

pb_entries_to_spec_idem :
    (d : AllowList) → pb_entries_to_spec (pb_entries_to_spec d) ≡ pb_entries_to_spec d
unfolding pb_entries_to_spec
pb_entries_to_spec_idem [] = refl
pb_entries_to_spec_idem (none ∷ d) = pb_entries_to_spec_idem d
pb_entries_to_spec_idem (some e ∷ d) = rw (pb_entries_to_spec_idem d)

module _ {S : Type 0} (api : Api S) where
  -- The parts of a patch that succeeded.
  pub record Patched (w : World S) (desired : AllowList) : Type 0 where
    pub id : String
    pub body : Json
    pub key : TerminalWriteKey
    pub resolved : resolve_instance_id api w.mg ≡ ok id
    pub built : api.new_struct (patch_body desired) ≡ ok body
    pub keyed : terminal_write_key api w.mg id desired ≡ ok key
    pub accepted : (api.patch_instance w.remote id body).0 ≡ none

  pub patch-Patched :
      (w : World S) (desired : AllowList) → (patch api w desired).0 ≡ none → Patched w desired
  unfolding patch send_patch record_terminal_write
  patch-Patched w desired h = elim (Result-cases (resolve_instance_id api w.mg)) [
    | inr (e, r) ↦ absurd (ground (arith, r))
    | inl (id, r) ↦ elim (Result-cases (api.new_struct (patch_body desired))) [
      | inr (e, n) ↦ absurd (ground (arith, r, n))
      | inl (body, n) ↦ elim (Result-cases (terminal_write_key api w.mg id desired)) [
        | inr (e, k) ↦ absurd (ground (arith, r, n, k))
        | inl (key, k) ↦ record {
          id = id;
          body = body;
          key = key;
          resolved = r;
          built = n;
          keyed = k;
          accepted = elim (Option-cases (api.patch_instance w.remote id body).0) [
            | inl a ↦ a
            | inr (x, a) ↦
                absurd (ground (arith, r, n, k, a, classify_apply_error-ne-none api.errors x))
          ];
        }
      ]
    ]
  ]

  module _ (w : World S) (desired : AllowList) (p : Patched w desired) where
    -- The world that such a patch leaves.
    pub patch-world : patch api w desired ≡ (
      none,
      record w {
        remote = (api.patch_instance w.remote p.id p.body).1;
        guard = if w.mg.meta.was_deleted then w.guard else clear_terminal_write w.guard p.key;
      },
    )
    unfolding patch send_patch
    patch-world = ground (arith, p.resolved, p.built, p.keyed, p.accepted)

  -- A world in which nothing is recorded of the resource, and the gateway holds the list.
  module _ (v : World S) (id : String) (listed : AllowList)
      (resolved : resolve_instance_id api v.mg ≡ ok id)
      (named : (v.mg.meta.external_name == "") ≡ false)
      (forgotten : has_terminal_write_resource v.guard v.mg.meta allow_list_gvk ≡ false)
      (holds : (api.get_instance_by_id v.remote id).0 ≡ ok listed) where
    pub observe-of-found :
        ((observe api v).obs
          ≡ (observe_found api
              (record v { remote = (api.get_instance_by_id v.remote id).1 })
              id
              listed).obs)
        × ((observe api v).error
            ≡ (observe_found api
                (record v { remote = (api.get_instance_by_id v.remote id).1 })
                id
                listed).error)
    unfolding observe observe_resolved observe_named observe_remote
    observe-of-found = (
      ground (arith, resolved, named, forgotten, holds),
      ground (arith, resolved, named, forgotten, holds),
    )

  observe_found-equal :
      (v : World S) (id : String) (listed : AllowList)
      → v.mg.meta.was_deleted ≡ false
      → api.equal v.mg.allow_list (pb_entries_to_spec listed) ≡ true
      → ((observe_found api v id listed).obs
          ≡ record { resource_exists = true; resource_up_to_date = true })
        × ((observe_found api v id listed).error ≡ none)
  unfolding observe_found evaluate_drift normalized projected run_side guarded_observation
  observe_found-equal v id listed live same = (ground arith, ground arith)

  pub resolve-meta :
      (mg : InstanceIpAllowList) (m : Meta)
      → m.namespace ≡ mg.meta.namespace
      → m.was_deleted ≡ mg.meta.was_deleted
      → resolve_instance_id api (record mg { meta = m }) ≡ resolve_instance_id api mg
  unfolding resolve_instance_id
  resolve-meta mg m n d = ground (arith, n, d)

  -- An observation finds the resource up to date in every world that has the guard and the
  -- gateway as a patch of the resource's own list left them.
  module _ (merging : IsMerging api) (w : World S)
      (whole : pb_entries_to_spec w.mg.allow_list ≡ w.mg.allow_list)
      (reflexive : api.equal w.mg.allow_list w.mg.allow_list ≡ true)
      (live : w.mg.meta.was_deleted ≡ false) (p : Patched w w.mg.allow_list) where
    settled : (m : Meta) → World S
    settled m = record {
      remote = (api.patch_instance w.remote p.id p.body).1;
      guard = clear_terminal_write w.guard p.key;
      mg = record (w.mg) { meta = m };
    }

    settled-obs :
        (m : Meta)
        → m.namespace ≡ w.mg.meta.namespace
        → m.was_deleted ≡ w.mg.meta.was_deleted
        → m.uid ≡ w.mg.meta.uid
        → m.name ≡ w.mg.meta.name
        → (m.external_name == "") ≡ false
        → ((observe api (settled m)).obs
            ≡ record { resource_exists = true; resource_up_to_date = true })
          × ((observe api (settled m)).error ≡ none)
    unfolding settled terminal_write_key clear_terminal_write has_terminal_write_resource
        new_terminal_write_resource_key
    settled-obs m ns del uid name ext =
        let listed = parse_entries (patch_entries w.mg.allow_list) in
        let back : pb_entries_to_spec listed ≡ w.mg.allow_list =
          rw (parse_entries-patch_entries w.mg.allow_list, pb_entries_to_spec_idem) whole in
        let found =
          observe-of-found (settled m) p.id listed (resolve-meta w.mg m ns del ∙ p.resolved) ext
            (forgotten m uid ns name)
            (merging.merges w.remote p.id w.mg.allow_list p.body p.built p.accepted) in
        let eq =
          observe_found-equal
            (record (settled m) { remote = (api.get_instance_by_id (settled m).remote p.id).1 })
            p.id listed (del ∙ live) (rw back reflexive) in
        (found.0 ∙ eq.0, found.1 ∙ eq.1)
      where
        forgotten :
            (m : Meta)
            → m.uid ≡ w.mg.meta.uid
            → m.namespace ≡ w.mg.meta.namespace
            → m.name ≡ w.mg.meta.name
            → has_terminal_write_resource (clear_terminal_write w.guard p.key) m allow_list_gvk
              ≡ false
        forgotten m uid ns name =
            let k = new_terminal_write_key-Alike api.sum w.mg.meta allow_list_gvk _ p.key p.keyed in
            has_resource-clear-Alike w.guard p.key _
              (ground (arith, k), ground (arith, k), ground (arith, k), ground (arith, k))

    update-world : (update api w).1 ≡ settled (propagate_observed_generation w.mg.meta)
    unfolding update settled
    update-world = rw (patch-world w w.mg.allow_list p, live)

    create-world :
        (create api w).1
        ≡ settled
            (propagate_observed_generation (record (w.mg.meta) { external_name = w.mg.meta.name }))
    unfolding create settled
    create-world = ground (arith, patch-world w w.mg.allow_list p, live)

  create-patch : (w : World S) → (create api w).0 ≡ none → (patch api w w.mg.allow_list).0 ≡ none
  unfolding create
  create-patch w done = ground arith

  update-patch : (w : World S) → (update api w).0 ≡ none → (patch api w w.mg.allow_list).0 ≡ none
  unfolding update
  update-patch w done = done

  abbrev pub IsSettled : World S → Type 0
  IsSettled v =
      ((observe api v).obs ≡ record { resource_exists = true; resource_up_to_date = true })
      × ((observe api v).error ≡ none)

  -- After a create or an update that succeeds on a resource that is not being deleted and whose
  -- list has no nil pointer, the next observation reports the resource as existing and up to date,
  -- with no error. It is assumed that the gateway stores an accepted patch, that the list compares
  -- equal to itself, and that the resource has a name, for a create, or an external name, for an
  -- update.
  pub writes_settle :
      (w : World S)
      → IsMerging api
      → pb_entries_to_spec w.mg.allow_list ≡ w.mg.allow_list
      → api.equal w.mg.allow_list w.mg.allow_list ≡ true
      → w.mg.meta.was_deleted ≡ false
      → ((create api w).0 ≡ none → (w.mg.meta.name == "") ≡ false → IsSettled (create api w).1)
        × ((update api w).0 ≡ none
            → (w.mg.meta.external_name == "") ≡ false
            → IsSettled (update api w).1)
  writes_settle w merging whole same live = (
    λ done name.
        let p = patch-Patched w w.mg.allow_list (create-patch w done) in
        rw (create-world merging w whole same live p)
          (settled-obs merging w whole same live p _ refl refl refl refl name),
    λ done ext.
        let p = patch-Patched w w.mg.allow_list (update-patch w done) in
        rw (update-world merging w whole same live p)
          (settled-obs merging w whole same live p _ refl refl refl refl ext),
  )
