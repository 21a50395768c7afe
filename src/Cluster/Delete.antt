-- ===== src/Cluster/Delete.antt =====
-- internal/controller/cluster/cluster.go: Delete.
use provider_crossplane_akui.Common.{ok, err, if◌then◌else◌, ◌==◌, true, none, some}
use provider_crossplane_akui.Reason.{wrap, Err}
use provider_crossplane_akui.Base.{clear_terminal_write_resource}
use provider_crossplane_akui.Cluster.{
  ClusterResource, ClusterApi, ClusterWorld, cluster_gvk, removes_resources, propagated,
}

module _ {S T C : Type 0} (api : ClusterApi S T C) where
  unfoldable pub remove_manifests : S → ClusterResource → Err × S
  remove_manifests s mg =
      let (r, s₁) = api.get_cluster_manifests s mg.for_provider.instance_id mg.for_provider.name in
      elim r [
        | err e ↦ (some (wrap "could not get cluster manifests to delete" e), s₁)
        | ok manifests ↦
            let (e, s₂) = api.apply_manifests_to_target s₁ mg.for_provider.target manifests true in
            elim e [
              | some x ↦ (some (wrap "could not delete cluster manifests" x), s₂)
              | none ↦ (none, s₂)
            ]
      ]

  -- The removal of the agent's resources, if Delete is to do it.
  unfoldable pub remove_resources : S → ClusterResource → Err × S
  remove_resources s mg = if removes_resources api mg then remove_manifests s mg else (none, s)

  unfoldable pub remove : S → ClusterResource → Err × S
  remove s mg =
      if mg.meta.external_name == ""
      then (none, s)
      else let (e, s₁) = remove_resources s mg in
        elim e [
          | some x ↦ (some x, s₁)
          | none ↦
              let (f, s₂) =
                api.delete_cluster s₁ mg.for_provider.instance_id mg.meta.external_name in
              elim f [ some y ↦ (some (wrap "could not delete cluster" y), s₂) | none ↦ (none, s₂) ]
        ]

  unfoldable pub delete_cluster_resource : ClusterWorld S → Err × ClusterWorld S
  delete_cluster_resource w =
      let (e, s) = remove w.remote w.mg in
      (
        e,
        propagated api (record w {
          remote = s;
          guard = clear_terminal_write_resource w.guard w.mg.meta cluster_gvk;
        }),
      )
