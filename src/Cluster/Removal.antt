-- ===== src/Cluster/Removal.antt =====
-- Delete removes the agent's resources before the row of the platform.
use provider_crossplane_akui.Common.{
  ok, Result-cases, ◌==◌, Option-cases, String, ◌≡◌, ◌≢◌, inl, inr, true, false, none, arith,
}
use provider_crossplane_akui.Cluster.{ClusterResource, ClusterApi, ClusterWorld, removes_resources}
use provider_crossplane_akui.Cluster.Delete.{
  remove_manifests, remove_resources, remove, delete_cluster_resource,
}

module _ {S T C : Type 0} (api : ClusterApi S T C) where
  -- The calls of a Delete that removes the agent's resources, and of one that does not.
  abbrev pub IsEmptied : S → ClusterResource → S → Type 0
  IsEmptied s mg s₂ =
      (manifests : String) × (s₁ : S) × (api.get_cluster_manifests s mg.for_provider.instance_id
          mg.for_provider.name
        ≡ (ok manifests, s₁))
      × (api.apply_manifests_to_target s₁ mg.for_provider.target manifests true ≡ (none, s₂))

  remove_resources-IsEmptied :
      (s : S) (mg : ClusterResource)
      → (remove_resources api s mg).0 ≡ none
      → (removes_resources api mg ≡ true → IsEmptied s mg (remove_resources api s mg).1)
        × (removes_resources api mg ≡ false → (remove_resources api s mg).1 ≡ s)
  unfolding remove_resources remove_manifests
  remove_resources-IsEmptied s mg h = (
    λ r.
        elim (Result-cases
          (api.get_cluster_manifests s mg.for_provider.instance_id mg.for_provider.name).0) [
            | inr (e, g) ↦ absurd (ground (arith, r, g))
            | inl (m, g) ↦
                let s₁ =
                  (api.get_cluster_manifests s mg.for_provider.instance_id
                    mg.for_provider.name).1 in
                elim (Option-cases
                  (api.apply_manifests_to_target s₁ mg.for_provider.target m true).0) [
                    | inr (x, a) ↦ absurd (ground (arith, r, g, a))
                    | inl a ↦ (m, s₁, ground (arith, g), ground (arith, r, g, a))
                  ]
          ],
    λ r. ground (arith, r),
  )

  -- A Delete of a resource with an external name that succeeds has removed the agent's resources,
  -- if it is to, and then the row of the platform, in this order; one that cannot remove the
  -- resources returns that error and does not ask for the row to be deleted; and a resource
  -- without an external name is deleted without any call.
  pub delete_cluster_resource_order :
      (w : ClusterWorld S)
      → ((w.mg.meta.external_name == "") ≡ false
          → (delete_cluster_resource api w).0 ≡ none
          → (s₂ : S) × (removes_resources api w.mg ≡ true → IsEmptied w.remote w.mg s₂)
            × (removes_resources api w.mg ≡ false → s₂ ≡ w.remote)
            × (api.delete_cluster s₂ w.mg.for_provider.instance_id w.mg.meta.external_name
                ≡ (none, (delete_cluster_resource api w).1.remote)))
        × ((w.mg.meta.external_name == "") ≡ false
            → (remove_resources api w.remote w.mg).0 ≢ none
            → ((delete_cluster_resource api w).0 ≡ (remove_resources api w.remote w.mg).0)
              × ((delete_cluster_resource api w).1.remote ≡ (remove_resources api w.remote w.mg).1))
        × ((w.mg.meta.external_name == "") ≡ true
            → ((delete_cluster_resource api w).0 ≡ none)
              × ((delete_cluster_resource api w).1.remote ≡ w.remote))
  unfolding delete_cluster_resource remove
  delete_cluster_resource_order w = (
    λ n h. elim (Option-cases (remove_resources api w.remote w.mg).0) [
      | inr (x, r) ↦ absurd (ground (arith, n, r))
      | inl r ↦
          let s₂ = (remove_resources api w.remote w.mg).1 in
          let e = remove_resources-IsEmptied w.remote w.mg r in
          elim (Option-cases
            (api.delete_cluster s₂ w.mg.for_provider.instance_id w.mg.meta.external_name).0) [
              | inr (x, d) ↦ absurd (ground (arith, n, r, d))
              | inl d ↦ (s₂, e.0, e.1, ground (arith, n, r, d))
            ]
    ],
    λ n h. elim (Option-cases (remove_resources api w.remote w.mg).0) [
      | inl r ↦ absurd (h r)
      | inr (x, r) ↦ (ground (arith, n, r), ground (arith, n, r))
    ],
    λ n. (ground (arith, n), ground (arith, n)),
  )
