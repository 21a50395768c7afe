-- ===== src/Cluster/NoDrift.antt =====
-- The comparison of a cluster with its export, once the platform has what the user declared.
use provider_crossplane_akui.Common.{
  ok, ◌==◌, ◌≡◌, refl, sym, ap, subst, ◌∙◌, inl, inr, String, Bool, true, false, Option, none, some,
}
use provider_crossplane_akui.Drift.{normalized, projected, evaluate_drift, run_side}
use provider_crossplane_akui.ClusterTypes.{ClusterData}
use provider_crossplane_akui.Cluster.{
  ClusterParameters, WireCluster, ClusterApi, ClusterWorld, with_data,
}
use provider_crossplane_akui.Cluster.Convert.{spec_to_api, wire_to_spec}
use provider_crossplane_akui.Cluster.Normalize.{
  normalize_cluster_data, overlay_cluster_get_only_data, drift_spec,
}
use provider_crossplane_akui.Cluster.Observe.{
  exists, guarded_observation, kept_if_declared, kept_if_stamped, drift_data, compare_cluster,
}
use provider_crossplane_akui.Cluster.RoundTrip.{
  rendered, image, with_size, IsProjected, spec_to_api-steps,
}
use provider_crossplane_akui.Cluster.Entries.{Renders}
use provider_crossplane_akui.Cluster.Rendered.{rendered-equivalent_to}
use provider_crossplane_akui.Cluster.Absorbed.{
  IsApplied, HoldsDeclared, echoing, sent_data, seen_data, IsProjected-IsSentAs,
  normalize_cluster_data-seen_data,
}

-- What an export gives of the cluster that was applied, with stray values where it may stray.
abbrev pub exported_as :
    {S T C : Type 0}
    → ClusterApi S T C
    → ClusterWorld S
    → WireCluster T
    → ClusterData
    → ClusterParameters
exported_as api w wire stray =
    let p = w.mg.for_provider in
    let target = wire_to_spec api.codecs p.instance_id p wire in
    with_data target (echoing target.cluster_spec.cluster_data stray)

module _ {S T C : Type 0} (api : ClusterApi S T C) where
  kept_if_declared-IsApplied : (x y : Option Bool) → IsApplied x y → kept_if_declared api x y ≡ x
  kept_if_declared-IsApplied none y h = refl
  kept_if_declared-IsApplied (some x) y (inl h) = absurd (cc)
  kept_if_declared-IsApplied (some x) y (inr h) = sym h

  kept_if_stamped-IsApplied : (x y : Option String) → IsApplied x y → kept_if_stamped api x y ≡ x
  kept_if_stamped-IsApplied none y h = refl
  kept_if_stamped-IsApplied (some x) y (inl h) = absurd (cc)
  kept_if_stamped-IsApplied (some x) y (inr h) = sym h

  drift_data-seen_data :
      (e a d x : ClusterData) (z k : String)
      → HoldsDeclared e a
      → d ≡ sent_data e z d.kustomization
      → drift_data api e a (echoing (image api.codecs d k) x)
        ≡ seen_data e a z (rendered api.codecs k)
  unfolding overlay_cluster_get_only_data
  drift_data-seen_data e a d x z k holds s =
      ap (λ (y : ClusterData). drift_data api e a (echoing (image api.codecs y k) x)) s
      ∙ cc (
        kept_if_declared-IsApplied e.maintenance_mode a.maintenance_mode holds.mode,
        kept_if_stamped-IsApplied e.maintenance_mode_expiry a.maintenance_mode_expiry holds.expiry,
      )

  with_size-given : (e : ClusterData) → (e.size == "") ≡ false → with_size e ≡ e
  with_size-given e n = rw n refl

  evaluate_drift-seen_data :
      (p : ClusterParameters) (o : ClusterData)
      → ((q : ClusterParameters) → api.equal q q ≡ true)
      → normalize_cluster_data api.codecs o p.cluster_spec.cluster_data ≡ o
      → (evaluate_drift api.equal
          (λ d (x : Unit {0}). d)
          (drift_spec api.codecs)
          p
          (with_data p o)).up_to_date
        ≡ ok true
  unfolding drift_spec normalized projected evaluate_drift run_side
  evaluate_drift-seen_data p o same n = rw (n, same (with_data p o)) refl

  -- What the comparison takes for observed.
  abbrev compared : ClusterWorld S → ClusterParameters → ClusterParameters → ClusterParameters
  compared w actual target = with_data target (
      drift_data api w.mg.for_provider.cluster_spec.cluster_data actual.cluster_spec.cluster_data
        target.cluster_spec.cluster_data)

  compare_cluster-of-verdict :
      (w : ClusterWorld S) (actual target : ClusterParameters)
      → (evaluate_drift api.equal
          (λ d (x : Unit {0}). d)
          (drift_spec api.codecs)
          w.mg.for_provider
          (compared w actual target)).up_to_date
        ≡ ok true
      → ((compare_cluster api w actual target).obs ≡ exists api true)
        × ((compare_cluster api w actual target).error ≡ none)
  unfolding compare_cluster guarded_observation
  compare_cluster-of-verdict w actual target v = rw v (refl, refl)

  -- Once the platform holds what the user declared, the comparison finds no drift and reports the
  -- cluster as existing and up to date, with no error. It holds of any parameters that can be
  -- applied, of size "custom" included, with a size, as late initialisation leaves them. The export
  -- gives back what was applied; but of the fields that only a get reports, and of the maintenance
  -- mode, it may give back anything, and there it is the get that holds what the user declared, if
  -- the user declared it.
  pub compare_cluster-HoldsDeclared :
      (w : ClusterWorld S) (actual : ClusterParameters) (wire : WireCluster T) (stray : ClusterData)
      → Renders api.codecs
      → ((q : ClusterParameters) → api.equal q q ≡ true)
      → spec_to_api api.codecs w.mg.for_provider ≡ ok wire
      → (w.mg.for_provider.cluster_spec.cluster_data.size == "") ≡ false
      → HoldsDeclared w.mg.for_provider.cluster_spec.cluster_data actual.cluster_spec.cluster_data
      → ((compare_cluster api w actual (exported_as api w wire stray)).obs ≡ exists api true)
        × ((compare_cluster api w actual (exported_as api w wire stray)).error ≡ none)
  compare_cluster-HoldsDeclared w actual wire stray law same h n holds =
      let p = w.mg.for_provider in
      let e = p.cluster_spec.cluster_data in
      let a = actual.cluster_spec.cluster_data in
      let (d, k, is, raw, back) = spec_to_api-steps api.codecs p.instance_id p wire h in
      let yaml = api.codecs.codec.yaml in
      let as_sent =
        IsProjected-IsSentAs yaml e d
          (subst (λ (x : ClusterData). IsProjected yaml x d) (with_size-given e n) is) in
      let t = rendered api.codecs k in
      let o = seen_data e a as_sent.z t in
      let q = d.kustomization in
      let alike = rendered-equivalent_to api.codecs q k law raw in
      let normal =
        normalize_cluster_data-seen_data api.codecs e a as_sent.z q t holds as_sent.not_auto
          (as_sent.dashboard a.multi_cluster_k8s_dashboard_enabled
            ∙ ap
                (λ (y : ClusterData). record y {
                  multi_cluster_k8s_dashboard_enabled = a.multi_cluster_k8s_dashboard_enabled;
                })
                as_sent.same)
          alike in
      let seen = drift_data-seen_data e a d stray as_sent.z k holds as_sent.same in
      let verdict = evaluate_drift-seen_data p o same normal in
      let target =
        ap
          (λ (x : ClusterParameters).
            compared w actual (with_data x (echoing x.cluster_spec.cluster_data stray)))
          back
        ∙ ap (with_data p) seen in
      compare_cluster-of-verdict w actual (exported_as api w wire stray) (
        subst
          (λ (x : ClusterParameters).
            (evaluate_drift api.equal (λ d (u : Unit {0}). d) (drift_spec api.codecs) p
              x).up_to_date
            ≡ ok true)
          (sym target) verdict)
