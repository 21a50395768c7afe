-- ===== src/Cluster/Idempotent.antt =====
-- The steps of late initialisation, done twice.
use provider_crossplane_akui.Common.{
  Bool-cases, ◌≡◌, refl, sym, ap, ◌∙◌, inl, inr, String, true, false, Option, none, some, arith,
}
use provider_crossplane_akui.Common.Text.{equal_fold}
use provider_crossplane_akui.ClusterTypes.{ClusterData}
use provider_crossplane_akui.KargoAgent.Normalize.{or_observed, normalize_ptr_field}
use provider_crossplane_akui.Cluster.Normalize.{late_sized, late_rendered}

normalize_ptr_field_again :
    {A : Type 0} (x y : Option A)
    → normalize_ptr_field (normalize_ptr_field x y) y ≡ normalize_ptr_field x y
normalize_ptr_field_again none none = refl
normalize_ptr_field_again none (some y) = refl
normalize_ptr_field_again (some x) y = refl

pub or_observed_again : (x y : String) → or_observed (or_observed x y) y ≡ or_observed x y
or_observed_again x y = ground arith

late_sized_idem : (d a : ClusterData) → late_sized (late_sized d a) a ≡ late_sized d a
late_sized_idem d a = cc (
  normalize_ptr_field_again d.auto_upgrade_disabled a.auto_upgrade_disabled,
  normalize_ptr_field_again d.app_replication a.app_replication,
  or_observed_again d.target_version a.target_version,
  normalize_ptr_field_again d.redis_tunneling a.redis_tunneling,
  or_observed_again d.size a.size,
  normalize_ptr_field_again d.multi_cluster_k8s_dashboard_enabled
      a.multi_cluster_k8s_dashboard_enabled,
  normalize_ptr_field_again d.pod_inherit_metadata a.pod_inherit_metadata,
)

-- The data with the two fields that a custom size keeps.
abbrev rendered_too : ClusterData → ClusterData → ClusterData
rendered_too d a = record d {
  kustomization = or_observed d.kustomization a.kustomization;
  autoscaler_config = normalize_ptr_field d.autoscaler_config a.autoscaler_config;
}

late_rendered-other :
    (d a : ClusterData) → equal_fold d.size "custom" ≡ false → late_rendered d a ≡ rendered_too d a
late_rendered-other d a n = rw n refl

late_rendered-custom :
    (d a : ClusterData) → equal_fold d.size "custom" ≡ true → late_rendered d a ≡ d
late_rendered-custom d a y = rw y refl

rendered_too_idem : (d a : ClusterData) → rendered_too (rendered_too d a) a ≡ rendered_too d a
rendered_too_idem d a = cc (
  or_observed_again d.kustomization a.kustomization,
  normalize_ptr_field_again d.autoscaler_config a.autoscaler_config,
)

unfoldable pub late_data : ClusterData → ClusterData → ClusterData
late_data d a = late_rendered (late_sized d a) a

pub late_data_idem : (d a : ClusterData) → late_data (late_data d a) a ≡ late_data d a
unfolding late_data
late_data_idem d a =
    let l = late_sized d a in
    elim (Bool-cases (equal_fold l.size "custom")) [
      | inl y ↦
          ap (λ (x : ClusterData). late_rendered (late_sized x a) a) (late_rendered-custom l a y)
          ∙ ap (λ (x : ClusterData). late_rendered x a) (late_sized_idem d a)
      | inr n ↦
          let other = late_rendered-other l a n in
          ap (λ (x : ClusterData). late_rendered (late_sized x a) a) other
          ∙ ap (λ (x : ClusterData). late_rendered (rendered_too x a) a) (late_sized_idem d a)
          ∙ late_rendered-other (rendered_too l a) a n
          ∙ rendered_too_idem l a
          ∙ sym other
    ]
