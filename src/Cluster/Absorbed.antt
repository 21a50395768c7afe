-- ===== src/Cluster/Absorbed.antt =====
-- The drift normalisation of the data of a cluster, once the platform has what the user declared.
use provider_crossplane_akui.Common.{
  Bool-cases, ◌≡◌, refl, ap, ◌∙◌, ◌⊎◌, inl, inr, String, Bool, true, Option, none, some, arith,
}
use provider_crossplane_akui.Common.Text.{equal_fold, folds_alike_refl}
use provider_crossplane_akui.ClusterTypes.{ClusterData}
use provider_crossplane_akui.CustomSize.{
  Yaml, generate_cluster_custom_size_kustomization, project_custom_cluster_size,
}
use provider_crossplane_akui.KargoAgent.Normalize.{normalize_ptr_field}
use provider_crossplane_akui.Cluster.{ClusterCodec}
use provider_crossplane_akui.Cluster.Normalize.{
  kustomization_equivalent, absorb_pointers, absorb_dashboard, absorb_kustomization, absorb_clamp,
  absorb_autoscaler, normalize_cluster_data,
}
use provider_crossplane_akui.Cluster.RoundTrip.{IsProjected}

-- The platform holds what the user declared of a field, if the user declared it.
abbrev pub IsApplied : {A : Type 0} → Option A → Option A → Type 0
IsApplied declared held = (declared ≡ none) ⊎ (declared ≡ held)

normalize_ptr_field-IsApplied :
    {A : Type 0} (x y : Option A) → IsApplied x y → normalize_ptr_field x y ≡ y
normalize_ptr_field-IsApplied none none h = refl
normalize_ptr_field-IsApplied none (some y) h = refl
normalize_ptr_field-IsApplied (some x) y (inl h) = absurd (cc)
normalize_ptr_field-IsApplied (some x) y (inr h) = h

-- The fields that only a get reports, and the maintenance mode. An autoscaler counts only of the
-- size "auto".
pub record HoldsDeclared (e a : ClusterData) : Type 0 where
  pub dashboard :
      IsApplied e.multi_cluster_k8s_dashboard_enabled a.multi_cluster_k8s_dashboard_enabled
  pub autoscaler :
      equal_fold e.size "auto" ≡ true → IsApplied e.autoscaler_config a.autoscaler_config
  pub compatibility : IsApplied e.compatibility a.compatibility
  pub notifications : IsApplied e.argocd_notifications_settings a.argocd_notifications_settings
  pub direct : IsApplied e.direct_cluster_spec a.direct_cluster_spec
  pub server_side : IsApplied e.server_side_diff_enabled a.server_side_diff_enabled
  pub metadata : IsApplied e.pod_inherit_metadata a.pod_inherit_metadata
  pub datadog : IsApplied e.datadog_annotations_enabled a.datadog_annotations_enabled
  pub addon : IsApplied e.eks_addon_enabled a.eks_addon_enabled
  pub mode : IsApplied e.maintenance_mode a.maintenance_mode
  pub expiry : IsApplied e.maintenance_mode_expiry a.maintenance_mode_expiry

-- The data with other values of the fields that an export may echo or not.
abbrev pub echoing : ClusterData → ClusterData → ClusterData
echoing t x = record t {
  multi_cluster_k8s_dashboard_enabled = x.multi_cluster_k8s_dashboard_enabled;
  autoscaler_config = x.autoscaler_config;
  compatibility = x.compatibility;
  argocd_notifications_settings = x.argocd_notifications_settings;
  direct_cluster_spec = x.direct_cluster_spec;
  server_side_diff_enabled = x.server_side_diff_enabled;
  pod_inherit_metadata = x.pod_inherit_metadata;
  datadog_annotations_enabled = x.datadog_annotations_enabled;
  eks_addon_enabled = x.eks_addon_enabled;
  maintenance_mode = x.maintenance_mode;
  maintenance_mode_expiry = x.maintenance_mode_expiry;
}

-- The data as a projection leaves it.
abbrev pub sent_data : ClusterData → String → String → ClusterData
sent_data e z q = record e { size = z; kustomization = q; custom_agent_size_config = none }

-- What the comparison takes for observed.
abbrev pub seen_data : ClusterData → ClusterData → String → String → ClusterData
seen_data e a z q = record (echoing (sent_data e z q) a) {
  maintenance_mode = e.maintenance_mode;
  maintenance_mode_expiry = e.maintenance_mode_expiry;
}

-- A projection leaves its data so, and does not read the dashboard.
pub record IsSentAs (yaml : Yaml) (e d : ClusterData) : Type 0 where
  pub z : String
  pub same : d ≡ sent_data e z d.kustomization
  pub not_auto : equal_fold z "auto" ≡ true → equal_fold e.size "auto" ≡ true
  pub dashboard :
      (x : Option Bool)
      → (project_custom_cluster_size yaml (record e { multi_cluster_k8s_dashboard_enabled = x })).1
        ≡ record d { multi_cluster_k8s_dashboard_enabled = x }

pub IsProjected-IsSentAs :
    (yaml : Yaml) (e d : ClusterData) → IsProjected yaml e d → IsSentAs yaml e d
unfolding project_custom_cluster_size generate_cluster_custom_size_kustomization equal_fold
IsProjected-IsSentAs yaml e d (inl (n, c, s)) = record {
  z = e.size;
  same = cc (s, c);
  not_auto = λ y. y;
  dashboard = λ x. ground (arith, n, c, s);
}
IsProjected-IsSentAs yaml e d (inr (y, a, cfg, top, text, c, k, m, s)) = record {
  z = "large";
  same = cc (s);
  not_auto = λ h. absurd (cc);
  dashboard = λ x. ground (arith, y, a, c, k, m, s);
}

module _ {T : Type 0} (codecs : ClusterCodec T) (e a : ClusterData) (z q t : String)
    (holds : HoldsDeclared e a)
    (not_auto : equal_fold z "auto" ≡ true → equal_fold e.size "auto" ≡ true) where
  -- The desired data after the projection, and after the pointers have been absorbed.
  abbrev pointed : ClusterData
  pointed = record (seen_data e a z q) {
    autoscaler_config = normalize_ptr_field e.autoscaler_config a.autoscaler_config;
  }

  pub pointers_absorbed :
      absorb_pointers codecs (seen_data e a z t) (record (sent_data e z q) {
        multi_cluster_k8s_dashboard_enabled = a.multi_cluster_k8s_dashboard_enabled;
      })
      ≡ pointed
  pointers_absorbed = cc (
    normalize_ptr_field-IsApplied e.compatibility a.compatibility holds.compatibility,
    normalize_ptr_field-IsApplied e.argocd_notifications_settings a.argocd_notifications_settings
        holds.notifications,
    normalize_ptr_field-IsApplied e.direct_cluster_spec a.direct_cluster_spec holds.direct,
    normalize_ptr_field-IsApplied e.server_side_diff_enabled a.server_side_diff_enabled
        holds.server_side,
    normalize_ptr_field-IsApplied e.datadog_annotations_enabled a.datadog_annotations_enabled
        holds.datadog,
    normalize_ptr_field-IsApplied e.eks_addon_enabled a.eks_addon_enabled holds.addon,
    normalize_ptr_field-IsApplied e.pod_inherit_metadata a.pod_inherit_metadata holds.metadata,
  )

  abbrev absorbed : ClusterData
  absorbed = record (seen_data e a z t) {
    autoscaler_config = normalize_ptr_field e.autoscaler_config a.autoscaler_config;
  }

  kustomization_absorbed :
      kustomization_equivalent codecs q t ≡ true
      → absorb_kustomization codecs (seen_data e a z t) pointed ≡ absorbed
  kustomization_absorbed h = rw h refl

  clamp_absorbed : absorb_clamp codecs (seen_data e a z t) absorbed ≡ absorbed
  clamp_absorbed = ground (arith, folds_alike_refl z)

  autoscaler_absorbed : absorb_autoscaler codecs (seen_data e a z t) absorbed ≡ seen_data e a z t
  autoscaler_absorbed = elim (Bool-cases (equal_fold z "auto")) [
    | inr n ↦ rw n refl
    | inl y ↦
        let s =
          normalize_ptr_field-IsApplied e.autoscaler_config a.autoscaler_config
            (holds.autoscaler (not_auto y)) in
        rw y (ap (λ (x : Option _). record (seen_data e a z t) { autoscaler_config = x }) s)
  ]

  dashboard_absorbed :
      absorb_dashboard codecs (seen_data e a z t) e
      ≡ record e { multi_cluster_k8s_dashboard_enabled = a.multi_cluster_k8s_dashboard_enabled }
  dashboard_absorbed =
      ap (λ (x : Option Bool). record e { multi_cluster_k8s_dashboard_enabled = x })
        (normalize_ptr_field-IsApplied e.multi_cluster_k8s_dashboard_enabled
          a.multi_cluster_k8s_dashboard_enabled holds.dashboard)

  pub normalize_cluster_data-seen_data :
      (project_custom_cluster_size codecs.codec.yaml (record e {
        multi_cluster_k8s_dashboard_enabled = a.multi_cluster_k8s_dashboard_enabled;
      })).1
        ≡ record (sent_data e z q) {
          multi_cluster_k8s_dashboard_enabled = a.multi_cluster_k8s_dashboard_enabled;
        }
      → kustomization_equivalent codecs q t ≡ true
      → normalize_cluster_data codecs (seen_data e a z t) e ≡ seen_data e a z t
  unfolding normalize_cluster_data
  normalize_cluster_data-seen_data p k =
      ap
        (λ (x : ClusterData). absorb_autoscaler codecs (seen_data e a z t) (
          absorb_clamp codecs (seen_data e a z t) (
            absorb_kustomization codecs (seen_data e a z t) (
              absorb_pointers codecs (seen_data e a z t)
                (project_custom_cluster_size codecs.codec.yaml x).1))))
        dashboard_absorbed
      ∙ ap
          (λ (x : ClusterData). absorb_autoscaler codecs (seen_data e a z t) (
            absorb_clamp codecs (seen_data e a z t) (
              absorb_kustomization codecs (seen_data e a z t)
                (absorb_pointers codecs (seen_data e a z t) x))))
          p
      ∙ ap
          (λ (x : ClusterData). absorb_autoscaler codecs (seen_data e a z t) (
            absorb_clamp codecs (seen_data e a z t)
              (absorb_kustomization codecs (seen_data e a z t) x)))
          pointers_absorbed
      ∙ ap
          (λ (x : ClusterData).
            absorb_autoscaler codecs (seen_data e a z t)
              (absorb_clamp codecs (seen_data e a z t) x))
          (kustomization_absorbed k)
      ∙ ap (absorb_autoscaler codecs (seen_data e a z t)) clamp_absorbed
      ∙ autoscaler_absorbed
