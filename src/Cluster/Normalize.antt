-- ===== src/Cluster/Normalize.antt =====
-- internal/controller/cluster/cluster.go: late initialisation, the overlay of data that only a get
-- echoes, and what the drift comparison changes of the desired parameters.
use provider_crossplane_akui.Common.{
  Result, ok, ◌>>=◌, if◌then◌else◌, ◌==◌, nonempty, String, Bool, true, false, not, ◌&&◌, ◌||◌,
  none, some, [],
}
use provider_crossplane_akui.Common.Text.{
  is_blank, trims_to, same_but_newlines, equal_fold, lowers_to, folds_alike,
}
use provider_crossplane_akui.Reason.{Error}
use provider_crossplane_akui.Json.{obj}
use provider_crossplane_akui.Drift.{DriftSpec}
use provider_crossplane_akui.ClusterTypes.{ClusterData}
use provider_crossplane_akui.CustomSize.{project_custom_cluster_size}
use provider_crossplane_akui.KargoAgent.Normalize.{or_observed, normalize_ptr_field, only_header}
use provider_crossplane_akui.Cluster.State.{ClusterParameters, ClusterCodec}
use provider_crossplane_akui.Cluster.Kustomization.{cluster_kustomization_raw}

-- overlayClusterGetOnlyData
unfoldable pub overlay_cluster_get_only_data : ClusterData → ClusterData → ClusterData
overlay_cluster_get_only_data target actual = record target {
  multi_cluster_k8s_dashboard_enabled = actual.multi_cluster_k8s_dashboard_enabled;
  autoscaler_config = actual.autoscaler_config;
  compatibility = actual.compatibility;
  argocd_notifications_settings = actual.argocd_notifications_settings;
  direct_cluster_spec = actual.direct_cluster_spec;
  server_side_diff_enabled = actual.server_side_diff_enabled;
  pod_inherit_metadata = actual.pod_inherit_metadata;
  datadog_annotations_enabled = actual.datadog_annotations_enabled;
  eks_addon_enabled = actual.eks_addon_enabled;
}

-- pointer.LateInitialize, of a text and of a pointer, is or_observed and normalize_ptr_field.
abbrev pub late_sized : ClusterData → ClusterData → ClusterData
late_sized d a = record d {
  auto_upgrade_disabled = normalize_ptr_field d.auto_upgrade_disabled a.auto_upgrade_disabled;
  app_replication = normalize_ptr_field d.app_replication a.app_replication;
  target_version = or_observed d.target_version a.target_version;
  redis_tunneling = normalize_ptr_field d.redis_tunneling a.redis_tunneling;
  size = or_observed d.size a.size;
  multi_cluster_k8s_dashboard_enabled =
      normalize_ptr_field d.multi_cluster_k8s_dashboard_enabled
        a.multi_cluster_k8s_dashboard_enabled;
  pod_inherit_metadata = normalize_ptr_field d.pod_inherit_metadata a.pod_inherit_metadata;
}

-- The two fields that a custom size keeps.
abbrev pub late_rendered : ClusterData → ClusterData → ClusterData
late_rendered d a = if equal_fold d.size "custom" then d else record d {
  kustomization = or_observed d.kustomization a.kustomization;
  autoscaler_config = normalize_ptr_field d.autoscaler_config a.autoscaler_config;
}

unfoldable pub late_initialize_cluster : ClusterParameters → ClusterParameters → ClusterParameters
late_initialize_cluster p actual =
    let a = actual.cluster_spec.cluster_data in
    record p {
      namespace = or_observed p.namespace actual.namespace;
      cluster_spec = record (p.cluster_spec) {
        cluster_data = late_rendered (late_sized p.cluster_spec.cluster_data a) a;
      };
    }

unfoldable pub known_cluster_size : String → Bool
known_cluster_size s =
    s == ""
    || (lowers_to s "small"
        || (lowers_to s "medium" || (lowers_to s "large" || lowers_to s "auto")))

module _ {T : Type 0} (cc : ClusterCodec T) where
  -- A document that is no object is empty.
  unfoldable pub is_empty_kustomization : String → Result Error Bool
  is_empty_kustomization s =
      if is_blank s || (trims_to s "{}" || trims_to s "null")
      then ok true
      else cc.codec.yaml_to_json s >>= λ raw.
          cc.unmarshal_any raw >>= λ top. elim top [ obj m ↦ ok (only_header m) | _ ↦ ok true ]

  -- Of an error on either side, false.
  abbrev pub both_true : Result Error Bool → Result Error Bool → Bool
  both_true (ok a) (ok b) = a && b
  both_true _ _ = false

  unfoldable pub kustomization_empty_equivalent : String → String → Bool
  kustomization_empty_equivalent a b =
      if a == b then true else both_true (is_empty_kustomization a) (is_empty_kustomization b)

  abbrev pub same_raw : Result Error String → Result Error String → Bool
  same_raw (ok a) (ok b) = a == b
  same_raw _ _ = false

  unfoldable pub kustomization_equivalent : String → String → Bool
  kustomization_equivalent a b =
      if kustomization_empty_equivalent a b
      then true
      else if same_but_newlines a b
      then true
      else same_raw (cluster_kustomization_raw cc a) (cluster_kustomization_raw cc b)

  abbrev pub absorb_pointers : ClusterData → ClusterData → ClusterData
  absorb_pointers o d = record d {
    autoscaler_config = normalize_ptr_field d.autoscaler_config o.autoscaler_config;
    compatibility = normalize_ptr_field d.compatibility o.compatibility;
    argocd_notifications_settings =
        normalize_ptr_field d.argocd_notifications_settings o.argocd_notifications_settings;
    direct_cluster_spec = normalize_ptr_field d.direct_cluster_spec o.direct_cluster_spec;
    server_side_diff_enabled =
        normalize_ptr_field d.server_side_diff_enabled o.server_side_diff_enabled;
    datadog_annotations_enabled =
        normalize_ptr_field d.datadog_annotations_enabled o.datadog_annotations_enabled;
    eks_addon_enabled = normalize_ptr_field d.eks_addon_enabled o.eks_addon_enabled;
    pod_inherit_metadata = normalize_ptr_field d.pod_inherit_metadata o.pod_inherit_metadata;
  }

  abbrev pub absorb_dashboard : ClusterData → ClusterData → ClusterData
  absorb_dashboard o d = record d {
    multi_cluster_k8s_dashboard_enabled =
        normalize_ptr_field d.multi_cluster_k8s_dashboard_enabled
          o.multi_cluster_k8s_dashboard_enabled;
  }

  abbrev pub absorb_kustomization : ClusterData → ClusterData → ClusterData
  absorb_kustomization o d =
      if kustomization_equivalent d.kustomization o.kustomization
      then record d { kustomization = o.kustomization }
      else d

  abbrev pub absorb_clamp : ClusterData → ClusterData → ClusterData
  absorb_clamp o d =
      if not (known_cluster_size d.size) && (nonempty o.size && not (folds_alike d.size o.size))
      then record d { size = o.size }
      else d

  -- sizeUsesUserAutoscaler
  abbrev pub absorb_autoscaler : ClusterData → ClusterData → ClusterData
  absorb_autoscaler o d =
      if equal_fold d.size "auto" then d else record d { autoscaler_config = o.autoscaler_config }

  -- The steps on the data, the first one innermost; the error of the projection is dropped.
  unfoldable pub normalize_cluster_data : ClusterData → ClusterData → ClusterData
  normalize_cluster_data o d = absorb_autoscaler o (
      absorb_clamp o (
        absorb_kustomization o
          (absorb_pointers o (project_custom_cluster_size cc.codec.yaml (absorb_dashboard o d)).1)))

  -- driftSpec: the observed parameters stay as they are.
  unfoldable pub drift_spec : {P : Type 0} → DriftSpec ClusterParameters P
  drift_spec = record {
    normalize = some (λ desired observed. (
      record desired {
        cluster_spec = record (desired.cluster_spec) {
          cluster_data =
              normalize_cluster_data observed.cluster_spec.cluster_data
                desired.cluster_spec.cluster_data;
        };
      },
      observed,
    ));
    presence = none;
    side = [];
  }
