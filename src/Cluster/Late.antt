-- ===== src/Cluster/Late.antt =====
-- Late initialisation of a cluster: the user's values stay, and the platform fills the gaps.
use provider_crossplane_akui.Common.{
  Bool-cases, ◌≡◌, refl, sym, subst, ◌≢◌, ==_iff, inl, inr, String, true, false, Option, none, some,
  arith,
}
use provider_crossplane_akui.Common.Text.{equal_fold}
use provider_crossplane_akui.ClusterTypes.{ClusterData}
use provider_crossplane_akui.KargoAgent.Normalize.{or_observed, normalize_ptr_field}
use provider_crossplane_akui.Cluster.{ClusterParameters}
use provider_crossplane_akui.Cluster.Normalize.{late_sized, late_rendered, late_initialize_cluster}
use provider_crossplane_akui.Cluster.Idempotent.{or_observed_again, late_data, late_data_idem}

-- A gap is filled with what the platform reports, and what the user set stays.
abbrev IsFilled : {A : Type 0} → Option A → Option A → Option A → Type 0
IsFilled {A} set reported taken =
    (set ≡ none → taken ≡ reported) × ((x : A) → set ≡ some x → taken ≡ some x)

abbrev IsFilledText : String → String → String → Type 0
IsFilledText set reported taken = (set ≡ "" → taken ≡ reported) × (set ≢ "" → taken ≡ set)

-- The data, but for the fields that late initialisation may fill.
abbrev filled_from : ClusterData → ClusterData → ClusterData
filled_from d e = record d {
  auto_upgrade_disabled = e.auto_upgrade_disabled;
  app_replication = e.app_replication;
  target_version = e.target_version;
  redis_tunneling = e.redis_tunneling;
  size = e.size;
  multi_cluster_k8s_dashboard_enabled = e.multi_cluster_k8s_dashboard_enabled;
  pod_inherit_metadata = e.pod_inherit_metadata;
  kustomization = e.kustomization;
  autoscaler_config = e.autoscaler_config;
}

pub record IsLateInitialized (p actual q : ClusterParameters) : Type 0 where
  pub namespace : IsFilledText p.namespace actual.namespace q.namespace
  upgrades :
      IsFilled p.cluster_spec.cluster_data.auto_upgrade_disabled
        actual.cluster_spec.cluster_data.auto_upgrade_disabled
        q.cluster_spec.cluster_data.auto_upgrade_disabled
  replication :
      IsFilled p.cluster_spec.cluster_data.app_replication
        actual.cluster_spec.cluster_data.app_replication q.cluster_spec.cluster_data.app_replication
  pub version :
      IsFilledText p.cluster_spec.cluster_data.target_version
        actual.cluster_spec.cluster_data.target_version q.cluster_spec.cluster_data.target_version
  tunneling :
      IsFilled p.cluster_spec.cluster_data.redis_tunneling
        actual.cluster_spec.cluster_data.redis_tunneling q.cluster_spec.cluster_data.redis_tunneling
  pub size :
      IsFilledText p.cluster_spec.cluster_data.size actual.cluster_spec.cluster_data.size
        q.cluster_spec.cluster_data.size
  pub dashboard :
      IsFilled p.cluster_spec.cluster_data.multi_cluster_k8s_dashboard_enabled
        actual.cluster_spec.cluster_data.multi_cluster_k8s_dashboard_enabled
        q.cluster_spec.cluster_data.multi_cluster_k8s_dashboard_enabled
  pub metadata :
      IsFilled p.cluster_spec.cluster_data.pod_inherit_metadata
        actual.cluster_spec.cluster_data.pod_inherit_metadata
        q.cluster_spec.cluster_data.pod_inherit_metadata
  pub custom :
      equal_fold q.cluster_spec.cluster_data.size "custom" ≡ true
      → (q.cluster_spec.cluster_data.kustomization ≡ p.cluster_spec.cluster_data.kustomization)
        × (q.cluster_spec.cluster_data.autoscaler_config
            ≡ p.cluster_spec.cluster_data.autoscaler_config)
  pub other :
      equal_fold q.cluster_spec.cluster_data.size "custom" ≡ false
      → IsFilledText p.cluster_spec.cluster_data.kustomization
          actual.cluster_spec.cluster_data.kustomization q.cluster_spec.cluster_data.kustomization
        × IsFilled p.cluster_spec.cluster_data.autoscaler_config
            actual.cluster_spec.cluster_data.autoscaler_config
            q.cluster_spec.cluster_data.autoscaler_config
  pub kept : q ≡ record p {
    namespace = q.namespace;
    cluster_spec = record (p.cluster_spec) {
      cluster_data = filled_from p.cluster_spec.cluster_data q.cluster_spec.cluster_data;
    };
  }

normalize_ptr_field-IsFilled :
    {A : Type 0} (x y : Option A) → IsFilled x y (normalize_ptr_field x y)
normalize_ptr_field-IsFilled none none = (λ h. refl, λ a h. absurd (cc))
normalize_ptr_field-IsFilled none (some y) = (λ h. refl, λ a h. absurd (cc))
normalize_ptr_field-IsFilled (some x) y = (λ h. absurd (cc), λ a h. h)

or_observed-IsFilledText : (x y : String) → IsFilledText x y (or_observed x y)
or_observed-IsFilledText x y =
    let e = ==_iff x "" in (λ h. ground (arith, e, h), λ n. ground (arith, e, n))

late_initialize_cluster_idem :
    (p actual : ClusterParameters)
    → late_initialize_cluster (late_initialize_cluster p actual) actual
      ≡ late_initialize_cluster p actual
unfolding late_initialize_cluster late_data
late_initialize_cluster_idem p actual =
    let a = actual.cluster_spec.cluster_data in
    let namespaces = or_observed_again p.namespace actual.namespace in
    let datas = late_data_idem p.cluster_spec.cluster_data a in cc (namespaces, datas)

late_rendered-IsFilled :
    (d a : ClusterData)
    → (equal_fold d.size "custom" ≡ true
        → ((late_rendered d a).kustomization ≡ d.kustomization)
          × ((late_rendered d a).autoscaler_config ≡ d.autoscaler_config))
      × (equal_fold d.size "custom" ≡ false
          → IsFilledText d.kustomization a.kustomization (late_rendered d a).kustomization
            × IsFilled d.autoscaler_config a.autoscaler_config
                (late_rendered d a).autoscaler_config)
late_rendered-IsFilled d a = (
  λ y. rw y (refl, refl),
  λ n. rw n (
    or_observed-IsFilledText d.kustomization a.kustomization,
    normalize_ptr_field-IsFilled d.autoscaler_config a.autoscaler_config,
  ),
)

late_rendered-sized :
    (d a : ClusterData)
    → late_rendered d a ≡ record d {
      kustomization = (late_rendered d a).kustomization;
      autoscaler_config = (late_rendered d a).autoscaler_config;
    }
late_rendered-sized d a = elim (Bool-cases (equal_fold d.size "custom")) [
  | inl y ↦ rw y refl
  | inr n ↦ rw n refl
]

-- The parameters that late initialisation leaves, with these data.
abbrev late_with : ClusterParameters → ClusterParameters → ClusterData → ClusterParameters
late_with p actual x = record p {
  namespace = or_observed p.namespace actual.namespace;
  cluster_spec = record (p.cluster_spec) { cluster_data = x };
}

late_with-IsLateInitialized :
    (p actual : ClusterParameters)
    → IsLateInitialized p actual (
        late_with p actual (
          late_rendered
            (late_sized p.cluster_spec.cluster_data actual.cluster_spec.cluster_data)
            actual.cluster_spec.cluster_data))
late_with-IsLateInitialized p actual =
    let d = p.cluster_spec.cluster_data in
    let a = actual.cluster_spec.cluster_data in
    let (custom, other) = late_rendered-IsFilled (late_sized d a) a in
    subst (λ (x : ClusterData). IsLateInitialized p actual (late_with p actual x))
      (sym (late_rendered-sized (late_sized d a) a))
      (record {
        namespace = or_observed-IsFilledText p.namespace actual.namespace;
        upgrades = normalize_ptr_field-IsFilled d.auto_upgrade_disabled a.auto_upgrade_disabled;
        replication = normalize_ptr_field-IsFilled d.app_replication a.app_replication;
        version = or_observed-IsFilledText d.target_version a.target_version;
        tunneling = normalize_ptr_field-IsFilled d.redis_tunneling a.redis_tunneling;
        size = or_observed-IsFilledText d.size a.size;
        dashboard =
            normalize_ptr_field-IsFilled d.multi_cluster_k8s_dashboard_enabled
              a.multi_cluster_k8s_dashboard_enabled;
        metadata = normalize_ptr_field-IsFilled d.pod_inherit_metadata a.pod_inherit_metadata;
        custom = custom;
        other = other;
        kept = refl;
      })

-- Late initialisation never changes what the user set: each field that it may fill takes what the
-- platform reports if the user left it unset, and stays as it is if not; the kustomization and the
-- autoscaler stay as they are if the size is "custom"; and every other field stays. Once done, the
-- same report changes nothing more.
pub late_initialize_cluster-IsLateInitialized :
    (p actual : ClusterParameters)
    → IsLateInitialized p actual (late_initialize_cluster p actual)
      × (late_initialize_cluster (late_initialize_cluster p actual) actual
          ≡ late_initialize_cluster p actual)
unfolding late_initialize_cluster
late_initialize_cluster-IsLateInitialized p actual =
    (late_with-IsLateInitialized p actual, late_initialize_cluster_idem p actual)
