-- ===== src/Cluster/Tests.antt =====
-- A platform whose state is the log of the calls.
use provider_crossplane_akui.Common.{
  ok, err, if◌then◌else◌, ◌==◌, String, ◌<>◌, ◌≡◌, refl, ◌≢◌, ◌⊎◌, Bool, true, false, Option, none,
  some, [],
}
use provider_crossplane_akui.Reason.{new, ErrorApi}
use provider_crossplane_akui.Guard.{
  write_terminal_fingerprint_part, write_parts, new_terminal_write_key,
}
use provider_crossplane_akui.ClusterTypes.{ClusterData, ClusterSpec}
use provider_crossplane_akui.Json.{str, obj, end}
use provider_crossplane_akui.Kube.{has_kube_config, target_fingerprint}
use provider_crossplane_akui.Cluster.{
  ClusterResource, size_small, ProtoCluster, ClusterCodec, ClusterApi, ClusterWorld,
  cluster_write_key, maintenance_mode_already_applied, sync_maintenance_mode, strip_manifests,
  rollback, install_manifests, install, finish_create, stamp, try_create, create_cluster,
}
use provider_crossplane_akui.Common.Text.{is_blank, equal_fold}
use provider_crossplane_akui.CustomSize.{project_custom_cluster_size}
use provider_crossplane_akui.Cluster.Convert.{spec_to_api, build_apply_instance_request}
use provider_crossplane_akui.Cluster.Kustomization.{cluster_kustomization_raw}
use provider_crossplane_akui.Cluster.Rollback.{IsRolledBack, IsCreated, create_cluster-IsRolledBack}

abbrev errors : ErrorApi
errors = record {
  from_error = λ _. none;
  is_kube_not_found = λ _. false;
  is_forbidden = λ _. false;
  is_unauthorized = λ _. false;
}

-- YAML is JSON and every document empty; a time is its text.
abbrev pub codecs : ClusterCodec String
codecs = record {
  codec = record {
    yaml = record { unmarshal = λ s. ok (some end); marshal = λ m. ok "patches" };
    yaml_to_json = λ s. ok s;
    json_to_yaml = λ raw. ok raw;
    unmarshal_object = λ raw. ok (some end);
    parse_time = λ s. ok s;
    is_zero = λ t. false;
    format_time = λ t. t;
  };
  unmarshal_any = λ raw. ok (obj end);
  marshal_object = λ m. ok "{}";
  remarshal = λ k. ok "{}";
  marshal_wire = λ wire. ok (str wire.namespace);
}

abbrev remote_cluster : ProtoCluster String
remote_cluster = record {
  id = "c-1";
  name = "east";
  description = "";
  proto_data = record {
    namespace = "akuity";
    namespace_scoped = false;
    labels = [];
    annotations = [];
    size = size_small;
    auto_upgrade_disabled = none;
    kustomization = none;
    app_replication = none;
    target_version = "";
    redis_tunneling = none;
    direct_cluster_spec = none;
    datadog_annotations_enabled = none;
    eks_addon_enabled = none;
    managed_cluster_config = none;
    maintenance_mode = none;
    multi_cluster_k8s_dashboard_enabled = none;
    autoscaler_config = none;
    project = "";
    compatibility = none;
    argocd_notifications_settings = none;
    server_side_diff_enabled = none;
    maintenance_mode_expiry = none;
    pod_inherit_metadata = none;
  };
  agent_state = none;
  health = record { code = 1; message = "" };
  reconciliation = record { code = 1; message = "" };
}

-- Manifests can be deleted from the target and not applied to it; a time is its text.
abbrev pub log : ClusterApi String String String
log = record {
  errors = errors;
  config = record {
    errors = errors;
    has_client = true;
    get_secret = λ ns n. ok (some "kubeconfig");
    in_cluster = ok "in-cluster";
    parse = λ b. ok b;
    sum = λ s. s;
  };
  codecs = codecs;
  apply_instance = λ s r. (none, s <> "+" <> r.id);
  set_maintenance_mode = λ s i n mode t. (none, s <> " maintenance");
  get_cluster = λ s i n. (ok remote_cluster, s <> " get");
  get_cluster_manifests = λ s i n. (ok "pods", s <> " manifests");
  apply_manifests_to_target = λ s t m delete. (
    if delete then none else some (new "forbidden"),
    s <> (if delete then " strip" else " install"),
  );
  delete_cluster = λ s i n. (none, s <> " -" <> n);
  export_clusters = λ s i. (ok [], s);
  get_instance_id = λ s n. (ok "i-1", s);
  kube_instance = λ n. ok n;
  marshal_entry = λ e. ok "cluster";
  unmarshal_wire = λ raw. err (new "no cluster");
  same_time = λ t u. t == u;
  equal = λ p q. p.namespace == q.namespace;
  encode_request = λ r. elim r.rest [ str s ↦ ok s | _ ↦ ok "" ];
  encode_parameters = λ p. ok "parameters";
  encode = λ v. ok "json";
  sum = λ s. s;
}

abbrev pub data_of : Option Bool → Option String → ClusterData
data_of mode expiry = record {
  size = "small";
  auto_upgrade_disabled = none;
  kustomization = "";
  app_replication = none;
  target_version = "";
  redis_tunneling = none;
  direct_cluster_spec = none;
  datadog_annotations_enabled = none;
  eks_addon_enabled = none;
  managed_cluster_config = none;
  maintenance_mode = mode;
  multi_cluster_k8s_dashboard_enabled = none;
  autoscaler_config = none;
  custom_agent_size_config = none;
  project = "";
  compatibility = none;
  argocd_notifications_settings = none;
  server_side_diff_enabled = none;
  maintenance_mode_expiry = expiry;
  pod_inherit_metadata = none;
}

abbrev spec_of : ClusterData → ClusterSpec
spec_of d = record { description = ""; namespace_scoped = none; cluster_data = d }

abbrev pub east : String → ClusterResource
east external_name = record {
  meta = record {
    uid = "u1";
    namespace = "team";
    name = "east";
    external_name = external_name;
    was_deleted = false;
    generation = 1;
    observed_generation = 0;
    conditions = [];
  };
  for_provider = record {
    instance_id = "i-1";
    instance_ref = none;
    name = "east";
    namespace = "akuity";
    cluster_spec = spec_of (data_of (some true) (some "2026-01-01T00:00:00Z"));
    annotations = [];
    labels = [];
    target = record { enable_in_cluster = true; secret_name = ""; secret_namespace = "" };
    remove_agent_resources_on_destroy = true;
  };
  at_provider = record {
    id = "";
    name = "";
    description = "";
    namespace = "";
    namespace_scoped = false;
    labels = [];
    annotations = [];
    auto_upgrade_disabled = false;
    app_replication = false;
    target_version = "";
    redis_tunneling = false;
    agent_state = record { version = ""; argo_cd_version = ""; statuses = [] };
    health_status = record { code = 0; message = "" };
    reconciliation_status = record { code = 0; message = "" };
    kustomization = "";
    agent_size = "";
    at_cluster_spec = spec_of (data_of (some true) (some "2026-01-01T00:00:00Z"));
  };
}

abbrev pub world : String → ClusterWorld String
world external_name = record { remote = ""; guard = some []; mg = east external_name }

-- The installation fails: the manifests are stripped, and the row is deleted.
rolls_back :
    (create_cluster log (world "")).1.remote ≡ "+i-1 manifests install manifests strip -east"
unfolding create_cluster try_create stamp finish_create sync_maintenance_mode
    maintenance_mode_already_applied install install_manifests has_kube_config rollback
    strip_manifests cluster_write_key target_fingerprint new_terminal_write_key write_parts
    write_terminal_fingerprint_part build_apply_instance_request spec_to_api
    project_custom_cluster_size equal_fold cluster_kustomization_raw is_blank
rolls_back = refl

create_cluster-IsRolledBack_example :
    IsCreated log (world "") (create_cluster log (world ""))
    ⊎ IsRolledBack log (world "") (create_cluster log (world ""))
create_cluster-IsRolledBack_example = create_cluster-IsRolledBack log (world "")

has_expiry : (data_of (some true) (some "2026-01-01T00:00:00Z")).maintenance_mode_expiry ≢ some ""
has_expiry h = cc (h)
