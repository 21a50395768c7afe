-- ===== src/CustomSize/Tests.antt =====
-- A custom size with a library that reads and writes nothing but the empty map.
use provider_crossplane_akui.Common.Text.{is_blank}
use provider_crossplane_akui.Reason.{Err}
use provider_crossplane_akui.Common.{ok, ◌≡◌, refl, Option, none, some}
use provider_crossplane_akui.Common.{ok, ◌≡◌, refl, Option, none, some}
use provider_crossplane_akui.Json.{str, arr, obj, nil, item, Fields, end, field, lookup}
use provider_crossplane_akui.ClusterTypes.{ClusterCustomAgentSizeConfig, ClusterData}
use provider_crossplane_akui.CustomSize.{
  Yaml, parse_kustomization_object, project_custom_cluster_size,
}

-- Every text reads as one kustomization, and every map is written as "yaml".
abbrev user_top : Fields
user_top = field "apiVersion" (str "v1") (
    field "kind" (str "Kustomization")
      (field "patches" (arr (item (obj (field "patch" (str "x") end)) nil)) end))

abbrev yaml : Yaml
yaml = record { unmarshal = λ _. ok (some user_top); marshal = λ _. ok "yaml" }

abbrev cfg : ClusterCustomAgentSizeConfig
cfg = record {
  application_controller = some (record { mem = "2Gi"; cpu = "1" });
  repo_server = none;
}

abbrev out : Fields
out = field "apiVersion" (str "v1") (
    field "kind" (str "Kustomization") (
      field "patches"
        (arr (
          item
            (obj (
              field "patch" (str "yaml") (
                field "target"
                  (obj (
                    field "kind" (str "Deployment")
                      (field "name" (str "argocd-application-controller") end)))
                  end)))
            (item (obj (field "patch" (str "x") end)) nil)))
        end))

user_parses : parse_kustomization_object yaml "user" ≡ ok user_top
unfolding parse_kustomization_object is_blank lookup
user_parses = refl

abbrev data_of : Option ClusterCustomAgentSizeConfig → ClusterData
data_of c = record {
  size = "Custom";
  auto_upgrade_disabled = none;
  kustomization = "user";
  app_replication = none;
  target_version = "";
  redis_tunneling = none;
  direct_cluster_spec = none;
  datadog_annotations_enabled = none;
  eks_addon_enabled = none;
  managed_cluster_config = none;
  maintenance_mode = none;
  multi_cluster_k8s_dashboard_enabled = none;
  autoscaler_config = none;
  custom_agent_size_config = c;
  project = "";
  compatibility = none;
  argocd_notifications_settings = none;
  server_side_diff_enabled = none;
  maintenance_mode_expiry = none;
  pod_inherit_metadata = none;
}

abbrev after : Option ClusterCustomAgentSizeConfig → Err × ClusterData
after c = project_custom_cluster_size yaml (data_of c)
