-- ===== src/Cluster/Convert.antt =====
-- internal/controller/cluster/convert.go, with the converters of a cluster's data that it calls
-- (internal/types/generated/crossplane/v1alpha1/cluster_convert.go) and
-- internal/marshal/kustomization.go.
use provider_crossplane_akui.Common.{
  Result, ok, err, ◌>>=◌, map_err, if◌then◌else◌, ◌==◌, String, ◌<>◌, Bool, Option, none, some,
}
use provider_crossplane_akui.Reason.{Error, wrap}
use provider_crossplane_akui.Json.{Json}
use provider_crossplane_akui.Glue.{
  kustomization_string_to_raw, kustomization_raw_to_string, string_ptr_to_time_ptr,
  time_ptr_to_string_ptr,
}
use provider_crossplane_akui.Gateway.State.{by_id, ApplyRequest}
use provider_crossplane_akui.ClusterTypes.{
  ClusterData, ClusterCompatibility, ClusterArgoCdNotificationsSettings,
}
use provider_crossplane_akui.CustomSize.{project_custom_cluster_size}
use provider_crossplane_akui.Cluster.State.{
  ClusterParameters, ProtoSize, size_medium, size_large, size_auto, ProtoClusterData, ProtoCluster,
  WireClusterData, WireCluster, ClusterCodec, or_false,
}
use provider_crossplane_akui.Cluster.Kustomization.{cluster_kustomization_raw}

-- apiToCompatibility and apiToArgocdNotificationsSettings
abbrev compatibility_of : Option Bool → Option ClusterCompatibility
compatibility_of none = none
compatibility_of (some b) = some (record { ipv6_only = some b })

abbrev notifications_of : Option Bool → Option ClusterArgoCdNotificationsSettings
notifications_of none = none
notifications_of (some b) = some (record { in_cluster_settings = some b })

-- The sizes that APIToSpec tells apart.
abbrev pub size_of : ProtoSize → String
size_of size_medium = "medium"
size_of size_large = "large"
size_of size_auto = "auto"
size_of _ = "small"

module _ {T : Type 0} (cc : ClusterCodec T) where
  -- ClusterDataSpecToAPI and back; the pointers are not nil where these are called.
  unfoldable pub cluster_data_spec_to_api : ClusterData → WireClusterData T
  cluster_data_spec_to_api d = record {
    size = d.size;
    auto_upgrade_disabled = d.auto_upgrade_disabled;
    kustomization = kustomization_string_to_raw cc.codec d.kustomization;
    app_replication = d.app_replication;
    target_version = d.target_version;
    redis_tunneling = d.redis_tunneling;
    direct_cluster_spec = d.direct_cluster_spec;
    datadog_annotations_enabled = d.datadog_annotations_enabled;
    eks_addon_enabled = d.eks_addon_enabled;
    managed_cluster_config = d.managed_cluster_config;
    maintenance_mode = d.maintenance_mode;
    multi_cluster_k8s_dashboard_enabled = d.multi_cluster_k8s_dashboard_enabled;
    autoscaler_config = d.autoscaler_config;
    project = d.project;
    compatibility = d.compatibility;
    argocd_notifications_settings = d.argocd_notifications_settings;
    server_side_diff_enabled = d.server_side_diff_enabled;
    maintenance_mode_expiry = string_ptr_to_time_ptr cc.codec d.maintenance_mode_expiry;
    pod_inherit_metadata = d.pod_inherit_metadata;
  }

  unfoldable pub cluster_data_api_to_spec : WireClusterData T → ClusterData
  cluster_data_api_to_spec d = record {
    size = d.size;
    auto_upgrade_disabled = d.auto_upgrade_disabled;
    kustomization = kustomization_raw_to_string cc.codec d.kustomization;
    app_replication = d.app_replication;
    target_version = d.target_version;
    redis_tunneling = d.redis_tunneling;
    direct_cluster_spec = d.direct_cluster_spec;
    datadog_annotations_enabled = d.datadog_annotations_enabled;
    eks_addon_enabled = d.eks_addon_enabled;
    managed_cluster_config = d.managed_cluster_config;
    maintenance_mode = d.maintenance_mode;
    multi_cluster_k8s_dashboard_enabled = d.multi_cluster_k8s_dashboard_enabled;
    autoscaler_config = d.autoscaler_config;
    custom_agent_size_config = none;
    project = d.project;
    compatibility = d.compatibility;
    argocd_notifications_settings = d.argocd_notifications_settings;
    server_side_diff_enabled = d.server_side_diff_enabled;
    maintenance_mode_expiry = time_ptr_to_string_ptr cc.codec d.maintenance_mode_expiry;
    pod_inherit_metadata = d.pod_inherit_metadata;
  }

  -- The size that SpecToAPI fills in, and its literal.
  abbrev pub sized : ClusterData → ClusterData
  sized d = if d.size == "" then record d { size = "small" } else d

  unfoldable pub wire_of : ClusterParameters → ClusterData → String → WireCluster T
  wire_of p d kustomization = record {
    name = p.name;
    namespace = p.namespace;
    labels = p.labels;
    annotations = p.annotations;
    description = p.cluster_spec.description;
    namespace_scoped = p.cluster_spec.namespace_scoped;
    wire_data = record (cluster_data_spec_to_api d) {
      kustomization = kustomization;
      maintenance_mode = none;
      maintenance_mode_expiry = none;
    };
  }

  unfoldable pub spec_to_api : ClusterParameters → Result Error (WireCluster T)
  spec_to_api p =
      let (e, d) = project_custom_cluster_size cc.codec.yaml (sized p.cluster_spec.cluster_data) in
      elim e [
        | some x ↦ err x
        | none ↦
            map_err (wrap "spec.forProvider.clusterSpec.data.kustomization")
              (cluster_kustomization_raw cc d.kustomization)
            >>= λ k. ok (wire_of p d k)
      ]

  unfoldable pub build_apply_instance_request :
      String → ClusterParameters → Result Error ApplyRequest
  build_apply_instance_request instance_id p =
      map_err (wrap "could not build apply cluster wire form") (spec_to_api p) >>= λ wire.
      map_err (wrap ("could not marshal cluster " <> p.name <> " to protobuf struct"))
        (cc.marshal_wire wire)
      >>= λ clusters. ok (record {
        organization_id = "";
        id_type = by_id;
        id = instance_id;
        workspace_id = "";
        rest = clusters;
      })

  unfoldable pub wire_to_spec : String → ClusterParameters → WireCluster T → ClusterParameters
  wire_to_spec instance_id p wire = record p {
    instance_id = instance_id;
    name = wire.name;
    namespace = wire.namespace;
    labels = wire.labels;
    annotations = wire.annotations;
    cluster_spec = record {
      description = wire.description;
      namespace_scoped = wire.namespace_scoped;
      cluster_data = cluster_data_api_to_spec wire.wire_data;
    };
  }

  unfoldable pub pb_struct_to_kustomization_yaml : Option Json → Result Error String
  pb_struct_to_kustomization_yaml none = ok ""
  pb_struct_to_kustomization_yaml (some k) =
      map_err (wrap "decode kustomization struct") (cc.remarshal k) >>= λ raw.
      if raw == ""
      then ok ""
      else map_err (wrap "encode kustomization YAML") (cc.codec.json_to_yaml raw)

  -- The data that APIToSpec makes of a cluster's.
  unfoldable pub cluster_data_of : String → ProtoClusterData T → ClusterData
  cluster_data_of kustomization d = record {
    size = size_of d.size;
    auto_upgrade_disabled = some (or_false d.auto_upgrade_disabled);
    kustomization = kustomization;
    app_replication = some (or_false d.app_replication);
    target_version = d.target_version;
    redis_tunneling = some (or_false d.redis_tunneling);
    direct_cluster_spec = d.direct_cluster_spec;
    datadog_annotations_enabled = d.datadog_annotations_enabled;
    eks_addon_enabled = d.eks_addon_enabled;
    managed_cluster_config = d.managed_cluster_config;
    maintenance_mode = d.maintenance_mode;
    multi_cluster_k8s_dashboard_enabled = d.multi_cluster_k8s_dashboard_enabled;
    autoscaler_config = d.autoscaler_config;
    custom_agent_size_config = none;
    project = d.project;
    compatibility = compatibility_of d.compatibility;
    argocd_notifications_settings = notifications_of d.argocd_notifications_settings;
    server_side_diff_enabled = d.server_side_diff_enabled;
    maintenance_mode_expiry = time_ptr_to_string_ptr cc.codec d.maintenance_mode_expiry;
    pod_inherit_metadata = d.pod_inherit_metadata;
  }

  unfoldable pub api_to_spec :
      String → ClusterParameters → ProtoCluster T → Result Error ClusterParameters
  api_to_spec instance_id p c =
      pb_struct_to_kustomization_yaml c.proto_data.kustomization >>= λ kustomization. ok (record p {
        instance_id = instance_id;
        name = c.name;
        namespace = c.proto_data.namespace;
        labels = c.proto_data.labels;
        annotations = c.proto_data.annotations;
        cluster_spec = record {
          description = c.description;
          namespace_scoped = some c.proto_data.namespace_scoped;
          cluster_data = cluster_data_of kustomization c.proto_data;
        };
      })
