-- ===== src/Cluster/ObserveTests.antt =====
-- The observation of a cluster that the gateway refuses, on a platform whose state is a log.
use provider_crossplane_akui.Common.{ok, ◌<>◌, String, ◌≡◌, refl, true, false, none, some, []}
use provider_crossplane_akui.Common.Text.{is_blank, equal_fold}
use provider_crossplane_akui.Reason.{
  Error, foreign, as_terminal, is_terminal, is_kind, is_retryable, is_retryable_grpc, text,
  classify_apply_error,
}
use provider_crossplane_akui.Glue.{string_ptr_to_time_ptr}
use provider_crossplane_akui.Json.{str}
use provider_crossplane_akui.Guard.{
  TerminalWriteKey, write_terminal_fingerprint_part, write_parts, new_terminal_write_key, clear,
}
use provider_crossplane_akui.Base.{has_terminal_write_resource}
use provider_crossplane_akui.Gateway.State.{by_id, ApplyRequest}
use provider_crossplane_akui.Gateway.Platform.{errors}
use provider_crossplane_akui.ClusterTypes.{ClusterData}
use provider_crossplane_akui.Kube.{target_fingerprint}
use provider_crossplane_akui.CustomSize.{project_custom_cluster_size}
use provider_crossplane_akui.Cluster.{
  ClusterParameters, WireCluster, ClusterApi, ClusterWorld, cluster_gvk, cluster_write_key,
  create_cluster, update_cluster, with_data,
}
use provider_crossplane_akui.Cluster.Convert.{
  cluster_data_spec_to_api, wire_of, spec_to_api, wire_to_spec, build_apply_instance_request,
}
use provider_crossplane_akui.Cluster.Kustomization.{cluster_kustomization_raw}
use provider_crossplane_akui.Cluster.Normalize.{late_initialize_cluster}
use provider_crossplane_akui.Cluster.Observe.{initialized, observe_named, observe_guarded}
use provider_crossplane_akui.Cluster.Refused.{Refused, IsSilenced, refused_cluster-suppressed}
use provider_crossplane_akui.Cluster.Forgotten.{guard_left, refused_update-forgotten}
use provider_crossplane_akui.Cluster.RoundTrip.{
  with_size, IsProjected, IsSent, image, spec_to_api-exported,
}
use provider_crossplane_akui.Cluster.Late.{
  IsLateInitialized, late_initialize_cluster-IsLateInitialized,
}
use provider_crossplane_akui.Cluster.Tests.{log, codecs, data_of, east, world}

-- The gateway denies every write.
abbrev refusing : ClusterApi String String String
refusing = record log { errors = errors; apply_instance = λ s r. (some (foreign 1 "denied"), s) }

abbrev denied : Error
denied = foreign 1 "denied"

abbrev request : String → ApplyRequest
request namespace = record {
  organization_id = "";
  id_type = by_id;
  id = "i-1";
  workspace_id = "";
  rest = str namespace;
}

-- The cluster as it is stored, with no namespace, and what a get reports.
abbrev stored : ClusterWorld String
stored = record (world "east") {
  mg = record (east "east") {
    for_provider = record ((east "east").for_provider) { namespace = "" };
  };
}

abbrev reported : ClusterParameters
reported = (east "east").for_provider

abbrev key_of : String → TerminalWriteKey
key_of namespace = record {
  gvk = cluster_gvk;
  uid = "u1";
  namespace = "team";
  name = "east";
  fingerprint = "*argocdv1.ApplyInstanceRequest\n" <> namespace <> "\nstring\njson\n";
}

key_stored : cluster_write_key refusing stored.mg ≡ ok (key_of "")
unfolding cluster_write_key build_apply_instance_request spec_to_api project_custom_cluster_size
    equal_fold cluster_kustomization_raw is_blank wire_of new_terminal_write_key write_parts
    write_terminal_fingerprint_part target_fingerprint
key_stored = refl

key_initialized :
    cluster_write_key refusing (initialized refusing stored reported).mg ≡ ok (key_of "akuity")
unfolding cluster_write_key build_apply_instance_request spec_to_api project_custom_cluster_size
    equal_fold cluster_kustomization_raw is_blank wire_of new_terminal_write_key write_parts
    write_terminal_fingerprint_part target_fingerprint late_initialize_cluster
key_initialized = refl

request_initialized :
    build_apply_instance_request codecs
      (initialized refusing stored reported).mg.for_provider.instance_id
      (initialized refusing stored reported).mg.for_provider
    ≡ ok (request "akuity")
unfolding build_apply_instance_request spec_to_api project_custom_cluster_size equal_fold
    cluster_kustomization_raw is_blank wire_of late_initialize_cluster
request_initialized = refl

denied_for_good : classify_apply_error errors (some denied) ≡ some (as_terminal denied)
unfolding classify_apply_error is_kind is_retryable is_retryable_grpc text
denied_for_good = refl

terminal_denied : is_terminal (some (as_terminal denied)) ≡ true
unfolding is_kind
terminal_denied = refl

abbrev refusal : Refused refusing (initialized refusing stored reported)
refusal = record {
  key = key_of "akuity";
  request = request "akuity";
  raw = denied;
  fatal = as_terminal denied;
  keyed = key_initialized;
  built = request_initialized;
  rejected = refl;
  classified = denied_for_good;
  is_fatal = terminal_denied;
}

refused_cluster-suppressed_example :
    ((create_cluster refusing (initialized refusing stored reported)).0 ≡ some (as_terminal denied))
    × ((update_cluster refusing (initialized refusing stored reported)).0
        ≡ some (as_terminal denied))
    × IsSilenced refusing
        (initialized refusing stored reported)
        []
        refl
        refusal
        (create_cluster refusing (initialized refusing stored reported)).1
    × IsSilenced refusing
        (initialized refusing stored reported)
        []
        refl
        refusal
        (update_cluster refusing (initialized refusing stored reported)).1
unfolding late_initialize_cluster
refused_cluster-suppressed_example =
    refused_cluster-suppressed refusing (initialized refusing stored reported) [] refl refusal refl
      refl

refused_update-forgotten_example :
    (has_terminal_write_resource
        (clear (guard_left refusing stored reported [] refl refusal) (key_of ""))
        stored.mg.meta
        cluster_gvk
      ≡ false)
    × (observe_guarded refusing
          (record stored { guard = guard_left refusing stored reported [] refl refusal })
          "i-1"
        ≡ observe_named refusing
            (record stored {
              guard = clear (guard_left refusing stored reported [] refl refusal) (key_of "");
            })
            "i-1")
refused_update-forgotten_example =
    refused_update-forgotten refusing stored reported [] refl refusal (key_of "") "" "i-1"
      key_stored refl

abbrev wire : WireCluster String
wire = record {
  name = "east";
  namespace = "akuity";
  labels = [];
  annotations = [];
  description = "";
  namespace_scoped = none;
  wire_data = record (cluster_data_spec_to_api codecs (data_of none none)) {
    kustomization = "";
    maintenance_mode = none;
    maintenance_mode_expiry = none;
  };
}

applied : spec_to_api codecs reported ≡ ok wire
unfolding spec_to_api project_custom_cluster_size equal_fold cluster_kustomization_raw is_blank
    wire_of cluster_data_spec_to_api string_ptr_to_time_ptr
applied = refl

spec_to_api-exported_example :
    (d : ClusterData) × (k : String) × IsProjected codecs.codec.yaml
      (with_size reported.cluster_spec.cluster_data)
      d
    × IsSent codecs d.kustomization k
    × (wire_to_spec codecs "i-1" reported wire ≡ with_data reported (image codecs d k))
spec_to_api-exported_example = spec_to_api-exported codecs "i-1" reported wire applied

late_initialize_cluster-IsLateInitialized_example :
    IsLateInitialized stored.mg.for_provider reported
      (late_initialize_cluster stored.mg.for_provider reported)
    × (late_initialize_cluster (late_initialize_cluster stored.mg.for_provider reported) reported
        ≡ late_initialize_cluster stored.mg.for_provider reported)
late_initialize_cluster-IsLateInitialized_example =
    late_initialize_cluster-IsLateInitialized stored.mg.for_provider reported
