-- ===== src/CustomSize.antt =====
-- internal/controller/cluster/custom_size.go: the size "custom", which the provider turns into a
-- large agent with generated Kustomize patches. The YAML library is the parameter `Yaml`.
mod Kustomization
mod Projection
mod UserPatches
mod Patches
mod Tests
use provider_crossplane_akui.Common.{
  Result, ok, err, ◌>>=◌, map_err, if◌then◌else◌, ◌==◌, contains, is_none, is_some, zero, ◌*◌,
  String, ◌<>◌, not, ◌&&◌, Option, none, some,
}
use provider_crossplane_akui.Common.Text.{equal_fold}
use provider_crossplane_akui.Common.Int.{not_positive, to_ℕ}
use provider_crossplane_akui.Reason.{Error, new, wrap, Err, text}
use provider_crossplane_akui.Json.{
  Json, int, str, arr, obj, Items, nil, item, Fields, end, field, put, append_items,
}
use provider_crossplane_akui.ClusterTypes.{
  Resources, RepoServerCustomAgentSizeConfig, ClusterCustomAgentSizeConfig, ClusterData,
}
unfoldable pub use Kustomization.*

unfoldable pub validate_custom_resources : String → String → String → Err
validate_custom_resources path mem cpu =
    if mem == ""
    then some (new ("customAgentSizeConfig." <> path <> ".mem is required"))
    else if cpu == ""
    then some (new ("customAgentSizeConfig." <> path <> ".cpu is required"))
    else none

abbrev one : String → Json → Fields
one k v = field k v end

-- The manifest inside `deploymentResourcePatch`.
abbrev deployment_patch : String → String → String → String → Fields
deployment_patch name container mem cpu = field "apiVersion" (str "apps/v1") (
    field "kind" (str "Deployment") (
      field "metadata" (obj (one "name" (str name))) (
        one "spec" (
          obj (
            one "template" (
              obj (
                one "spec" (
                  obj (
                    one "containers" (
                      arr (
                        item
                          (obj (
                            field "name" (str container) (
                              one "resources" (
                                obj (
                                  field "limits" (obj (one "memory" (str mem))) (
                                    one "requests"
                                      (obj (field "cpu" (str cpu) (one "memory" (str mem))))))))))
                          nil)))))))))))

unfoldable pub deployment_resource_patch : Yaml → String → String → String → String → Fields
deployment_resource_patch yaml name container mem cpu =
    let text : String = elim (yaml.marshal (deployment_patch name container mem cpu)) [
      | ok s ↦ s
      | err e ↦ ""
    ] in
    field "patch" (str text)
      (one "target" (obj (field "kind" (str "Deployment") (one "name" (str name)))))

-- The patch of the application controller, if it is configured.
unfoldable pub controller_patches : Yaml → Option Resources → Result Error Items
controller_patches yaml none = ok nil
controller_patches yaml (some r) =
    elim (validate_custom_resources "applicationController" r.mem r.cpu) [
      | some e ↦ err e
      | none ↦ ok (
          item
            (obj (
              deployment_resource_patch yaml "argocd-application-controller"
                "argocd-application-controller" r.mem r.cpu))
            nil)
    ]

unfoldable pub repo_server_patches :
    Yaml → Option RepoServerCustomAgentSizeConfig → Result Error Items
repo_server_patches yaml none = ok nil
repo_server_patches yaml (some r) = elim (validate_custom_resources "repoServer" r.mem r.cpu) [
  | some e ↦ err e
  | none ↦
      if not_positive r.replicas
      then err (new "customAgentSizeConfig.repoServer.replicas must be greater than zero")
      else ok (
          item
            (obj (
              deployment_resource_patch yaml "argocd-repo-server" "argocd-repo-server" r.mem r.cpu))
            nil)
]

abbrev pub replicas_entry : RepoServerCustomAgentSizeConfig → Items → Json
replicas_entry r user = arr (
    item (obj (field "name" (str "argocd-repo-server") (one "count" (int (to_ℕ r.replicas))))) user)

abbrev pub with_replicas : Option RepoServerCustomAgentSizeConfig → Items → Fields → Fields
with_replicas none user top = top
with_replicas (some r) user top = put "replicas" (replicas_entry r user) top

-- The map that is encoded at the end of `generateClusterCustomSizeKustomization`.
unfoldable pub custom_kustomization :
    Yaml → ClusterCustomAgentSizeConfig → String → Result Error Fields
custom_kustomization yaml cfg user_kustomization =
    if is_none cfg.application_controller && is_none cfg.repo_server
    then err (new "customAgentSizeConfig must configure at least one component")
    else parse_kustomization_object yaml user_kustomization >>= λ top.
        kustomization_slice top "patches" >>= λ user_patches.
        elim (first_conflict yaml user_patches) [
          | some name ↦ err (
              new (
                "kustomization contains resource patches for " <> name
                <> ", which conflicts with customAgentSizeConfig"))
          | none ↦ controller_patches yaml cfg.application_controller >>= λ first.
              repo_server_patches yaml cfg.repo_server >>= λ second.
              let top' =
                put "patches" (arr (append_items (append_items first second) user_patches)) top in
              kustomization_slice top' "replicas" >>= λ user_replicas.
              ok (with_replicas cfg.repo_server user_replicas top')
        ]

unfoldable pub generate_cluster_custom_size_kustomization :
    Yaml → Option ClusterCustomAgentSizeConfig → String → Result Error String
generate_cluster_custom_size_kustomization yaml none user = ok user
generate_cluster_custom_size_kustomization yaml (some cfg) user =
    custom_kustomization yaml cfg user >>= λ top.
    map_err (wrap "failed to marshal custom size kustomization") (yaml.marshal top)

-- The data behind the pointer comes back; the pointer is never nil where this is called.
unfoldable pub project_custom_cluster_size : Yaml → ClusterData → Err × ClusterData
project_custom_cluster_size yaml d =
    if not (equal_fold d.size "custom")
    then (
      if is_some d.custom_agent_size_config
          then some (new "customAgentSizeConfig requires size custom")
          else none,
      d,
    )
    else if is_none d.custom_agent_size_config
    then (some (new "size custom requires customAgentSizeConfig"), d)
    else if is_some d.autoscaler_config
    then (some (new "size custom cannot be combined with autoscalerConfig"), d)
    else elim (generate_cluster_custom_size_kustomization yaml d.custom_agent_size_config
        d.kustomization) [
          | err e ↦ (some e, d)
          | ok kustomization ↦ (
            none,
            record d {
              size = "large";
              kustomization = kustomization;
              custom_agent_size_config = none;
            },
          )
        ]
