-- ===== src/KargoAgent/Size.antt =====
-- internal/controller/kargoagent/custom_size.go: the size "custom" of a Kargo agent. What it shares
-- with the size of clusters (the parsing of a kustomization, the reading and making of patches) is
-- that module's.
use provider_crossplane_akui.Common.{
  Result, ok, err, ◌>>=◌, map_err, if◌then◌else◌, ◌==◌, is_none, is_some, String, ◌<>◌, Bool, true,
  false, not, Option, none, some,
}
use provider_crossplane_akui.Common.Text.{equal_fold}
use provider_crossplane_akui.Reason.{Error, new, wrap, Err}
use provider_crossplane_akui.Json.{Json, arr, obj, Items, nil, item, Fields, put}
use provider_crossplane_akui.ClusterTypes.{Resources}
use provider_crossplane_akui.CustomSize.{
  Yaml, parse_kustomization_object, kustomization_slice, patch_target_deployment_name,
  is_resource_patch, deployment_resource_patch,
}
use provider_crossplane_akui.KargoAgent.State.{KargoAgentCustomAgentSizeConfig, KargoAgentData}

-- One turn of the loop over the user's patches: whether the patch is in conflict.
unfoldable pub conflicts : Yaml → String → Json → Bool
conflicts yaml target (obj patch) = elim (patch_target_deployment_name patch) [
  | none ↦ false
  | some name ↦ if name == target then is_resource_patch yaml patch else false
]
conflicts yaml target _ = false

unfoldable pub any_conflict : Yaml → String → Items → Bool
any_conflict yaml target nil = false
any_conflict yaml target (item p ps) =
    if conflicts yaml target p then true else any_conflict yaml target ps

-- The checks of the configuration.
unfoldable pub checked_controller : Option Resources → Result Error Resources
checked_controller none = err (new "customAgentSizeConfig.kargoController is required")
checked_controller (some r) =
    if r.mem == ""
    then err (new "customAgentSizeConfig.kargoController.mem is required")
    else if r.cpu == ""
    then err (new "customAgentSizeConfig.kargoController.cpu is required")
    else ok r

-- The map that is encoded at the end.
unfoldable pub kargo_agent_kustomization :
    Yaml → String → KargoAgentCustomAgentSizeConfig → String → Result Error Fields
kargo_agent_kustomization yaml name cfg user_kustomization =
    let target = "kargo-controller-" <> name in
    checked_controller cfg.kargo_controller >>= λ r.
    parse_kustomization_object yaml user_kustomization >>= λ top.
    kustomization_slice top "patches" >>= λ user_patches.
    if any_conflict yaml target user_patches
    then err (
        new (
          "kustomization contains resource patches for " <> target
          <> ", which conflicts with customAgentSizeConfig"))
    else ok (
        put "patches"
          (arr (
            item (obj (deployment_resource_patch yaml target "controller" r.mem r.cpu))
              user_patches))
          top)

unfoldable pub generate_kargo_agent_custom_size_kustomization :
    Yaml → String → Option KargoAgentCustomAgentSizeConfig → String → Result Error String
generate_kargo_agent_custom_size_kustomization yaml name none user = ok user
generate_kargo_agent_custom_size_kustomization yaml name (some cfg) user =
    kargo_agent_kustomization yaml name cfg user >>= λ top.
    map_err (wrap "failed to marshal custom size kustomization") (yaml.marshal top)

abbrev pub is_true : Option Bool → Bool
is_true none = false
is_true (some b) = b

-- The data behind the pointer comes back.
unfoldable pub project_custom_kargo_agent_size :
    Yaml → String → KargoAgentData → Err × KargoAgentData
project_custom_kargo_agent_size yaml name d =
    if not (equal_fold d.size "custom")
    then (
      if is_some d.custom_agent_size_config
          then some (new "customAgentSizeConfig requires size custom")
          else none,
      d,
    )
    else if is_true d.akuity_managed
    then (some (new "size custom is not allowed for akuityManaged Kargo agents"), d)
    else if is_none d.custom_agent_size_config
    then (some (new "size custom requires customAgentSizeConfig"), d)
    else if is_some d.autoscaler_config
    then (some (new "size custom cannot be combined with autoscalerConfig"), d)
    else elim (generate_kargo_agent_custom_size_kustomization yaml name d.custom_agent_size_config
        d.kustomization) [
          | err e ↦ (some e, d)
          | ok kustomization ↦ (
            none,
            record d {
              size = "large";
              kustomization = kustomization;
              custom_agent_size_config = none;
            },
          )
        ]
