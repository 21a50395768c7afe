-- ===== src/CustomSize/Kustomization.antt =====
-- internal/controller/cluster/custom_size.go: a user's kustomization, its parsing, and the patches
-- of it that size a managed workload.
use provider_crossplane_akui.Common.{
  Result, ok, err, if◌then◌else◌, ◌==◌, String, ◌<>◌, Bool, false, not, ◌&&◌, ◌||◌, Option, none,
  some, List, [], ◌∷◌,
}
use provider_crossplane_akui.Common.Text.{is_blank}
use provider_crossplane_akui.Reason.{Error, new, wrap}
use provider_crossplane_akui.Json.{
  Json, null, str, arr, obj, Items, nil, item, Fields, end, field, lookup, put, has_key, as_string,
  as_map, as_list,
}

-- sigs.k8s.io/yaml: `unmarshal` into a map, `none` for a map that stays nil.
pub record Yaml : Type 0 where
  pub unmarshal : String → Result Error (Option Fields)
  pub marshal : Fields → Result Error String

abbrev or_nil : Option Fields → Fields
or_nil none = end
or_nil (some m) = m

-- `if _, ok := top[k]; !ok { top[k] = v }`
abbrev pub default_key : String → String → Fields → Fields
default_key k v top = if has_key k top then top else put k (str v) top

unfoldable pub parse_kustomization_object : Yaml → String → Result Error Fields
parse_kustomization_object yaml s =
    if is_blank s
    then ok (
        field "apiVersion" (str "kustomize.config.k8s.io/v1beta1")
          (field "kind" (str "Kustomization") end))
    else elim (yaml.unmarshal s) [
      | err e ↦ err (wrap "failed to parse user kustomization" e)
      | ok top ↦ ok (
          default_key "kind" "Kustomization"
            (default_key "apiVersion" "kustomize.config.k8s.io/v1beta1" (or_nil top)))
    ]

unfoldable pub kustomization_slice : Fields → String → Result Error Items
kustomization_slice top key = elim (lookup key top) [
  | none ↦ ok nil
  | some null ↦ ok nil
  | some (arr items) ↦ ok items
  | _ ↦ err (new ("kustomization." <> key <> " must be a list"))
]

unfoldable pub patch_target_deployment_name : Fields → Option String
patch_target_deployment_name patch = elim (as_map (lookup "target" patch)) [
  | none ↦ none
  | some target ↦ elim (as_string (lookup "kind" target)) [
    | none ↦ none
    | some kind ↦ if kind == "Deployment" then as_string (lookup "name" target) else none
  ]
]

-- The loop of `nestedSlice`: the value under the keys.
unfoldable nested_value : Json → List String → Option Json
nested_value cur [] = some cur
nested_value cur (key ∷ keys) = elim (as_map (some cur)) [
  | none ↦ none
  | some m ↦ elim (lookup key m) [ none ↦ none | some next ↦ nested_value next keys ]
]

unfoldable nested_slice : Fields → List String → Option Items
unfolding nested_value
nested_slice o keys = as_list (nested_value (obj o) keys)

unfoldable any_resources : Items → Bool
any_resources nil = false
any_resources (item c cs) = elim (as_map (some c)) [
  | none ↦ any_resources cs
  | some container ↦ has_key "resources" container || any_resources cs
]

unfoldable pub is_resource_patch : Yaml → Fields → Bool
unfolding nested_slice any_resources
is_resource_patch yaml patch = elim (as_string (lookup "patch" patch)) [
  | none ↦ false
  | some content ↦ elim (yaml.unmarshal content) [
    | err e ↦ false
    | ok o ↦ elim (nested_slice (or_nil o) ("spec" ∷ "template" ∷ "spec" ∷ "containers" ∷ [])) [
      | none ↦ false
      | some containers ↦ any_resources containers
    ]
  ]
]

-- One turn of the loop over the user's patches: the name that a conflicting patch is for.
unfoldable pub conflict_of : Yaml → Json → Option String
conflict_of yaml (obj patch) = elim (patch_target_deployment_name patch) [
  | none ↦ none
  | some name ↦
      if not (name == "argocd-application-controller") && not (name == "argocd-repo-server")
      then none
      else if is_resource_patch yaml patch
      then some name
      else none
]
conflict_of yaml _ = none

unfoldable pub first_conflict : Yaml → Items → Option String
first_conflict yaml nil = none
first_conflict yaml (item p ps) = elim (conflict_of yaml p) [
  | none ↦ first_conflict yaml ps
  | some name ↦ some name
]
