-- ===== src/Kube/State.antt =====
-- internal/clients/kube/apply_client.go and targetapply.go: objects, their resources, and the
-- calls of a cluster.
use provider_crossplane_akui.Common.{
  Result, if◌then◌else◌, ℕ, String, ◌<>◌, Bool, true, false, Option, none, some, List, [], ◌∷◌,
  starts_with,
}
use provider_crossplane_akui.Reason.{Error, Err, ErrorApi}
use provider_crossplane_akui.Json.{Json, Fields}

-- meta.RESTMapping, with its resource, and whether its scope is the root scope.
pub record Mapping : Type 0 where
  pub resource : String
  pub is_root_scope : Bool

pub record ApplyObject : Type 0 where
  pub name : String
  pub namespace : String
  pub unstructured_obj : Fields

-- A dynamic.ResourceInterface: a resource, in a namespace or of the whole cluster.
pub record Target : Type 0 where
  pub resource : String
  pub namespace : Option String

pub record KubeApi (S O : Type 0) : Type 0 where
  pub errors : ErrorApi
  -- decoding and discovery
  pub decode : String → Result Error O
  pub rest_mapping : O → Result Error Mapping
  pub to_unstructured : O → Result Error Fields
  pub object_name : O → Result Error String
  pub object_namespace : O → Result Error String
  pub marshal : Option Json → Result Error String
  -- the cluster
  pub get : S → Target → String → Err × S
  pub apply : S → Target → String → Fields → Err × S
  pub patch : S → Target → String → String → Err × S
  pub delete_foreground : S → Target → String → Err × S
  pub tick : S → S
  -- the number of polls before the timeout, the first one at once, and the error of the timeout
  pub polls : ℕ
  pub timed_out : Error
  -- `deleteWaitTimeout` in words
  pub delete_wait_timeout : String

-- strings.Split(manifests, "---")

unfoldable pub push : String → List String → List String
push c [] = c ∷ []
push c (x ∷ xs) = (c <> x) ∷ xs

unfoldable pub split_manifests : String → List String
unfolding push
split_manifests String.[] = "" ∷ []
split_manifests (String.◌∷◌ a String.[]) = String.◌∷◌ a String.[] ∷ []
split_manifests (String.◌∷◌ a (String.◌∷◌ b String.[])) = String.◌∷◌ a (String.◌∷◌ b String.[]) ∷ []
split_manifests (String.◌∷◌ a (String.◌∷◌ b (String.◌∷◌ c s))) =
    elim (starts_with (String.◌∷◌ a (String.◌∷◌ b (String.◌∷◌ c s))) "---") [
      | true ↦ "" ∷ split_manifests s
      | false ↦ push (String.◌∷◌ a String.[]) (split_manifests (String.◌∷◌ b (String.◌∷◌ c s)))
    ]

-- isClusterScoped
abbrev pub is_cluster_scoped : Mapping → Bool
is_cluster_scoped m = m.is_root_scope

-- ApplyClient.resource
unfoldable pub resource_of : Mapping → ApplyObject → Target
resource_of m o = record {
  resource = m.resource;
  namespace = if is_cluster_scoped m then none else some o.namespace;
}

unfoldable pub object_ref : Mapping → ApplyObject → String
object_ref m o =
    if is_cluster_scoped m
    then m.resource <> "/" <> o.name
    else m.resource <> "/" <> o.namespace <> "/" <> o.name
