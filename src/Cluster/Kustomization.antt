-- ===== src/Cluster/Kustomization.antt =====
-- internal/controller/cluster/convert.go: the check and the header of the kustomization of a
-- cluster.
use provider_crossplane_akui.Common.{
  Result, ok, err, ◌>>=◌, map_err, if◌then◌else◌, ◌==◌, String, ◌<>◌, Bool, true, false, not, ◌&&◌,
  ◌||◌, none, some, List, [], ◌∷◌,
}
use provider_crossplane_akui.Common.Text.{is_blank, trims_to}
use provider_crossplane_akui.Reason.{Error, new, wrap, Err}
use provider_crossplane_akui.Json.{Json, null, str, Fields, end, field, put, has_key}
use provider_crossplane_akui.Cluster.State.{ClusterCodec}

-- clusterKustomizationTopLevelKeys
abbrev top_level_keys : List String
top_level_keys =
    "apiVersion" ∷ "kind" ∷ "metadata" ∷ "namespace" ∷ "namePrefix" ∷ "nameSuffix" ∷ "commonLabels"
    ∷ "labels" ∷ "commonAnnotations" ∷ "resources" ∷ "bases" ∷ "components" ∷ "crds"
    ∷ "configurations" ∷ "vars" ∷ "images" ∷ "replicas" ∷ "patches" ∷ "patchesJson6902"
    ∷ "patchesStrategicMerge" ∷ "replacements" ∷ "configMapGenerator" ∷ "secretGenerator"
    ∷ "generators" ∷ "generatorOptions" ∷ "transformers" ∷ "validators" ∷ "openapi"
    ∷ "buildMetadata" ∷ "helmCharts" ∷ "helmGlobals" ∷ "sortOptions" ∷ "configMapGeneratorOptions"
    ∷ "secretGeneratorOptions" ∷ []

abbrev pub is_one_of : String → List String → Bool
is_one_of k [] = false
is_one_of k (j ∷ js) = j == k || is_one_of k js

abbrev is_kustomization : Json → Bool
is_kustomization (str s) = s == "Kustomization"
is_kustomization _ = false

abbrev is_text_or_null : Json → Bool
is_text_or_null (str s) = true
is_text_or_null null = true
is_text_or_null _ = false

-- The body of the loop, for one key.
abbrev pub entry_error : String → Json → Err
entry_error k v =
    if not (is_one_of k top_level_keys)
    then some (new ("unknown top-level Kustomization field \"" <> k <> "\""))
    else if k == "kind" && not (is_kustomization v)
    then some (new "kind must be Kustomization when set")
    else if (k == "apiVersion" || k == "kind") && not (is_text_or_null v)
    then some (new (k <> " must be a string when set"))
    else none

unfoldable pub validate_cluster_kustomization_object : Fields → Err
validate_cluster_kustomization_object end = none
validate_cluster_kustomization_object (field k v m) =
    let rest = validate_cluster_kustomization_object m in
    elim (entry_error k v) [ some e ↦ some e | none ↦ rest ]

abbrev pub put_if_absent : String → Json → Fields → Fields
put_if_absent k v m = if has_key k m then m else put k v m

abbrev pub with_header : Fields → Fields
with_header m =
    put_if_absent "kind" (str "Kustomization")
      (put_if_absent "apiVersion" (str "kustomize.config.k8s.io/v1beta1") m)

module _ {T : Type 0} (cc : ClusterCodec T) where
  -- The end of clusterKustomizationRaw, with a map that is not nil.
  unfoldable pub encoded_kustomization : Fields → Result Error String
  encoded_kustomization top = elim (validate_cluster_kustomization_object top) [
    | some e ↦ err e
    | none ↦
        map_err (wrap "could not encode kustomization JSON") (cc.marshal_object (with_header top))
  ]

  -- The empty text stands for an extension with no raw document.
  unfoldable pub cluster_kustomization_raw : String → Result Error String
  cluster_kustomization_raw s =
      if is_blank s || trims_to s "null"
      then ok ""
      else map_err (wrap "invalid kustomization YAML") (cc.codec.yaml_to_json s) >>= λ raw.
          map_err (wrap "kustomization YAML must be an object at the top level")
            (cc.codec.unmarshal_object raw)
          >>= λ top. elim top [ none ↦ ok "" | some m ↦ encoded_kustomization m ]
