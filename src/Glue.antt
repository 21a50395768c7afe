-- ===== src/Glue.antt =====
-- internal/types/generated/crossplane/v1alpha1/glue.go: what the generated converters do with a
-- kustomization and with a time.
use provider_crossplane_akui.Common.{
  Result, ok, err, if◌then◌else◌, ◌==◌, String, Bool, Option, none, some,
}
use provider_crossplane_akui.Reason.{Error, wrap, Err}
use provider_crossplane_akui.Json.{Fields}
use provider_crossplane_akui.CustomSize.{Yaml}

-- sigs.k8s.io/yaml, encoding/json into a map (`none` for a map that stays nil), and time.
pub record Codec (Tm : Type 0) : Type 0 where
  pub yaml : Yaml
  pub yaml_to_json : String → Result Error String
  pub json_to_yaml : String → Result Error String
  pub unmarshal_object : String → Result Error (Option Fields)
  pub parse_time : String → Result Error Tm
  pub is_zero : Tm → Bool
  pub format_time : Tm → String

module _ {Tm : Type 0} (codec : Codec Tm) where
  unfoldable pub validate_kustomization_yaml : String → Err
  validate_kustomization_yaml s = if s == "" then none else elim (codec.yaml_to_json s) [
    | err e ↦ some (wrap "invalid kustomization YAML" e)
    | ok raw ↦ elim (codec.unmarshal_object raw) [
      | err e ↦ some (wrap "kustomization YAML must be an object at the top level" e)
      | ok top ↦ none
    ]
  ]

  unfoldable pub kustomization_string_to_raw : String → String
  kustomization_string_to_raw s =
      if s == "" then "" else elim (codec.yaml_to_json s) [ err e ↦ "" | ok raw ↦ raw ]

  unfoldable pub kustomization_raw_to_string : String → String
  kustomization_raw_to_string raw =
      if raw == "" then "" else elim (codec.json_to_yaml raw) [ err e ↦ "" | ok s ↦ s ]

  unfoldable pub string_ptr_to_time_ptr : Option String → Option Tm
  string_ptr_to_time_ptr none = none
  string_ptr_to_time_ptr (some s) =
      if s == "" then none else elim (codec.parse_time s) [ err e ↦ none | ok t ↦ some t ]

  unfoldable pub time_ptr_to_string_ptr : Option Tm → Option String
  time_ptr_to_string_ptr none = none
  time_ptr_to_string_ptr (some t) = if codec.is_zero t then none else some (codec.format_time t)
