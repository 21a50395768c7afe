-- ===== src/Children/Tests.antt =====
-- A child of an application, as declared and as reported.
use provider_crossplane_akui.Common.{
  Result, ok, Member, String, ◌≡◌, refl, ◌↔◌, true, false, none, some, [], ◌∷◌,
}
use provider_crossplane_akui.Reason.{Error}
use provider_crossplane_akui.Json.{int, str, obj, Fields, end, field, lookup, IsMap}
use provider_crossplane_akui.Children.{
  Identity, strip, identity_of, Index, find_child, add_child, index_from, index, index_structs_from,
  index_structs, matches_subset, compare_children,
}
use provider_crossplane_akui.Children.Paths.{key, value_at, matches_subset-value_at}
use provider_crossplane_akui.Children.Report.{keys_of}
use provider_crossplane_akui.Children.Matching.{ChildrenAreMaps}
use provider_crossplane_akui.Children.Standing.{At, StandsFor, compare_children-StandsFor}

abbrev meta : Fields
meta = field "name" (str "guestbook") (field "uid" (str "9") end)

abbrev app : Fields
app = field "apiVersion" (str "argoproj.io/v1alpha1") (
    field "kind" (str "Application") (
      field "metadata" (obj meta)
        (field "spec" (obj (field "project" (str "default") end)) (field "status" (obj end) end))))

abbrev spec : Fields
spec = field "project" (str "default") end

abbrev observed_spec : Fields
observed_spec = field "project" (str "default") (field "revision" (int 3) end)

app-IsMap : IsMap (obj app)
unfolding lookup
app-IsMap = (
  refl,
  tt,
  (refl, tt, (refl, (refl, tt, (refl, tt, tt)), (refl, (refl, tt, tt), (refl, tt, tt)))),
)

no_revision : lookup "revision" spec ≡ none
unfolding lookup
no_revision = refl

spec_matches : matches_subset (obj spec) (obj observed_spec) ≡ true
unfolding matches_subset lookup
spec_matches = refl

project_of_spec : value_at (key "project" ∷ []) (obj spec) ≡ some (str "default")
unfolding lookup
project_of_spec = refl

matches_subset-value_at_example :
    value_at (key "project" ∷ []) (obj observed_spec) ≡ some (str "default")
matches_subset-value_at_example =
    matches_subset-value_at (key "project" ∷ []) (obj spec) (obj observed_spec) (str "default")
      spec_matches project_of_spec refl

abbrev id : Identity
id = record {
  api_version = "argoproj.io/v1alpha1";
  kind = "Application";
  namespace = "";
  name = "guestbook";
}

abbrev declared : Index
declared = (id, spec) ∷ []

abbrev reported : Index
reported = (record id { namespace = "argocd" }, observed_spec) ∷ []

compare_children-StandsFor_example :
    (Member id (compare_children declared reported).missing
      ↔ (Member id (keys_of declared) × ((o : Fields) → ¬ StandsFor reported id o)))
    × (Member id (compare_children declared reported).changed ↔ (
        (d : Fields) × (o : Fields) × At id d declared
        × StandsFor reported id o
        × (matches_subset (obj d) (obj o) ≡ false)))
compare_children-StandsFor_example = compare_children-StandsFor declared reported id

declared_are_maps : ChildrenAreMaps declared
unfolding lookup
declared_are_maps = ((refl, tt, tt), tt)

app_metadata : lookup "metadata" app ≡ some (obj meta)
unfolding lookup
app_metadata = refl

app_structs : index_structs (none ∷ some app ∷ []) ≡ ok ((id, strip app) ∷ [])
unfolding index_structs index_structs_from add_child identity_of find_child lookup
app_structs = refl

abbrev decode : String → Result Error Fields
decode raw = ok app

index-app : index decode ("app" ∷ []) ≡ ok ((id, strip app) ∷ [])
unfolding index index_from add_child identity_of find_child lookup
index-app = refl
