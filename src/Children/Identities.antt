-- ===== src/Children/Identities.antt =====
-- internal/controller/base/children/drift.go: identities, the stripping of what the server owns,
-- and indexes.
use provider_crossplane_akui.Common.{
  Result, ok, err, ◌>>=◌, if◌then◌else◌, ◌==◌, is_some, ℕ, ◌+◌, String, ◌<>◌, Bool, false, ◌&&◌,
  ◌||◌, Option, none, some, List, [], ◌∷◌, ◌++◌,
}
use provider_crossplane_akui.Common.Text.{decimal}
use provider_crossplane_akui.Reason.{Error, new, wrap}
use provider_crossplane_akui.Json.{Json, obj, Fields, end, field, lookup, as_string, as_map}

pub record Identity : Type 0 where
  pub api_version : String
  pub kind : String
  pub namespace : String
  pub name : String

-- Identity.String
unfoldable pub identity_string : Identity → String
identity_string k =
    let ns = if k.namespace == "" then "-" else k.namespace in
    k.api_version <> "/" <> k.kind <> "/" <> ns <> "/" <> k.name

abbrev pub same_identity : Identity → Identity → Bool
same_identity a b =
    a.api_version == b.api_version
    && (a.kind == b.kind && (a.namespace == b.namespace && a.name == b.name))

abbrev server_meta_fields : List String
server_meta_fields =
    "resourceVersion" ∷ "uid" ∷ "generation" ∷ "creationTimestamp" ∷ "managedFields" ∷ "selfLink"
    ∷ "deletionTimestamp" ∷ "deletionGracePeriodSeconds" ∷ []

any_equal : String → List String → Bool
any_equal k [] = false
any_equal k (f ∷ fs) = f == k || any_equal k fs

unfoldable pub is_server_meta_field : String → Bool
unfolding any_equal
is_server_meta_field k = any_equal k server_meta_fields

unfoldable pub strip_meta : Fields → Fields
strip_meta end = end
strip_meta (field k v md) =
    let rest = strip_meta md in if is_server_meta_field k then rest else field k v rest

-- The value that `strip` keeps under a key.
abbrev pub strip_value : String → Json → Json
strip_value k v =
    if k == "metadata"
    then (elim (as_map (some v)) [ none ↦ v | some md ↦ obj (strip_meta md) ])
    else v

unfoldable pub strip : Fields → Fields
strip end = end
strip (field k v m) =
    let rest = strip m in if k == "status" then rest else field k (strip_value k v) rest

abbrev text_or_empty : Option String → String
text_or_empty none = ""
text_or_empty (some s) = s

-- `md == nil` where the assertion fails; a decoded object is never a nil map.
unfoldable pub identity_of : Fields → Result Error Identity
identity_of o = elim (as_map (lookup "metadata" o)) [
  | none ↦ err (new "missing metadata")
  | some md ↦
      let name = text_or_empty (as_string (lookup "name" md)) in
      if name == ""
      then err (new "missing metadata.name")
      else ok (record {
        api_version = text_or_empty (as_string (lookup "apiVersion" o));
        kind = text_or_empty (as_string (lookup "kind" o));
        namespace = text_or_empty (as_string (lookup "namespace" md));
        name = name;
      })
]

abbrev pub Index : Type 0
Index = List (Identity × Fields)

unfoldable pub find_child : Identity → Index → Option Fields
find_child id [] = none
find_child id ((k, v) ∷ m) = if same_identity k id then some v else find_child id m

-- One turn of the loops of `Index` and `IndexStructs`; `label` is "entry" or "struct".
unfoldable pub add_child : String → ℕ → Fields → Index → Result Error Index
add_child label i o out = elim (identity_of o) [
  | err e ↦ err (wrap (label <> " " <> decimal i) e)
  | ok id ↦
      if is_some (find_child id out)
      then err
          (new (label <> " " <> decimal i <> ": duplicate child identity " <> identity_string id))
      else ok (out ++ ((id, strip o) ∷ []))
]

-- `decode` is `json.Unmarshal` of a payload into a map.
module _ (decode : String → Result Error Fields) where
  unfoldable pub index_from : ℕ → List String → Index → Result Error Index
  unfolding add_child
  index_from i [] out = ok out
  index_from i (raw ∷ raws) out =
      if raw == ""
      then err (new ("entry " <> decimal i <> ": empty payload"))
      else elim (decode raw) [
        | err e ↦ err (wrap ("entry " <> decimal i <> ": invalid JSON") e)
        | ok o ↦ add_child "entry" i o out >>= λ out'. index_from (i + 1) raws out'
      ]

  unfoldable pub index : List String → Result Error Index
  unfolding index_from
  index raws = index_from 0 raws []

-- The structs of a gateway's answer, `none` for a nil pointer, each as its `AsMap`.
unfoldable pub index_structs_from : ℕ → List (Option Fields) → Index → Result Error Index
unfolding add_child
index_structs_from i [] out = ok out
index_structs_from i (none ∷ rest) out = index_structs_from (i + 1) rest out
index_structs_from i (some o ∷ rest) out =
    add_child "struct" i o out >>= λ out'. index_structs_from (i + 1) rest out'

unfoldable pub index_structs : List (Option Fields) → Result Error Index
unfolding index_structs_from
index_structs structs = index_structs_from 0 structs []
