-- ===== src/Children.antt =====
-- internal/controller/base/children/drift.go: the children that a user declares against those that
-- the gateway reports. An index is the list of the entries of the source's map.
mod Identities
mod Subset
mod Paths
mod Report
mod Matching
mod Standing
mod Stripping
mod Indexing
mod Tests
use provider_crossplane_akui.Common.{
  if◌then◌else◌, ltb, nat_eq, ◌==◌, is_empty, ℕ, ◌+◌, ◌*◌, Bool, true, false, ◌&&◌, Option, none,
  some, List, [], ◌∷◌,
}
use provider_crossplane_akui.Common.Text.{text_lt}
use provider_crossplane_akui.Json.{
  Json, null, bool, num, int, str, arr, obj, Items, nil, item, Fields, end, field, lookup,
  no_fields, no_items, count_items,
}
unfoldable pub use Identities.*

abbrev pub is_empty_json_value : Json → Bool
is_empty_json_value null = true
is_empty_json_value (obj m) = no_fields m
is_empty_json_value (arr xs) = no_items xs
is_empty_json_value _ = false

-- reflect.DeepEqual where the left side is a scalar or nil.
abbrev pub same_scalar : Json → Json → Bool
same_scalar null null = true
same_scalar (bool true) (bool true) = true
same_scalar (bool false) (bool false) = true
same_scalar (num n) (num m) = nat_eq n m
same_scalar (int n) (int m) = nat_eq n m
same_scalar (str s) (str t) = s == t
same_scalar _ _ = false

unfoldable mutual
  pub matches_subset : Json → Json → Bool
  matches_subset (obj d) (obj o) = matches_fields d o
  matches_subset (obj d) null = no_fields d
  matches_subset (obj d) _ = false
  matches_subset (arr d) (arr o) =
      let rest = matches_items d o in if nat_eq (count_items d) (count_items o) then rest else false
  matches_subset (arr d) null = no_items d
  matches_subset (arr d) _ = false
  matches_subset null o = same_scalar null o
  matches_subset (bool b) o = same_scalar (bool b) o
  matches_subset (num n) o = same_scalar (num n) o
  matches_subset (int n) o = same_scalar (int n) o
  matches_subset (str s) o = same_scalar (str s) o

  pub matches_fields : Fields → Fields → Bool
  matches_fields end o = true
  matches_fields (field k dv d) o =
      let rest = matches_fields d o in
      elim (lookup k o) [
        | none ↦ if is_empty_json_value dv then rest else false
        | some ov ↦ matches_subset dv ov && rest
      ]

  -- The lists have the same length where this is called.
  pub matches_items : Items → Items → Bool
  matches_items (item x d) (item y o) = matches_subset x y && matches_items d o
  matches_items nil o = true
  matches_items (item x d) nil = true

abbrev pub same_but_namespace : Identity → Identity → Bool
same_but_namespace k id =
    k.api_version == id.api_version && (k.kind == id.kind && k.name == id.name)

unfoldable pub any_namespace_from : Identity → Index → Option Fields → ℕ → Option Fields
any_namespace_from id [] match found = if nat_eq found 1 then match else none
any_namespace_from id ((k, v) ∷ m) match found =
    let hit = any_namespace_from id m (some v) (found + 1) in
    let miss = any_namespace_from id m match found in
    if same_but_namespace k id then (if ltb 1 (found + 1) then none else hit) else miss

unfoldable pub lookup_any_namespace : Index → Identity → Option Fields
unfolding any_namespace_from
lookup_any_namespace observed id = any_namespace_from id observed none 0

unfoldable pub insert_key : Identity → List Identity → List Identity
insert_key x [] = x ∷ []
insert_key x (y ∷ ys) =
    if text_lt (identity_string y) (identity_string x) then y ∷ insert_key x ys else x ∷ y ∷ ys

unfoldable pub sorted_keys : Index → List Identity
sorted_keys [] = []
sorted_keys ((k, v) ∷ m) = insert_key k (sorted_keys m)

pub record DriftReport : Type 0 where
  pub missing : List Identity
  pub changed : List Identity

-- DriftReport.Empty
abbrev pub is_empty_report : DriftReport → Bool
is_empty_report d = is_empty d.missing && is_empty d.changed

-- The observed child that stands for a desired one.
unfoldable pub resolve_child : Index → Identity → Option Fields
resolve_child observed id = elim (find_child id observed) [
  | some o ↦ some o
  | none ↦ if id.namespace == "" then lookup_any_namespace observed id else none
]

-- `desired[id]`, a nil map where there is none.
abbrev pub desired_child : Index → Identity → Fields
desired_child desired id = elim (find_child id desired) [ some d ↦ d | none ↦ end ]

unfoldable pub compare_keys : Index → Index → List Identity → DriftReport
compare_keys desired observed [] = record { missing = []; changed = [] }
compare_keys desired observed (id ∷ ids) =
    let rest = compare_keys desired observed ids in
    elim (resolve_child observed id) [
      | none ↦ record { missing = id ∷ rest.missing; changed = rest.changed }
      | some o ↦
          if matches_subset (obj (desired_child desired id)) (obj o)
          then rest
          else record { missing = rest.missing; changed = id ∷ rest.changed }
    ]

unfoldable pub compare_children : Index → Index → DriftReport
unfolding compare_keys
compare_children desired observed = compare_keys desired observed (sorted_keys desired)
