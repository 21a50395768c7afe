-- ===== src/Json.antt =====
-- Decoded JSON, as `encoding/json` and structpb give it in an `interface{}`: null is nil, a list is
-- `[]interface{}`, an object `map[string]interface{}`. A map is the list of its entries in the
-- order in which a range loop would meet them. There are no floats: `num n` is the float64 that
-- is numbered n, equal values sharing a number, and `int n` is a Go integer, which code may put in.
pub mod Maps
use provider_crossplane_akui.Common.{
  if◌then◌else◌, ◌==◌, is_some, ℕ, suc, String, ◌≡◌, Bool, true, false, Option, none, some,
}

mutual
  pub data Json : Type 0 where
    null : Json
    bool : Bool → Json
    num : ℕ → Json
    int : ℕ → Json
    str : String → Json
    arr : Items → Json
    obj : Fields → Json

  pub data Items : Type 0 where
    nil : Items
    item : Json → Items → Items

  pub data Fields : Type 0 where
    end : Fields
    field : String → Json → Fields → Fields

-- `v, ok := m[k]`
unfoldable pub lookup : String → Fields → Option Json
lookup k end = none
lookup k (field j v m) = if j == k then some v else lookup k m

-- `m[k] = v`
unfoldable pub put : String → Json → Fields → Fields
put k v end = field k v end
put k v (field j w m) = if j == k then field j v m else field j w (put k v m)

abbrev pub has_key : String → Fields → Bool
has_key k m = is_some (lookup k m)

-- `len(m) == 0`
abbrev pub no_fields : Fields → Bool
no_fields end = true
no_fields (field k v m) = false

abbrev pub no_items : Items → Bool
no_items nil = true
no_items (item v xs) = false

abbrev pub append_items : Items → Items → Items
append_items nil ys = ys
append_items (item x xs) ys = item x (append_items xs ys)

abbrev pub count_items : Items → ℕ
count_items nil = 0
count_items (item x xs) = suc (count_items xs)

-- The type assertions `v.(string)`, `v.(map[string]interface{})` and `v.([]interface{})`, at a
-- value that may be absent.
abbrev pub as_string : Option Json → Option String
as_string none = none
as_string (some (str s)) = some s
as_string (some _) = none

abbrev pub as_map : Option Json → Option Fields
as_map none = none
as_map (some (obj m)) = some m
as_map (some _) = none

abbrev pub as_list : Option Json → Option Items
as_list none = none
as_list (some (arr xs)) = some xs
as_list (some _) = none

-- No key of a map stands twice, at any depth.
abbrev mutual
  pub IsMap : Json → Type 0
  IsMap (arr xs) = ItemsAreMaps xs
  IsMap (obj m) = FieldsAreMaps m
  IsMap _ = Unit

  pub ItemsAreMaps : Items → Type 0
  ItemsAreMaps nil = Unit
  ItemsAreMaps (item x xs) = IsMap x × ItemsAreMaps xs

  pub FieldsAreMaps : Fields → Type 0
  FieldsAreMaps end = Unit
  FieldsAreMaps (field k v m) = (lookup k m ≡ none) × IsMap v × FieldsAreMaps m
