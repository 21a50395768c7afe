-- ===== src/Children/Subset.antt =====
-- The subset match is reflexive, and extra keys of the observed object do no harm.
use provider_crossplane_akui.Common.{
  nat_eq, ==_refl, ℕ, String, ◌≡◌, refl, true, false, none, some, arith, eq_iff,
}
use provider_crossplane_akui.Json.{
  Json, null, bool, num, int, str, arr, obj, Items, nil, item, Fields, end, field, lookup, put,
  count_items, IsMap, ItemsAreMaps, FieldsAreMaps,
}
use provider_crossplane_akui.Json.Maps.{lookup-put, lookup-field-none}
use provider_crossplane_akui.Children.{matches_subset, matches_fields, matches_items}

-- Every entry of the first map is found in the second.
abbrev Within : Fields → Fields → Type 0
Within end o = Unit
Within (field k v d) o = (lookup k o ≡ some v) × Within d o

Within-field :
    (k : String) (v : Json) (d o : Fields) → lookup k d ≡ none → Within d o → Within d (field k v o)
unfolding lookup
Within-field k v end o h w = tt
Within-field k v (field j u d) o h w =
    (ground (arith, eq_iff j k, eq_iff k j), Within-field k v d o (ground (arith, eq_iff j k)) w.1)

Within-refl : (m : Fields) → FieldsAreMaps m → Within m m
unfolding lookup
Within-refl end h = tt
Within-refl (field k v m) h =
    (ground (arith, ==_refl k), Within-field k v m m h.0 (Within-refl m h.2))

nat_eq_refl : (n : ℕ) → nat_eq n n ≡ true
nat_eq_refl n = ground arith

mutual
  unfolding matches_subset

  refl_value : (d : Json) → IsMap d → matches_subset d d ≡ true
  refl_value (obj m) h = refl_fields m m h (Within-refl m h)
  refl_value (arr xs) h = rw (nat_eq_refl (count_items xs)) (refl_items xs h)
  refl_value null h = refl
  refl_value (bool true) h = refl
  refl_value (bool false) h = refl
  refl_value (num n) h = nat_eq_refl n
  refl_value (int n) h = nat_eq_refl n
  refl_value (str s) h = ==_refl s

  refl_fields : (d o : Fields) → FieldsAreMaps d → Within d o → matches_fields d o ≡ true
  refl_fields end o h w = refl
  refl_fields (field k v d) o h w = ground (arith, refl_value v h.1, refl_fields d o h.2 w.1)

  refl_items : (xs : Items) → ItemsAreMaps xs → matches_items xs xs ≡ true
  refl_items nil h = refl
  refl_items (item x xs) h = ground (arith, refl_value x h.0, refl_items xs h.1)

-- What the gateway reports back as it was declared matches: no document in which no key stands
-- twice drifts from itself.
pub matches_subset_refl : (d : Json) → IsMap d → matches_subset d d ≡ true
matches_subset_refl d h = refl_value d h

matches_fields-put :
    (k : String) (v : Json) (d o : Fields)
    → lookup k d ≡ none
    → matches_fields d (put k v o) ≡ matches_fields d o
unfolding matches_subset
matches_fields-put k v end o h = refl
matches_fields-put k v (field j u d) o h =
    let (n, hd) = lookup-field-none k j u d h in
    ground (arith, lookup-put k j v o, eq_iff j k, eq_iff k j, n, matches_fields-put k v d o hd)

-- A key that the user did not declare never makes drift: whatever the server puts under it, the
-- match gives the same answer.
pub matches_subset-put :
    (k : String) (v : Json) (d o : Fields)
    → lookup k d ≡ none
    → matches_subset (obj d) (obj (put k v o)) ≡ matches_subset (obj d) (obj o)
unfolding matches_subset
matches_subset-put k v d o h = matches_fields-put k v d o h
