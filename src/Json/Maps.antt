-- ===== src/Json/Maps.antt =====
-- The laws of maps.
use provider_crossplane_akui.Common.{
  if◌then◌else◌, ◌==◌, String, ◌≡◌, refl, false, none, some, arith, eq_iff,
}
use provider_crossplane_akui.Json.{
  Json, Items, nil, item, Fields, end, field, lookup, put, append_items,
}

pub lookup-put :
    (k j : String) (v : Json) (m : Fields)
    → lookup j (put k v m) ≡ (if k == j then some v else lookup j m)
unfolding lookup put
lookup-put k j v end = refl
lookup-put k j v (field i w m) =
    ground (arith, eq_iff k j, eq_iff i k, eq_iff i j, lookup-put k j v m)

append_items-nil : (xs : Items) → append_items xs nil ≡ xs
append_items-nil nil = refl
append_items-nil (item x xs) = rw (append_items-nil xs)

pub lookup-field-none :
    (k j : String) (v : Json) (m : Fields)
    → lookup k (field j v m) ≡ none
    → ((j == k) ≡ false) × (lookup k m ≡ none)
unfolding lookup
lookup-field-none k j v m h = ground arith
