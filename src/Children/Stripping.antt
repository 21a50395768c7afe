-- ===== src/Children/Stripping.antt =====
-- What the server owns never reaches a comparison.
use provider_crossplane_akui.Common.{
  if◌then◌else◌, ◌==◌, ==_iff, ==_refl, Bool-cases, String, ◌≡◌, inl, inr, false, none, some, arith,
  eq_iff,
}
use provider_crossplane_akui.Json.{obj, Fields, end, field, lookup}
use provider_crossplane_akui.Children.{is_server_meta_field, strip_meta, strip_value, strip}

strip_meta-lookup :
    (k : String) (m : Fields)
    → lookup k (strip_meta m) ≡ (if is_server_meta_field k then none else lookup k m)
unfolding lookup strip_meta
strip_meta-lookup k end = ground arith
strip_meta-lookup k (field j v m) = ground (arith, eq_iff j k, strip_meta-lookup k m)

strip-lookup :
    (k : String) (m : Fields)
    → lookup k (strip m) ≡ (
        if k == "status"
        then none
        else elim (lookup k m) [ none ↦ none | some v ↦ some (strip_value k v) ])
unfolding lookup strip
strip-lookup k end = ground arith
strip-lookup k (field j v m) = elim (Bool-cases (j == k)) [
  | inl s ↦ rw ((==_iff j k).0 s) (ground (arith, ==_refl k, strip-lookup k m))
  | inr s ↦ ground (arith, s, eq_iff j k, strip-lookup k m)
]

-- The stripped copy of an object has no status, keeps every other field, and under metadata has
-- exactly the fields that the server does not own.
pub strip_lem :
    (o md : Fields) (k : String)
    → lookup "metadata" o ≡ some (obj md)
    → (lookup "status" (strip o) ≡ none)
      × ((k == "status") ≡ false → (k == "metadata") ≡ false → lookup k (strip o) ≡ lookup k o)
      × (lookup "metadata" (strip o) ≡ some (obj (strip_meta md)))
      × (lookup k (strip_meta md) ≡ (if is_server_meta_field k then none else lookup k md))
strip_lem o md k h = (
  strip-lookup "status" o,
  λ n m. ground (arith, strip-lookup k o),
  ground (arith, strip-lookup "metadata" o),
  strip_meta-lookup k md,
)
