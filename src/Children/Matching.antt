-- ===== src/Children/Matching.antt =====
-- A bundle does not drift from itself, and a manifest without a namespace stands for the one
-- observed resource of its name.
use provider_crossplane_akui.Common.{
  if◌then◌else◌, ◌==◌, ◌&&◌, ==_refl, Bool-cases, Option-cases, is_empty, Member, ◌≡◌, refl, sym,
  ◌∙◌, ◌↔◌, ◌⊎◌, inl, inr, true, Option, none, some, List, [], ◌∷◌, arith,
}
use provider_crossplane_akui.Json.{obj, Fields, FieldsAreMaps}
use provider_crossplane_akui.Children.{
  Identity, same_identity, Index, find_child, any_namespace_from, lookup_any_namespace,
  is_empty_report, resolve_child, compare_children,
}
use provider_crossplane_akui.Children.Subset.{matches_subset_refl}
use provider_crossplane_akui.Children.Report.{keys_of, compare_children_lem}

-- In no child does a key stand twice.
abbrev pub ChildrenAreMaps : Index → Type 0
ChildrenAreMaps [] = Unit
ChildrenAreMaps ((k, v) ∷ m) = FieldsAreMaps v × ChildrenAreMaps m

pub same_identity_refl : (k : Identity) → same_identity k k ≡ true
same_identity_refl k =
    ground (arith, ==_refl k.api_version, ==_refl k.kind, ==_refl k.namespace, ==_refl k.name)

find_child-of-Member :
    (id : Identity) (m : Index)
    → Member id (keys_of m)
    → ChildrenAreMaps m
    → (v : Fields) × (find_child id m ≡ some v) × FieldsAreMaps v
unfolding find_child
find_child-of-Member id [] h c = absurd h
find_child-of-Member id ((k, v) ∷ m) h c = elim (Bool-cases (same_identity k id)) [
  | inl s ↦ (v, rw s, c.0)
  | inr s ↦ elim h [
    | inl e ↦ absurd (ground (arith, s, same_identity_refl k, e))
    | inr t ↦ let (w, f, d) = find_child-of-Member id m t c.1 in (w, rw s f, d)
  ]
]

resolve_child-of-find :
    (id : Identity) (m : Index) (v : Fields)
    → find_child id m ≡ some v
    → resolve_child m id ≡ some v
unfolding resolve_child
resolve_child-of-find id m v f = rw (f, resolve_child)

is_empty-of-no_Member : {A : Type 0} (xs : List A) → ((x : A) → ¬ Member x xs) → is_empty xs ≡ true
is_empty-of-no_Member [] h = refl
is_empty-of-no_Member (x ∷ xs) h = absurd (h x (inl refl))

-- Once the gateway reports the declared children back as they were declared, the report is empty.
pub compare_children_self :
    (m : Index) → ChildrenAreMaps m → is_empty_report (compare_children m m) ≡ true
compare_children_self m c =
    rw (is_empty-of-no_Member (compare_children m m).missing not_missing)
      (is_empty-of-no_Member (compare_children m m).changed not_changed)
  where
    not_missing : (id : Identity) → ¬ Member id (compare_children m m).missing
    not_missing id h =
        let (k, n) = (compare_children_lem m m id).0.0 h in
        let (v, f, d) = find_child-of-Member id m k c in cc (n, resolve_child-of-find id m v f)

    not_changed : (id : Identity) → ¬ Member id (compare_children m m).changed
    not_changed id h =
        let (k, c') = (compare_children_lem m m id).1.0 h in
        let (o, r, y) = c' in
        let (v, f, d) = find_child-of-Member id m k c in
        ground (arith, y, matches_subset_refl (obj v) d, resolve_child-of-find id m v f, r, f)

-- The children of the same API version, kind and name.
abbrev pub candidates : Index → Identity → List Fields
candidates [] id = []
candidates ((k, v) ∷ m) id =
    let rest = candidates m id in
    if k.api_version == id.api_version && (k.kind == id.kind && k.name == id.name)
    then v ∷ rest
    else rest

abbrev sole : List Fields → Option Fields
sole (v ∷ []) = some v
sole _ = none

any_namespace_from-candidates :
    (id : Identity) (m : Index) (v : Fields)
    → (any_namespace_from id m none 0 ≡ sole (candidates m id))
      × (any_namespace_from id m (some v) 1 ≡ sole (v ∷ candidates m id))
unfolding any_namespace_from
any_namespace_from-candidates id [] v = (refl, refl)
any_namespace_from-candidates id ((k, w) ∷ m) v =
    ground (arith, any_namespace_from-candidates id m v, any_namespace_from-candidates id m w)

sole-eq : (vs : List Fields) (v : Fields) → (sole vs ≡ some v) ↔ (vs ≡ v ∷ [])
sole-eq [] v = (λ h. cc, λ h. cc)
sole-eq (x ∷ []) v = (λ h. cc, λ h. cc)
sole-eq (x ∷ y ∷ vs) v = (λ h. cc, λ h. cc)

-- The observed child that stands for a desired one is the one of the same identity; if there is
-- none and the desired one names no namespace, it is the child of the same API version, kind and
-- name, as long as there is exactly one; and in no other case is there any.
pub resolve_child_lem :
    (observed : Index) (id : Identity) (v : Fields)
    → (resolve_child observed id ≡ some v) ↔ (
        (find_child id observed ≡ some v)
        ⊎ ((find_child id observed ≡ none)
            × ((id.namespace == "") ≡ true)
            × (candidates observed id ≡ v ∷ [])))
unfolding resolve_child lookup_any_namespace
resolve_child_lem observed id v =
    let any = (any_namespace_from-candidates id observed v).0 in
    let one = sole-eq (candidates observed id) v in
    elim (Option-cases (find_child id observed)) [
      | inl n ↦ elim (Bool-cases (id.namespace == "")) [
        | inl e ↦
            rw (n, e, resolve_child)
              (
                λ h. inr (refl, refl, one.0 (sym any ∙ h)),
                λ h. elim h [ inl f ↦ absurd (cc) | inr t ↦ any ∙ one.1 t.2 ],
              )
        | inr e ↦
            rw (n, e, resolve_child)
              (λ h. absurd (cc), λ h. elim h [ inl f ↦ absurd (cc) | inr t ↦ absurd (cc (t.1)) ])
      ]
      | inr (w, f) ↦
          rw (f, resolve_child) (λ h. inl h, λ h. elim h [ inl g ↦ g | inr t ↦ absurd (cc (t.0)) ])
    ]
