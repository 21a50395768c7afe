-- ===== src/CustomSize/UserPatches.antt =====
-- The patches that a user's kustomization holds.
use provider_crossplane_akui.Json.Maps.{lookup-put}
use provider_crossplane_akui.Common.{
  ok, Result-cases, ◌==◌, Bool-cases, Option-cases, String, ◌≡◌, refl, ◌⊎◌, inl, inr, true, false,
  Option, none, some, arith,
}
use provider_crossplane_akui.Json.{Json, null, str, arr, obj, Items, nil, item, Fields, end, lookup}
use provider_crossplane_akui.Common.Text.{is_blank}
use provider_crossplane_akui.ClusterTypes.{RepoServerCustomAgentSizeConfig}
use provider_crossplane_akui.CustomSize.{
  Yaml, default_key, parse_kustomization_object, kustomization_slice, patch_target_deployment_name,
  is_resource_patch, conflict_of, first_conflict, replicas_entry, with_replicas,
}

pub lookup-with_replicas :
    (r : Option RepoServerCustomAgentSizeConfig) (user : Items) (top : Fields) (key : String)
    → ("replicas" == key) ≡ false
    → lookup key (with_replicas r user top) ≡ lookup key top
lookup-with_replicas none user top key n = refl
lookup-with_replicas (some r) user top key n =
    ground (arith, n, lookup-put "replicas" key (replicas_entry r user) top)

-- The items of a list that a document holds, or leaves out.
abbrev declared_items : Option Json → Option Items
declared_items none = some nil
declared_items (some null) = some nil
declared_items (some (arr items)) = some items
declared_items (some _) = none

abbrev patches_in : Option Fields → Option Json
patches_in none = none
patches_in (some m) = lookup "patches" m

abbrev pub AllItems : (Json → Type 0) → Items → Type 0
AllItems P nil = Unit
AllItems P (item j js) = P j × AllItems P js

pub kustomization_slice-declared_items :
    (top : Fields) (items : Items)
    → kustomization_slice top "patches" ≡ ok items
    → declared_items (lookup "patches" top) ≡ some items
unfolding kustomization_slice
kustomization_slice-declared_items top items h = ground (arith, h)

lookup-default_key :
    (k v : String) (m : Fields)
    → (k == "patches") ≡ false
    → lookup "patches" (default_key k v m) ≡ lookup "patches" m
lookup-default_key k v m n = ground (arith, n, lookup-put k "patches" (str v) m)

module _ (yaml : Yaml) where
  -- These are the patches that the user's text holds: none of a blank text.
  abbrev pub AreUserPatches : String → Items → Type 0
  AreUserPatches user items =
      (is_blank user ≡ true) × (items ≡ nil)
      ⊎ (is_blank user ≡ false)
        × (m : Option Fields) × (yaml.unmarshal user ≡ ok m)
        × (declared_items (patches_in m) ≡ some items)

  -- A patch of the Deployment of a component that is sized sets no resources.
  abbrev pub IsUnsized : Json → Type 0
  IsUnsized j =
      (patch : Fields)
      → j ≡ obj patch
      → (patch_target_deployment_name patch ≡ some "argocd-application-controller")
        ⊎ (patch_target_deployment_name patch ≡ some "argocd-repo-server")
      → is_resource_patch yaml patch ≡ false

  pub parsed-patches :
      (user : String) (top : Fields)
      → parse_kustomization_object yaml user ≡ ok top
      → (is_blank user ≡ true) × (lookup "patches" top ≡ none)
        ⊎ (is_blank user ≡ false)
          × (m : Option Fields) × (yaml.unmarshal user ≡ ok m)
          × (lookup "patches" top ≡ patches_in m)
  unfolding parse_kustomization_object lookup
  parsed-patches user top h = elim (Bool-cases (is_blank user)) [
    | inl b ↦ inl (b, ground (arith, h, b))
    | inr b ↦ elim (Result-cases (yaml.unmarshal user)) [
      | inr (e, u) ↦ absurd (ground (arith, h, b, u))
      | inl (none, u) ↦ inr (
        b,
        none,
        u,
        ground (
          arith,
          h,
          b,
          u,
          lookup-default_key "kind" "Kustomization"
              (default_key "apiVersion" "kustomize.config.k8s.io/v1beta1" end) refl,
          lookup-default_key "apiVersion" "kustomize.config.k8s.io/v1beta1" end refl,
        ),
      )
      | inl (some m, u) ↦ inr (
        b,
        some m,
        u,
        ground (
          arith,
          h,
          b,
          u,
          lookup-default_key "kind" "Kustomization"
              (default_key "apiVersion" "kustomize.config.k8s.io/v1beta1" m) refl,
          lookup-default_key "apiVersion" "kustomize.config.k8s.io/v1beta1" m refl,
        ),
      )
    ]
  ]

  conflict_of-IsUnsized : (j : Json) → conflict_of yaml j ≡ none → IsUnsized j
  unfolding conflict_of
  conflict_of-IsUnsized j h patch e (inl n) = ground (arith, h, e, n)
  conflict_of-IsUnsized j h patch e (inr n) = ground (arith, h, e, n)

  pub first_conflict-IsUnsized :
      (items : Items) → first_conflict yaml items ≡ none → AllItems IsUnsized items
  unfolding first_conflict
  first_conflict-IsUnsized nil h = tt
  first_conflict-IsUnsized (item j js) h = elim (Option-cases (conflict_of yaml j)) [
    | inr (n, c) ↦ absurd (ground (arith, h, c))
    | inl c ↦ (conflict_of-IsUnsized j c, first_conflict-IsUnsized js (ground (arith, h, c)))
  ]
