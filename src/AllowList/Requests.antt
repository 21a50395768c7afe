-- ===== src/AllowList/Requests.antt =====
-- The instance that a resource resolves to, and what its patch says.
use provider_crossplane_akui.Common.{
  ok, err, Result-cases, ◌==◌, ==_iff, nonempty, Bool-cases, Option-cases, String, ◌≡◌, refl, ◌∙◌,
  ◌⊎◌, inl, inr, true, Option, none, some, [], ◌∷◌, arith,
}
use provider_crossplane_akui.Reason.{Error}
use provider_crossplane_akui.Json.{Json, obj, Items, nil, item, Fields, lookup, as_string}
use provider_crossplane_akui.AllowList.{
  IpAllowListEntry, AllowList, InstanceIpAllowList, Api, patch_entries, pb_entries_to_spec,
  resolve_instance_id,
}

abbrev text_under : String → Fields → String
text_under k m = elim (as_string (lookup k m)) [ none ↦ "" | some s ↦ s ]

-- How a reader of the patch understands an entry: an absent text is the empty one.
abbrev parse_entry : Json → Option IpAllowListEntry
parse_entry (obj m) =
    some (record { ip = text_under "ip" m; description = text_under "description" m })
parse_entry _ = none

abbrev pub parse_entries : Items → AllowList
parse_entries nil = []
parse_entries (item x xs) = parse_entry x ∷ parse_entries xs

-- The entries of a patch read back as the desired list without its nil pointers, although an empty
-- description is left out of the patch.
pub parse_entries-patch_entries :
    (desired : AllowList) → parse_entries (patch_entries desired) ≡ pb_entries_to_spec desired
unfolding patch_entries pb_entries_to_spec lookup
parse_entries-patch_entries [] = refl
parse_entries-patch_entries (none ∷ ds) = parse_entries-patch_entries ds
parse_entries-patch_entries (some d ∷ ds) = elim (Bool-cases (d.description == "")) [
  | inl e ↦ ground (arith, e, (==_iff d.description "").0 e, parse_entries-patch_entries ds)
  | inr e ↦ ground (arith, e, parse_entries-patch_entries ds)
]

module _ {S : Type 0} (api : Api S) (mg : InstanceIpAllowList) where
  -- Where the ID of a resolved resource comes from.
  abbrev pub ComesFrom : String → Type 0
  ComesFrom id =
      (mg.instance_id ≡ id)
      ⊎ ((mg.instance_id ≡ "")
          × ((name : String) × (mg.instance_ref ≡ some name)
              × ((api.kube_instance_id mg.meta.namespace name ≡ ok id)
                  ⊎ ((mg.meta.was_deleted ≡ true)
                      × (mg.at_instance_id ≡ id)
                      × ((e : Error) × (api.kube_instance_id mg.meta.namespace name ≡ err e)
                          × (api.errors.is_kube_not_found e ≡ true))))))

  -- A resource never resolves to an empty ID. The ID is the one of the spec if it gives one, else
  -- the one that the referenced Instance reports; the ID cached in the status is used only while
  -- the resource is being deleted and its Instance is not found.
  pub resolve_instance_id-ComesFrom :
      (id : String) → resolve_instance_id api mg ≡ ok id → (nonempty id ≡ true) × ComesFrom id
  unfolding resolve_instance_id
  resolve_instance_id-ComesFrom id h = elim (Bool-cases (mg.instance_id == "")) [
    | inr n ↦ (ground (arith, n), inl (ground (arith, n)))
    | inl n ↦ elim (Option-cases mg.instance_ref) [
      | inl r ↦ absurd (ground (arith, n, r))
      | inr (name, r) ↦
          let (ne, rest) = by_name name n r in
          (ne, inr ((==_iff mg.instance_id "").0 n, (name, r, rest)))
    ]
  ]
    where
      by_name :
          (name : String)
          → (mg.instance_id == "") ≡ true
          → mg.instance_ref ≡ some name
          → (nonempty id ≡ true)
            × ((api.kube_instance_id mg.meta.namespace name ≡ ok id)
                ⊎ ((mg.meta.was_deleted ≡ true)
                    × (mg.at_instance_id ≡ id)
                    × ((e : Error) × (api.kube_instance_id mg.meta.namespace name ≡ err e)
                        × (api.errors.is_kube_not_found e ≡ true))))
      by_name name n r = elim (Result-cases (api.kube_instance_id mg.meta.namespace name)) [
        | inl (i, k) ↦ (ground (arith, n, r, k), inl (k ∙ ground (arith, n, r, k)))
        | inr (e, k) ↦ (
          ground (arith, n, r, k),
          inr (ground (arith, n, r, k), ground (arith, n, r, k), (e, k, ground (arith, n, r, k))),
        )
      ]
