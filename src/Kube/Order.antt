-- ===== src/Kube/Order.antt =====
-- The objects of a manifest are worked off in order, up to the first that fails.
use provider_crossplane_akui.Common.{
  ok, Result-cases, ◌==◌, ==_iff, Bool-cases, Option-cases, String, ◌≡◌, refl, ◌⊎◌, inl, inr, Bool,
  none, some, List, [], ◌∷◌, ◌++◌, arith,
}
use provider_crossplane_akui.Reason.{Error}
use provider_crossplane_akui.Kube.{
  KubeApi, split_manifests, get_objects, apply_one, apply_each, apply_manifests,
}

module _ {S O : Type 0} (api : KubeApi S O) where
  -- The objects before the first failure are all done, and none after it is touched: applying two
  -- lists of objects, one after the other, is applying the first and, if that succeeds, the second
  -- to the cluster that it leaves.
  apply_each-append :
      (delete : Bool) (xs ys : List O) (s : S)
      → apply_each api delete s (xs ++ ys) ≡ (elim (apply_each api delete s xs).0 [
        | none ↦ apply_each api delete (apply_each api delete s xs).1 ys
        | some e ↦ (some e, (apply_each api delete s xs).1)
      ])
  unfolding apply_each
  apply_each-append delete [] ys s = refl
  apply_each-append delete (x ∷ xs) ys s = elim (Option-cases (apply_one api delete s x).0) [
    | inl e ↦ ground (arith, e, apply_each-append delete xs ys (apply_one api delete s x).1)
    | inr (y, e) ↦ ground (arith, e)
  ]

  -- Every manifest decodes.
  abbrev pub IsDecodable : List String → Type 0
  IsDecodable [] = Unit
  IsDecodable (m ∷ ms) = (m ≡ "" ⊎ ((o : O) × (api.decode m ≡ ok o))) × IsDecodable ms

  get_objects-IsDecodable :
      (ms : List String) (os : List O) → get_objects api ms ≡ ok os → IsDecodable ms
  unfolding get_objects
  get_objects-IsDecodable [] os h = tt
  get_objects-IsDecodable (m ∷ ms) os h = elim (Bool-cases (m == "")) [
    | inl e ↦ (inl ((==_iff m "").0 e), get_objects-IsDecodable ms os (ground (arith, e)))
    | inr e ↦ elim (Result-cases (api.decode m)) [
      | inr (x, d) ↦ absurd (ground (arith, e, d))
      | inl (o, d) ↦ elim (Result-cases (get_objects api ms)) [
        | inr (x, g) ↦ absurd (ground (arith, e, d, g))
        | inl (rest, g) ↦ (inr (o, d), get_objects-IsDecodable ms rest g)
      ]
    ]
  ]

  -- The cluster is not touched unless every manifest decodes: either that, and the objects are
  -- worked off, or an error is returned with the cluster as it was.
  pub apply_manifests-decodes :
      (s : S) (manifests : String) (delete : Bool)
      → (IsDecodable (split_manifests manifests)
          × ((os : List O) × (apply_manifests api s manifests delete ≡ apply_each api delete s os)))
        ⊎ ((e : Error) × (apply_manifests api s manifests delete ≡ (some e, s)))
  unfolding apply_manifests
  apply_manifests-decodes s manifests delete =
      elim (Result-cases (get_objects api (split_manifests manifests))) [
        | inl (os, g) ↦ inl (get_objects-IsDecodable _ os g, (os, ground (arith, g)))
        | inr (e, g) ↦ inr (e, ground (arith, g))
      ]
