-- ===== src/Kube/Gone.antt =====
-- A deletion that succeeds has seen the object gone.
use provider_crossplane_akui.Common.{
  ◌==◌, ==_iff, Bool-cases, Option-cases, ℕ, zero, suc, String, ◌≡◌, sym, subst, ◌⊎◌, inl, inr,
  true, none, some, arith,
}
use provider_crossplane_akui.Reason.{Error}
use provider_crossplane_akui.Kube.{
  Mapping, ApplyObject, Target, KubeApi, resource_of, poll_deleted, wait_for_deleted, delete_object,
}

module _ {S O : Type 0} (api : KubeApi S O) where
  -- The cluster is what a get left that did not find the object.
  abbrev pub IsSeenGone : S → Target → String → Type 0
  IsSeenGone s t name =
      (before : S) × (e : Error) × (api.get before t name ≡ (some e, s))
      × (api.errors.is_kube_not_found e ≡ true)

  poll_deleted-IsSeenGone :
      (n : ℕ) (s : S) (t : Target) (name : String)
      → (poll_deleted api n s t name).0 ≡ none
      → IsSeenGone (poll_deleted api n s t name).1 t name
  unfolding poll_deleted
  poll_deleted-IsSeenGone zero s t name h = absurd (cc (h))
  poll_deleted-IsSeenGone (suc n) s t name h = elim (Option-cases (api.get s t name).0) [
    | inl g ↦
        subst (λ x. IsSeenGone x t name) (sym (the_state g))
          (poll_deleted-IsSeenGone n (api.tick (api.get s t name).1) t name (ground (arith, g)))
    | inr (e, g) ↦ elim (Bool-cases (api.errors.is_kube_not_found e)) [
      | inr f ↦ absurd (ground (arith, g, f))
      | inl f ↦ (s, e, ground (arith, g, f), f)
    ]
  ]
    where
      the_state :
          (api.get s t name).0 ≡ none
          → (poll_deleted api (suc n) s t name).1
            ≡ (poll_deleted api n (api.tick (api.get s t name).1) t name).1
      the_state g = ground (arith, g)

  -- Where the deletion of an object succeeds, the object is a namespace, and the cluster is as it
  -- was, or the last call did not find the object any more.
  pub delete_object-IsSeenGone :
      (s : S) (m : Mapping) (o : ApplyObject)
      → (delete_object api s m o).0 ≡ none
      → ((m.resource ≡ "namespaces") × ((delete_object api s m o).1 ≡ s))
        ⊎ IsSeenGone (delete_object api s m o).1 (resource_of m o) o.name
  unfolding delete_object wait_for_deleted
  delete_object-IsSeenGone s m o h = elim (Bool-cases (m.resource == "namespaces")) [
    | inl n ↦ inl ((==_iff m.resource "namespaces").0 n, ground (arith, n))
    | inr n ↦
        let t = resource_of m o in
        elim (Option-cases (api.delete_foreground s t o.name).0) [
          | inr (x, d) ↦ absurd (ground (arith, n, d))
          | inl d ↦
              let s' = (api.delete_foreground s t o.name).1 in
              elim (Option-cases (poll_deleted api api.polls s' t o.name).0) [
                | inr (x, p) ↦ absurd (ground (arith, n, d, p))
                | inl p ↦ inr (
                    subst (λ x. IsSeenGone x t o.name) (ground (arith, n, d, p))
                      (poll_deleted-IsSeenGone api.polls s' t o.name p))
              ]
        ]
  ]
