-- ===== src/Kube/Keeps.antt =====
-- What an application of manifests leaves alone.
use provider_crossplane_akui.Common.{
  Result-cases, ◌==◌, Bool-cases, Option-cases, is_some, ℕ, zero, suc, String, ◌≡◌, sym, subst, ◌⊎◌,
  inl, inr, Bool, true, false, some, List, [], ◌∷◌, arith,
}
use provider_crossplane_akui.Reason.{Error}
use provider_crossplane_akui.Json.{Fields, lookup}
use provider_crossplane_akui.Kube.{
  Mapping, ApplyObject, Target, KubeApi, split_manifests, is_cluster_scoped, resource_of,
  get_objects, parse_object, poll_deleted, wait_for_deleted, delete_object, apply_namespace,
  apply_object, apply_one, apply_each, apply_manifests,
}

module _ {S O : Type 0} (api : KubeApi S O) (P : S → Type 0) where
  -- A property of the cluster that everything keeps but the deletion of a namespace and the
  -- overwriting of one that is there.
  pub record IsKept : Type 0 where
    pub by_get : (s : S) (t : Target) (n : String) → P s → P (api.get s t n).1
    pub by_tick : (s : S) → P s → P (api.tick s)
    pub by_patch : (s : S) (t : Target) (n b : String) → P s → P (api.patch s t n b).1
    pub by_delete :
        (s : S) (t : Target) (n : String)
        → (t.resource == "namespaces") ≡ false
        → P s
        → P (api.delete_foreground s t n).1
    pub by_apply :
        (s : S) (t : Target) (n : String) (o : Fields)
        → ((t.resource == "namespaces") ≡ false) ⊎ is_some t.namespace ≡ true
        → P s
        → P (api.apply s t n o).1
    pub by_creation :
        (s : S) (t : Target) (n : String) (o : Fields) (e : Error)
        → (api.get s t n).0 ≡ some e
        → api.errors.is_kube_not_found e ≡ true
        → P s
        → P (api.apply (api.get s t n).1 t n o).1

  moved : {a b : S} → a ≡ b → P b → P a
  moved e = subst P (sym e)

  module _ (k : IsKept) where
    poll_deleted-keeps :
        (n : ℕ) (s : S) (t : Target) (name : String) → P s → P (poll_deleted api n s t name).1
    unfolding poll_deleted
    poll_deleted-keeps zero s t name p = p
    poll_deleted-keeps (suc n) s t name p = elim (Option-cases (api.get s t name).0) [
      | inl g ↦
          moved (ground (arith, g))
            (poll_deleted-keeps n _ t name (k.by_tick _ (k.by_get s t name p)))
      | inr (e, g) ↦ elim (Bool-cases (api.errors.is_kube_not_found e)) [
        | inl f ↦ moved (ground (arith, g, f)) (k.by_get s t name p)
        | inr f ↦ moved (ground (arith, g, f)) (k.by_get s t name p)
      ]
    ]

    wait_for_deleted-keeps :
        (s : S) (t : Target) (m : Mapping) (o : ApplyObject)
        → P s
        → P (wait_for_deleted api s t m o).1
    unfolding wait_for_deleted
    wait_for_deleted-keeps s t m o p =
        elim (Option-cases (poll_deleted api api.polls s t o.name).0) [
          | inl e ↦ moved (ground (arith, e)) (poll_deleted-keeps api.polls s t o.name p)
          | inr (x, e) ↦ moved (ground (arith, e)) (poll_deleted-keeps api.polls s t o.name p)
        ]

    delete_object-keeps :
        (s : S) (m : Mapping) (o : ApplyObject) → P s → P (delete_object api s m o).1
    unfolding delete_object resource_of
    delete_object-keeps s m o p = elim (Bool-cases (m.resource == "namespaces")) [
      | inl n ↦ moved (ground (arith, n)) p
      | inr n ↦ elim (Option-cases (api.delete_foreground s (resource_of m o) o.name).0) [
        | inl d ↦ moved (ground (arith, n, d)) (
            wait_for_deleted-keeps (api.delete_foreground s (resource_of m o) o.name).1
              (resource_of m o) m o (k.by_delete s (resource_of m o) o.name n p))
        | inr (x, d) ↦ moved (ground (arith, n, d)) (k.by_delete s (resource_of m o) o.name n p)
      ]
    ]

    apply_namespace-keeps :
        (s : S) (t : Target) (o : ApplyObject) → P s → P (apply_namespace api s t o).1
    unfolding apply_namespace
    apply_namespace-keeps s t o p = elim (Option-cases (api.get s t o.name).0) [
      | inl g ↦ elim (Result-cases (api.marshal (lookup "metadata" o.unstructured_obj))) [
        | inl (b, e) ↦
            moved (ground (arith, g, e)) (k.by_patch _ t o.name b (k.by_get s t o.name p))
        | inr (x, e) ↦ moved (ground (arith, g, e)) (k.by_get s t o.name p)
      ]
      | inr (e, g) ↦ elim (Bool-cases (api.errors.is_kube_not_found e)) [
        | inl f ↦ moved (ground (arith, g, f)) (k.by_creation s t o.name o.unstructured_obj e g f p)
        | inr f ↦ moved (ground (arith, g, f)) (k.by_get s t o.name p)
      ]
    ]

    apply_object-keeps :
        (s : S) (m : Mapping) (o : ApplyObject) → P s → P (apply_object api s m o).1
    unfolding apply_object resource_of
    apply_object-keeps s m o p = elim (Bool-cases (is_cluster_scoped m)) [
      | inr c ↦
          moved (ground (arith, c))
            (k.by_apply s (resource_of m o) o.name o.unstructured_obj (inr (ground (arith, c))) p)
      | inl c ↦ elim (Bool-cases (m.resource == "namespaces")) [
        | inl n ↦ moved (ground (arith, c, n)) (apply_namespace-keeps s (resource_of m o) o p)
        | inr n ↦
            moved (ground (arith, c, n))
              (k.by_apply s (resource_of m o) o.name o.unstructured_obj (inl n) p)
      ]
    ]

    apply_one-keeps : (delete : Bool) (s : S) (o : O) → P s → P (apply_one api delete s o).1
    unfolding apply_one
    apply_one-keeps delete s o p = elim (Result-cases (api.rest_mapping o)) [
      | inr (e, r) ↦ moved (ground (arith, r)) p
      | inl (m, r) ↦ elim (Result-cases (parse_object api o)) [
        | inr (e, q) ↦ moved (ground (arith, r, q)) p
        | inl (a, q) ↦ elim (Bool-cases delete) [
          | inl d ↦ moved (ground (arith, r, q, d)) (delete_object-keeps s m a p)
          | inr d ↦ moved (ground (arith, r, q, d)) (apply_object-keeps s m a p)
        ]
      ]
    ]

    apply_each-keeps :
        (delete : Bool) (os : List O) (s : S) → P s → P (apply_each api delete s os).1
    unfolding apply_each
    apply_each-keeps delete [] s p = p
    apply_each-keeps delete (o ∷ os) s p = elim (Option-cases (apply_one api delete s o).0) [
      | inl e ↦
          moved (ground (arith, e))
            (apply_each-keeps delete os (apply_one api delete s o).1 (apply_one-keeps delete s o p))
      | inr (x, e) ↦ moved (ground (arith, e)) (apply_one-keeps delete s o p)
    ]

    -- Whatever manifests are applied or deleted, a property of the cluster survives if every other
    -- call keeps it than the deletion of a namespace, which is never made, and the application of a
    -- namespace that is already there, which is made only after a get did not find it.
    pub apply_manifests-keeps :
        (s : S) (manifests : String) (delete : Bool)
        → P s
        → P (apply_manifests api s manifests delete).1
    unfolding apply_manifests
    apply_manifests-keeps s manifests delete p =
        elim (Result-cases (get_objects api (split_manifests manifests))) [
          | inr (e, g) ↦ moved (ground (arith, g)) p
          | inl (os, g) ↦ moved (ground (arith, g)) (apply_each-keeps delete os s p)
        ]
