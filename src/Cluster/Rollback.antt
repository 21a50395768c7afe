-- ===== src/Cluster/Rollback.antt =====
-- A Create that fails leaves no row on the platform that it stamped, but for the deletion of it.
use provider_crossplane_akui.Kube.{has_kube_config}
use provider_crossplane_akui.Cluster.{named}
use provider_crossplane_akui.Gateway.State.{ApplyRequest}
use provider_crossplane_akui.Cluster.Convert.{build_apply_instance_request}
use provider_crossplane_akui.Common.{
  ok, Result-cases, Bool-cases, Option-cases, ◌≡◌, refl, sym, ap, subst, ◌≢◌, ◌⊎◌, inl, inr, false,
  none, some, arith,
}
use provider_crossplane_akui.Reason.{
  Error, wrap, Err, classify_apply_error, classify_manifest_install_error,
}
use provider_crossplane_akui.Reason.Classify.{classify_apply_error-ne-none}
use provider_crossplane_akui.Guard.{TerminalWriteKey}
use provider_crossplane_akui.Base.{record_terminal_write, clear_terminal_write}
use provider_crossplane_akui.Cluster.{
  ClusterResource, ClusterApi, ClusterWorld, cluster_write_key, sync_maintenance_mode, failed,
  strip_manifests, rollback, rolled_back, install_manifests, install, finish_create, stamp,
  try_create, create_cluster,
}

module _ {S T C : Type 0} (api : ClusterApi S T C) where
  -- The platform did not take the row.
  abbrev IsUnstamped : ClusterWorld S → S → Type 0
  IsUnstamped w s =
      (s ≡ w.remote)
      ⊎ ((req : ApplyRequest) × (e : Error) × (build_apply_instance_request api.codecs
              w.mg.for_provider.instance_id w.mg.for_provider
            ≡ ok req)
          × (api.apply_instance w.remote req ≡ (some e, s)))

  -- The last call asked the platform to delete the row.
  abbrev IsDeleted : ClusterWorld S → S → Type 0
  IsDeleted w s =
      (before : S) × ((api.delete_cluster before w.mg.for_provider.instance_id
          w.mg.for_provider.name).1
        ≡ s)

  abbrev pub IsRolledBack : ClusterWorld S → Err × ClusterWorld S → Type 0
  IsRolledBack w r =
      (r.0 ≢ none)
      × (r.1.mg.meta.external_name ≡ w.mg.meta.external_name)
      × (IsUnstamped w r.1.remote ⊎ IsDeleted w r.1.remote)

  abbrev pub IsCreated : ClusterWorld S → Err × ClusterWorld S → Type 0
  IsCreated w r = (r.0 ≡ none) × (r.1.mg.meta.external_name ≡ w.mg.for_provider.name)

  abbrev Fate : ClusterWorld S → Err × ClusterWorld S → Type 0
  Fate w r = IsCreated w r ⊎ IsRolledBack w r

  classify_manifest_install_error-ne-none :
      (e : Error) → classify_manifest_install_error api.errors (some e) ≢ none
  unfolding classify_manifest_install_error
  classify_manifest_install_error-ne-none e = ground arith

  -- A failure after the row was stamped, recorded and rolled back.
  fails :
      (w : ClusterWorld S) (v : ClusterWorld S) (key : TerminalWriteKey) (e : Err)
      → v.mg ≡ w.mg
      → e ≢ none
      → IsRolledBack w (failed api (rolled_back api v) key e)
  unfolding record_terminal_write rollback
  fails w v key e same n = (
    n,
    ap (λ (m : ClusterResource). m.meta.external_name) same,
    inr (
      strip_manifests api v.remote v.mg,
      ap
          (λ (m : ClusterResource).
            (api.delete_cluster (strip_manifests api v.remote v.mg) m.for_provider.instance_id
              m.for_provider.name).1)
          (sym same),
    ),
  )

  unstamped :
      (w v : ClusterWorld S) (key : TerminalWriteKey) (e : Err)
      → e ≢ none
      → v.mg ≡ w.mg
      → IsUnstamped w v.remote
      → IsRolledBack w (failed api v key e)
  unfolding record_terminal_write
  unstamped w v key e n same u = (n, ap (λ (m : ClusterResource). m.meta.external_name) same, inl u)

  via : (w : ClusterWorld S) (a b : Err × ClusterWorld S) → a ≡ b → Fate w b → Fate w a
  via w a b e = subst (Fate w) (sym e)

  install-Fate :
      (w v : ClusterWorld S) (key : TerminalWriteKey) → v.mg ≡ w.mg → Fate w (install api v key)
  unfolding install install_manifests
  install-Fate w v key same = elim (Bool-cases (has_kube_config v.mg.for_provider.target)) [
    | inr n ↦
        via w (install api v key) (none, named api v) (ground (arith, n))
          (inl (refl, ap (λ (m : ClusterResource). m.for_provider.name) same))
    | inl n ↦
        let g =
          api.get_cluster_manifests v.remote v.mg.for_provider.instance_id v.mg.for_provider.name in
        elim (Result-cases g.0) [
          | inr (e, r) ↦
              via w (install api v key)
                (failed api (rolled_back api (record v { remote = g.1 })) key (
                  classify_manifest_install_error api.errors
                    (some (wrap "could not get cluster manifests to apply" e))))
                (ground (arith, n, r))
                (inr (
                  fails w (record v { remote = g.1 }) key
                    (classify_manifest_install_error api.errors
                      (some (wrap "could not get cluster manifests to apply" e)))
                    same (classify_manifest_install_error-ne-none _)))
          | inl (manifests, r) ↦
              let a = api.apply_manifests_to_target g.1 v.mg.for_provider.target manifests false in
              elim (Option-cases a.0) [
                | inl d ↦
                    via w (install api v key) (none, named api (record v { remote = a.1 }))
                      (ground (arith, n, r, d))
                      (inl (refl, ap (λ (m : ClusterResource). m.for_provider.name) same))
                | inr (x, d) ↦
                    via w (install api v key)
                      (failed api (rolled_back api (record v { remote = a.1 })) key (
                        classify_manifest_install_error api.errors
                          (some (wrap "could not apply cluster manifests" x))))
                      (ground (arith, n, r, d))
                      (inr (
                        fails w (record v { remote = a.1 }) key
                          (classify_manifest_install_error api.errors
                            (some (wrap "could not apply cluster manifests" x)))
                          same (classify_manifest_install_error-ne-none _)))
              ]
        ]
  ]

  finish_create-Fate :
      (w v : ClusterWorld S) (key : TerminalWriteKey)
      → v.mg ≡ w.mg
      → Fate w (finish_create api v key)
  unfolding finish_create
  finish_create-Fate w v key same =
      let m = sync_maintenance_mode api v.remote v.mg in
      elim (Option-cases m.0) [
        | inl d ↦
            via w (finish_create api v key)
              (install api (record v { remote = m.1; guard = clear_terminal_write v.guard key })
                key)
              (ground (arith, d))
              (install-Fate w (record v { remote = m.1; guard = clear_terminal_write v.guard key })
                key same)
        | inr (x, d) ↦
            via w (finish_create api v key)
              (failed api (rolled_back api (record v { remote = m.1 })) key
                (classify_apply_error api.errors (some x)))
              (ground (arith, d))
              (inr (
                fails w (record v { remote = m.1 }) key (classify_apply_error api.errors (some x))
                  same (classify_apply_error-ne-none api.errors x)))
      ]

  try_create-Fate : (w : ClusterWorld S) → Fate w (try_create api w)
  unfolding try_create stamp
  try_create-Fate w = elim (Result-cases (cluster_write_key api w.mg)) [
    | inr (e, k) ↦
        via w (try_create api w) (some e, w) (ground (arith, k))
          (inr (λ h. cc (h), refl, inl (inl refl)))
    | inl (key, k) ↦
        elim (Result-cases (
          build_apply_instance_request api.codecs w.mg.for_provider.instance_id
            w.mg.for_provider)) [
              | inr (e, b) ↦
                  via w (try_create api w)
                    (failed api w key (
                      classify_apply_error api.errors
                        (some (wrap "cannot transform cluster to Akuity API model" e))))
                    (ground (arith, k, b))
                    (inr (
                      unstamped w w key _ (classify_apply_error-ne-none api.errors _) refl
                        (inl refl)))
              | inl (req, b) ↦
                  let a = api.apply_instance w.remote req in
                  elim (Option-cases a.0) [
                    | inl d ↦
                        via w (try_create api w) (finish_create api (record w { remote = a.1 }) key)
                          (ground (arith, k, b, d))
                          (finish_create-Fate w (record w { remote = a.1 }) key refl)
                    | inr (x, d) ↦
                        via w (try_create api w)
                          (failed api (record w { remote = a.1 }) key
                            (classify_apply_error api.errors (some x)))
                          (ground (arith, k, b, d))
                          (inr (
                            unstamped w (record w { remote = a.1 }) key _
                              (classify_apply_error-ne-none api.errors x) refl
                              (inr (req, x, b, ground (arith, d)))))
                  ]
            ]
  ]

  -- A Create that succeeds sets the external name to the name of the cluster. One that fails
  -- leaves the external name, and the platform either never took the row or was asked, in the
  -- last call, to delete it.
  pub create_cluster-IsRolledBack :
      (w : ClusterWorld S)
      → IsCreated w (create_cluster api w) ⊎ IsRolledBack w (create_cluster api w)
  unfolding create_cluster
  create_cluster-IsRolledBack w = try_create-Fate w
