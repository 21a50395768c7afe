-- ===== src/Cluster/Refused.antt =====
-- A cluster that the gateway refuses for good.
use provider_crossplane_akui.Common.{
  ok, Result-cases, nonempty, ◌≡◌, refl, sym, ap, subst, inl, inr, true, false, some, arith,
}
use provider_crossplane_akui.Reason.{Error, Err, is_terminal, classify_apply_error}
use provider_crossplane_akui.Managed.{
  reconcile_error, set_conditions, propagate_observed_generation,
}
use provider_crossplane_akui.Guard.{
  TerminalWriteKey, new_terminal_write_key, new_terminal_write_resource_key, Entries, Suppression,
  delete_resource, assign, record_write,
}
use provider_crossplane_akui.Guard.Keys.{suppress-record_write}
use provider_crossplane_akui.Guard.Resource.{
  Alike, has_resource-record_write, new_terminal_write_key-Alike,
}
use provider_crossplane_akui.Base.{
  suppress_terminal_write, record_terminal_write, has_terminal_write_resource,
}
use provider_crossplane_akui.Gateway.State.{ApplyRequest}
use provider_crossplane_akui.Cluster.{
  ClusterResource, ClusterApi, ClusterWorld, cluster_gvk, cluster_write_key, stamp, propagated,
  try_create, create_cluster, try_update, update_cluster,
}
use provider_crossplane_akui.Cluster.Convert.{build_apply_instance_request}
use provider_crossplane_akui.Cluster.Lookup.{get_instance_id, suppress_cluster}
use provider_crossplane_akui.Cluster.Observe.{exists, observe_guarded, observe_cluster}

module _ {S T C : Type 0} (api : ClusterApi S T C) where
  -- The request of a write, which the gateway refuses with an error that is terminal.
  pub record Refused (w : ClusterWorld S) : Type 0 where
    pub key : TerminalWriteKey
    pub request : ApplyRequest
    pub raw : Error
    pub fatal : Error
    pub keyed : cluster_write_key api w.mg ≡ ok key
    pub built :
        build_apply_instance_request api.codecs w.mg.for_provider.instance_id w.mg.for_provider
        ≡ ok request
    pub rejected : (api.apply_instance w.remote request).0 ≡ some raw
    pub classified : classify_apply_error api.errors (some raw) ≡ some fatal
    pub is_fatal : is_terminal (some fatal) ≡ true

  pub cluster_write_key-Alike :
      (mg : ClusterResource) (key : TerminalWriteKey)
      → cluster_write_key api mg ≡ ok key
      → Alike key (new_terminal_write_resource_key mg.meta cluster_gvk)
  unfolding cluster_write_key
  cluster_write_key-Alike mg key h =
      elim (Result-cases
        (build_apply_instance_request api.codecs mg.for_provider.instance_id mg.for_provider)) [
          | inr (e, b) ↦
              new_terminal_write_key-Alike api.sum mg.meta cluster_gvk _ key
                (rw (b, cluster_write_key) at h)
          | inl (req, b) ↦
              new_terminal_write_key-Alike api.sum mg.meta cluster_gvk _ key
                (rw (b, cluster_write_key) at h)
        ]

  module _ (w : ClusterWorld S) (m : Entries) (guarded : w.guard ≡ some m) (r : Refused w) where
    -- The world that such a write leaves.
    unfoldable pub remembered : ClusterWorld S
    remembered = record w {
      remote = (api.apply_instance w.remote r.request).1;
      guard = record_write (some m) r.key (some r.fatal);
    }

    pub writes-refused :
        (create_cluster api w ≡ (some r.fatal, propagated api remembered))
        × (update_cluster api w ≡ (some r.fatal, propagated api remembered))
    unfolding create_cluster try_create update_cluster try_update stamp record_terminal_write
        remembered
    writes-refused = (
      ground (arith, r.keyed, r.built, r.rejected, r.classified, guarded),
      ground (arith, r.keyed, r.built, r.rejected, r.classified, guarded),
    )

    -- The key depends on the parameters, and of the metadata on the UID and the name.
    key_kept : cluster_write_key api (propagated api remembered).mg ≡ ok r.key
    unfolding cluster_write_key new_terminal_write_key remembered
    key_kept = rw r.keyed refl

    has-remembered :
        has_terminal_write_resource remembered.guard (propagated api remembered).mg.meta cluster_gvk
        ≡ true
    unfolding has_terminal_write_resource new_terminal_write_resource_key remembered
    has-remembered =
        has_resource-record_write m r.key _ r.fatal r.is_fatal
          (cluster_write_key-Alike w.mg r.key r.keyed)

    pub recorded_guard :
        record_write (some m) r.key (some r.fatal)
        ≡ some (assign r.key r.fatal (delete_resource r.key m))
    unfolding record_write
    recorded_guard = rw r.is_fatal refl

    abbrev answer_of : Suppression
    answer_of = record {
      obs = record { resource_exists = true; resource_up_to_date = true };
      error = some r.fatal;
      suppressed = true;
      guard = record_write (some m) r.key (some r.fatal);
      managed =
          set_conditions (reconcile_error (some r.fatal)) (propagate_observed_generation w.mg.meta);
    }

    suppress_cluster-remembered :
        w.mg.meta.was_deleted ≡ false
        → suppress_cluster api
            (record_write (some m) r.key (some r.fatal))
            (propagated api remembered).mg
          ≡ answer_of
    unfolding suppress_cluster suppress_terminal_write remembered
    suppress_cluster-remembered live = ground (
      arith,
      recorded_guard,
      key_kept,
      suppress-record_write m (propagate_observed_generation w.mg.meta) r.key r.fatal r.is_fatal
          live,
    )

    -- An observation that returns the error, wants no write, and makes no call.
    abbrev pub IsSilenced : ClusterWorld S → Type 0
    IsSilenced v =
        ((observe_cluster api v).error ≡ some r.fatal)
        × ((observe_cluster api v).obs ≡ exists api true)
        × ((observe_cluster api v).world.remote ≡ v.remote)

    observe-remembered :
        w.mg.meta.was_deleted ≡ false
        → nonempty w.mg.for_provider.instance_id ≡ true
        → IsSilenced (propagated api remembered)
    unfolding observe_cluster observe_guarded get_instance_id remembered
    observe-remembered live n =
        let s = suppress_cluster-remembered live in
        (
          ground (arith, n, has-remembered, s),
          ground (arith, n, has-remembered, s),
          ground (arith, n, has-remembered, s),
        )

    -- A cluster that the gateway refuses with a terminal error is not applied again as long as its
    -- parameters stay: after the Create or the Update of a resource that is not being deleted and
    -- has the ID of its instance, which returns that error, an Observe of the same parameters
    -- returns the error too, reports the cluster as existing and up to date, and makes no call.
    pub refused_cluster-suppressed :
        w.mg.meta.was_deleted ≡ false
        → nonempty w.mg.for_provider.instance_id ≡ true
        → ((create_cluster api w).0 ≡ some r.fatal)
          × ((update_cluster api w).0 ≡ some r.fatal)
          × IsSilenced (create_cluster api w).1
          × IsSilenced (update_cluster api w).1
    refused_cluster-suppressed live n =
        let (c, u) = writes-refused in
        let silent = observe-remembered live n in
        (
          ap (λ (p : Err × ClusterWorld S). p.0) c,
          ap (λ (p : Err × ClusterWorld S). p.0) u,
          subst (λ (p : Err × ClusterWorld S). IsSilenced p.1) (sym c) silent,
          subst (λ (p : Err × ClusterWorld S). IsSilenced p.1) (sym u) silent,
        )
