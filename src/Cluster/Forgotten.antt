-- ===== src/Cluster/Forgotten.antt =====
-- A refusal of an Update that the next Observe forgets.
use provider_crossplane_akui.Common.{
  ok, ◌==◌, ◌≡◌, sym, ap, ◌∙◌, String, true, false, none, some, arith,
}
use provider_crossplane_akui.Reason.{Err}
use provider_crossplane_akui.Managed.{no_observation}
use provider_crossplane_akui.Guard.{TerminalWriteKey, Entries, Guard, record_write, clear}
use provider_crossplane_akui.Guard.Resource.{
  Alike, has_resource-record_write, has_resource-clear-Alike, suppress-other_payload,
}
use provider_crossplane_akui.Base.{suppress_terminal_write, has_terminal_write_resource}
use provider_crossplane_akui.Cluster.{
  ClusterParameters, ClusterApi, ClusterWorld, cluster_gvk, cluster_write_key, update_cluster,
}
use provider_crossplane_akui.Cluster.Lookup.{suppress_cluster}
use provider_crossplane_akui.Cluster.Observe.{initialized, observe_named, observe_guarded}
use provider_crossplane_akui.Cluster.Refused.{
  Refused, cluster_write_key-Alike, remembered, writes-refused, recorded_guard,
}

module _ {S T C : Type 0} (api : ClusterApi S T C) where
  module _ (v : ClusterWorld S) (actual : ClusterParameters) (m : Entries)
      (guarded : v.guard ≡ some m) (r : Refused api (initialized api v actual)) where
    -- The guard after the refusal of the update of the cluster as it was late-initialised.
    abbrev pub guard_left : Guard
    guard_left = (update_cluster api (initialized api v actual)).1.guard

    guard_left-recorded : guard_left ≡ record_write (some m) r.key (some r.fatal)
    unfolding remembered
    guard_left-recorded =
        ap (λ (p : Err × ClusterWorld S). p.1.guard)
          (writes-refused api (initialized api v actual) m guarded r).1

    keys-Alike : (key : TerminalWriteKey) → cluster_write_key api v.mg ≡ ok key → Alike r.key key
    keys-Alike key k =
        let (a, b, c, d) =
          cluster_write_key-Alike api (initialized api v actual).mg r.key r.keyed in
        let (e, f, g, h) = cluster_write_key-Alike api v.mg key k in
        (a ∙ sym e, b ∙ sym f, c ∙ sym g, d ∙ sym h)

    suppress_cluster-left :
        (key : TerminalWriteKey)
        → cluster_write_key api v.mg ≡ ok key
        → (r.key.fingerprint == key.fingerprint) ≡ false
        → suppress_cluster api (record_write (some m) r.key (some r.fatal)) v.mg ≡ record {
          obs = no_observation;
          error = none;
          suppressed = false;
          guard = clear (record_write (some m) r.key (some r.fatal)) key;
          managed = v.mg.meta;
        }
    unfolding suppress_cluster suppress_terminal_write
    suppress_cluster-left key k f = ground (
      arith,
      recorded_guard api (initialized api v actual) m guarded r,
      k,
      suppress-other_payload m v.mg.meta r.key key r.fatal r.is_fatal (keys-Alike key k) f,
    )

    has-left :
        has_terminal_write_resource
          (record_write (some m) r.key (some r.fatal))
          v.mg.meta
          cluster_gvk
        ≡ true
    unfolding has_terminal_write_resource
    has-left =
        has_resource-record_write m r.key _ r.fatal r.is_fatal
          (cluster_write_key-Alike api (initialized api v actual).mg r.key r.keyed)

    -- The refusal of an Update is forgotten if late initialisation changes the payload: the next
    -- Observe of the stored resource, which has not been late-initialised, goes on to the gateway,
    -- and with a guard that remembers nothing of the resource.
    pub refused_update-forgotten :
        (key : TerminalWriteKey) (s : S) (id : String)
        → cluster_write_key api v.mg ≡ ok key
        → (r.key.fingerprint == key.fingerprint) ≡ false
        → (has_terminal_write_resource (clear guard_left key) v.mg.meta cluster_gvk ≡ false)
          × (observe_guarded api (record v { remote = s; guard = guard_left }) id
              ≡ observe_named api (record v { remote = s; guard = clear guard_left key }) id)
    unfolding observe_guarded has_terminal_write_resource
    refused_update-forgotten key s id k f = (
      has_resource-clear-Alike guard_left key _ (cluster_write_key-Alike api v.mg key k),
      ground (arith, guard_left-recorded, has-left, suppress_cluster-left key k f),
    )
