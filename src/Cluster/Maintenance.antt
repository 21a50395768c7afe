-- ===== src/Cluster/Maintenance.antt =====
-- The maintenance mode is set once.
use provider_crossplane_akui.Common.{
  Result-cases, ◌==◌, ==_iff, Bool-cases, Option-cases, ◌≡◌, refl, ap, ◌∙◌, ◌≢◌, ◌⊎◌, inl, inr,
  Bool, true, false, none, some, arith,
}
use provider_crossplane_akui.Reason.{is_kind, is_terminal}
use provider_crossplane_akui.Cluster.{
  same_mode, ClusterResource, ClusterApi, or_false, maintenance_mode_already_applied,
  sync_maintenance_mode,
}

same_mode_refl : (b : Bool) → same_mode b b ≡ true
same_mode_refl true = refl
same_mode_refl false = refl

module _ {S T C : Type 0} (api : ClusterApi S T C) where
  -- Once the status of the resource reports the mode and the expiry that the user set, setting
  -- the maintenance mode makes no call, and fails only with a terminal error, for an expiry that
  -- is no time. The expiry must not be the empty text, which sets none, and a time is assumed to
  -- be equal to itself.
  pub sync_maintenance_mode-settled :
      (s : S) (mg : ClusterResource)
      → ((t : T) → api.same_time t t ≡ true)
      → mg.at_provider.at_cluster_spec.cluster_data.maintenance_mode
        ≡ some (or_false mg.for_provider.cluster_spec.cluster_data.maintenance_mode)
      → mg.at_provider.at_cluster_spec.cluster_data.maintenance_mode_expiry
        ≡ mg.for_provider.cluster_spec.cluster_data.maintenance_mode_expiry
      → mg.for_provider.cluster_spec.cluster_data.maintenance_mode_expiry ≢ some ""
      → ((sync_maintenance_mode api s mg).1 ≡ s)
        × (((sync_maintenance_mode api s mg).0 ≡ none)
            ⊎ (is_terminal (sync_maintenance_mode api s mg).0 ≡ true))
  unfolding sync_maintenance_mode maintenance_mode_already_applied is_kind
  sync_maintenance_mode-settled s mg refl_time mode expiry full =
      let d = mg.for_provider.cluster_spec.cluster_data in
      let b = same_mode_refl (or_false d.maintenance_mode) in
      elim (Option-cases d.maintenance_mode_expiry) [
        | inl x ↦ (ground (arith, mode, expiry, b, x), inl (ground (arith, mode, expiry, b, x)))
        | inr (t, x) ↦ elim (Bool-cases (t == "")) [
          | inl e ↦ absurd (full (x ∙ ap some ((==_iff t "").0 e)))
          | inr e ↦ elim (Result-cases (api.codecs.codec.parse_time t)) [
            | inr (y, p) ↦ (
              ground (arith, mode, expiry, b, x, e, p),
              inr (ground (arith, mode, expiry, b, x, e, p)),
            )
            | inl (u, p) ↦ (
              ground (arith, mode, expiry, b, x, e, p, refl_time u),
              inl (ground (arith, mode, expiry, b, x, e, p, refl_time u)),
            )
          ]
        ]
      ]
