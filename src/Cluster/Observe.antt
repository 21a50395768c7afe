-- ===== src/Cluster/Observe.antt =====
-- internal/controller/cluster/cluster.go: Observe.
use provider_crossplane_akui.Common.{
  Result, ok, err, if◌then◌else◌, ◌==◌, nat_eq, String, Bool, true, false, Option, none, some,
}
use provider_crossplane_akui.Reason.{Error, wrap, Err}
use provider_crossplane_akui.Managed.{
  reconcile_error, Meta, set_conditions, Observation, no_observation, set_health_condition,
}
use provider_crossplane_akui.Guard.{Suppression}
use provider_crossplane_akui.Base.{
  GetOutcome, get_ok, get_absent, get_provisioning, get_terminal, classify_get_error,
  has_terminal_write_resource,
}
use provider_crossplane_akui.Drift.{evaluate_drift}
use provider_crossplane_akui.ClusterTypes.{ClusterData}
use provider_crossplane_akui.Cluster.{
  ClusterParameters, ClusterResource, ProtoCluster, ClusterApi, ClusterWorld, ClusterAnswer,
  cluster_gvk, propagated, with_data,
}
use provider_crossplane_akui.Cluster.Convert.{api_to_spec}
use provider_crossplane_akui.Cluster.Normalize.{
  overlay_cluster_get_only_data, late_initialize_cluster, drift_spec,
}
use provider_crossplane_akui.Cluster.Observation.{observed_cluster}
use provider_crossplane_akui.Cluster.Lookup.{
  get_instance_id, suppress_cluster, clear_cluster, exported_cluster_spec,
}

module _ {S T C : Type 0} (api : ClusterApi S T C) where
  abbrev pub after : ClusterWorld S → Suppression → ClusterWorld S
  after w s = record w { guard = s.guard; mg = record (w.mg) { meta = s.managed } }

  abbrev pub with_meta : ClusterWorld S → (Meta → Meta) → ClusterWorld S
  with_meta w f = record w { mg = record (w.mg) { meta = f w.mg.meta } }

  abbrev pub answered : Observation → Err → ClusterWorld S → ClusterAnswer S
  answered o e w = record { obs = o; error = e; world = w }

  abbrev pub exists : Bool → Observation
  exists up_to_date = record { resource_exists = true; resource_up_to_date = up_to_date }

  -- mg.SetConditions(ReconcileError(e)), and the end of an Observe that fails.
  abbrev pub refused : ClusterWorld S → Error → ClusterAnswer S
  refused w e =
      answered no_observation (some e) (with_meta w (set_conditions (reconcile_error (some e))))

  -- The end of Observe.
  unfoldable pub guarded_observation : ClusterWorld S → Result Error Bool → ClusterAnswer S
  guarded_observation w (err e) = answered no_observation (some e) w
  guarded_observation w (ok true) =
      answered (exists true) none (record w { guard = clear_cluster api w.guard w.mg })
  guarded_observation w (ok false) =
      let s = suppress_cluster api w.guard w.mg in
      if s.suppressed
      then answered s.obs s.error (after w s)
      else answered (exists false) none (after w s)

  abbrev pub kept_if_declared : Option Bool → Option Bool → Option Bool
  kept_if_declared none actual = none
  kept_if_declared (some b) actual = actual

  abbrev pub kept_if_stamped : Option String → Option String → Option String
  kept_if_stamped none actual = none
  kept_if_stamped (some s) actual = actual

  -- The maintenance fields of what the drift comparison takes for observed: those of the get where
  -- the user declares them, and none where not.
  abbrev pub drift_data : ClusterData → ClusterData → ClusterData → ClusterData
  drift_data desired actual target =
      overlay_cluster_get_only_data
        (record target {
          maintenance_mode = kept_if_declared desired.maintenance_mode actual.maintenance_mode;
          maintenance_mode_expiry =
              kept_if_stamped desired.maintenance_mode_expiry actual.maintenance_mode_expiry;
        })
        actual

  abbrev pub status_data : ClusterData → ClusterData → ClusterData
  status_data actual target =
      overlay_cluster_get_only_data
        (record target {
          maintenance_mode = actual.maintenance_mode;
          maintenance_mode_expiry = actual.maintenance_mode_expiry;
        })
        actual

  -- The comparison with the exported cluster, or with the one that the get returned.
  unfoldable pub compare_cluster :
      ClusterWorld S → ClusterParameters → ClusterParameters → ClusterAnswer S
  compare_cluster w actual target =
      let a = actual.cluster_spec.cluster_data in
      let t = target.cluster_spec.cluster_data in
      let status = (with_data target (status_data a t)).cluster_spec in
      let p = w.mg.for_provider in
      let mg = record (w.mg) {
        at_provider = record (w.mg.at_provider) { at_cluster_spec = status };
      } in
      guarded_observation (record w { mg = mg })
        (evaluate_drift api.equal (λ d (x : Unit {0}). d) (drift_spec api.codecs) p
          (with_data target (drift_data p.cluster_spec.cluster_data a t))).up_to_date

  abbrev pub target_of : Option ClusterParameters → ClusterParameters → ClusterParameters
  target_of none actual = actual
  target_of (some e) actual = e

  -- What follows the late initialisation.
  unfoldable pub observe_initialized :
      ClusterWorld S → String → ClusterParameters → ProtoCluster T → ClusterAnswer S
  observe_initialized w instance_id actual c = elim (observed_cluster api c) [
    | err e ↦ refused w (wrap "could not transform cluster observation" e)
    | ok o ↦
        let mg = record (w.mg) {
          at_provider = o;
          meta = set_health_condition (nat_eq o.health_status.code 1) w.mg.meta;
        } in
        let (r, s) =
          exported_cluster_spec api w.remote instance_id mg.meta.external_name mg.for_provider in
        let w' : ClusterWorld S = record w { remote = s; mg = mg } in
        elim r [ err e ↦ refused w' e | ok x ↦ compare_cluster w' actual (target_of x actual) ]
  ]

  abbrev pub initialized : ClusterWorld S → ClusterParameters → ClusterWorld S
  initialized w actual = record w {
    mg = record (w.mg) { for_provider = late_initialize_cluster w.mg.for_provider actual };
  }

  -- Observe, once the get has returned the cluster.
  unfoldable pub observe_found : ClusterWorld S → String → ProtoCluster T → ClusterAnswer S
  observe_found w instance_id c = elim (api_to_spec api.codecs instance_id w.mg.for_provider c) [
    | err e ↦ refused w (wrap "could not transform cluster from Akuity API" e)
    | ok actual ↦ observe_initialized (initialized w actual) instance_id actual c
  ]

  -- What Observe does with an error of the get.
  unfoldable pub answer_get_error :
      ClusterWorld S → Err → GetOutcome × Observation × Err → ClusterAnswer S
  answer_get_error w e (outcome, obs, rerr) = answered obs rerr (elim outcome [
    | get_ok ↦ w
    | get_absent ↦ w
    | get_provisioning ↦ with_meta w (set_health_condition false)
    | get_terminal ↦ with_meta w (set_conditions (reconcile_error e))
  ])

  -- From the test of the external name on.
  unfoldable pub observe_named : ClusterWorld S → String → ClusterAnswer S
  observe_named w instance_id =
      if w.mg.meta.external_name == ""
      then answered no_observation none w
      else let (r, s) = api.get_cluster w.remote instance_id w.mg.meta.external_name in
        let w' : ClusterWorld S = record w { remote = s } in
        elim r [
          | err e ↦ answer_get_error w' (some e) (classify_get_error api.errors (some e))
          | ok c ↦ observe_found w' instance_id c
        ]

  -- The short cut past the gateway's get, and what follows it.
  unfoldable pub observe_guarded : ClusterWorld S → String → ClusterAnswer S
  observe_guarded w instance_id =
      let s = suppress_cluster api w.guard w.mg in
      if has_terminal_write_resource w.guard w.mg.meta cluster_gvk
      then if s.suppressed
        then answered s.obs s.error (after w s)
        else observe_named (after w s) instance_id
      else observe_named w instance_id

  -- Spec.ForProvider.InstanceID = instanceID
  abbrev pub with_instance_id : ClusterResource → String → ClusterResource
  with_instance_id mg id = record mg {
    for_provider = record (mg.for_provider) { instance_id = id };
  }

  unfoldable pub observe_cluster : ClusterWorld S → ClusterAnswer S
  observe_cluster w =
      let (r, s) = get_instance_id api w.remote w.mg.for_provider in
      elim r [
        | err e ↦ answered no_observation (some e) (propagated api (record w { remote = s }))
        | ok id ↦
            let a = observe_guarded (record w { remote = s; mg = with_instance_id w.mg id }) id in
            answered a.obs a.error (propagated api a.world)
      ]
