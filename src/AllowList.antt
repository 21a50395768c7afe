-- ===== src/AllowList.antt =====
-- internal/controller/instanceipallowlist: the controller that owns the ipAllowList of an ArgoCD
-- instance. The gateway, the kube reader, go-cmp, structpb and the encoder are the parameter `Api`;
-- the state of the gateway is passed on, so that a call that is not made can be told. A nil slice
-- is the empty list.
mod State
mod Requests
pub mod Converge
mod Suppressed
mod Deletion
mod Tests
use provider_crossplane_akui.Common.{
  Result, ok, err, if◌then◌else◌, ◌==◌, nonempty, is_empty, ◌*◌, String, ◌<>◌, Bool, true, false,
  not, ◌&&◌, none, some, [], ◌∷◌,
}
use provider_crossplane_akui.Reason.{Error, new, wrap, Err, classify_apply_error}
use provider_crossplane_akui.Managed.{
  reconcile_error, Meta, set_conditions, Observation, no_observation, propagate_observed_generation,
  set_health_condition,
}
use provider_crossplane_akui.Guard.{TerminalWriteKey, value, new_terminal_write_key, Suppression}
use provider_crossplane_akui.Base.{
  GetOutcome, get_ok, get_absent, get_provisioning, get_terminal, classify_get_error,
  not_suppressed, suppress_terminal_write, record_terminal_write, clear_terminal_write,
  clear_terminal_write_resource, has_terminal_write_resource, skip_terminal_write_guard,
}
use provider_crossplane_akui.Json.{Json, str, obj, end, field}
use provider_crossplane_akui.Drift.{DriftSpec, evaluate_drift}
unfoldable pub use State.*

module _ {S : Type 0} (api : Api S) where
  unfoldable pub resolve_instance_id : InstanceIpAllowList → Result Error String
  resolve_instance_id mg =
      if nonempty mg.instance_id then ok mg.instance_id else elim mg.instance_ref [
        | none ↦
            err
              (new "one of spec.forProvider.instanceId or spec.forProvider.instanceRef must be set")
        | some name ↦
            if name == ""
            then err (
                new
                  "one of spec.forProvider.instanceId or spec.forProvider.instanceRef must be set")
            else elim (api.kube_instance_id mg.meta.namespace name) [
              | err e ↦
                  if api.errors.is_kube_not_found e
                    && (mg.meta.was_deleted && nonempty mg.at_instance_id)
                  then ok mg.at_instance_id
                  else err (
                      wrap ("could not resolve InstanceRef " <> mg.meta.namespace <> "/" <> name) e)
              | ok id ↦
                  if id == ""
                  then err (
                      new (
                        "referenced Instance " <> mg.meta.namespace <> "/" <> name
                        <> " has not yet reported an ID; waiting for its controller to observe"))
                  else ok id
            ]
      ]

  -- instanceIPAllowListTerminalWriteKey
  unfoldable pub terminal_write_key :
      InstanceIpAllowList → String → AllowList → Result Error TerminalWriteKey
  terminal_write_key mg instance_id desired =
      new_terminal_write_key api.sum mg.meta allow_list_gvk (
        value "map[string]interface {}" (
          api.encode
            (obj (field "instanceID" (str instance_id) (field "patch" (patch_body desired) end))))
        ∷ [])

  unfoldable pub suppress_write : World S → String → Suppression
  suppress_write w id = elim w.guard [
    | none ↦ not_suppressed none w.mg.meta
    | some m ↦ elim (terminal_write_key w.mg id w.mg.allow_list) [
      | err e ↦ skip_terminal_write_guard (some m) w.mg.meta
      | ok key ↦ suppress_terminal_write (some m) w.mg.meta key
    ]
  ]

  -- The world after a suppressing call.
  abbrev pub after : World S → Suppression → World S
  after w s = record w { guard = s.guard; mg = record (w.mg) { meta = s.managed } }

  unfoldable pub clear_write : World S → String → World S
  clear_write w id =
      if has_terminal_write_resource w.guard w.mg.meta allow_list_gvk
      then elim (terminal_write_key w.mg id w.mg.allow_list) [
        | err e ↦ w
        | ok key ↦ record w { guard = clear_terminal_write w.guard key }
      ]
      else w

  abbrev set_conditions_on : World S → (Meta → Meta) → World S
  set_conditions_on w f = record w { mg = record (w.mg) { meta = f w.mg.meta } }

  unfoldable pub handle_get_outcome : World S → Err → GetOutcome × Observation × Err → Answer S
  handle_get_outcome w e (outcome, obs, rerr) = record {
    obs = obs;
    error = rerr;
    world = elim outcome [
      | get_ok ↦ w
      | get_absent ↦ w
      | get_provisioning ↦ set_conditions_on w (set_health_condition false)
      | get_terminal ↦ set_conditions_on w (set_conditions (reconcile_error e))
    ];
  }

  unfoldable pub observe_missing_external_name : World S → String → Answer S
  observe_missing_external_name w id =
      let s = suppress_write w id in
      if s.suppressed then record { obs = s.obs; error = s.error; world = after w s } else record {
        obs = record { resource_exists = false; resource_up_to_date = false };
        error = none;
        world = after w s;
      }

  -- terminalGuardedObservation and the end of Observe.
  unfoldable pub guarded_observation : World S → String → Bool → Answer S
  guarded_observation w id true = record {
    obs = record { resource_exists = true; resource_up_to_date = true };
    error = none;
    world = clear_write w id;
  }
  guarded_observation w id false =
      let s = suppress_write w id in
      if s.suppressed then record { obs = s.obs; error = s.error; world = after w s } else record {
        obs = record { resource_exists = true; resource_up_to_date = false };
        error = none;
        world = after w s;
      }

  -- driftSpec
  abbrev drift_spec : DriftSpec AllowList (Unit {0})
  drift_spec = record { normalize = none; presence = none; side = [] }

  -- The part of Observe after a successful get; the projection is never called.
  unfoldable pub observe_found : World S → String → AllowList → Answer S
  observe_found w id listed =
      let observed = pb_entries_to_spec listed in
      let w' : World S = record w {
        mg = record (w.mg) {
          at_allow_list = observed;
          at_instance_id = id;
          meta = set_health_condition true w.mg.meta;
        };
      } in
      if w.mg.meta.was_deleted && is_empty observed
      then record {
        obs = record { resource_exists = false; resource_up_to_date = false };
        error = none;
        world = w';
      }
      else elim (evaluate_drift api.equal (λ t _. t) drift_spec w.mg.allow_list
          observed).up_to_date [
            | err e ↦ record { obs = no_observation; error = some e; world = w' }
            | ok up ↦ guarded_observation w' id up
          ]

  unfoldable pub observe_remote : World S → String → Answer S
  observe_remote w id =
      let (r, s) = api.get_instance_by_id w.remote id in
      let w' : World S = record w { remote = s } in
      elim r [
        | err e ↦ handle_get_outcome w' (some e) (classify_get_error api.errors (some e))
        | ok listed ↦ observe_found w' id listed
      ]

  unfoldable pub observe_named : World S → String → Answer S
  observe_named w id =
      if w.mg.meta.external_name == ""
      then observe_missing_external_name w id
      else observe_remote w id

  unfoldable pub observe_resolved : World S → String → Answer S
  observe_resolved w id =
      let s = suppress_write w id in
      if has_terminal_write_resource w.guard w.mg.meta allow_list_gvk
      then if s.suppressed
        then record { obs = s.obs; error = s.error; world = after w s }
        else observe_named (after w s) id
      else observe_named w id

  -- The deferred PropagateObservedGeneration.
  abbrev pub propagated : World S → World S
  propagated w = set_conditions_on w propagate_observed_generation

  unfoldable pub observe : World S → Answer S
  observe w = elim (resolve_instance_id w.mg) [
    | err e ↦ record { obs = no_observation; error = some e; world = propagated w }
    | ok id ↦
        let a = observe_resolved w id in
        record { obs = a.obs; error = a.error; world = propagated a.world }
  ]

  -- What a method that writes returns: the error, and the world.
  unfoldable pub send_patch : World S → String → TerminalWriteKey → Json → Err × World S
  send_patch w id key body =
      let (failed, s) = api.patch_instance w.remote id body in
      let w' : World S = record w { remote = s } in
      elim failed [
        | none ↦
            if w.mg.meta.was_deleted
            then (none, w')
            else (none, record w' { guard = clear_terminal_write w.guard key })
        | some e ↦
            let e' = classify_apply_error api.errors (some e) in
            if w.mg.meta.was_deleted
            then (e', w')
            else let (g, e'') = record_terminal_write w.guard key e' in
              (e'', record w' { guard = g })
      ]

  unfoldable pub patch : World S → AllowList → Err × World S
  patch w desired = elim (resolve_instance_id w.mg) [
    | err e ↦ (some e, w)
    | ok id ↦ elim (api.new_struct (patch_body desired)) [
      | err e ↦ (some (wrap "build ipAllowList patch" e), w)
      | ok body ↦ elim (terminal_write_key w.mg id desired) [
        | err e ↦ (some e, w)
        | ok key ↦ send_patch w id key body
      ]
    ]
  ]

  unfoldable pub create : World S → Err × World S
  create w =
      let (e, w') = patch w w.mg.allow_list in
      elim e [
        | some x ↦ (some x, propagated w')
        | none ↦ (
          none,
          propagated (set_conditions_on w' (λ m. record m { external_name = w'.mg.meta.name })),
        )
      ]

  unfoldable pub update : World S → Err × World S
  update w = let (e, w') = patch w w.mg.allow_list in (e, propagated w')

  unfoldable pub delete : World S → Err × World S
  delete w =
      let w₀ : World S = record w {
        guard = clear_terminal_write_resource w.guard w.mg.meta allow_list_gvk;
      } in
      let (e, w') = patch w₀ [] in (e, propagated w')
