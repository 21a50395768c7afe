-- ===== src/ShardAgent.antt =====
-- internal/controller/kargodefaultshardagent: the controller that owns the defaultShardAgent of a
-- Kargo instance. The gateway, the kube reader, structpb and the encoder are the parameter
-- `AgentApi`; the state of the gateway is passed on through every call, the lookups of agents
-- included. The gateway's get of an instance is read for the ID of its default shard agent.
mod State
mod Settled
pub mod Pinned
mod Refused
mod Tests
use provider_crossplane_akui.Common.{
  Result, ok, err, if◌then◌else◌, ◌==◌, nonempty, ◌*◌, String, ◌<>◌, true, false, not, ◌&&◌, none,
  some, [], ◌∷◌,
}
use provider_crossplane_akui.Reason.{Error, new, wrap, Err, is_not_found, classify_apply_error}
use provider_crossplane_akui.Managed.{
  reconcile_error, Meta, set_conditions, Observation, no_observation, propagate_observed_generation,
  set_health_condition,
}
use provider_crossplane_akui.Guard.{
  TerminalWriteKey, value, new_terminal_write_key, Guard, Suppression,
}
use provider_crossplane_akui.Base.{
  GetOutcome, get_ok, get_absent, get_provisioning, get_terminal, classify_get_error,
  not_suppressed, suppress_terminal_write, record_terminal_write, clear_terminal_write,
  clear_terminal_write_resource, has_terminal_write_resource, skip_terminal_write_guard,
}
use provider_crossplane_akui.Json.{Json, str, obj, end, field}
unfoldable pub use State.*

module _ {S : Type 0} (api : AgentApi S) where
  unfoldable pub resolve_kargo_id : KargoDefaultShardAgent → Result Error String
  resolve_kargo_id mg =
      if nonempty mg.kargo_instance_id
      then ok mg.kargo_instance_id
      else elim mg.kargo_instance_ref [
        | none ↦ err (new unset_text)
        | some name ↦
            if name == ""
            then err (new unset_text)
            else elim (api.kube_kargo_id mg.meta.namespace name) [
              | err e ↦
                  if api.errors.is_kube_not_found e
                    && (mg.meta.was_deleted && nonempty mg.at_kargo_instance_id)
                  then ok mg.at_kargo_instance_id
                  else err (
                      wrap
                        ("could not resolve KargoInstanceRef " <> mg.meta.namespace <> "/" <> name)
                        e)
              | ok id ↦
                  if id == ""
                  then err (
                      new (
                        "referenced KargoInstance " <> mg.meta.namespace <> "/" <> name
                        <> " has not yet reported an ID; waiting for its controller to observe"))
                  else ok id
            ]
      ]

  unfoldable pub resolve_desired_agent_id : S → String → String → Result Error String × S
  resolve_desired_agent_id s kargo_id name =
      if name == "" then (ok "", s) else api.get_kargo_instance_agent s kargo_id name

  -- kargoDefaultShardAgentTerminalWriteKey
  unfoldable pub agent_write_key : Meta → String → String → Result Error TerminalWriteKey
  agent_write_key mg kargo_id desired_id = new_terminal_write_key api.sum mg shard_agent_gvk (
      value "map[string]interface {}" (
        api.encode (obj (field "kargoID" (str kargo_id) (field "patch" (pin_body desired_id) end))))
      ∷ [])

  unfoldable pub suppress_pin : Guard → Meta → String → String → Suppression
  suppress_pin g mg kargo_id desired_id = elim g [
    | none ↦ not_suppressed none mg
    | some m ↦ elim (agent_write_key mg kargo_id desired_id) [
      | err e ↦ skip_terminal_write_guard (some m) mg
      | ok key ↦ suppress_terminal_write (some m) mg key
    ]
  ]

  -- clearTerminalWrite
  unfoldable pub clear_pin : Guard → Meta → String → String → Guard
  clear_pin g mg kargo_id desired_id =
      if has_terminal_write_resource g mg shard_agent_gvk
      then elim (agent_write_key mg kargo_id desired_id) [
        | err e ↦ g
        | ok key ↦ clear_terminal_write g key
      ]
      else g

  -- The world after a suppressing call, and with other metadata.
  abbrev pub after : AgentWorld S → Suppression → AgentWorld S
  after w s = record w { guard = s.guard; mg = record (w.mg) { meta = s.managed } }

  abbrev with_meta : AgentWorld S → (Meta → Meta) → AgentWorld S
  with_meta w f = record w { mg = record (w.mg) { meta = f w.mg.meta } }

  abbrev pub answered : Observation → Err → AgentWorld S → AgentAnswer S
  answered o e w = record { obs = o; error = e; world = w }

  -- From the deletion fast path to the end of Observe.
  unfoldable pub compare_pin : AgentWorld S → String → String → String → AgentAnswer S
  compare_pin w kargo_id observed_id desired_id =
      if w.mg.meta.was_deleted && observed_id == ""
      then answered (record { resource_exists = false; resource_up_to_date = false }) none w
      else if observed_id == desired_id
      then answered (record { resource_exists = true; resource_up_to_date = true }) none
          (record w { guard = clear_pin w.guard w.mg.meta kargo_id desired_id })
      else let s = suppress_pin w.guard w.mg.meta kargo_id desired_id in
        if s.suppressed
        then answered s.obs s.error (after w s)
        else answered (record { resource_exists = true; resource_up_to_date = false }) none
            (after w s)

  -- From the resolution of the agent on.
  unfoldable pub observe_pin : AgentWorld S → String → String → AgentAnswer S
  observe_pin w kargo_id observed_id =
      let (r, s) = resolve_desired_agent_id w.remote kargo_id w.mg.agent_name in
      elim r [
        | err e ↦
            if is_not_found (some e)
            then answered (record { resource_exists = false; resource_up_to_date = false }) none
                (record w { remote = s })
            else answered no_observation (some e) (record w { remote = s })
        | ok desired_id ↦
            compare_pin
              (record w {
                remote = s;
                mg = record (w.mg) {
                  at_agent_name = w.mg.agent_name;
                  at_kargo_instance_id = kargo_id;
                  meta = set_health_condition true w.mg.meta;
                };
              })
              kargo_id observed_id desired_id
      ]

  -- What Observe does with an error of the get.
  unfoldable pub answer_get_error :
      AgentWorld S → Err → GetOutcome × Observation × Err → AgentAnswer S
  answer_get_error w e (outcome, obs, rerr) = answered obs rerr (elim outcome [
    | get_ok ↦ w
    | get_absent ↦ w
    | get_provisioning ↦ with_meta w (set_health_condition false)
    | get_terminal ↦ with_meta w (set_conditions (reconcile_error e))
  ])

  -- From the test of the external name on.
  unfoldable pub observe_instance : AgentWorld S → String → AgentAnswer S
  observe_instance w kargo_id =
      if w.mg.meta.external_name == ""
      then answered (record { resource_exists = false; resource_up_to_date = false }) none w
      else let (r, s) = api.get_kargo_instance_by_id w.remote kargo_id in
        elim r [
          | err e ↦
              answer_get_error (record w { remote = s }) (some e)
                (classify_get_error api.errors (some e))
          | ok observed_id ↦ observe_pin (record w { remote = s }) kargo_id observed_id
        ]

  -- The short cut past the gateway's get, and what follows it.
  unfoldable pub observe_guarded : AgentWorld S → String → AgentAnswer S
  observe_guarded w kargo_id =
      let (r, s) = resolve_desired_agent_id w.remote kargo_id w.mg.agent_name in
      if has_terminal_write_resource w.guard w.mg.meta shard_agent_gvk
      then elim r [
        | err e ↦ observe_instance (record w { remote = s }) kargo_id
        | ok desired_id ↦
            let p = suppress_pin w.guard w.mg.meta kargo_id desired_id in
            if p.suppressed
            then answered p.obs p.error (after (record w { remote = s }) p)
            else observe_instance (after (record w { remote = s }) p) kargo_id
      ]
      else observe_instance w kargo_id

  -- The deferred PropagateObservedGeneration.
  abbrev pub propagated : AgentWorld S → AgentWorld S
  propagated w = with_meta w propagate_observed_generation

  unfoldable pub observe_agent : AgentWorld S → AgentAnswer S
  observe_agent w = elim (resolve_kargo_id w.mg) [
    | err e ↦ answered no_observation (some e) (propagated w)
    | ok kargo_id ↦
        let a = observe_guarded w kargo_id in answered a.obs a.error (propagated a.world)
  ]

  -- The call of the gateway in `patch`, with the guard's part.
  unfoldable pub send_pin : AgentWorld S → String → TerminalWriteKey → Json → Err × AgentWorld S
  send_pin w kargo_id key body =
      let (failed, s) = api.patch_kargo_instance w.remote kargo_id body in
      elim failed [
        | none ↦ (
          none,
          record w {
            remote = s;
            guard = if w.mg.meta.was_deleted then w.guard else clear_terminal_write w.guard key;
          },
        )
        | some e ↦
            let e' = classify_apply_error api.errors (some e) in
            if w.mg.meta.was_deleted
            then (e', record w { remote = s })
            else let (g, e'') = record_terminal_write w.guard key e' in
              (e'', record w { remote = s; guard = g })
      ]

  unfoldable pub patch_pin : AgentWorld S → String → Err × AgentWorld S
  patch_pin w name = elim (resolve_kargo_id w.mg) [
    | err e ↦ (some e, w)
    | ok kargo_id ↦
        let (r, s) = resolve_desired_agent_id w.remote kargo_id name in
        let w' : AgentWorld S = record w { remote = s } in
        elim r [
          | err e ↦ (some (wrap ("resolve default-shard agent \"" <> name <> "\"") e), w')
          | ok id ↦ elim (agent_write_key w.mg.meta kargo_id id) [
            | err e ↦ (some e, w')
            | ok key ↦ elim (api.new_struct (pin_body id)) [
              | err e ↦ (some (wrap "build defaultShardAgent patch" e), w')
              | ok body ↦ send_pin w' kargo_id key body
            ]
          ]
        ]
  ]

  unfoldable pub create_agent : AgentWorld S → Err × AgentWorld S
  create_agent w =
      let (e, w') = patch_pin w w.mg.agent_name in
      elim e [
        | some x ↦ (some x, propagated w')
        | none ↦
            (none, propagated (with_meta w' (λ m. record m { external_name = w'.mg.meta.name })))
      ]

  unfoldable pub update_agent : AgentWorld S → Err × AgentWorld S
  update_agent w = let (e, w') = patch_pin w w.mg.agent_name in (e, propagated w')

  unfoldable pub delete_agent : AgentWorld S → Err × AgentWorld S
  delete_agent w =
      let (e, w') =
        patch_pin
          (record w { guard = clear_terminal_write_resource w.guard w.mg.meta shard_agent_gvk })
          "" in
      (e, propagated w')
