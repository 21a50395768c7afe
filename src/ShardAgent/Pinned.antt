-- ===== src/ShardAgent/Pinned.antt =====
-- A pin that is written, or cleared, is what the next observation finds.
use provider_crossplane_akui.Common.{
  Result, ok, err, Result-cases, if◌then◌else◌, ◌==◌, ==_refl, Option-cases, String, ◌≡◌, inl, inr,
  true, false, none, some, arith,
}
use provider_crossplane_akui.Reason.{Error, is_not_found}
use provider_crossplane_akui.Reason.Classify.{classify_apply_error-ne-none}
use provider_crossplane_akui.Managed.{no_observation}
use provider_crossplane_akui.Guard.{TerminalWriteKey}
use provider_crossplane_akui.Base.{
  record_terminal_write, clear_terminal_write, has_terminal_write_resource,
}
use provider_crossplane_akui.Json.{Json}
use provider_crossplane_akui.ShardAgent.{
  AgentApi, AgentWorld, shard_agent_gvk, pin_body, resolve_kargo_id, resolve_desired_agent_id,
  agent_write_key, compare_pin, observe_pin, observe_instance, observe_guarded, observe_agent,
  send_pin, patch_pin,
}

-- What the gateway is documented to do: a patch that is accepted sets the default shard agent that
-- a get of the instance reads, and no call changes the agents that there are.
pub record IsPinning {S : Type 0} (api : AgentApi S) : Type 0 where
  pub pins :
      (s : S) (id pin : String) (body : Json)
      → api.new_struct (pin_body pin) ≡ ok body
      → (api.patch_kargo_instance s id body).0 ≡ none
      → (api.get_kargo_instance_by_id (api.patch_kargo_instance s id body).1 id).0 ≡ ok pin
  pub get_keeps :
      (s : S) (i id n : String)
      → (api.get_kargo_instance_agent (api.get_kargo_instance_by_id s i).1 id n).0
        ≡ (api.get_kargo_instance_agent s id n).0
  pub patch_keeps :
      (s : S) (i id n : String) (body : Json)
      → (api.get_kargo_instance_agent (api.patch_kargo_instance s i body).1 id n).0
        ≡ (api.get_kargo_instance_agent s id n).0
  pub agent_keeps :
      (s : S) (i id m n : String)
      → (api.get_kargo_instance_agent (api.get_kargo_instance_agent s i m).1 id n).0
        ≡ (api.get_kargo_instance_agent s id n).0

module _ {S : Type 0} (api : AgentApi S) where
  -- The parts of a patch that succeeded.
  pub record Pinned (w : AgentWorld S) (name : String) : Type 0 where
    pub kargo_id : String
    pub id : String
    pub body : Json
    pub key : TerminalWriteKey
    pub resolved : resolve_kargo_id api w.mg ≡ ok kargo_id
    pub found : (resolve_desired_agent_id api w.remote kargo_id name).0 ≡ ok id
    pub keyed : agent_write_key api w.mg.meta kargo_id id ≡ ok key
    pub built : api.new_struct (pin_body id) ≡ ok body
    pub accepted :
        (api.patch_kargo_instance
          (resolve_desired_agent_id api w.remote kargo_id name).1
          kargo_id
          body).0
        ≡ none

  pub patch_pin-Pinned :
      (w : AgentWorld S) (name : String) → (patch_pin api w name).0 ≡ none → Pinned w name
  unfolding patch_pin send_pin record_terminal_write
  patch_pin-Pinned w name h = elim (Result-cases (resolve_kargo_id api w.mg)) [
    | inr (e, r) ↦ absurd (ground (arith, r))
    | inl (k, r) ↦ elim (Result-cases (resolve_desired_agent_id api w.remote k name).0) [
      | inr (e, f) ↦ absurd (ground (arith, r, f))
      | inl (id, f) ↦ elim (Result-cases (agent_write_key api w.mg.meta k id)) [
        | inr (e, y) ↦ absurd (ground (arith, r, f, y))
        | inl (key, y) ↦ elim (Result-cases (api.new_struct (pin_body id))) [
          | inr (e, b) ↦ absurd (ground (arith, r, f, y, b))
          | inl (body, b) ↦ record {
            kargo_id = k;
            id = id;
            body = body;
            key = key;
            resolved = r;
            found = f;
            keyed = y;
            built = b;
            accepted =
                elim (Option-cases
                  (api.patch_kargo_instance (resolve_desired_agent_id api w.remote k name).1 k
                    body).0) [
                      | inl a ↦ a
                      | inr (x, a) ↦
                          absurd (
                            ground
                              (arith, r, f, y, b, a, classify_apply_error-ne-none api.errors x))
                    ];
          }
        ]
      ]
    ]
  ]

  -- The state of the gateway, and the world, that such a patch leaves.
  abbrev pub remote_after : (w : AgentWorld S) (name : String) → Pinned w name → S
  remote_after w name p =
      (api.patch_kargo_instance (resolve_desired_agent_id api w.remote p.kargo_id name).1 p.kargo_id
        p.body).1

  pub patch_pin-world :
      (w : AgentWorld S) (name : String) (p : Pinned w name)
      → patch_pin api w name ≡ (
        none,
        record w {
          remote = remote_after w name p;
          guard = if w.mg.meta.was_deleted then w.guard else clear_terminal_write w.guard p.key;
        },
      )
  unfolding patch_pin send_pin
  patch_pin-world w name p = ground (arith, p.resolved, p.found, p.keyed, p.built, p.accepted)

  -- A world in which nothing is recorded of the resource.
  module _ (v : AgentWorld S) (id observed : String) (resolved : resolve_kargo_id api v.mg ≡ ok id)
      (named : (v.mg.meta.external_name == "") ≡ false)
      (forgotten : has_terminal_write_resource v.guard v.mg.meta shard_agent_gvk ≡ false)
      (holds : (api.get_kargo_instance_by_id v.remote id).0 ≡ ok observed) where
    abbrev lookup_after : Result Error String
    lookup_after =
        (resolve_desired_agent_id api (api.get_kargo_instance_by_id v.remote id).1 id
          v.mg.agent_name).0

    pub observe-pinned :
        v.mg.meta.was_deleted ≡ false
        → lookup_after ≡ ok observed
        → ((observe_agent api v).obs
            ≡ record { resource_exists = true; resource_up_to_date = true })
          × ((observe_agent api v).error ≡ none)
    unfolding observe_agent observe_guarded observe_instance observe_pin compare_pin
    observe-pinned live found = (
      ground (arith, resolved, named, forgotten, holds, live, found, ==_refl observed),
      ground (arith, resolved, named, forgotten, holds, live, found, ==_refl observed),
    )

    pub observe-cleared :
        v.mg.meta.was_deleted ≡ true
        → (observed == "") ≡ true
        → ((e : Error) → lookup_after ≡ err e → is_not_found (some e) ≡ true)
        → ((observe_agent api v).obs ≡ no_observation) × ((observe_agent api v).error ≡ none)
    unfolding observe_agent observe_guarded observe_instance observe_pin compare_pin
    observe-cleared gone empty known = elim (Result-cases lookup_after) [
      | inl (d, f) ↦ (
        ground (arith, resolved, named, forgotten, holds, gone, f, empty),
        ground (arith, resolved, named, forgotten, holds, gone, f, empty),
      )
      | inr (e, f) ↦ (
        ground (arith, resolved, named, forgotten, holds, gone, f, known e f),
        ground (arith, resolved, named, forgotten, holds, gone, f, known e f),
      )
    ]
