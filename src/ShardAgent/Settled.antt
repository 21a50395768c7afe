-- ===== src/ShardAgent/Settled.antt =====
-- Create, Update and Delete reach what they are for.
use provider_crossplane_akui.Common.{
  ==_iff, ok, err, ◌==◌, String, ◌≡◌, refl, sym, ◌∙◌, true, false, none, some, arith,
}
use provider_crossplane_akui.Reason.{Error, is_not_found}
use provider_crossplane_akui.Managed.{Meta, no_observation, propagate_observed_generation}
use provider_crossplane_akui.Guard.{new_terminal_write_resource_key}
use provider_crossplane_akui.Guard.Resource.{has_resource-clear-Alike, new_terminal_write_key-Alike}
use provider_crossplane_akui.Base.{
  clear_terminal_write, clear_terminal_write_resource, has_terminal_write_resource,
}
use provider_crossplane_akui.Json.{Json}
use provider_crossplane_akui.ShardAgent.{
  KargoDefaultShardAgent, AgentApi, AgentWorld, shard_agent_gvk, resolve_kargo_id,
  resolve_desired_agent_id, agent_write_key, observe_agent, patch_pin, create_agent, update_agent,
  delete_agent,
}
use provider_crossplane_akui.ShardAgent.Pinned.{
  IsPinning, Pinned, patch_pin-Pinned, remote_after, patch_pin-world, observe-pinned,
  observe-cleared,
}

module _ {S : Type 0} (api : AgentApi S) where
  pub resolve_kargo_id-meta :
      (mg : KargoDefaultShardAgent) (m : Meta)
      → m.namespace ≡ mg.meta.namespace
      → m.was_deleted ≡ mg.meta.was_deleted
      → resolve_kargo_id api (record mg { meta = m }) ≡ resolve_kargo_id api mg
  unfolding resolve_kargo_id
  resolve_kargo_id-meta mg m n d = ground (arith, n, d)

  -- The agents are found as before once a pin is looked up, written and read.
  resolve-keeps :
      (ax : IsPinning api) (s : S) (id m n : String) (body : Json)
      → (resolve_desired_agent_id api
          (api.get_kargo_instance_by_id
            (api.patch_kargo_instance (resolve_desired_agent_id api s id m).1 id body).1
            id).1
          id
          n).0
        ≡ (resolve_desired_agent_id api s id n).0
  unfolding resolve_desired_agent_id
  resolve-keeps ax s id m n body =
      let s₁ = (resolve_desired_agent_id api s id m).1 in
      ground (
        arith,
        ax.get_keeps (api.patch_kargo_instance s₁ id body).1 id id n,
        ax.patch_keeps s₁ id id n body,
        ax.agent_keeps s id id m n,
      )

  abbrev pub IsSettled : AgentWorld S → Type 0
  IsSettled v =
      ((observe_agent api v).obs ≡ record { resource_exists = true; resource_up_to_date = true })
      × ((observe_agent api v).error ≡ none)

  module _ (ax : IsPinning api) (w : AgentWorld S) (live : w.mg.meta.was_deleted ≡ false)
      (p : Pinned api w w.mg.agent_name) where
    settled : (m : Meta) → AgentWorld S
    settled m = record {
      remote = remote_after api w w.mg.agent_name p;
      guard = clear_terminal_write w.guard p.key;
      mg = record (w.mg) { meta = m };
    }

    settled-IsSettled :
        (m : Meta)
        → m.namespace ≡ w.mg.meta.namespace
        → m.was_deleted ≡ w.mg.meta.was_deleted
        → m.uid ≡ w.mg.meta.uid
        → m.name ≡ w.mg.meta.name
        → (m.external_name == "") ≡ false
        → IsSettled (settled m)
    unfolding settled agent_write_key clear_terminal_write has_terminal_write_resource
        new_terminal_write_resource_key
    settled-IsSettled m ns del uid name ext =
        observe-pinned api (settled m) p.kargo_id p.id
          (resolve_kargo_id-meta w.mg m ns del ∙ p.resolved) ext
          (has_resource-clear-Alike w.guard p.key _ (
            let k =
              new_terminal_write_key-Alike api.sum w.mg.meta shard_agent_gvk _ p.key p.keyed in
            (ground (arith, k), ground (arith, k), ground (arith, k), ground (arith, k))))
          (ax.pins _ p.kargo_id p.id p.body p.built p.accepted) (del ∙ live)
          (resolve-keeps ax w.remote p.kargo_id w.mg.agent_name w.mg.agent_name p.body ∙ p.found)

    update-world : (update_agent api w).1 ≡ settled (propagate_observed_generation w.mg.meta)
    unfolding update_agent settled
    update-world = rw (patch_pin-world api w w.mg.agent_name p, live)

    create-world :
        (create_agent api w).1
        ≡ settled
            (propagate_observed_generation (record (w.mg.meta) { external_name = w.mg.meta.name }))
    unfolding create_agent settled
    create-world = ground (arith, patch_pin-world api w w.mg.agent_name p, live)

  create-patch :
      (w : AgentWorld S)
      → (create_agent api w).0 ≡ none
      → (patch_pin api w w.mg.agent_name).0 ≡ none
  unfolding create_agent
  create-patch w done = ground arith

  update-patch :
      (w : AgentWorld S)
      → (update_agent api w).0 ≡ none
      → (patch_pin api w w.mg.agent_name).0 ≡ none
  unfolding update_agent
  update-patch w done = done

  -- After a create or an update that succeeds on a resource that is not being deleted, the next
  -- observation reports the pin as existing and up to date, with no error: the name of the agent
  -- resolves to the ID that was written. It is assumed that the gateway stores an accepted patch
  -- and that no call changes the agents, and that the resource has a name, for a create, or an
  -- external name, for an update.
  pub writes_pin :
      (w : AgentWorld S)
      → IsPinning api
      → w.mg.meta.was_deleted ≡ false
      → ((create_agent api w).0 ≡ none
          → (w.mg.meta.name == "") ≡ false
          → IsSettled (create_agent api w).1)
        × ((update_agent api w).0 ≡ none
            → (w.mg.meta.external_name == "") ≡ false
            → IsSettled (update_agent api w).1)
  writes_pin w ax live = (
    λ done name.
        let p = patch_pin-Pinned api w w.mg.agent_name (create-patch w done) in
        rw (create-world ax w live p) (settled-IsSettled ax w live p _ refl refl refl refl name),
    λ done ext.
        let p = patch_pin-Pinned api w w.mg.agent_name (update-patch w done) in
        rw (update-world ax w live p) (settled-IsSettled ax w live p _ refl refl refl refl ext),
  )

  abbrev cleared : AgentWorld S → AgentWorld S
  cleared w = record w { guard = clear_terminal_write_resource w.guard w.mg.meta shard_agent_gvk }

  delete-patch :
      (w : AgentWorld S) → (delete_agent api w).0 ≡ none → (patch_pin api (cleared w) "").0 ≡ none
  unfolding delete_agent
  delete-patch w done = done

  delete-world :
      (w : AgentWorld S) (p : Pinned api (cleared w) "")
      → w.mg.meta.was_deleted ≡ true
      → (delete_agent api w).1 ≡ record {
        remote = remote_after api (cleared w) "" p;
        guard = clear_terminal_write_resource w.guard w.mg.meta shard_agent_gvk;
        mg = record (w.mg) { meta = propagate_observed_generation w.mg.meta };
      }
  unfolding delete_agent
  delete-world w p gone = ground (arith, patch_pin-world api (cleared w) "" p, gone)

  cleared-id : (w : AgentWorld S) (p : Pinned api (cleared w) "") → (p.id == "") ≡ true
  unfolding resolve_desired_agent_id
  cleared-id w p =
      let e : ok "" ≡ ok p.id = p.found in let f : "" ≡ p.id = cc in (==_iff p.id "").1 (sym f)

  -- After a Delete that succeeds on a resource that is being deleted and has an external name, the
  -- next observation says that the pin does not exist, so that its finalizer goes: the agent may be
  -- there or be gone, as long as the lookup of it fails with no other error than "not found". It is
  -- assumed that the gateway stores an accepted patch and that no call changes the agents.
  pub delete_agent-settles :
      (w : AgentWorld S)
      → IsPinning api
      → w.mg.meta.was_deleted ≡ true
      → (w.mg.meta.external_name == "") ≡ false
      → ((id : String) (e : Error)
          → (resolve_desired_agent_id api w.remote id w.mg.agent_name).0 ≡ err e
          → is_not_found (some e) ≡ true)
      → (delete_agent api w).0 ≡ none
      → ((observe_agent api (delete_agent api w).1).obs ≡ no_observation)
        × ((observe_agent api (delete_agent api w).1).error ≡ none)
  unfolding has_terminal_write_resource clear_terminal_write_resource
      new_terminal_write_resource_key
  delete_agent-settles w ax gone ext known done =
      let p = patch_pin-Pinned api (cleared w) "" (delete-patch w done) in
      rw (delete-world w p gone) (
        observe-cleared api
          (record {
            remote = remote_after api (cleared w) "" p;
            guard = clear_terminal_write_resource w.guard w.mg.meta shard_agent_gvk;
            mg = record (w.mg) { meta = propagate_observed_generation w.mg.meta };
          })
          p.kargo_id p.id (resolve_kargo_id-meta w.mg _ refl refl ∙ p.resolved) ext
          (has_resource-clear-Alike w.guard _ _ (refl, refl, refl, refl))
          (ax.pins _ p.kargo_id p.id p.body p.built p.accepted) gone (cleared-id w p)
          (λ e f.
            known p.kargo_id e
              (sym (resolve-keeps ax w.remote p.kargo_id "" w.mg.agent_name p.body) ∙ f)))
