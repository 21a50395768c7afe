-- ===== src/KargoAgent/Rollback.antt =====
-- A Create of a Kargo agent that fails leaves no row on the platform that it stamped, but for the
-- deletion of it.
use provider_crossplane_akui.Common.{
  err, Result-cases, Bool-cases, Option-cases, ◌≡◌, refl, sym, ap, subst, ◌∙◌, ◌≢◌, ◌⊎◌, inl, inr,
  false, none, some, arith,
}
use provider_crossplane_akui.Reason.{
  Error, Err, classify_apply_error, classify_manifest_install_error,
}
use provider_crossplane_akui.Managed.{Meta}
use provider_crossplane_akui.Guard.{TerminalWriteKey}
use provider_crossplane_akui.Base.{record_terminal_write, clear_terminal_write}
use provider_crossplane_akui.Kube.{has_kube_config}
use provider_crossplane_akui.Gateway.State.{ApplyRequest}
use provider_crossplane_akui.KargoAgent.State.{KargoAgentParameters}
use provider_crossplane_akui.KargoAgent.Convert.{build_apply_kargo_instance_request}
use provider_crossplane_akui.KargoAgent.World.{AgentApi, AgentWorld}
use provider_crossplane_akui.KargoAgent.Lookup.{resolve_kargo_instance_id, kargo_agent_write_key}
use provider_crossplane_akui.KargoAgent.Write.{
  failed, send_agent, filled_in, apply, install_agent_manifests, strip_agent_manifests,
  rollback_created_agent, rolled_back, named, refuse_install, install_created, finish_create,
  try_create_agent, create_kargo_agent,
}

module _ {W Tm C : Type 0} (api : AgentApi W Tm C) where
  -- The platform did not take the row: no request was sent, or the one that was failed.
  abbrev pub IsUnstamped : AgentWorld W → W → Type 0
  IsUnstamped w s =
      (s ≡ (resolve_kargo_instance_id api w.mg w.remote).1)
      ⊎ ((req : ApplyRequest) × (e : Error) × (api.client.apply req
              (resolve_kargo_instance_id api w.mg w.remote).1
            ≡ (err e, s)))

  -- The last call asked the platform to delete the row.
  abbrev pub IsDeleted : KargoAgentParameters → W → Type 0
  IsDeleted fp s =
      (before : W) × ((api.client.delete_agent fp.kargo_instance_id fp.name before).1 ≡ s)

  abbrev pub IsRolledBack : AgentWorld W → Err × AgentWorld W → Type 0
  IsRolledBack w r =
      (r.0 ≢ none)
      × (r.1.mg.meta.external_name ≡ w.mg.meta.external_name)
      × (IsUnstamped w r.1.remote ⊎ IsDeleted r.1.mg.for_provider r.1.remote)

  abbrev pub IsCreated : AgentWorld W → Err × AgentWorld W → Type 0
  IsCreated w r = (r.0 ≡ none) × (r.1.mg.meta.external_name ≡ w.mg.for_provider.name)

  -- What `apply` does to the resource, and where it fails.
  abbrev Applied : AgentWorld W → Err × AgentWorld W → Type 0
  Applied w r =
      (r.1.mg.meta ≡ w.mg.meta)
      × (r.1.mg.for_provider.name ≡ w.mg.for_provider.name)
      × (r.0 ≢ none → IsUnstamped w r.1.remote)

  via : (w : AgentWorld W) (a b : Err × AgentWorld W) → a ≡ b → Applied w b → Applied w a
  via w a b e = subst (Applied w) (sym e)

  send_agent-Applied :
      (w v : AgentWorld W) (key : TerminalWriteKey)
      → v.mg.meta ≡ w.mg.meta
      → v.mg.for_provider.name ≡ w.mg.for_provider.name
      → v.remote ≡ (resolve_kargo_instance_id api w.mg w.remote).1
      → Applied w (send_agent api v key)
  unfolding send_agent record_terminal_write
  send_agent-Applied w v key m n r =
      let fp = v.mg.for_provider in
      elim (Result-cases
        (build_apply_kargo_instance_request api.codec api.marshal fp.kargo_instance_id fp)) [
          | inr (e, b) ↦
              via w (send_agent api v key)
                (failed api v key (classify_apply_error api.errors (some e))) (ground (arith, b))
                (m, n, λ _. inl r)
          | inl (req, b) ↦
              let a = api.client.apply req v.remote in
              elim (Result-cases a.0) [
                | inr (e, d) ↦
                    via w (send_agent api v key)
                      (failed api (record v { remote = a.1 }) key
                        (classify_apply_error api.errors (some e)))
                      (ground (arith, b, d))
                      (
                        m,
                        n,
                        λ _. inr (
                          req,
                          e,
                          ap (λ (s : W). api.client.apply req s) (sym r) ∙ ground (arith, d),
                        ),
                      )
                | inl (u, d) ↦
                    via w (send_agent api v key)
                      (none, record v { remote = a.1; guard = clear_terminal_write v.guard key })
                      (ground (arith, b, d)) (m, n, λ h. absurd (h refl))
              ]
        ]

  apply-Applied : (w : AgentWorld W) → Applied w (apply api w)
  unfolding apply
  apply-Applied w =
      let g = resolve_kargo_instance_id api w.mg w.remote in
      elim (Result-cases g.0) [
        | inr (e, h) ↦
            via w (apply api w) (some e, record w { remote = g.1 }) (ground (arith, h))
              (refl, refl, λ _. inl refl)
        | inl (id, h) ↦
            let v : AgentWorld W = record w { remote = g.1; mg = filled_in api w.mg id } in
            elim (Result-cases (kargo_agent_write_key api v.mg.meta v.mg.for_provider)) [
              | inr (e, k) ↦
                  via w (apply api w) (some e, v) (ground (arith, h, k)) (refl, refl, λ _. inl refl)
              | inl (key, k) ↦
                  via w (apply api w) (send_agent api v key) (ground (arith, h, k))
                    (send_agent-Applied w v key refl refl refl)
            ]
      ]

  abbrev Fate : AgentWorld W → Err × AgentWorld W → Type 0
  Fate w r = IsCreated w r ⊎ IsRolledBack w r

  along : (w : AgentWorld W) (a b : Err × AgentWorld W) → a ≡ b → Fate w b → Fate w a
  along w a b e = subst (Fate w) (sym e)

  classify_manifest_install_error-ne-none :
      (e : Error) → classify_manifest_install_error api.errors (some e) ≢ none
  unfolding classify_manifest_install_error
  classify_manifest_install_error-ne-none e = ground arith

  -- A failure to install the manifests, rolled back.
  refused-Fate :
      (w v : AgentWorld W) (e : Error)
      → v.mg.meta ≡ w.mg.meta
      → Fate w (refuse_install api (rolled_back api v) e)
  unfolding refuse_install record_terminal_write rollback_created_agent
  refused-Fate w v e m =
      let fp = v.mg.for_provider in
      let name = ap (λ (x : Meta). x.external_name) m in
      let deleted : IsDeleted fp (rolled_back api v).remote =
        (strip_agent_manifests api fp v.remote, refl) in
      elim (Result-cases (kargo_agent_write_key api v.mg.meta fp)) [
        | inr (k, h) ↦
            along w (refuse_install api (rolled_back api v) e) (some e, rolled_back api v)
              (ground (arith, h)) (inr (λ n. cc (n), name, inr deleted))
        | inl (key, h) ↦
            along w (refuse_install api (rolled_back api v) e)
              (failed api (rolled_back api v) key
                (classify_manifest_install_error api.errors (some e)))
              (ground (arith, h))
              (inr (classify_manifest_install_error-ne-none e, name, inr deleted))
      ]

  finish_create-Fate :
      (w v : AgentWorld W)
      → v.mg.meta ≡ w.mg.meta
      → v.mg.for_provider.name ≡ w.mg.for_provider.name
      → Fate w (finish_create api v)
  unfolding finish_create install_created
  finish_create-Fate w v m n =
      let fp = v.mg.for_provider in
      elim (Bool-cases (has_kube_config fp.target)) [
        | inr k ↦
            along w (finish_create api v) (none, named api v) (ground (arith, k)) (inl (refl, n))
        | inl k ↦
            let r = install_agent_manifests api fp false v.remote in
            elim (Result-cases r.0) [
              | inl (u, h) ↦
                  along w (finish_create api v) (none, named api (record v { remote = r.1 }))
                    (ground (arith, k, h)) (inl (refl, n))
              | inr (e, h) ↦
                  along w (finish_create api v)
                    (refuse_install api (rolled_back api (record v { remote = r.1 })) e)
                    (ground (arith, k, h)) (refused-Fate w (record v { remote = r.1 }) e m)
            ]
      ]

  try_create_agent-Fate : (w : AgentWorld W) → Fate w (try_create_agent api w)
  unfolding try_create_agent
  try_create_agent-Fate w =
      let a = apply api w in
      let (m, n, u) = apply-Applied w in
      elim (Option-cases a.0) [
        | inr (x, h) ↦
            along w (try_create_agent api w) (some x, a.1) (ground (arith, h))
              (inr (λ k. cc (k), ap (λ (t : Meta). t.external_name) m, inl (u (λ k. cc (h, k)))))
        | inl h ↦
            along w (try_create_agent api w) (finish_create api a.1) (ground (arith, h))
              (finish_create-Fate w a.1 m n)
      ]

  -- A Create of a Kargo agent that succeeds sets the external name to the name of the agent. One
  -- that fails leaves the external name, and the platform either never took the row or was asked,
  -- in the last call, to delete it.
  pub create_kargo_agent-IsRolledBack :
      (w : AgentWorld W)
      → IsCreated w (create_kargo_agent api w) ⊎ IsRolledBack w (create_kargo_agent api w)
  unfolding create_kargo_agent
  create_kargo_agent-IsRolledBack w = try_create_agent-Fate w
