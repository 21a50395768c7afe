-- ===== src/KargoAgent/Removal.antt =====
-- Delete removes an agent's resources before the row of the platform.
use provider_crossplane_akui.Common.{
  Result, ok, err, Result-cases, Bool-cases, if◌then◌else◌, ◌==◌, ◌≡◌, ◌⊎◌, inl, inr, String, Bool,
  true, false, not, ◌&&◌, ◌||◌, none, some, arith,
}
use provider_crossplane_akui.Reason.{Error, wrap, Err, text, as_retryable}
use provider_crossplane_akui.Common.Text.{contains_lower}
use provider_crossplane_akui.Kube.{has_kube_config}
use provider_crossplane_akui.KargoAgent.World.{AgentApi, AgentWorld}
use provider_crossplane_akui.KargoAgent.Lookup.{resolve_kargo_instance_id}
use provider_crossplane_akui.KargoAgent.Write.{
  is_connected_agent_delete_error, install_agent_manifests, removes_resources, remove_resources,
  delete_row, remove_agent, delete_kargo_agent,
}

module _ {W Tm C : Type 0} (api : AgentApi W Tm C) (w : AgentWorld W) where
  abbrev lookup_of : Result Error String × W
  lookup_of = resolve_kargo_instance_id api w.mg w.remote

  abbrev removal_of : Result Error (Unit {0}) × W
  removal_of = remove_resources api w.mg.for_provider lookup_of.1

  -- Delete is to remove the agent's resources: the resource says so and names a kubeconfig.
  abbrev pub wants_removal : Bool
  wants_removal =
      w.mg.for_provider.remove_agent_resources_on_destroy
      && (w.mg.for_provider.target.enable_in_cluster
          || not (w.mg.for_provider.target.secret_name == ""))

  -- The manifests of the agent are fetched and then deleted from the target; either may fail.
  abbrev pub IsStripped : W → Result Error (Unit {0}) → W → Type 0
  IsStripped s r s' =
      let p = w.mg.for_provider in
      let (g, s₁) = api.client.get_manifests p.kargo_instance_id p.name s in
      ((e : Error) × (g ≡ err e)
        × (r ≡ err (wrap "could not get kargo agent manifests to delete" e))
        × (s' ≡ s₁))
      ⊎ (m : String) × (g ≡ ok m)
        × (s' ≡ (api.apply_manifests_to_target p.target m true s₁).1)
        × (((api.apply_manifests_to_target p.target m true s₁).0 ≡ ok tt) × (r ≡ ok tt)
            ⊎ (e : Error) × ((api.apply_manifests_to_target p.target m true s₁).0 ≡ err e)
              × (r ≡ err (wrap "could not delete kargo agent manifests" e)))

  abbrev pub IsRemoval : W → Result Error (Unit {0}) → W → Type 0
  IsRemoval s r s' =
      (wants_removal ≡ false) × (r ≡ ok tt) × (s' ≡ s) ⊎ (wants_removal ≡ true) × IsStripped s r s'

  removes_resources-wants_removal : removes_resources api w.mg.for_provider ≡ wants_removal
  unfolding has_kube_config
  removes_resources-wants_removal = ground arith

  install_agent_manifests-IsStripped :
      (s : W)
      → IsStripped s
          (install_agent_manifests api w.mg.for_provider true s).0
          (install_agent_manifests api w.mg.for_provider true s).1
  unfolding install_agent_manifests
  install_agent_manifests-IsStripped s =
      let p = w.mg.for_provider in
      let got = api.client.get_manifests p.kargo_instance_id p.name s in
      elim (Result-cases got.0) [
        | inr (e, g) ↦ inl (e, g, ground (arith, g), ground (arith, g))
        | inl (m, g) ↦ elim (Result-cases (api.apply_manifests_to_target p.target m true got.1).0) [
          | inl (u, a) ↦ inr (m, g, ground (arith, g, a), inl (a, ground (arith, g, a)))
          | inr (e, a) ↦ inr (m, g, ground (arith, g, a), inr (e, a, ground (arith, g, a)))
        ]
      ]

  remove_resources-IsRemoval : IsRemoval lookup_of.1 removal_of.0 removal_of.1
  unfolding remove_resources
  remove_resources-IsRemoval = elim (Bool-cases wants_removal) [
    | inl y ↦ inr (
      y,
      rw (removes_resources-wants_removal, y) (install_agent_manifests-IsStripped lookup_of.1),
    )
    | inr n ↦
        let r = removes_resources-wants_removal in
        inl (n, ground (arith, r, n), ground (arith, r, n))
  ]

  abbrev deletion_of : String → W → Result Error (Unit {0}) × W
  deletion_of id s = api.client.delete_agent id w.mg.meta.external_name s

  -- An error that says that the agent is still connected.
  abbrev pub says_connected : Error → Bool
  says_connected e = contains_lower (text e) "connected" && contains_lower (text e) "agent"

  -- What the deletion of the row of the agent of an instance returns.
  abbrev pub IsRowDeleted : String → W → Err × AgentWorld W → Type 0
  IsRowDeleted id s d =
      (d.1.remote ≡ (deletion_of id s).1)
      × (((deletion_of id s).0 ≡ ok tt) × (d.0 ≡ none)
          ⊎ (e : Error) × ((deletion_of id s).0 ≡ err e)
            × (d.0 ≡ some (if says_connected e then as_retryable e else e)))

  abbrev pub IsDeletion : Err × AgentWorld W → Type 0
  IsDeletion d =
      ((w.mg.meta.external_name == "") ≡ true) × (d.0 ≡ none) × (d.1.remote ≡ w.remote)
      ⊎ ((w.mg.meta.external_name == "") ≡ false)
        × (((e : Error) × (lookup_of.0 ≡ err e) × (d.0 ≡ some e) × (d.1.remote ≡ lookup_of.1))
            ⊎ (id : String) × (lookup_of.0 ≡ ok id)
              × (r : Result Error (Unit {0})) × (s : W) × IsRemoval lookup_of.1 r s
              × (((e : Error) × (r ≡ err e) × (d.0 ≡ some e) × (d.1.remote ≡ s))
                  ⊎ (r ≡ ok tt) × IsRowDeleted id s d))

  row-IsRowDeleted :
      (id : String)
      → (w.mg.meta.external_name == "") ≡ false
      → lookup_of.0 ≡ ok id
      → removal_of.0 ≡ ok tt
      → IsRowDeleted id removal_of.1 (delete_kargo_agent api w)
  unfolding delete_kargo_agent remove_agent delete_row is_connected_agent_delete_error
  row-IsRowDeleted id n h r = elim (Result-cases (deletion_of id removal_of.1).0) [
    | inl (u, d) ↦ (ground (arith, h, n, r, d), inl (d, ground (arith, h, n, r, d)))
    | inr (e, d) ↦ elim (Bool-cases (says_connected e)) [
      | inl c ↦ (ground (arith, h, n, r, d, c), inr (e, d, ground (arith, h, n, r, d, c)))
      | inr c ↦ (ground (arith, h, n, r, d, c), inr (e, d, ground (arith, h, n, r, d, c)))
    ]
  ]

  named-IsDeletion : (w.mg.meta.external_name == "") ≡ false → IsDeletion (delete_kargo_agent api w)
  unfolding delete_kargo_agent remove_agent
  named-IsDeletion n = elim (Result-cases lookup_of.0) [
    | inr (e, h) ↦ inr (n, inl (e, h, ground (arith, h, n), ground (arith, h, n)))
    | inl (id, h) ↦
        let is = remove_resources-IsRemoval in
        elim (Result-cases removal_of.0) [
          | inr (e, r) ↦ inr (
            n,
            inr (
              id,
              h,
              removal_of.0,
              removal_of.1,
              is,
              inl (e, r, ground (arith, h, n, r), ground (arith, h, n, r)),
            ),
          )
          | inl (u, r) ↦
              inr
                (n, inr (id, h, removal_of.0, removal_of.1, is, inr (r, row-IsRowDeleted id n h r)))
        ]
  ]

  -- A Delete of an agent that has no external name makes no call and succeeds. Any other looks up
  -- the instance; then, if the resource asks for the removal of the agent's resources and names a
  -- kubeconfig, fetches the agent's manifests and deletes them from the target; and only then asks
  -- for the deletion of the row. The first of these calls that fails ends it with its error. An
  -- error of the last one whose text has the words "connected" and "agent" comes back as one to
  -- retry.
  pub delete_kargo_agent-IsDeletion : IsDeletion (delete_kargo_agent api w)
  unfolding delete_kargo_agent remove_agent
  delete_kargo_agent-IsDeletion = elim (Bool-cases (w.mg.meta.external_name == "")) [
    | inl n ↦ inl (n, ground (arith, n), ground (arith, n))
    | inr n ↦ named-IsDeletion n
  ]
