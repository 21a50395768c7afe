-- ===== src/Gateway/Waits.antt =====
-- The manifests of a cluster, and of a Kargo agent, are fetched once it is reconciled.
use provider_crossplane_akui.Common.{
  ok, Result-cases, Bool-cases, ◌≡◌, inl, inr, String, Bool, true, arith, ℕ,
}
use provider_crossplane_akui.Common.Exec.{>>=-eq-ok}
use provider_crossplane_akui.Reason.{Error}
use provider_crossplane_akui.Gateway.State.{
  unspecified, Receives, AgentRequest, Agent, Client, ClientWorld, Method, GatewayApi,
}
use provider_crossplane_akui.Gateway.Manifests.{
  is_reconciled, reconciled_or_raise, get_manifests_from_response,
}
use provider_crossplane_akui.Gateway.Workspaces.{argo_workspace_id_for_instance}
use provider_crossplane_akui.Gateway.Argo.{
  get_cluster, get_cluster_manifests_once, check_cluster_reconciled, get_cluster_manifests,
}

-- What retry.DoWithData returns as a value is what an attempt returned.
pub record Retries {S T : Type 0} (api : GatewayApi S T) : Type 0 where
  pub from_attempt :
      (n : ℕ) (test : Error → Bool) (m : Method S Agent) (w : ClientWorld S) (a : Agent)
      → (api.do_with_data n test m w).0 ≡ ok a
      → (v : ClientWorld S) × (m v ≡ (ok a, (api.do_with_data n test m w).1))

reconciled_or_raise-is_reconciled :
    {S : Type 0} (what : String) (get : Method S Agent) (v u : ClientWorld S) (a : Agent)
    → reconciled_or_raise what get v ≡ (ok a, u)
    → (is_reconciled a.reconciliation_status ≡ true) × ((get v).0 ≡ ok a)
unfolding reconciled_or_raise
reconciled_or_raise-is_reconciled what get v u a h = elim (Result-cases (get v).0) [
  | inr (e, g) ↦ absurd (ground (arith, g, h))
  | inl (b, g) ↦ elim (Bool-cases (is_reconciled b.reconciliation_status)) [
    | inl r ↦ (ground (arith, g, h, r), ground (arith, g, h, r))
    | inr r ↦ absurd (ground (arith, g, h, r))
  ]
]

module _ {S T : Type 0} (api : GatewayApi S T) (c : Client) (retries : Retries api) where
  -- The request for the manifests of the cluster with an ID.
  abbrev pub manifests_request : String → String → String → AgentRequest
  manifests_request instance_id workspace_id id = record {
    organization_id = c.organization_id;
    instance_id = instance_id;
    workspace_id = workspace_id;
    id_type = unspecified;
    id = id;
  }

  manifests_once-asked :
      (instance_id id m : String) (w : ClientWorld S)
      → (get_cluster_manifests_once api c instance_id id w).0 ≡ ok m
      → (ws : String) × (u : ClientWorld S) × (stream : Receives) × (argo_workspace_id_for_instance
            api c instance_id w
          ≡ (ok ws, u))
        × ((api.get_instance_cluster_manifests (manifests_request instance_id ws id) u.remote).0
            ≡ ok stream)
        × (get_manifests_from_response "" stream ≡ ok m)
  unfolding get_cluster_manifests_once
  manifests_once-asked instance_id id m w h =
      let found = argo_workspace_id_for_instance api c instance_id w in
      elim (Result-cases found.0) [
        | inr (e, g) ↦ absurd (ground (arith, g, h))
        | inl (ws, g) ↦
            elim (Result-cases
              (api.get_instance_cluster_manifests (manifests_request instance_id ws id)
                found.1.remote).0) [
                  | inr (e, k) ↦ absurd (ground (arith, g, h, k))
                  | inl (stream, k) ↦
                      (ws, found.1, stream, ground (arith, g), k, ground (arith, g, h, k))
                ]
      ]

  -- The text that `GetClusterManifests` returns is collected from the stream that the gateway
  -- opened for the ID of the cluster, in the workspace of its instance, and the cluster was found
  -- reconciled, well or not, by a get of its name; retry-go returns only what an attempt returned.
  pub get_cluster_manifests-is_reconciled :
      (instance_id name m : String) (w : ClientWorld S)
      → (get_cluster_manifests api c instance_id name w).0 ≡ ok m
      → (a : Agent) × (v : ClientWorld S) × ((get_cluster api c instance_id name v).0 ≡ ok a)
        × (is_reconciled a.reconciliation_status ≡ true)
        × (ws : String) × (u : ClientWorld S) × (stream : Receives)
        × (argo_workspace_id_for_instance api c instance_id
              (check_cluster_reconciled api c instance_id name w).1
            ≡ (ok ws, u))
        × ((api.get_instance_cluster_manifests (manifests_request instance_id ws a.id) u.remote).0
            ≡ ok stream)
        × (get_manifests_from_response "" stream ≡ ok m)
  unfolding get_cluster_manifests check_cluster_reconciled
  get_cluster_manifests-is_reconciled instance_id name m w h =
      let (a, g, k) =
        >>=-eq-ok (check_cluster_reconciled api c instance_id name)
          (λ (a : Agent). get_cluster_manifests_once api c instance_id a.id) w h in
      let (v, t) = retries.from_attempt _ _ _ w a g in
      let (r, q) =
        reconciled_or_raise-is_reconciled "cluster" (get_cluster api c instance_id name) v _ a t in
      let (ws, u, stream, found, opened, m_is) = manifests_once-asked instance_id a.id m _ k in
      (a, v, q, r, ws, u, stream, found, opened, m_is)
