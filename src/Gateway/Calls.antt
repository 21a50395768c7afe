-- ===== src/Gateway/Calls.antt =====
-- What the client sends to the gateways.
use provider_crossplane_akui.Common.{
  ok, Result-cases, Bool-cases, Option-cases, ==_iff, if◌then◌else◌, ◌==◌, ◌≡◌, ◌≢◌, inl, inr,
  String, Bool, none, arith,
}
use provider_crossplane_akui.Gateway.State.{
  unspecified, Agent, ApplyRequest, Client, WorkspaceIdCache, ClientWorld, GatewayApi,
  inc_api_write,
}
use provider_crossplane_akui.Gateway.Gets.{new_client}
use provider_crossplane_akui.Gateway.Workspaces.{
  argo_workspace_id_for_instance, argo_workspace_id_for_apply,
}
use provider_crossplane_akui.Gateway.Argo.{
  agent_request, get_cluster, delete_cluster, filled, apply_instance,
}

module _ {S T : Type 0} (api : GatewayApi S T) (c : Client) where
  -- DeleteCluster asks for the deletion of the very cluster that a get by the name found, in the
  -- workspace of its instance, if it succeeds.
  pub delete_cluster-found :
      (instance_id name : String) (w : ClientWorld S)
      → (delete_cluster api c instance_id name w).0 ≡ ok tt
      → (a : Agent) × (ws : String) × (v : ClientWorld S) × ((get_cluster api c instance_id name
            w).0
          ≡ ok a)
        × (argo_workspace_id_for_instance api c instance_id (get_cluster api c instance_id name w).1
            ≡ (ok ws, v))
        × (api.delete_instance_cluster
              (agent_request api c instance_id ws unspecified a.id)
              v.remote
            ≡ (none, (delete_cluster api c instance_id name w).1.remote))
  unfolding delete_cluster inc_api_write
  delete_cluster-found instance_id name w h =
      elim (Result-cases (get_cluster api c instance_id name w).0) [
        | inr (e, g) ↦ absurd (ground (arith, g, h))
        | inl (a, g) ↦
            let m =
              argo_workspace_id_for_instance api c instance_id
                (get_cluster api c instance_id name w).1 in
            elim (Result-cases m.0) [
              | inr (e, k) ↦ absurd (ground (arith, g, h, k))
              | inl (ws, k) ↦ (a, ws, m.1, g, ground (arith, k), ground (arith, g, h, k))
            ]
      ]

new_client-organization :
    (org key secret : String) (kargo has_org : Bool) (c : Client) (k : WorkspaceIdCache)
    → new_client org key secret kargo has_org ≡ ok (c, k)
    → (c.organization_id ≡ org) × (org ≢ "")
unfolding new_client
new_client-organization org key secret kargo has_org c k n = elim (Bool-cases (org == "")) [
  | inl e ↦ absurd (ground (arith, n, e))
  | inr e ↦ elim (Bool-cases (key == "")) [
    | inl f ↦ absurd (ground (arith, n, e, f))
    | inr f ↦ elim (Bool-cases (secret == "")) [
      | inl g ↦ absurd (ground (arith, n, e, f, g))
      | inr g ↦ (ground (arith, n, e, f, g), ground (arith, e, ==_iff org ""))
    ]
  ]
]

filled_lem :
    {S T : Type 0} (api : GatewayApi S T) (c : Client) (req : ApplyRequest)
    → ((filled api c req).organization_id
        ≡ (if req.organization_id == "" then c.organization_id else req.organization_id))
      × ((filled api c req).id_type ≡ req.id_type)
      × ((filled api c req).id ≡ req.id)
      × ((filled api c req).rest ≡ req.rest)
unfolding filled
filled_lem api c req = (ground arith, ground arith, ground arith, ground arith)

-- A client that the constructor makes applies no request without an organization, and every one in
-- the workspace that it resolved: the call that succeeds has the client's organization if the
-- request had none, and the request is else as it was.
pub apply_instance-scoped :
    {S T : Type 0} (api : GatewayApi S T) (org key secret : String) (kargo has_org : Bool)
    (c : Client) (k : WorkspaceIdCache) (req : ApplyRequest) (w : ClientWorld S)
    → new_client org key secret kargo has_org ≡ ok (c, k)
    → (apply_instance api c req w).0 ≡ ok tt
    → (sent : ApplyRequest) × (v : ClientWorld S) × (api.apply_instance sent v.remote
        ≡ (none, (apply_instance api c req w).1.remote))
      × (argo_workspace_id_for_apply api c (filled api c req) w ≡ (ok sent.workspace_id, v))
      × (sent.organization_id ≢ "")
      × (sent.organization_id ≡ (if req.organization_id == "" then org else req.organization_id))
      × (sent.id_type ≡ req.id_type)
      × (sent.id ≡ req.id)
      × (sent.rest ≡ req.rest)
unfolding apply_instance inc_api_write
apply_instance-scoped api org key secret kargo has_org c k req w n h =
    let m = argo_workspace_id_for_apply api c (filled api c req) w in
    let o = new_client-organization org key secret kargo has_org c k n in
    let f = filled_lem api c req in
    elim (Result-cases m.0) [
      | inr (e, g) ↦ absurd (ground (arith, g, h))
      | inl (ws, g) ↦
          elim (Option-cases
            (api.apply_instance (record (filled api c req) { workspace_id = ws }) m.1.remote).0) [
              | inr (x, d) ↦ absurd (ground (arith, g, h, d))
              | inl d ↦ (
                record (filled api c req) { workspace_id = ws },
                m.1,
                ground (arith, g, h, d),
                ground (arith, g),
                ground (arith, o, f, ==_iff req.organization_id ""),
                ground (arith, o, f),
                f.1,
                f.2,
                f.3,
              )
            ]
    ]
